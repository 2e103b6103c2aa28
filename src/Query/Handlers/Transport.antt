-- ===== src/Query/Handlers/Transport.antt =====
-- dnsviz/query.py: the handlers that change the transport or the timeout, and those that try again or
-- accept.
use dnsviz.Base.{ℕ, ◌+◌, ◌-◌, none, some, true, false, ◌&&◌, leb, ◌==◌, if◌then◌else◌, length}
use dnsviz.Query.Types.{
  timeout, tc_set, no_change, use_tcp, use_udp, change_sport, Arrival, Context, accept_response,
  index_error, Outcome, returned, raised,
}
use dnsviz.Query.Handlers.Common.{
  is_timeout, get_num_timeouts, tc_bit, retry_of, set_tcp, set_timeout, no_wire, short_wire, bit,
}

-- UseTCPOnTCFlagHandler
unfoldable pub use_tcp_on_tc_flag : Arrival → Context → Outcome × Context
use_tcp_on_tc_flag a c = elim (a.wire) [
  | none ↦ (returned none, c)
  | some wire ↦ elim (tc_bit (some wire)) [
    | no_wire ↦ (returned none, c)
    | short_wire ↦ (raised index_error, c)
    | bit b ↦
        if b
        then (retry_of a tc_set (some (length wire)) use_tcp, set_tcp true c)
        else (returned none, c)
  ]
]

-- UseUDPOnTimeoutHandler
unfoldable pub use_udp_on_timeout : ℕ → Arrival → Context → Outcome × Context
unfolding get_num_timeouts
use_udp_on_timeout timeouts a c =
    if leb timeouts (get_num_timeouts a.response c.history) && c.params.tcp
    then (retry_of a timeout none use_udp, set_tcp false c)
    else (returned none, c)

-- ChangeTimeoutOnTimeoutHandler
unfoldable pub change_timeout_on_timeout : ℕ → ℕ → Arrival → Context → Outcome × Context
unfolding get_num_timeouts
change_timeout_on_timeout new_timeout timeouts a c =
    if is_timeout a.response && get_num_timeouts a.response c.history == timeouts
    then (returned none, set_timeout new_timeout c)
    else (returned none, c)

-- RetryOnTimeoutHandler
unfoldable pub retry_on_timeout : Arrival → Context → Outcome × Context
retry_on_timeout a c =
    if is_timeout a.response
    then (retry_of a timeout none (if c.params.tcp then change_sport else no_change), c)
    else (returned none, c)

-- DefaultAcceptHandler
unfoldable pub default_accept : Arrival → Context → Outcome × Context
default_accept a c = (raised accept_response, c)

-- LifetimeHandler: `max(start + lifetime - now, 0) <= 0`
unfoldable pub lifetime_handler : ℕ → ℕ → Arrival → Context → Outcome × Context
lifetime_handler start lifetime a c =
    if leb (start + lifetime - a.now) 0 then (raised accept_response, c) else (returned none, c)

-- MaxTimeoutsHandler
unfoldable pub max_timeouts_handler : ℕ → Arrival → Context → Outcome × Context
unfolding get_num_timeouts
max_timeouts_handler max_timeouts a c =
    if leb max_timeouts (get_num_timeouts a.response c.history)
    then (raised accept_response, c)
    else (returned none, c)
