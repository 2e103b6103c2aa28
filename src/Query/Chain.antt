-- ===== src/Query/Chain.antt =====
-- dnsviz/query.py: the handlers as one type with their settings, DNSQueryHandler with its timing,
-- and `handle_response`, which consults the handlers in order. One reading of the clock, `now` of
-- the arrival, stands for those that one call makes. The errno numbers are Linux's.
use dnsviz.Base.{
  ℕ, ◌+◌, ◌-◌, List, [], ◌∷◌, ◌++◌, Option, none, some, Bool, true, false, not, ◌&&◌, ltb,
  if◌then◌else◌, elem, is_some,
}
use dnsviz.Base.Int.{ℤ}
use dnsviz.Dns.Message.{Request}
use dnsviz.Dns.Api.{EdnsApi}
use dnsviz.Query.Types.{
  Action, no_change, network_error, Retry, Params, Arrival, Context, Exc, accept_response, Outcome,
  returned, raised,
}
use dnsviz.Query.Handlers
use dnsviz.Query.Handlers.{same_cause}
use dnsviz.Query.Cookie
use dnsviz.Query.Pmtu.{Pmtu, Turn, pmtu_handle}

-- The classes of handlers, with the arguments of their `__init__` and PMTU's changing fields.
pub data Handler : Type 0 where
  retry_on_network_error_handler : ℕ → Handler
  use_tcp_on_tc_flag_handler disable_edns_on_formerr_handler : Handler
  reduce_payload_on_timeout_handler : ℤ → ℕ → Handler
  clear_edns_flag_on_timeout_handler : (flag timeouts : ℕ) → Handler
  change_edns_version_on_timeout_handler : Option ℕ → ℕ → Handler
  remove_option_on_timeout_handler disable_edns_on_timeout_handler : ℕ → Handler
  set_flag_on_rcode_handler : (flag code : ℕ) → Handler
  disable_edns_on_rcode_handler : Handler
  remove_option_on_rcode_handler : ℕ → Handler
  add_server_cookie_handler : Handler
  use_udp_on_timeout_handler use_udp_on_network_error_handler : ℕ → Handler
  pmtu_bounding_handler : Pmtu → Handler
  change_timeout_on_timeout_handler : (new_timeout timeouts : ℕ) → Handler
  retry_on_timeout_handler default_accept_handler : Handler
  lifetime_handler : (begin lifetime : ℕ) → Handler
  max_timeouts_handler : ℕ → Handler

-- `isinstance(handler, ActionIndependentDNSResponseHandler)`
abbrev pub is_action_independent : Handler → Bool
is_action_independent (change_timeout_on_timeout_handler t n) = true
is_action_independent (lifetime_handler s l) = true
is_action_independent (max_timeouts_handler m) = true
is_action_independent _ = false

abbrev pub keep : Handler → Outcome × Context → Outcome × Handler × Context
keep h r = (r.0, h, r.1)

abbrev pub keep_pmtu : Turn → Outcome × Handler × Context
keep_pmtu t = (t.0, pmtu_bounding_handler t.1, t.2)

-- The method `handle` of the handler's class.
unfoldable pub handle : EdnsApi → Arrival → Handler → Context → Outcome × Handler × Context
handle api a (retry_on_network_error_handler n) c =
    keep (retry_on_network_error_handler n) (Handlers.retry_on_network_error n a c)
handle api a use_tcp_on_tc_flag_handler c =
    keep use_tcp_on_tc_flag_handler (Handlers.use_tcp_on_tc_flag a c)
handle api a disable_edns_on_formerr_handler c =
    keep disable_edns_on_formerr_handler (Handlers.disable_edns_on_formerr api a c)
handle api a (reduce_payload_on_timeout_handler p n) c =
    keep (reduce_payload_on_timeout_handler p n) (Handlers.reduce_payload_on_timeout api p n a c)
handle api a (clear_edns_flag_on_timeout_handler f n) c =
    keep (clear_edns_flag_on_timeout_handler f n) (Handlers.clear_edns_flag_on_timeout f n a c)
handle api a (change_edns_version_on_timeout_handler v n) c =
    keep (change_edns_version_on_timeout_handler v n)
      (Handlers.change_edns_version_on_timeout api v n a c)
handle api a (remove_option_on_timeout_handler n) c =
    keep (remove_option_on_timeout_handler n) (Handlers.remove_option_on_timeout api n a c)
handle api a (disable_edns_on_timeout_handler n) c =
    keep (disable_edns_on_timeout_handler n) (Handlers.disable_edns_on_timeout api n a c)
handle api a (set_flag_on_rcode_handler f code) c =
    keep (set_flag_on_rcode_handler f code) (Handlers.set_flag_on_rcode f code a c)
handle api a disable_edns_on_rcode_handler c =
    keep disable_edns_on_rcode_handler (Handlers.disable_edns_on_rcode api a c)
handle api a (remove_option_on_rcode_handler code) c =
    keep (remove_option_on_rcode_handler code) (Handlers.remove_option_on_rcode api code a c)
handle api a add_server_cookie_handler c =
    keep add_server_cookie_handler (Cookie.add_server_cookie_on_badcookie a c)
handle api a (use_udp_on_timeout_handler n) c =
    keep (use_udp_on_timeout_handler n) (Handlers.use_udp_on_timeout n a c)
handle api a (use_udp_on_network_error_handler n) c =
    keep (use_udp_on_network_error_handler n) (Handlers.use_udp_on_network_error n a c)
handle api a (pmtu_bounding_handler p) c = keep_pmtu (pmtu_handle api a p c)
handle api a (change_timeout_on_timeout_handler t n) c =
    keep (change_timeout_on_timeout_handler t n) (Handlers.change_timeout_on_timeout t n a c)
handle api a retry_on_timeout_handler c =
    keep retry_on_timeout_handler (Handlers.retry_on_timeout a c)
handle api a default_accept_handler c = keep default_accept_handler (Handlers.default_accept a c)
handle api a (lifetime_handler s l) c =
    keep (lifetime_handler s l) (Handlers.lifetime_handler s l a c)
handle api a (max_timeouts_handler m) c =
    keep (max_timeouts_handler m) (Handlers.max_timeouts_handler m a c)

abbrev pub is_no_change : Action → Bool
is_no_change no_change = true
is_no_change _ = false

-- The source port of the next attempt, once a handler has asked for one.
abbrev pub set_sport : Option ℕ → Retry → Context → Context
set_sport sport r c = record c {
  params = record c.params { sport = if is_no_change r.action then sport else none };
}

-- What the loop over the handlers ends with.
pub record Consulted : Type 0 where
  pub outcome : Outcome
  pub handlers : List Handler
  pub context : Context

abbrev pub prepend : Handler → Consulted → Consulted
prepend h r = record r { handlers = h ∷ r.handlers }

abbrev pub sport_after : Option ℕ → Option Retry → Context → Context
sport_after sport none c = c
sport_after sport (some r) c = set_sport sport r c

abbrev pub stop : Exc → Handler → List Handler → Context → Consulted
stop e h hs c = record { outcome = raised e; handlers = h ∷ hs; context = c }

-- The `for` loop of `handle_response`.
unfoldable pub consult :
    EdnsApi → Arrival → Option ℕ → Option Retry → List Handler → Context → Consulted
consult api a sport retry [] c = record { outcome = returned retry; handlers = []; context = c }
consult api a sport none (h ∷ hs) c =
    let (o, h', c') = handle api a h c in
    elim o [
      | raised e ↦ stop e h' hs c'
      | returned r ↦ prepend h' (consult api a sport r hs (sport_after sport r c'))
    ]
consult api a sport (some r) (h ∷ hs) c =
    let (o, h', c') = handle api a h c in
    let passed = prepend h (consult api a sport (some r) hs c) in
    if is_action_independent h
    then elim o [
      | raised e ↦ stop e h' hs c'
      | returned _ ↦ prepend h' (consult api a sport (some r) hs c')
    ]
    else passed

abbrev pub arg_in : Option ℕ → List ℕ → Bool
arg_in none codes = false
arg_in (some e) codes = elem e codes

-- The two tests that give up on an attempt that could not even be sent.
unfoldable pub gives_up : Option ℕ → Retry → Bool
gives_up client r =
    same_cause r.cause network_error
    && (if arg_in r.cause_arg (99 ∷ [])
        then true
        else arg_in r.cause_arg (113 ∷ 101 ∷ 97 ∷ []) && not (is_some client))

-- An attempt that failed for want of descriptors (EMFILE) is not recorded.
unfoldable pub recorded : Retry → Bool
recorded r = not (same_cause r.cause network_error && arg_in r.cause_arg (24 ∷ []))

-- DNSQueryHandler; `expiration` is None for a query with no lifetime.
pub record QueryHandler : Type 0 where
  pub context : Context
  pub handlers : List Handler
  pub query_time : ℕ
  pub expiration : Option ℕ

-- `handle_response` returns the response, or None to try again, or lets an error through.
pub data Verdict : Type 0 where
  accepted again : Verdict
  crashed : Exc → Verdict

abbrev pub verdict_of : Exc → Verdict
verdict_of accept_response = accepted
verdict_of e = crashed e

-- `_set_query_time` and `_reset_wait`
unfoldable pub schedule : ℕ → QueryHandler → QueryHandler
schedule now q = record q {
  query_time = now + q.context.params.wait;
  context = record q.context { params = record q.context.params { wait = 0 } };
}

unfoldable pub record_retry : Retry → Context → Context
record_retry r c = if recorded r then record c { history = c.history ++ r ∷ [] } else c

unfoldable pub conclude : ℕ → Option ℕ → Outcome → QueryHandler → Verdict × QueryHandler
unfolding schedule record_retry gives_up recorded
conclude now client (raised e) q = (verdict_of e, q)
conclude now client (returned none) q = (again, schedule now q)
conclude now client (returned (some r)) q =
    if gives_up client r
    then (accepted, q)
    else (again, schedule now (record q { context = record_retry r q.context }))

-- DNSQueryHandler.handle_response
unfoldable pub handle_response :
    EdnsApi → Arrival → Option ℕ → Option ℕ → QueryHandler → Verdict × QueryHandler
unfolding consult conclude
handle_response api a client sport q =
    let r = consult api a sport none q.handlers q.context in
    conclude a.now client r.outcome (record q { handlers = r.handlers; context = r.context })

-- DNSQueryHandler.__init__: `now` is read for the expiration and for the first query time.
unfoldable pub init : ℕ → Option ℕ → Request → Params → List Handler → QueryHandler
init now lifetime request params handlers = record {
  context = record { request = request; params = params; history = [] };
  handlers = handlers;
  query_time = now + params.wait;
  expiration = elim lifetime [ none ↦ none | some l ↦ some (now + l) ];
}

unfoldable pub get_remaining_lifetime : ℕ → QueryHandler → ℕ
get_remaining_lifetime now q = elim (q.expiration) [ none ↦ 86400000 | some e ↦ e - now ]

-- MIN_QUERY_TIMEOUT is 0.1 seconds.
unfoldable pub get_timeout : ℕ → QueryHandler → ℕ
unfolding get_remaining_lifetime
get_timeout now q = elim (q.expiration) [
  | none ↦ q.context.params.timeout
  | some e ↦
      let left = get_remaining_lifetime now q in
      let t = if ltb left q.context.params.timeout then left else q.context.params.timeout in
      if ltb t 100 then 100 else t
]
