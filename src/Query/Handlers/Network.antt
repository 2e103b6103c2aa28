-- ===== src/Query/Handlers/Network.antt =====
-- dnsviz/query.py: the handlers of network errors, which wait before they try again.
use dnsviz.Base.{ℕ, ◌*◌, ◌^◌, none, false, ◌&&◌, leb, if◌then◌else◌}
use dnsviz.Query.Types.{
  network_error, no_change, use_udp, change_sport, Arrival, Context, accept_response, Outcome,
  returned, raised,
}
use dnsviz.Query.Handlers.Common.{
  is_network_failure, errno_of, get_num_network_errors, retry_of, set_tcp, set_wait,
}

-- The common tail of the two network error handlers: wait, and try again.
unfoldable pub wait_and_retry : ℕ → Arrival → Context → Outcome × Context
wait_and_retry errors a c =
    if is_network_failure a.response
    then (
      retry_of a network_error (errno_of a.response)
          (if c.params.tcp then change_sport else no_change),
      set_wait (200 * 2 ^ errors) c,
    )
    else (returned none, c)

-- RetryOnNetworkErrorHandler
unfoldable pub retry_on_network_error : ℕ → Arrival → Context → Outcome × Context
unfolding wait_and_retry get_num_network_errors
retry_on_network_error max_errors a c =
    let errors = get_num_network_errors a.response c.history in
    if leb max_errors errors then (raised accept_response, c) else wait_and_retry errors a c

-- UseUDPOnNetworkErrorHandler
unfoldable pub use_udp_on_network_error : ℕ → Arrival → Context → Outcome × Context
unfolding wait_and_retry get_num_network_errors
use_udp_on_network_error max_errors a c =
    let errors = get_num_network_errors a.response c.history in
    if leb max_errors errors && c.params.tcp
    then (retry_of a network_error (errno_of a.response) use_udp, set_tcp false c)
    else wait_and_retry errors a c
