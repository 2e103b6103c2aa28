-- ===== src/Response/Replay/Handled.antt =====
-- Any handler of dnsviz/query.py against `_review_history` of dnsviz/response.py.
use dnsviz.Base.{some, ◌≡◌, arith}
use dnsviz.Dns.Api.{EdnsApi, IsEdnsApi}
use dnsviz.Query.Types.{Arrival, Context, Retry, returned}
use dnsviz.Query.Handlers
use dnsviz.Query.Chain.{
  Handler, handle, retry_on_network_error_handler, use_tcp_on_tc_flag_handler,
  disable_edns_on_formerr_handler, reduce_payload_on_timeout_handler,
  clear_edns_flag_on_timeout_handler, change_edns_version_on_timeout_handler,
  remove_option_on_timeout_handler, disable_edns_on_timeout_handler, set_flag_on_rcode_handler,
  disable_edns_on_rcode_handler, remove_option_on_rcode_handler, add_server_cookie_handler,
  use_udp_on_timeout_handler, use_udp_on_network_error_handler, pmtu_bounding_handler,
  change_timeout_on_timeout_handler, retry_on_timeout_handler, default_accept_handler,
  lifetime_handler, max_timeouts_handler,
}
use dnsviz.Query.Pmtu.{pmtu_handle}
use dnsviz.Response.History.{Options, apply_action}
use dnsviz.Response.Replay.{Agrees, IsReplayable}
use dnsviz.Response.Replay.Step
use dnsviz.Response.Replay.Search.{pmtu-Agrees}

-- If the request and the transport agree with what the review has replayed, and a replayable
-- handler asks for a retry, then they agree after the retry's action has been replayed too. (EDNS flags
-- agree by the 16 lowest bits of `ednsflags`, options by their codes.)
pub handle-Agrees :
    (api : EdnsApi) (a : Arrival) (h h' : Handler) (c c' : Context) (s : Options) (r : Retry)
    → IsEdnsApi api
    → Agrees c s
    → IsReplayable h c
    → handle api a h c ≡ (returned (some r), h', c')
    → Agrees c' (apply_action r.action s)
unfolding handle
handle-Agrees api a (retry_on_network_error_handler n) h' c c' s r laws same ok e =
    Step.network_error-Agrees a c c' s r same n (ground arith)
handle-Agrees api a use_tcp_on_tc_flag_handler h' c c' s r laws same ok e =
    Step.tc_flag-Agrees a c c' s r same (ground arith)
handle-Agrees api a disable_edns_on_formerr_handler h' c c' s r laws same ok e =
    Step.formerr-Agrees api laws a c c' s r same (ground arith)
handle-Agrees api a (reduce_payload_on_timeout_handler p n) h' c c' s r laws same ok e =
    Step.reduce-Agrees api laws a c c' s r same p n (ground arith)
handle-Agrees api a (clear_edns_flag_on_timeout_handler f n) h' c c' s r laws same ok e =
    Step.clear_flag-Agrees a c c' s r same f n ok (ground arith)
handle-Agrees api a (change_edns_version_on_timeout_handler v n) h' c c' s r laws same ok e =
    Step.version-Agrees api laws a c c' s r same v n ok (ground arith)
handle-Agrees api a (remove_option_on_timeout_handler n) h' c c' s r laws same ok e =
    Step.remove_timeout-Agrees api laws a c c' s r same n (ground arith)
handle-Agrees api a (disable_edns_on_timeout_handler n) h' c c' s r laws same ok e =
    Step.disable_timeout-Agrees api laws a c c' s r same n (ground arith)
handle-Agrees api a (set_flag_on_rcode_handler f code) h' c c' s r laws same ok e =
    Step.set_flag-Agrees a c c' s r same f code (ground arith)
handle-Agrees api a disable_edns_on_rcode_handler h' c c' s r laws same ok e =
    Step.disable_rcode-Agrees api laws a c c' s r same (ground arith)
handle-Agrees api a (remove_option_on_rcode_handler code) h' c c' s r laws same ok e =
    Step.remove_rcode-Agrees api laws a c c' s r same code (ground arith)
handle-Agrees api a add_server_cookie_handler h' c c' s r laws same ok e =
    Step.cookie-Agrees a c c' s r same (ground arith)
handle-Agrees api a (use_udp_on_timeout_handler n) h' c c' s r laws same ok e =
    Step.udp_timeout-Agrees a c c' s r same n (ground arith)
handle-Agrees api a (use_udp_on_network_error_handler n) h' c c' s r laws same ok e =
    Step.udp_network_error-Agrees a c c' s r same n (ground arith)
handle-Agrees api a (pmtu_bounding_handler p) h' c c' s r laws same ok e =
    ground (arith, pmtu-Agrees api a p (pmtu_handle api a p c).1 c c' s r laws same ok)
handle-Agrees api a (change_timeout_on_timeout_handler t n) h' c c' s r laws same ok e =
    unfold Handlers.change_timeout_on_timeout in ground arith
handle-Agrees api a retry_on_timeout_handler h' c c' s r laws same ok e =
    Step.retry_timeout-Agrees a c c' s r same (ground arith)
handle-Agrees api a default_accept_handler h' c c' s r laws same ok e =
    unfold Handlers.default_accept in ground arith
handle-Agrees api a (lifetime_handler b l) h' c c' s r laws same ok e =
    unfold Handlers.lifetime_handler in ground arith
handle-Agrees api a (max_timeouts_handler m) h' c c' s r laws same ok e =
    unfold Handlers.max_timeouts_handler in ground arith
