-- ===== src/Query/Quiet.antt =====
-- What a handler of dnsviz/query.py leaves alone: the history always, and the request and the
-- transport unless it asks for a retry.
use dnsviz.Base.{none, ◌≡◌, ◌≢◌, refl, arith, true, false, inl, inr}
use dnsviz.Dns.Api.{EdnsApi}
use dnsviz.Query.Types.{Arrival, Context, returned}
use dnsviz.Query.Handlers
use dnsviz.Query.Handlers.{tc_bit, TcBit-cases}
use dnsviz.Query.Cookie
use dnsviz.Query.Pmtu
use dnsviz.Query.Pmtu.{
  Pmtu, Seen, State, start, reduced_payload, using_tcp, tcp_minus_one, pickle, tcp_final, invalid,
  pmtu_handle, seen,
}
use dnsviz.Query.Chain.{
  Handler, handle, is_action_independent, pmtu_bounding_handler, change_timeout_on_timeout_handler,
  lifetime_handler, max_timeouts_handler,
}

pub record SameRequest (c c' : Context) : Type 0 where
  pub request : c'.request ≡ c.request
  pub tcp : c'.params.tcp ≡ c.params.tcp

-- In PICKLE the search may turn to TCP without asking for a retry.
abbrev pub IsQuiet : Handler → Type 0
IsQuiet (pmtu_bounding_handler p) = p.state ≢ pickle
IsQuiet _ = Unit

module _ (api : EdnsApi) (a : Arrival) (t : Seen) (p : Pmtu) (c : Context) where
  dispatch-quiet :
      (st : State) (p' : Pmtu) (c' : Context)
      → st ≢ pickle
      → Pmtu.dispatch api a t st p c ≡ (returned none, p', c')
      → SameRequest c c'
  unfolding Pmtu.in_start Pmtu.in_reduced_payload Pmtu.in_using_tcp Pmtu.in_tcp_minus_one
      Pmtu.shrink Pmtu.rate_limited Pmtu.truncated_minus_one
  dispatch-quiet pickle p' c' n e = absurd (n refl)
  dispatch-quiet _ p' c' n e = ground arith

  in_pickle-history : (Pmtu.in_pickle api a t p c).2.history ≡ c.history
  unfolding Pmtu.in_pickle Pmtu.settle Pmtu.search_on Pmtu.shrink Pmtu.rate_limited Pmtu.grow
  in_pickle-history = ground arith

  dispatch-history : (st : State) → (Pmtu.dispatch api a t st p c).2.history ≡ c.history
  unfolding Pmtu.in_start Pmtu.in_reduced_payload Pmtu.in_using_tcp Pmtu.in_tcp_minus_one
      Pmtu.shrink Pmtu.rate_limited Pmtu.truncated_minus_one
  dispatch-history pickle = in_pickle-history
  dispatch-history _ = ground arith

pmtu-quiet :
    (api : EdnsApi) (a : Arrival) (p p' : Pmtu) (c c' : Context)
    → p.state ≢ pickle
    → pmtu_handle api a p c ≡ (returned none, p', c')
    → SameRequest c c'
unfolding pmtu_handle Pmtu.in_state
pmtu-quiet api a p p' c c' n e = elim (TcBit-cases (tc_bit a.wire)) [
  | inl q ↦ ground (arith, dispatch-quiet api a (seen a c false) p c p.state p' c' n)
  | inr (inl q) ↦ ground arith
  | inr (inr (b, q)) ↦ ground (arith, dispatch-quiet api a (seen a c b) p c p.state p' c' n)
]

pmtu-history :
    (api : EdnsApi) (a : Arrival) (p : Pmtu) (c : Context)
    → (pmtu_handle api a p c).2.history ≡ c.history
unfolding pmtu_handle Pmtu.in_state
pmtu-history api a p c = elim (TcBit-cases (tc_bit a.wire)) [
  | inl q ↦ ground (arith, dispatch-history api a (seen a c false) p c p.state)
  | inr (inl q) ↦ ground arith
  | inr (inr (b, q)) ↦ ground (arith, dispatch-history api a (seen a c b) p c p.state)
]

plain : Unit {0}
unfolding Handlers.retry_on_network_error Handlers.use_tcp_on_tc_flag
    Handlers.disable_edns_on_formerr Handlers.reduce_payload_on_timeout
    Handlers.clear_edns_flag_on_timeout Handlers.change_edns_version_on_timeout
    Handlers.remove_option_on_timeout Handlers.disable_edns_on_timeout Handlers.set_flag_on_rcode
    Handlers.disable_edns_on_rcode Handlers.remove_option_on_rcode
    Cookie.add_server_cookie_on_badcookie Cookie.update_cookie Handlers.use_udp_on_timeout
    Handlers.use_udp_on_network_error Handlers.change_timeout_on_timeout Handlers.retry_on_timeout
    Handlers.default_accept Handlers.lifetime_handler Handlers.max_timeouts_handler
plain = tt

-- Where a handler asks for nothing, the request and the transport are as before.
pub handle-quiet :
    (api : EdnsApi) (a : Arrival) (h h' : Handler) (c c' : Context)
    → IsQuiet h
    → handle api a h c ≡ (returned none, h', c')
    → SameRequest c c'
unfolding handle plain
handle-quiet api a (pmtu_bounding_handler p) h' c c' ok e =
    ground (arith, pmtu-quiet api a p (pmtu_handle api a p c).1 c c' ok)
handle-quiet api a _ h' c c' ok e = ground arith

-- No handler writes to the history.
pub history-handle :
    (api : EdnsApi) (a : Arrival) (h : Handler) (c : Context)
    → (handle api a h c).2.history ≡ c.history
unfolding handle plain
history-handle api a (pmtu_bounding_handler p) c = pmtu-history api a p c
history-handle api a _ c = ground arith

-- A handler that is consulted after a retry was found asks for none, and changes no request.
pub independent-quiet :
    (api : EdnsApi) (a : Arrival) (h : Handler) (c : Context)
    → is_action_independent h ≡ true
    → SameRequest c (handle api a h c).2
unfolding handle plain
independent-quiet api a (change_timeout_on_timeout_handler t n) c i = ground arith
independent-quiet api a (lifetime_handler b l) c i = ground arith
independent-quiet api a (max_timeouts_handler m) c i = ground arith
independent-quiet api a _ c i = cc
