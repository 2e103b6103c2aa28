-- ===== src/Query/Causes.antt =====
-- What a recorded retry says about the response that caused it (the handlers of dnsviz/query.py).
use dnsviz.Base.{
  ℕ, ◌∙◌, ap, length, none, ◌⊎◌, ◌<◌, Option, some, ◌≡◌, refl, arith, true, false, Option-cases,
  inl, inr,
}
use dnsviz.Base.Int.{ℤ}
use dnsviz.Dns.Api.{EdnsApi}
use dnsviz.Query.Types.{
  Cause, network_error, formerr, timeout, rcode, other, tc_set, diagnostic, Arrival, Context, Retry,
  returned, Response, message,
}
use dnsviz.Query.Handlers
use dnsviz.Query.Handlers.{
  is_timeout, is_network_failure, is_form_error, errno_of, has_rcode, tc_bit, bit, TcBit-cases,
  get_num_timeouts, get_num_network_errors,
}
use dnsviz.Query.Cookie
use dnsviz.Query.Pmtu
use dnsviz.Query.Pmtu.{
  Pmtu, Seen, State, start, reduced_payload, using_tcp, tcp_minus_one, pickle, tcp_final, invalid,
  pmtu_handle, seen,
}
use dnsviz.Query.Chain.{
  Handler, handle, retry_on_network_error_handler, use_tcp_on_tc_flag_handler,
  disable_edns_on_formerr_handler, reduce_payload_on_timeout_handler,
  clear_edns_flag_on_timeout_handler, change_edns_version_on_timeout_handler,
  remove_option_on_timeout_handler, disable_edns_on_timeout_handler, set_flag_on_rcode_handler,
  disable_edns_on_rcode_handler, remove_option_on_rcode_handler, add_server_cookie_handler,
  use_udp_on_timeout_handler, use_udp_on_network_error_handler, pmtu_bounding_handler,
  change_timeout_on_timeout_handler, retry_on_timeout_handler, default_accept_handler,
  lifetime_handler, max_timeouts_handler,
}

-- `len(response_wire)`, if there is one
abbrev pub wire_length : Arrival → Option ℕ
wire_length a = elim (a.wire) [ none ↦ none | some w ↦ some (length w) ]

abbrev pub IsRcode : Option ℕ → Response → Type 0
IsRcode arg (message m) = arg ≡ some m.rcode
IsRcode arg _ = ⊥

-- What each cause says of what arrived: a network error carries its errno, a timeout is a timeout, a
-- form error is one, and an rcode is that of a message. With TC the truncation bit is set in the wire,
-- and the argument is its length; a diagnostic attempt follows something other than a timeout, and may
-- carry the length. No handler gives another cause.
abbrev pub Explains : Cause → Option ℕ → Arrival → Type 0
Explains network_error arg a = (is_network_failure a.response ≡ true) × (arg ≡ errno_of a.response)
Explains timeout arg a = is_timeout a.response ≡ true
Explains formerr arg a = is_form_error a.response ≡ true
Explains rcode arg a = IsRcode arg a.response
Explains tc_set arg a = (tc_bit a.wire ≡ bit true) × (arg ≡ wire_length a)
Explains diagnostic arg a = (is_timeout a.response ≡ false) × ((arg ≡ none) ⊎ (arg ≡ wire_length a))
Explains other arg a = ⊥

-- The thresholds are positive: a handler with threshold 0 acts whatever the response.
abbrev pub HasThreshold : Handler → Type 0
HasThreshold (reduce_payload_on_timeout_handler p n) = 0 < n
HasThreshold (clear_edns_flag_on_timeout_handler f n) = 0 < n
HasThreshold (change_edns_version_on_timeout_handler v n) = 0 < n
HasThreshold (remove_option_on_timeout_handler n) = 0 < n
HasThreshold (disable_edns_on_timeout_handler n) = 0 < n
HasThreshold (use_udp_on_timeout_handler n) = 0 < n
HasThreshold (use_udp_on_network_error_handler n) = 0 < n
HasThreshold (pmtu_bounding_handler p) = 0 < p.initial_timeouts
HasThreshold _ = Unit

module _ (api : EdnsApi) (a : Arrival) (t : Seen) (p p' : Pmtu) (c c' : Context) (r : Retry)
    (timed : t.timed ≡ is_timeout a.response)
    (truncated : t.truncated ≡ true → tc_bit a.wire ≡ bit true)
    (len : t.response_len ≡ wire_length a) where
  settle-Explains :
      Pmtu.settle api a t p c ≡ (returned (some r), p', c') → Explains r.cause r.cause_arg a
  unfolding Pmtu.settle
  settle-Explains e = ground arith

  search_on-Explains :
      (upper : ℤ)
      → Pmtu.search_on api a t p c upper ≡ (returned (some r), p', c')
      → Explains r.cause r.cause_arg a
  unfolding Pmtu.search_on Pmtu.shrink Pmtu.grow Pmtu.rate_limited
  search_on-Explains upper e = ground arith

  in_tcp_minus_one-Explains :
      Pmtu.in_tcp_minus_one api a t p c ≡ (returned (some r), p', c')
      → Explains r.cause r.cause_arg a
  unfolding Pmtu.in_tcp_minus_one Pmtu.shrink Pmtu.rate_limited Pmtu.truncated_minus_one
  in_tcp_minus_one-Explains e = ground arith

  in_pickle-Explains :
      Pmtu.in_pickle api a t p c ≡ (returned (some r), p', c') → Explains r.cause r.cause_arg a
  unfolding Pmtu.in_pickle
  in_pickle-Explains e = elim (Option-cases p.upper_bound) [
    | inl q ↦ ground arith
    | inr (u, q) ↦ ground (arith, settle-Explains, search_on-Explains u)
  ]

  dispatch-Explains :
      (st : State)
      → (0 < t.timeouts → is_timeout a.response ≡ true)
      → 0 < p.initial_timeouts
      → Pmtu.dispatch api a t st p c ≡ (returned (some r), p', c')
      → Explains r.cause r.cause_arg a
  unfolding Pmtu.in_start Pmtu.in_reduced_payload Pmtu.in_using_tcp
  dispatch-Explains start k above e = ground arith
  dispatch-Explains reduced_payload k above e = ground arith
  dispatch-Explains using_tcp k above e = ground arith
  dispatch-Explains tcp_minus_one k above e = in_tcp_minus_one-Explains e
  dispatch-Explains pickle k above e = in_pickle-Explains e
  dispatch-Explains tcp_final k above e = cc
  dispatch-Explains invalid k above e = cc

  in_state-Explains :
      (0 < t.timeouts → is_timeout a.response ≡ true)
      → 0 < p.initial_timeouts
      → Pmtu.in_state api a t p c ≡ (returned (some r), p', c')
      → Explains r.cause r.cause_arg a
  unfolding Pmtu.in_state
  in_state-Explains k above e = ground (arith, dispatch-Explains p.state k above)

timeouts_pos :
    (a : Arrival) (c : Context)
    → 0 < get_num_timeouts a.response c.history
    → is_timeout a.response ≡ true
unfolding get_num_timeouts
timeouts_pos a c h = ground arith

pmtu-Explains :
    (api : EdnsApi) (a : Arrival) (p p' : Pmtu) (c c' : Context) (r : Retry)
    → 0 < p.initial_timeouts
    → pmtu_handle api a p c ≡ (returned (some r), p', c')
    → Explains r.cause r.cause_arg a
unfolding pmtu_handle
pmtu-Explains api a p p' c c' r above e = elim (TcBit-cases (tc_bit a.wire)) [
  | inl q ↦ ground (
    arith,
    in_state-Explains api a (seen a c false) p p' c c' r refl (λ h. ground (arith, h)) refl
        (timeouts_pos a c) above,
  )
  | inr (inl q) ↦ ground arith
  | inr (inr (b, q)) ↦ ground (
    arith,
    in_state-Explains api a (seen a c b) p p' c c' r refl (λ h. q ∙ ap bit h) refl
        (timeouts_pos a c) above,
  )
]

-- A retry's cause and its argument describe what the handler was given, for every handler whose
-- threshold is positive: after a network error its errno, after an rcode that of the message; a timeout
-- and a form error are such; with TC the bit is set in the wire, and the argument is its length; and a
-- diagnostic attempt is not after a timeout, and carries nothing or that length.
pub handle-Explains :
    (api : EdnsApi) (a : Arrival) (h h' : Handler) (c c' : Context) (r : Retry)
    → HasThreshold h
    → handle api a h c ≡ (returned (some r), h', c')
    → Explains r.cause r.cause_arg a
unfolding handle
handle-Explains api a (retry_on_network_error_handler n) h' c c' r ok e =
    unfold Handlers.retry_on_network_error in ground arith
handle-Explains api a use_tcp_on_tc_flag_handler h' c c' r ok e =
    unfold Handlers.use_tcp_on_tc_flag in ground arith
handle-Explains api a disable_edns_on_formerr_handler h' c c' r ok e =
    unfold Handlers.disable_edns_on_formerr in ground arith
handle-Explains api a (reduce_payload_on_timeout_handler p n) h' c c' r ok e =
    unfold Handlers.reduce_payload_on_timeout in ground arith
handle-Explains api a (clear_edns_flag_on_timeout_handler f n) h' c c' r ok e =
    unfold Handlers.clear_edns_flag_on_timeout in ground arith
handle-Explains api a (change_edns_version_on_timeout_handler v n) h' c c' r ok e =
    unfold Handlers.change_edns_version_on_timeout in ground arith
handle-Explains api a (remove_option_on_timeout_handler n) h' c c' r ok e =
    unfold Handlers.remove_option_on_timeout in ground arith
handle-Explains api a (disable_edns_on_timeout_handler n) h' c c' r ok e =
    unfold Handlers.disable_edns_on_timeout in ground arith
handle-Explains api a (set_flag_on_rcode_handler f code) h' c c' r ok e =
    unfold Handlers.set_flag_on_rcode in ground arith
handle-Explains api a disable_edns_on_rcode_handler h' c c' r ok e =
    unfold Handlers.disable_edns_on_rcode in ground arith
handle-Explains api a (remove_option_on_rcode_handler code) h' c c' r ok e =
    unfold Handlers.remove_option_on_rcode in ground arith
handle-Explains api a add_server_cookie_handler h' c c' r ok e =
    unfold Cookie.add_server_cookie_on_badcookie Cookie.update_cookie in ground arith
handle-Explains api a (use_udp_on_timeout_handler n) h' c c' r ok e =
    unfold Handlers.use_udp_on_timeout in ground arith
handle-Explains api a (use_udp_on_network_error_handler n) h' c c' r ok e =
    unfold Handlers.use_udp_on_network_error in ground arith
handle-Explains api a (pmtu_bounding_handler p) h' c c' r ok e =
    ground (arith, pmtu-Explains api a p (pmtu_handle api a p c).1 c c' r ok)
handle-Explains api a (change_timeout_on_timeout_handler t n) h' c c' r ok e =
    unfold Handlers.change_timeout_on_timeout in ground arith
handle-Explains api a retry_on_timeout_handler h' c c' r ok e =
    unfold Handlers.retry_on_timeout in ground arith
handle-Explains api a default_accept_handler h' c c' r ok e =
    unfold Handlers.default_accept in ground arith
handle-Explains api a (lifetime_handler b l) h' c c' r ok e =
    unfold Handlers.lifetime_handler in ground arith
handle-Explains api a (max_timeouts_handler m) h' c c' r ok e =
    unfold Handlers.max_timeouts_handler in ground arith
