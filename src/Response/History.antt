-- ===== src/Response/History.antt =====
-- dnsviz/response.py: DNSResponse._review_history, which replays the recorded retries to find the
-- options that were in effect in the end, and which retry brought the server to answer.
use dnsviz.Base.{
  ℕ, suc, List, [], ◌∷◌, ◌++◌, Option, none, some, Bool, true, false, not, ◌&&◌, ◌==◌,
  if◌then◌else◌, is_some, bit_or, select, is_nonempty,
}
use dnsviz.Base.Int.{ℤ}
use dnsviz.Dns.Message.{EdnsOption}
use dnsviz.Query.Types.{
  Cause, network_error, timeout, tc_set, diagnostic, Action, no_change, use_tcp, use_udp, set_flag,
  clear_flag, disable_edns, change_udp_max_payload, set_edns_flag, clear_edns_flag, add_edns_option,
  remove_edns_option, change_sport, change_edns_version, update_dns_cookie, Retry,
}
use dnsviz.Query.Handlers.{clear_bits}

-- DNS_COOKIE_*
pub data CookieStatus : Type 0 where
  no_cookie client_cookie_only server_cookie_fresh server_cookie_static server_cookie_bad
        improper_length :
      CookieStatus

-- What the review replays: the local variables of `_review_history` that the actions change.
pub record Options : Type 0 where
  pub flags : ℕ
  pub edns : Option ℕ
  pub edns_max_udp_payload : Option ℤ
  pub edns_flags : ℕ
  pub edns_options : List EdnsOption
  pub tcp : Bool
  pub server_cookie_status : CookieStatus

-- `edns_options.remove(x)` of the first option with that code
unfoldable pub remove_first : ℕ → List EdnsOption → List EdnsOption
remove_first code [] = []
remove_first code (o ∷ os) = if code == o.otype then os else o ∷ remove_first code os

-- The branch of REMOVE_EDNS_OPTION. Removing the COOKIE option (10) resets the cookie status.
unfoldable pub remove_option : ℕ → Options → Options
unfolding remove_first
remove_option code s =
    if is_nonempty (select (λ o. code == o.otype) s.edns_options)
    then record s {
      edns_options = remove_first code s.edns_options;
      server_cookie_status = if code == 10 then no_cookie else s.server_cookie_status;
    }
    else s

-- The chain of tests on `retry.action`.
unfoldable pub apply_action : Action → Options → Options
unfolding remove_option
apply_action no_change s = s
apply_action use_tcp s = record s { tcp = true }
apply_action use_udp s = record s { tcp = false }
apply_action (set_flag f) s = record s { flags = bit_or s.flags f }
apply_action (clear_flag f) s = record s { flags = clear_bits s.flags f }
apply_action disable_edns s = record s { edns = none }
apply_action (change_udp_max_payload p) s = record s { edns_max_udp_payload = some p; tcp = false }
apply_action (set_edns_flag f) s = record s { edns_flags = bit_or s.edns_flags f }
apply_action (clear_edns_flag f) s = record s { edns_flags = clear_bits s.edns_flags f }
apply_action (add_edns_option code) s = record s {
  edns_options = s.edns_options ++ (record { otype = code; payload = [] }) ∷ [];
}
apply_action (remove_edns_option code) s = remove_option code s
apply_action change_sport s = s
apply_action (change_edns_version v) s = record s { edns = v }
apply_action update_dns_cookie s = record s { server_cookie_status = server_cookie_fresh }

-- What the review finds out about the server.
pub record Responsiveness : Type 0 where
  pub udp_attempted : Bool
  pub udp_responsive : Bool
  pub tcp_attempted : Bool
  pub tcp_responsive : Bool
  pub responsive_cause_index : Option ℕ
  pub responsive_cause_index_tcp : Bool

-- The loop's variables: the replayed options, the findings, `tcp_valid`, `udp_valid`, and the
-- previous round as its index and action.
pub record Review : Type 0 where
  pub options : Options
  pub found : Responsiveness
  pub tcp_valid : Bool
  pub udp_valid : Bool
  pub prev : Option (ℕ × Action)

abbrev pub is_network_cause : Cause → Bool
is_network_cause network_error = true
is_network_cause timeout = true
is_network_cause _ = false

abbrev pub is_answer_cause : Cause → Bool
is_answer_cause tc_set = true
is_answer_cause diagnostic = true
is_answer_cause _ = false

abbrev pub is_use_tcp : Action → Bool
is_use_tcp use_tcp = true
is_use_tcp _ = false

abbrev pub is_use_udp : Action → Bool
is_use_udp use_udp = true
is_use_udp _ = false

-- `prev_index is not None and self.history[prev_index].action != RETRY_ACTION_USE_TCP` (or UDP)
abbrev pub switched_otherwise : Bool → Option (ℕ × Action) → Bool
switched_otherwise tcp none = false
switched_otherwise tcp (some (i, act)) = not (if tcp then is_use_tcp act else is_use_udp act)

abbrev pub prev_index : Option (ℕ × Action) → Option ℕ
prev_index none = none
prev_index (some (i, act)) = some i

-- `tcp_attempted = True` or `udp_attempted = True`, by the protocol in use
unfoldable pub mark_attempted : Bool → Responsiveness → Responsiveness
mark_attempted tcp f =
    if tcp then record f { tcp_attempted = true } else record f { udp_attempted = true }

unfoldable pub mark_responsive : Bool → Responsiveness → Responsiveness
mark_responsive tcp f =
    if tcp then record f { tcp_responsive = true } else record f { udp_responsive = true }

-- The round or the response is valid: if none was before on this protocol, and the protocol was
-- not what the previous action changed, then that action is what made the difference.
unfoldable pub mark_cause : Review → Responsiveness
mark_cause v =
    let tcp = v.options.tcp in
    if not (is_some v.found.responsive_cause_index)
      && (not (if tcp then v.tcp_valid else v.udp_valid) && switched_otherwise tcp v.prev)
    then record v.found {
      responsive_cause_index = prev_index v.prev;
      responsive_cause_index_tcp = tcp;
    }
    else v.found

-- One round of the loop over the history.
unfoldable pub review_retry : ℕ → Retry → Review → Review
unfolding mark_attempted mark_responsive mark_cause apply_action
review_retry i r v =
    let tcp = v.options.tcp in
    let f1 = mark_attempted tcp v.found in
    let f2 = if is_network_cause r.cause then f1 else mark_responsive tcp f1 in
    let answered = is_answer_cause r.cause in
    record {
      options = apply_action r.action v.options;
      found = if answered then mark_cause (record v { found = f2 }) else f2;
      tcp_valid = if answered && tcp then true else v.tcp_valid;
      udp_valid = if answered && not tcp then true else v.udp_valid;
      prev = some (i, r.action);
    }

unfoldable pub review_loop : ℕ → List Retry → Review → Review
unfolding review_retry
review_loop i [] v = v
review_loop i (r ∷ rs) v = review_loop (suc i) rs (review_retry i r v)

abbrev pub initial : Options → Review
initial s = record {
  options = s;
  found = record {
    udp_attempted = not s.tcp;
    udp_responsive = false;
    tcp_attempted = s.tcp;
    tcp_responsive = false;
    responsive_cause_index = none;
    responsive_cause_index_tcp = s.tcp;
  };
  tcp_valid = false;
  udp_valid = false;
  prev = none;
}

-- If EDNS was off in the end, then its settings are reset.
unfoldable pub reset_edns : Options → Options
reset_edns s = elim (s.edns) [
  | none ↦ record s {
    edns_max_udp_payload = none;
    edns_flags = 0;
    edns_options = [];
    server_cookie_status = no_cookie;
  }
  | some v ↦ s
]

-- DNSResponse._review_history. `error` is the response's error, `valid` is `is_valid_response()`.
unfoldable pub review_history :
    Options → List Retry → Option Cause → Bool → Options × Responsiveness
unfolding review_loop mark_responsive mark_cause reset_edns
review_history query history error valid =
    let v = review_loop 0 history (initial query) in
    let dead : Bool = elim error [ none ↦ false | some e ↦ is_network_cause e ] in
    let f = if dead then v.found else mark_responsive v.options.tcp v.found in
    (reset_edns v.options, if valid then mark_cause (record v { found = f }) else f)
