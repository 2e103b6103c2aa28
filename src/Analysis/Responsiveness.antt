-- ===== src/Analysis/Responsiveness.antt =====
-- dnsviz/analysis/offline.py: OfflineDomainNameAnalysis._populate_responsiveness_errors, what had to be
-- changed to get a response from a server.
use dnsviz.Base.{
  ℕ, ◌+◌, List, [], ◌∷◌, Option, none, some, Bool, true, false, not, ◌&&◌, ◌==◌, if◌then◌else◌,
  elem,
}
use dnsviz.Query.Types.{
  Action, Cause, Retry, add_edns_option, change_edns_version, change_sport, change_udp_max_payload,
  clear_edns_flag, clear_flag, diagnostic, disable_edns, formerr, network_error, no_change, other,
  rcode, remove_edns_option, set_edns_flag, set_flag, tc_set, timeout, update_dns_cookie, use_tcp,
  use_udp,
}
use dnsviz.Response.History.{CookieStatus}
use dnsviz.Analysis.Cookies.{drops_cookie, is_improper, is_unproven, updates_cookie}

-- The error classes of the causes, with their arguments but `tcp`.
pub data CauseError : Type 0 where
  network_problem : (errno : Option ℕ) → CauseError
  malformed_response : (msg_size : Option ℕ) → CauseError
  no_response : (attempts : ℕ) → CauseError
  invalid_rcode : (rcode : Option ℕ) → CauseError

-- Those of the actions, with the flag, the option or the versions.
pub data ActionError : Type 0 where
  without_request_flag with_request_flag without_edns_flag with_edns_flag without_edns_option
        with_edns_option :
      ℕ → ActionError
  with_edns pmtu_exceeded : ActionError
  with_edns_version : (edns_old edns_new : Option ℕ) → ActionError

pub data Downgrade : Type 0 where
  edns_disabled do_bit_cleared : Downgrade

-- A response with a `responsive_cause_index`, and the attempt there. `zone_is_signed` is none where
-- there is no `qname_obj`.
pub record Hindered : Type 0 where
  pub retry : Retry
  pub responsive_cause_index : ℕ
  pub responsive_cause_index_tcp : Bool
  pub msg_size : Option ℕ
  pub query_edns : Option ℕ
  pub server_cookie_status : CookieStatus
  pub zone_is_signed : Option Bool

-- What is added: the change with its cause, whether it is specific to the query, the downgrade; and
-- whether they are errors or warnings.
pub record Change : Type 0 where
  pub cause : CauseError
  pub tcp : Bool
  pub action : ActionError
  pub query_specific : Bool
  pub downgrade : Option Downgrade
  pub is_error : Bool

abbrev pub is_signed : Hindered → Bool
is_signed h = elim (h.zone_is_signed) [ none ↦ false | some b ↦ b ]

abbrev pub has_code : List ℕ → Option ℕ → Bool
has_code codes none = false
has_code codes (some code) = elem code codes

abbrev pub disables_edns : Action → Bool
disables_edns disable_edns = true
disables_edns _ = false

abbrev pub changes_version : Action → Bool
changes_version (change_edns_version v) = true
changes_version _ = false

-- CD is 0x10.
abbrev pub sets_cd : Action → Bool
sets_cd (set_flag f) = f == 0x10
sets_cd _ = false

abbrev pub default_to : {A : Type 0} → A → Option A → A
default_to a none = a
default_to a (some b) = b

-- The branches for an RCODE, in their order. Each of the first four only leaves what is `so_far`, and
-- is followed by another `if`, which sets the class in its `else`. FORMERR is 1, SERVFAIL 2, NOTIMP 4,
-- BADVERS 16 and BADCOOKIE 23.
unfoldable pub rcode_cause : Hindered → Option CauseError
rcode_cause h =
    let arg = h.retry.cause_arg in
    let action = h.retry.action in
    let so_far : Option CauseError =
      if has_code (1 ∷ 2 ∷ 4 ∷ []) arg && (disables_edns action && not (is_signed h))
      then none
      else if has_code (16 ∷ []) arg && changes_version action
      then none
      else if has_code (2 ∷ []) arg && sets_cd action
      then none
      else if has_code (23 ∷ []) arg
          && (is_unproven h.server_cookie_status && updates_cookie action)
      then none
      else none in
    if has_code (1 ∷ []) arg && (is_improper h.server_cookie_status && drops_cookie action)
    then so_far
    else some (invalid_rcode arg)

unfoldable pub cause_error : Hindered → Option CauseError
unfolding rcode_cause
cause_error h = elim (h.retry.cause) [
  | network_error ↦ some (network_problem h.retry.cause_arg)
  | formerr ↦ some (malformed_response h.msg_size)
  | timeout ↦ some (no_response (h.responsive_cause_index + 1))
  | rcode ↦ rcode_cause h
  | other ↦ none
  | tc_set ↦ none
  | diagnostic ↦ none
]

unfoldable pub require_valid : Hindered → Bool
unfolding cause_error
require_valid h = elim (h.retry.cause) [
  | formerr ↦ true
  | rcode ↦ elim (cause_error h) [ none ↦ false | some e ↦ true ]
  | other ↦ true
  | network_error ↦ false
  | timeout ↦ false
  | tc_set ↦ false
  | diagnostic ↦ false
]

unfoldable pub action_error : Hindered → Option ActionError
action_error h = elim (h.retry.action) [
  | no_change ↦ none
  | change_sport ↦ none
  | set_flag f ↦ some (without_request_flag f)
  | clear_flag f ↦ some (with_request_flag f)
  | disable_edns ↦ some with_edns
  | change_udp_max_payload p ↦ some pmtu_exceeded
  | set_edns_flag f ↦ some (without_edns_flag f)
  | clear_edns_flag f ↦ some (with_edns_flag f)
  | add_edns_option o ↦ some (without_edns_option o)
  | remove_edns_option o ↦ some (with_edns_option o)
  | change_edns_version v ↦ some (with_edns_version h.query_edns v)
  | use_tcp ↦ none
  | use_udp ↦ none
  | update_dns_cookie ↦ none
]

abbrev pub is_rcode_cause : Cause → Bool
is_rcode_cause rcode = true
is_rcode_cause _ = false

-- The last class that was set: by the action, or by the RCODE in a signed zone. DO is 0x8000.
unfoldable pub downgrade_of : Hindered → Option Downgrade
downgrade_of h =
    let by_cause : Option Downgrade =
      if is_rcode_cause h.retry.cause
        && (has_code (1 ∷ 2 ∷ 4 ∷ []) h.retry.cause_arg && is_signed h)
      then some edns_disabled
      else none in
    elim (h.retry.action) [
      | disable_edns ↦ some edns_disabled
      | clear_edns_flag f ↦ if f == 0x8000 then some do_bit_cleared else by_cause
      | _ ↦ by_cause
    ]

-- `responsive` is `zone.server_responsive_for_action`, for whether a valid response is required.
unfoldable pub responsiveness_error : (responsive : Bool → Bool) → Hindered → Option Change
unfolding cause_error require_valid action_error downgrade_of
responsiveness_error responsive h = elim (cause_error h) [
  | none ↦ none
  | some c ↦ elim (action_error h) [
    | none ↦ none
    | some a ↦
        let downgrade = downgrade_of h in
        let is_error = is_signed h && (elim downgrade [ none ↦ false | some d ↦ true ]) in
        some (record {
          cause = c;
          tcp = h.responsive_cause_index_tcp;
          action = a;
          query_specific =
              (elim (h.zone_is_signed) [ none ↦ false | some b ↦ true ])
              && responsive (require_valid h);
          downgrade = if is_error then downgrade else none;
          is_error = is_error;
        })
  ]
]
