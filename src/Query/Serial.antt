-- ===== src/Query/Serial.antt =====
-- dnsviz/query.py: DNSQueryRetryAttempt.serialize and deserialize, with the tables of the names of
-- causes and actions. The `errno` table of Python and its float
-- arithmetic are parameters.
use dnsviz.Base.{
  ◌+◌, ◌*◌, ◌/◌, ◌≤◌, ◌<◌, ℕ, Option, none, some, Bool, true, false, not, ◌≡◌, refl, if◌then◌else◌,
  is_some, arith, ◌||◌, Option-cases, inl, inr,
}
use dnsviz.Base.Int.{ℤ, pos, negsuc}
use Prim.Native.String.{String}
use text.Mathlib.Text.{◌==◌}
use dnsviz.Query.Types.{
  Retry, Cause, Action, network_error, formerr, timeout, other, tc_set, rcode, diagnostic,
  no_change, use_tcp, use_udp, set_flag, clear_flag, disable_edns, change_udp_max_payload,
  set_edns_flag, clear_edns_flag, add_edns_option, remove_edns_option, change_sport,
  change_edns_version, update_dns_cookie,
}

-- errno.errorcode, and the attributes of errno
pub record ErrnoApi : Type 0 where
  pub errorcode : ℕ → Option String
  pub number : String → Option ℕ

-- The names of the table are attributes with their numbers.
abbrev pub IsErrnoApi : ErrnoApi → Type 0
IsErrnoApi api = (n : ℕ) (name : String) → api.errorcode n ≡ some name → api.number name ≡ some n

-- `int(t * 1000)` of a response time t, with the float arithmetic of Python; t is in microseconds here.
pub record FloatApi : Type 0 where
  pub milliseconds : ℕ → ℕ

-- For the time that a query takes, the rounding of the product can make the number of whole
-- milliseconds one less, as for 1.001 seconds.
abbrev pub IsFloatApi : FloatApi → Type 0
IsFloatApi floats =
    (t : ℕ) → (floats.milliseconds t ≤ t / 1000) × (t / 1000 ≤ floats.milliseconds t + 1)

-- An argument of a cause: a number or the name of an error.
pub data CauseArg : Type 0 where
  code : ℕ → CauseArg
  error_name : String → CauseArg

-- The dictionary that is written. Version 1.0 wrote `response_time` in its place of `time_elapsed`.
pub record Written : Type 0 where
  pub response_time : Option ℕ
  pub time_elapsed : ℕ
  pub cause : String
  pub cause_arg : Option CauseArg
  pub action : String
  pub action_arg : Option ℤ

unfoldable pub retry_causes : Cause → String
retry_causes network_error = "NETWORK_ERROR"
retry_causes formerr = "FORMERR"
retry_causes timeout = "TIMEOUT"
retry_causes other = "ERROR"
retry_causes tc_set = "TC"
retry_causes rcode = "INVALID_RCODE"
retry_causes diagnostic = "DIAGNOSTIC"

unfoldable pub retry_actions : Action → String
retry_actions no_change = "NO_CHANGE"
retry_actions use_tcp = "USE_TCP"
retry_actions use_udp = "USE_UDP"
retry_actions (set_flag x) = "SET_FLAG"
retry_actions (clear_flag x) = "CLEAR_FLAG"
retry_actions disable_edns = "DISABLE_EDNS"
retry_actions (change_udp_max_payload x) = "CHANGE_UDP_MAX_PAYLOAD"
retry_actions (set_edns_flag x) = "SET_EDNS_FLAG"
retry_actions (clear_edns_flag x) = "CLEAR_EDNS_FLAG"
retry_actions (add_edns_option x) = "ADD_EDNS_OPTION"
retry_actions (remove_edns_option x) = "REMOVE_EDNS_OPTION"
retry_actions change_sport = "CHANGE_SPORT"
retry_actions (change_edns_version x) = "CHANGE_EDNS_VERSION"
retry_actions update_dns_cookie = "UPDATE_DNS_COOKIE"

-- The attribute `action_arg`.
unfoldable pub action_arg_of : Action → Option ℤ
action_arg_of (set_flag x) = some (pos x)
action_arg_of (clear_flag x) = some (pos x)
action_arg_of (change_udp_max_payload x) = some x
action_arg_of (set_edns_flag x) = some (pos x)
action_arg_of (clear_edns_flag x) = some (pos x)
action_arg_of (add_edns_option x) = some (pos x)
action_arg_of (remove_edns_option x) = some (pos x)
action_arg_of (change_edns_version none) = none
action_arg_of (change_edns_version (some x)) = some (pos x)
action_arg_of _ = none

-- retry_cause_codes and retry_action_codes; none is a KeyError. An action is made with its argument:
-- none also where that is not one that a handler gives.
unfoldable pub retry_cause_codes : String → Option Cause
retry_cause_codes s =
    if s == "NETWORK_ERROR"
    then some network_error
    else if s == "FORMERR"
    then some formerr
    else if s == "TIMEOUT"
    then some timeout
    else if s == "ERROR"
    then some other
    else if s == "TC"
    then some tc_set
    else if s == "INVALID_RCODE"
    then some rcode
    else if s == "DIAGNOSTIC"
    then some diagnostic
    else none

abbrev pub with_number : (ℕ → Action) → Option ℤ → Option Action
with_number make (some (pos n)) = some (make n)
with_number make _ = none

abbrev pub with_version : Option ℤ → Option Action
with_version none = some (change_edns_version none)
with_version (some (pos n)) = some (change_edns_version (some n))
with_version (some (negsuc n)) = none

abbrev pub with_payload : Option ℤ → Option Action
with_payload none = none
with_payload (some z) = some (change_udp_max_payload z)

unfoldable pub retry_action_codes : String → Option ℤ → Option Action
retry_action_codes s arg =
    if s == "NO_CHANGE"
    then some no_change
    else if s == "USE_TCP"
    then some use_tcp
    else if s == "USE_UDP"
    then some use_udp
    else if s == "SET_FLAG"
    then with_number set_flag arg
    else if s == "CLEAR_FLAG"
    then with_number clear_flag arg
    else if s == "DISABLE_EDNS"
    then some disable_edns
    else if s == "CHANGE_UDP_MAX_PAYLOAD"
    then with_payload arg
    else if s == "SET_EDNS_FLAG"
    then with_number set_edns_flag arg
    else if s == "CLEAR_EDNS_FLAG"
    then with_number clear_edns_flag arg
    else if s == "ADD_EDNS_OPTION"
    then with_number add_edns_option arg
    else if s == "REMOVE_EDNS_OPTION"
    then with_number remove_edns_option arg
    else if s == "CHANGE_SPORT"
    then some change_sport
    else if s == "CHANGE_EDNS_VERSION"
    then with_version arg
    else if s == "UPDATE_DNS_COOKIE"
    then some update_dns_cookie
    else none

abbrev pub is_network_error : Cause → Bool
is_network_error network_error = true
is_network_error _ = false

module _ (api : ErrnoApi) (floats : FloatApi) where
  -- The argument of a network error is left out if its number has no name.
  unfoldable pub write_cause_arg : Cause → Option ℕ → Option CauseArg
  write_cause_arg cause none = none
  write_cause_arg cause (some n) =
      if is_network_error cause
      then (elim (api.errorcode n) [ none ↦ none | some name ↦ some (error_name name) ])
      else some (code n)

  -- DNSQueryRetryAttempt.serialize
  unfoldable pub serialize : Retry → Written
  unfolding write_cause_arg retry_causes retry_actions action_arg_of
  serialize r = record {
    response_time = none;
    time_elapsed = floats.milliseconds r.response_time;
    cause = retry_causes r.cause;
    cause_arg = write_cause_arg r.cause r.cause_arg;
    action = retry_actions r.action;
    action_arg = action_arg_of r.action;
  }

  -- A name that errno does not have gives no argument. (Only a network error has a name.)
  unfoldable pub read_cause_arg : Option CauseArg → Option ℕ
  read_cause_arg none = none
  read_cause_arg (some (code n)) = some n
  read_cause_arg (some (error_name name)) = api.number name

  -- DNSQueryRetryAttempt.deserialize; `time_elapsed` is in milliseconds.
  unfoldable pub deserialize : Written → Option Retry
  unfolding read_cause_arg retry_cause_codes retry_action_codes
  deserialize d = elim (retry_cause_codes d.cause) [
    | none ↦ none
    | some cause ↦ elim (retry_action_codes d.action d.action_arg) [
      | none ↦ none
      | some action ↦ some (record {
        response_time = elim (d.response_time) [ none ↦ d.time_elapsed * 1000 | some t ↦ t ];
        cause = cause;
        cause_arg = read_cause_arg d.cause_arg;
        action = action;
      })
    ]
  ]

  -- The number of a network error has a name.
  abbrev pub is_named : Retry → Bool
  is_named r = elim (r.cause_arg) [
    | none ↦ true
    | some n ↦ not (is_network_error r.cause) || is_some (api.errorcode n)
  ]

  read_written :
      (cause : Cause) (arg : Option ℕ)
      → IsErrnoApi api
      → (elim arg [
        | none ↦ true
        | some n ↦ not (is_network_error cause) || is_some (api.errorcode n)
      ])
        ≡ true
      → read_cause_arg (write_cause_arg cause arg) ≡ arg
  unfolding read_cause_arg write_cause_arg
  read_written cause none laws h = refl
  read_written cause (some n) laws h = elim (Option-cases (api.errorcode n)) [
    | inl q ↦ ground (arith, q, h)
    | inr (name, q) ↦ ground (arith, q, h, laws n name q)
  ]

codes_causes : (c : Cause) → retry_cause_codes (retry_causes c) ≡ some c
unfolding retry_cause_codes retry_causes
codes_causes network_error = refl
codes_causes formerr = refl
codes_causes timeout = refl
codes_causes other = refl
codes_causes tc_set = refl
codes_causes rcode = refl
codes_causes diagnostic = refl

codes_actions : (a : Action) → retry_action_codes (retry_actions a) (action_arg_of a) ≡ some a
unfolding retry_action_codes retry_actions action_arg_of
codes_actions no_change = refl
codes_actions use_tcp = refl
codes_actions use_udp = refl
codes_actions (set_flag x) = refl
codes_actions (clear_flag x) = refl
codes_actions disable_edns = refl
codes_actions (change_udp_max_payload x) = refl
codes_actions (set_edns_flag x) = refl
codes_actions (clear_edns_flag x) = refl
codes_actions (add_edns_option x) = refl
codes_actions (remove_edns_option x) = refl
codes_actions change_sport = refl
codes_actions (change_edns_version none) = refl
codes_actions (change_edns_version (some x)) = refl
codes_actions update_dns_cookie = refl

-- A retry attempt that is written and read again has the same cause, action and arguments, where the
-- number of a network error has a name in errno's table. Its response time is cut to whole
-- milliseconds, and is less than two of them shorter.
pub deserialize-serialize :
    (api : ErrnoApi) (floats : FloatApi) (r : Retry)
    → IsErrnoApi api
    → IsFloatApi floats
    → is_named api floats r ≡ true
    → (whole : ℕ) × (deserialize api floats (serialize api floats r)
        ≡ some (record r { response_time = whole * 1000 }))
      × (whole * 1000 ≤ r.response_time)
      × (r.response_time < whole * 1000 + 2000)
unfolding deserialize serialize
deserialize-serialize api floats r laws rounding h = (
  floats.milliseconds r.response_time,
  rw
      (
        codes_causes r.cause,
        codes_actions r.action,
        read_written api floats r.cause r.cause_arg laws h,
        deserialize,
        serialize,
      )
      refl,
  omega (arith, rounding r.response_time),
  omega (arith, rounding r.response_time),
)
