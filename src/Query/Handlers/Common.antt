-- ===== src/Query/Handlers/Common.antt =====
-- dnsviz/query.py: what the response handlers share: the counters of timeouts and network errors,
-- the TC bit of a wire, and the changes of the context.
use dnsviz.Base.{
  ◌≡◌, ◌⊎◌, inl, inr, refl, ℕ, suc, ◌+◌, ◌-◌, List, [], ◌∷◌, reverse, Option, none, some, Bool,
  true, false, not, ◌==◌, if◌then◌else◌, get_elem?, is_some, bit_and,
}
use dnsviz.Dns.Message.{Bytes, Request}
use dnsviz.Query.Types.{
  Cause, network_error, formerr, timeout, tc_set, rcode, Action, Retry, Response, message,
  timed_out, network_failure, form_error, Arrival, Context, Outcome, returned,
}

abbrev pub same_cause : Cause → Cause → Bool
same_cause network_error network_error = true
same_cause formerr formerr = true
same_cause timeout timeout = true
same_cause Cause.other Cause.other = true
same_cause tc_set tc_set = true
same_cause rcode rcode = true
same_cause Cause.diagnostic Cause.diagnostic = true
same_cause _ _ = false

-- The loop of `_get_retry_qty` from the last attempt backwards.
unfoldable pub trailing : Cause → List Retry → ℕ
trailing c [] = 0
trailing c (r ∷ rs) = if same_cause r.cause c then suc (trailing c rs) else 0

-- `_get_retry_qty(cause)` with a cause given
unfoldable pub get_retry_qty : Cause → List Retry → ℕ
unfolding trailing
get_retry_qty c history = trailing c (reverse history)

abbrev pub is_timeout : Response → Bool
is_timeout timed_out = true
is_timeout _ = false

abbrev pub is_network_failure : Response → Bool
is_network_failure (network_failure e) = true
is_network_failure _ = false

abbrev pub is_form_error : Response → Bool
is_form_error form_error = true
is_form_error _ = false

-- `response.errno`, None where there is none
abbrev pub errno_of : Response → Option ℕ
errno_of (network_failure e) = e
errno_of _ = none

-- `isinstance(response, dns.message.Message) and response.rcode() == rcode`
abbrev pub has_rcode : Response → ℕ → Bool
has_rcode (message m) code = m.rcode == code
has_rcode _ code = false

unfoldable pub get_num_timeouts : Response → List Retry → ℕ
get_num_timeouts response history =
    if is_timeout response then get_retry_qty timeout history + 1 else 0

unfoldable pub get_num_network_errors : Response → List Retry → ℕ
get_num_network_errors response history =
    if is_network_failure response then get_retry_qty network_error history + 1 else 0

-- `map_func(response_wire[2]) & 0x02`: the TC bit, with the error of a short wire
pub data TcBit : Type 0 where
  no_wire : TcBit
  short_wire : TcBit
  bit : Bool → TcBit

pub TcBit-cases : (t : TcBit) → (t ≡ no_wire) ⊎ ((t ≡ short_wire) ⊎ ((b : Bool) × (t ≡ bit b)))
TcBit-cases no_wire = inl refl
TcBit-cases short_wire = inr (inl refl)
TcBit-cases (bit b) = inr (inr (b, refl))

abbrev pub tc_bit : Option Bytes → TcBit
tc_bit none = no_wire
tc_bit (some wire) = elim (get_elem? wire 2) [
  | none ↦ short_wire
  | some b ↦ bit (not (bit_and b 0x02 == 0))
]

-- `x & ~m`
abbrev pub clear_bits : ℕ → ℕ → ℕ
clear_bits x m = x - bit_and x m

abbrev pub is_on : Option ℕ → Bool
is_on edns = is_some edns

abbrev pub same_version : Option ℕ → Option ℕ → Bool
same_version none none = true
same_version (some a) (some b) = a == b
same_version _ _ = false

abbrev pub retry_of : Arrival → Cause → Option ℕ → Action → Outcome
retry_of a c arg act =
    returned
      (some (record { response_time = a.response_time; cause = c; cause_arg = arg; action = act }))

abbrev pub set_tcp : Bool → Context → Context
set_tcp b c = record c { params = record c.params { tcp = b } }

abbrev pub set_wait : ℕ → Context → Context
set_wait w c = record c { params = record c.params { wait = w } }

abbrev pub set_timeout : ℕ → Context → Context
set_timeout t c = record c { params = record c.params { timeout = t } }

abbrev pub set_request : Request → Context → Context
set_request r c = record c { request = r }
