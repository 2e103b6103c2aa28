-- ===== src/Tests.antt =====
-- Concrete data for the tests, and the tests of each part.
pub mod Aggregate
pub mod Analysis
pub mod Query
pub mod Serial
pub mod Response
pub mod Status
pub mod Denial
pub mod Nsec3
pub mod Keys
use dnsviz.Base.{
  ◌+◌, ◌*◌, ◌/◌, ◌%◌, ◌^◌, ℕ, List, [], ◌∷◌, Option, none, some, Bool, true, false, leb, ◌≡◌, ◌≢◌,
  refl, arith, length,
}
use mathlib.Core.Path.{subst}
use Prim.Native.Nat.{compare, Ordering}
use dnsviz.Base.Int.{ℤ, pos}
use dnsviz.Base.Bits.{AreSameLow, AreSameLow-shift}
use dnsviz.Dns.Message.{Bytes, DomainName, EdnsOption, Message, Request}
use dnsviz.Dns.Api.{EdnsApi, IsEdnsApi}
use dnsviz.Dns.Names.{NameApi, IsNameApi, flip}
use dnsviz.Query.Types.{Params, Context}

-- `use_edns` that merges the version into bits 16 to 23 of the flags, and turns EDNS off.
abbrev pub merged_flags : ℕ → ℕ → ℕ
merged_flags v f = f % 2 ^ 16 + (v + f / 2 ^ 24 * 256) * 2 ^ 16

merged_flags_lem : (v f : ℕ) → AreSameLow 16 (merged_flags v f) f
merged_flags_lem v f =
    let e : f % 2 ^ 16 + f / 2 ^ 16 * 2 ^ 16 ≡ f = omega arith in
    subst (λ x. AreSameLow 16 (merged_flags v f) x) e
      (AreSameLow-shift 16 (f % 2 ^ 16) (v + f / 2 ^ 24 * 256) (f / 2 ^ 16))

abbrev pub plain_edns : EdnsApi
plain_edns = record {
  use_edns = λ r e f p o. record r {
    edns = e;
    ednsflags = elim e [ none ↦ 0 | some v ↦ merged_flags v f ];
    payload = p;
    options = o;
  };
  disable_edns = λ r. record r { edns = none };
}

pub plain_edns-IsEdnsApi : IsEdnsApi plain_edns
plain_edns-IsEdnsApi = record {
  used_flags = λ r e f p o. refl;
  used_edns = λ r e f p o. refl;
  used_ednsflags = λ r v f p o. merged_flags_lem v f;
  used_payload = λ r v f p o. refl;
  used_options = λ r v f p o. refl;
  disabled_flags = λ r. refl;
  disabled_edns = λ r. refl;
}

-- Names in the order of their number of labels, and a text that is put before the origin.
abbrev pub by_length : NameApi
by_length = record {
  order = λ a b. compare (length a) (length b);
  is_subdomain = λ a b. leb (length b) (length a);
  from_text = λ t origin. t ∷ origin;
}

pub compare_swapped : (a b : ℕ) → compare b a ≡ flip (compare a b)
compare_swapped a b = ground arith

pub before_trans :
    (a b c : ℕ) → compare a b ≡ Ordering.lt → compare b c ≢ Ordering.gt → compare a c ≡ Ordering.lt
before_trans a b c h k = ground arith

pub same_trans : (a b c : ℕ) → compare a b ≡ Ordering.eq → compare a c ≡ compare b c
same_trans a b c h = ground arith

pub same_leb : (a b : ℕ) → compare a b ≡ Ordering.eq → leb b a ≡ true
same_leb a b h = ground arith

pub by_length-IsNameApi : IsNameApi by_length
by_length-IsNameApi = record {
  swapped = λ a b. compare_swapped (length a) (length b);
  trans_before = λ a b c. before_trans (length a) (length b) (length c);
  trans_same = λ a b c. same_trans (length a) (length b) (length c);
  subdomain_refl = λ a b. same_leb (length a) (length b);
}

abbrev pub a_request : Request
a_request = record {
  flags = 0x100;
  edns = some 0;
  ednsflags = 0x8000;
  payload = pos 4096;
  options = [];
}

abbrev pub some_params : Params
some_params = record { wait = 0; tcp = false; timeout = 1000; sport = none }

abbrev pub a_context : Context
a_context = record { request = a_request; params = some_params; history = [] }

abbrev pub empty_message : Message
empty_message = record {
  flags = 0x8000;
  rcode = 0;
  edns = some 0;
  options = [];
  answer = [];
  authority = [];
  additional = [];
}
