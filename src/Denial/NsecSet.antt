-- ===== src/Denial/NsecSet.antt =====
-- dnsviz/response.py: NSECSet. Its dictionaries and sets are lists without repetition, in the order
-- of insertion; names are keys up to dnspython's equality. An RRset is its first record.
use dnsviz.Base.{
  ℕ, ◌/◌, ◌%◌, ◌^◌, ◌-◌, List, [], ◌∷◌, ◌++◌, Option, none, some, Bool, true, false, not, ◌&&◌,
  ◌||◌, ◌==◌, if◌then◌else◌, length, get_elem?, any, all, first, select, leb, bytes_eq, map,
  bit_and,
}
use dnsviz.Dns.Message.{Bytes, DomainName}
use dnsviz.Dns.Names.{NameApi, same_name, before, not_after}
use dnsviz.Base32.{b32encode}
use Prim.Native.Nat.{Ordering}

-- The parameters of a hash: salt, algorithm, iterations.
pub record HashParams : Type 0 where
  pub salt : Bytes
  pub algorithm : ℕ
  pub iterations : ℕ

-- The `next` field and what only NSEC3 has.
pub data Next : Type 0 where
  nsec : DomainName → Next
  nsec3 : (hash : Bytes) (params : HashParams) (flags : ℕ) → Next

pub record NsecRecord : Type 0 where
  pub name : DomainName
  pub next : Next
  pub windows : List (ℕ × Bytes)

pub record NsecSet : Type 0 where
  pub rrsets : List NsecRecord
  pub referral : Bool
  pub nsec3_params : List (HashParams × List DomainName)
  pub invalid_nsec3_owner : List DomainName
  pub invalid_nsec3_hash : List DomainName
  pub use_nsec3 : Bool

abbrev pub same_params : HashParams → HashParams → Bool
same_params p q =
    bytes_eq p.salt q.salt && (p.algorithm == q.algorithm) && (p.iterations == q.iterations)

-- `x.upper()` of an ASCII character, and membership in `b32alphabet`
abbrev pub in_b32alphabet : ℕ → Bool
in_b32alphabet c =
    let u = if leb 97 c && leb c 122 then c - 32 else c in
    (leb 48 u && leb u 57) || (leb 65 u && leb u 86)

-- A name has labels; for an empty one the source raises an IndexError.
unfoldable pub is_valid_nsec3_name : DomainName → ℕ → Bool
is_valid_nsec3_name [] algorithm = false
is_valid_nsec3_name (label ∷ rest) algorithm =
    if algorithm == 1 && not (length label == 32) then false else all in_b32alphabet label

unfoldable pub is_valid_nsec3_hash : Bytes → ℕ → Bool
is_valid_nsec3_hash hash algorithm = not (algorithm == 1 && not (length hash == 20))

abbrev pub labels_above : DomainName → DomainName
labels_above [] = []
labels_above (l ∷ ls) = ls

-- `name.parent()`; the root and the empty name have none.
abbrev pub parent : DomainName → Option DomainName
parent [] = none
parent ([] ∷ []) = none
parent (l ∷ ls) = some ls

-- The loop of `rdtype_exists_in_bitmap`: window, byte and bit of the type.
unfoldable pub in_windows : ℕ → List (ℕ × Bytes) → Bool
in_windows rdtype [] = false
in_windows rdtype ((window, bitmap) ∷ ws) =
    let rest = in_windows rdtype ws in
    elim (get_elem? bitmap (rdtype % 256 / 8)) [
      | none ↦ rest
      | some byte ↦
          if window == rdtype / 256 && not (bit_and byte (128 / 2 ^ (rdtype % 8)) == 0)
          then true
          else rest
    ]

module _ (names : NameApi) where
  abbrev pub has_name : DomainName → List DomainName → Bool
  has_name n = any (λ m. same_name names m n)

  -- `s.add(name)` of a set
  abbrev pub add : DomainName → List DomainName → List DomainName
  add n ns = if has_name n ns then ns else ns ++ n ∷ []

  unfoldable pub add_params :
      HashParams
      → DomainName
      → List (HashParams × List DomainName)
      → List (HashParams × List DomainName)
  add_params k n [] = (k, n ∷ []) ∷ []
  add_params k n ((q, ns) ∷ rest) =
      if same_params k q then (q, add n ns) ∷ rest else (q, ns) ∷ add_params k n rest

  -- The body of the loops of `__init__` and `project`.
  unfoldable pub insert : NsecRecord → NsecSet → NsecSet
  insert r s = elim (r.next) [
    | nsec next ↦ record s { rrsets = s.rrsets ++ r ∷ [] }
    | nsec3 hash params flags ↦ record s {
      rrsets = s.rrsets ++ r ∷ [];
      use_nsec3 = true;
      nsec3_params = add_params params r.name s.nsec3_params;
      invalid_nsec3_owner =
          if is_valid_nsec3_name r.name params.algorithm
          then s.invalid_nsec3_owner
          else add r.name s.invalid_nsec3_owner;
      invalid_nsec3_hash =
          if is_valid_nsec3_hash hash params.algorithm
          then s.invalid_nsec3_hash
          else add r.name s.invalid_nsec3_hash;
    }
  ]

  abbrev pub empty_set : Bool → NsecSet
  empty_set referral = record {
    rrsets = [];
    referral = referral;
    nsec3_params = [];
    invalid_nsec3_owner = [];
    invalid_nsec3_hash = [];
    use_nsec3 = false;
  }

  abbrev pub insert_all : List NsecRecord → NsecSet → NsecSet
  insert_all [] s = s
  insert_all (r ∷ rs) s = insert_all rs (insert r s)

  abbrev pub get : DomainName → List NsecRecord → Option NsecRecord
  get n = first (λ r. same_name names r.name n)

  -- `__init__`; none where its assertion fails, on a repeated owner.
  unfoldable pub nsec_set : List NsecRecord → NsecSet → Option NsecSet
  unfolding insert
  nsec_set [] s = some s
  nsec_set (r ∷ rs) s = elim (get r.name s.rrsets) [
    | some q ↦ none
    | none ↦ nsec_set rs (insert r s)
  ]

  abbrev pub all_get : List DomainName → List NsecRecord → Option (List NsecRecord)
  all_get [] rrsets = some []
  all_get (n ∷ ns) rrsets = elim (get n rrsets) [
    | none ↦ none
    | some r ↦ elim (all_get ns rrsets) [ none ↦ none | some rs ↦ some (r ∷ rs) ]
  ]

  -- NSECSet.project, for different names; none is its ValueError.
  unfoldable pub project : List DomainName → NsecSet → Option NsecSet
  project ns s = elim (all_get ns s.rrsets) [
    | none ↦ none
    | some rs ↦ some (insert_all rs (empty_set s.referral))
  ]

  -- none is the KeyError
  unfoldable pub rdtype_exists_in_bitmap : DomainName → ℕ → NsecSet → Option Bool
  unfolding in_windows
  rdtype_exists_in_bitmap n rdtype s = elim (get n s.rrsets) [
    | none ↦ none
    | some r ↦ some (in_windows rdtype r.windows)
  ]

  -- The name after that of the record, `name_for_nsec3_next` for an NSEC3.
  unfoldable pub next_name : NsecRecord → DomainName
  next_name r = elim (r.next) [
    | nsec n ↦ n
    | nsec3 hash params flags ↦ names.from_text (b32encode hash) (labels_above r.name)
  ]

  abbrev pub same_parent : Option DomainName → Option DomainName → Bool
  same_parent (some a) (some b) = same_name names a b
  same_parent _ _ = false

  -- The comparison at the end of `_nsec_covers_name`.
  unfoldable pub covers : (prev name next : DomainName) → Bool
  covers prev name next = elim (names.order prev next) [
    | Ordering.eq ↦ not (same_name names prev name)
    | Ordering.gt ↦ not (not_after names next name && not_after names name prev)
    | Ordering.lt ↦
        before names prev name && before names name next && not (names.is_subdomain next name)
  ]

  -- NSECSet._nsec_covers_name, for the record of `nsec_name`
  unfoldable pub nsec_covers_name : NsecSet → DomainName → NsecRecord → Bool
  unfolding next_name covers
  nsec_covers_name s name r =
      if s.use_nsec3
        && not (
            same_parent (parent name) (parent r.name)
            && same_parent (parent r.name) (parent (next_name r)))
      then false
      else covers r.name name (next_name r)

  -- The owners that are not invalid, whose record covers the name.
  unfoldable pub nsec_covering_name : DomainName → NsecSet → List DomainName
  nsec_covering_name name s =
      map (λ (r : NsecRecord). r.name)
        (select
          (λ r.
            not (has_name r.name s.invalid_nsec3_owner || has_name r.name s.invalid_nsec3_hash)
            && nsec_covers_name s name r)
          s.rrsets)
