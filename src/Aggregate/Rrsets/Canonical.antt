-- ===== src/Aggregate/Rrsets/Canonical.antt =====
-- That the text that an RRSIG signs (dnsviz/response.py: message_for_rrsig) is the same for a wildcard
-- and what is expanded from it, whatever the order of the records.
use dnsviz.Base.{
  suc, ◌+◌, ◌-◌, ◌⊎◌, inl, inr, List, [], ◌∷◌, ◌++◌, Bool, true, false, ◌≡◌, refl, ◌∙◌,
  if◌then◌else◌, length, drop, bytes_eq, length-append, arith,
}
use mathlib.Core.List.{Permᴰ}
use dnsviz.Dns.Message.{Bytes, DomainName}
use dnsviz.Aggregate.Rrsets.{
  Rrsig, SignedSet, is_wildcard, message_for_rrsig, reduce_wildcard, rrset_canonicalized_to_wire,
  sort_records,
}
use dnsviz.Aggregate.Rrsets.Order.{insert_swap}

sort-Perm : (xs ys : List Bytes) → Permᴰ xs ys → sort_records xs ≡ sort_records ys
unfolding sort_records
sort-Perm _ _ Permᴰ.nil = refl
sort-Perm _ _ (Permᴰ.cons {a} {b} {l₁} {l₂} e d) = rw (e, sort-Perm l₁ l₂ d) refl
sort-Perm _ _ (Permᴰ.swap {a} {b} {a'} {b'} {l} e f) =
    rw (e, f) (insert_swap b' a' (sort_records l))
sort-Perm _ _ (Permᴰ.trans {l₁} {l₂} {l₃} d e) = sort-Perm l₁ l₂ d ∙ sort-Perm l₂ l₃ e

drop_front : (front base : DomainName) → drop (length front) (front ++ base) ≡ base
drop_front [] base = refl
drop_front (l ∷ front) base = drop_front front base

-- The first label of a name is not `*`.
abbrev pub is_plain : DomainName → Bool
is_plain [] = true
is_plain (l ∷ ls) = if bytes_eq l (42 ∷ []) then false else true

reduce_lem :
    (l : Bytes) (front base : DomainName) (g : Rrsig)
    → is_plain (l ∷ front) ≡ true
    → length base ≡ suc g.labels
    → reduce_wildcard ((l ∷ front) ++ base) g ≡ (42 ∷ []) ∷ base
unfolding reduce_wildcard is_wildcard
reduce_lem l front base g p e =
    let many : is_wildcard ((l ∷ front) ++ base) g ≡ true =
      ground (arith, p, e, length-append front base) in
    let count : length ((l ∷ front) ++ base) - (g.labels + 1) ≡ length (l ∷ front) =
      omega (arith, e, length-append (l ∷ front) base) in
    rw (many, reduce_wildcard, count, drop_front (l ∷ front) base) refl

star_lem : (base : DomainName) (g : Rrsig) → reduce_wildcard ((42 ∷ []) ∷ base) g ≡ (42 ∷ []) ∷ base
unfolding reduce_wildcard is_wildcard
star_lem base g = refl

-- The wildcard of a name, or a name that is expanded from it.
abbrev pub IsExpanded : DomainName → DomainName → Type 0
IsExpanded base name =
    (name ≡ (42 ∷ []) ∷ base)
    ⊎ ((l : Bytes) × (front : DomainName) × (is_plain (l ∷ front) ≡ true)
        × (name ≡ (l ∷ front) ++ base))

reduced :
    (base name : DomainName) (g : Rrsig)
    → length base ≡ suc g.labels
    → IsExpanded base name
    → reduce_wildcard name g ≡ (42 ∷ []) ∷ base
reduced base name g e (inl by) = rw by (star_lem base g)
reduced base name g e (inr (l, front, p, by)) = rw by (reduce_lem l front base g p e)

-- The signed text is the same for two RRsets of the same type and class, whose names are expanded from
-- the wildcard below a name with as many labels (and the root's) as the RRSIG says, or are that
-- wildcard, and whose records are the same up to their order. The TTLs of the RRsets may differ.
pub message_for_rrsig-expanded :
    (to_wire : DomainName → Bytes) (base : DomainName) (s t : SignedSet) (g : Rrsig)
    → length base ≡ suc g.labels
    → IsExpanded base s.name
    → IsExpanded base t.name
    → s.rdtype ≡ t.rdtype
    → s.rdclass ≡ t.rdclass
    → Permᴰ s.records t.records
    → message_for_rrsig to_wire s g ≡ message_for_rrsig to_wire t g
unfolding message_for_rrsig rrset_canonicalized_to_wire
message_for_rrsig-expanded to_wire base s t g e xs xt et ec p =
    rw
      (
        message_for_rrsig,
        rrset_canonicalized_to_wire,
        reduced base s.name g e xs,
        reduced base t.name g e xt,
        et,
        ec,
        sort-Perm s.records t.records p,
      )
      refl
