-- ===== src/Denial/Covering.antt =====
-- What it means that an NSEC record covers a name (dnsviz/response.py): the name lies strictly
-- between owner and next name, in the canonical order, which goes round at the end of the zone.
use dnsviz.Base.{
  All, Bool, true, false, not, ◌&&◌, ◌||◌, ◌≡◌, List, [], ◌∷◌, arith, if◌then◌else◌, select, map,
  inl, inr, Bool-cases,
}
use dnsviz.Dns.Message.{DomainName}
use dnsviz.Dns.Names.{NameApi, IsNameApi, same_name, before}
use dnsviz.Denial.NsecSet.{
  NsecSet, NsecRecord, covers, next_name, nsec_covers_name, nsec_covering_name,
}

-- Strictly between `prev` and `next` in the circular order.
abbrev pub between : NameApi → (prev name next : DomainName) → Bool
between names prev name next =
    if before names prev next
    then before names prev name && before names name next
    else before names prev name || before names name next

module _ (names : NameApi) (laws : IsNameApi names) where
  covers-between :
      (prev name next : DomainName)
      → covers names prev name next ≡ (
          between names prev name next
          && not (before names prev next && names.is_subdomain next name))
  unfolding covers
  covers-between prev name next = grind (
    arith,
    laws.swapped prev name,
    laws.swapped prev next,
    laws.swapped name next,
    laws.trans_before prev next name,
    laws.trans_before name prev next,
    laws.trans_same prev next name,
    laws.trans_same next prev name,
  )

  covers-apart :
      (prev name next : DomainName)
      → covers names prev name next ≡ true
      → (same_name names prev name ≡ false) × (same_name names next name ≡ false)
  unfolding covers
  covers-apart prev name next h = grind (
    arith,
    laws.swapped prev name,
    laws.swapped prev next,
    laws.swapped name next,
    laws.trans_before prev next name,
    laws.trans_before name prev next,
    laws.trans_same prev next name,
    laws.trans_same next prev name,
  )

  -- The records that are selected cover the name.
  selected-apart :
      (s : NsecSet) (name : DomainName) (ok : NsecRecord → Bool) (rs : List NsecRecord)
      → ((r : NsecRecord) → ok r ≡ true → nsec_covers_name names s name r ≡ true)
      → All (λ n. same_name names n name ≡ false) (map (λ (r : NsecRecord). r.name) (select ok rs))
  unfolding nsec_covers_name
  selected-apart s name ok [] h = tt
  selected-apart s name ok (r ∷ rs) h = elim (Bool-cases (ok r)) [
    | inl q ↦
        let apart = covers-apart r.name name (next_name names r) in
        ground (arith, selected-apart s name ok rs h, h r q, apart)
    | inr q ↦ ground (arith, selected-apart s name ok rs h)
  ]

-- For NSEC and names in a total order, a record covers a name exactly when the name lies strictly between owner and next name,
-- going round after the last name, and, with an owner before its next name, the next name is not
-- below the name (which would make the name an empty non-terminal).
pub nsec_covers_name-between :
    (names : NameApi) (s : NsecSet) (name : DomainName) (r : NsecRecord)
    → IsNameApi names
    → s.use_nsec3 ≡ false
    → nsec_covers_name names s name r ≡ (
        between names r.name name (next_name names r)
        && not (
            before names r.name (next_name names r) && names.is_subdomain (next_name names r) name))
unfolding nsec_covers_name
nsec_covers_name-between names s name r laws plain =
    rw plain (covers-between names laws r.name name (next_name names r))

-- A record that covers a name, NSEC or NSEC3, is neither that of the name nor the one before it.
pub nsec_covers_name-apart :
    (names : NameApi) (s : NsecSet) (name : DomainName) (r : NsecRecord)
    → IsNameApi names
    → nsec_covers_name names s name r ≡ true
    → (same_name names r.name name ≡ false) × (same_name names (next_name names r) name ≡ false)
unfolding nsec_covers_name
nsec_covers_name-apart names s name r laws h =
    ground (arith, covers-apart names laws r.name name (next_name names r))

-- The covering names of a name never include the name itself.
pub nsec_covering_name-apart :
    (names : NameApi) (s : NsecSet) (name : DomainName)
    → IsNameApi names
    → All (λ n. same_name names n name ≡ false) (nsec_covering_name names name s)
unfolding nsec_covering_name
nsec_covering_name-apart names s name laws =
    selected-apart names laws s name _ s.rrsets (λ r q. ground arith)
