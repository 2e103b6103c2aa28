-- ===== src/Denial/Status/Valid.antt =====
-- When the NSEC statuses of dnsviz/analysis/status.py are VALID, by the records of the set alone.
use dnsviz.Base.{
  All, ℕ, suc, ◌-◌, List, [], ◌∷◌, Option, none, some, Bool, true, false, not, ◌&&◌, ◌||◌, ◌==◌,
  ◌≡◌, inl, inr, refl, ◌∙◌, leb, length, drop, if◌then◌else◌, is_nonempty, is_some, arith, any,
  first, Bool-cases,
}
use dnsviz.Dns.Message.{DomainName}
use dnsviz.Dns.Names.{NameApi, IsNameApi, same_name}
use dnsviz.Denial.NsecSet.{NsecRecord, NsecSet, get, in_windows, next_name, nsec_covering_name}
use dnsviz.Denial.Wildcard.{get_wildcard}
use dnsviz.Denial.Status.{
  is_valid, covered, nxdomain_status, wildcard_status, next_closest_encloser, wildcard_of,
}
use dnsviz.Denial.Status.Nodata.{bits_of, matched, nodata_status, nsec_above, nsec_for}
use dnsviz.Denial.Status.Verdict.{
  bits_allow, covering_found, next_is_covered, nodata_lem, nxdomain_lem, wildcard_lem,
}

-- The labels at the end of a name, n of them at most.
abbrev pub last_of : ℕ → DomainName → DomainName
last_of n [] = []
last_of n (l ∷ ls) = let rest = last_of n ls in if leb (length (l ∷ ls)) n then l ∷ ls else rest

last_of_lem : (n : ℕ) (q : DomainName) → drop (length q - n) q ≡ last_of n q
last_of_lem n [] = ground arith
last_of_lem n (l ∷ ls) = elim (Bool-cases (leb (length (l ∷ ls)) n)) [
  | inl h ↦ let z : suc (length ls) - n ≡ 0 = ground (arith, h) in rw (h, z) refl
  | inr h ↦
      let z : suc (length ls) - n ≡ suc (length ls - n) = ground (arith, h) in
      rw (h, z) (last_of_lem n ls)
]

-- The type is in the bitmap of the record, if there is one.
abbrev pub has_type : ℕ → Option NsecRecord → Bool
has_type t none = false
has_type t (some r) = in_windows t r.windows

module _ (names : NameApi) (s : NsecSet) where
  abbrev pub is_covered : DomainName → Bool
  is_covered n = is_nonempty (nsec_covering_name names n s)

  -- The wildcard that `_get_wildcard` makes of the name and the first of the records.
  abbrev pub wildcard_by : DomainName → List DomainName → Option DomainName
  wildcard_by qname [] = none
  wildcard_by qname (c ∷ cs) = elim (get names c s.rrsets) [
    | none ↦ none
    | some r ↦ some (get_wildcard qname r.name (next_name names r))
  ]

  -- The first record is one that covers the name.
  abbrev pub wildcard_shown : DomainName → Option DomainName
  wildcard_shown qname = wildcard_by qname (nsec_covering_name names qname s)

  -- What holds of the wildcard; without one nothing does.
  abbrev pub of_wildcard : (DomainName → Bool) → DomainName → Bool
  of_wildcard p qname = elim (wildcard_shown qname) [ none ↦ false | some w ↦ p w ]

  -- The record of the wildcard.
  abbrev pub wildcard_record : DomainName → Option NsecRecord
  wildcard_record qname = elim (wildcard_shown qname) [
    | none ↦ none
    | some w ↦ get names w s.rrsets
  ]

  -- The next name of some record lies below the name, which is then an empty non-terminal.
  abbrev pub is_above : DomainName → Bool
  is_above qname =
      any
        (λ (r : NsecRecord).
          names.is_subdomain (next_name names r) qname
          && not (same_name names (next_name names r) qname))
        s.rrsets

  -- The bitmaps allow a denial: for DS (43) or a referral, that of the given record has no DS and no
  -- SOA (6), and for a zone it has NS (2); else that of the name's own record does not have the type.
  abbrev pub allows : (rdtype : ℕ) (is_zone : Bool) (own given : Option NsecRecord) → Bool
  allows rdtype is_zone own given =
      if (rdtype == 43) || s.referral
      then (not is_zone || has_type 2 given) && (not (has_type 43 given) && not (has_type 6 given))
      else not (has_type rdtype own)

  wildcard_of_lem :
      (qname : DomainName) (cs : List DomainName)
      → wildcard_of names s qname cs ≡ wildcard_by qname cs
  unfolding wildcard_of
  wildcard_of_lem qname [] = refl
  wildcard_of_lem qname (c ∷ cs) = ground arith

  by_some :
      (qname : DomainName) (cs : List DomainName)
      → All (λ m. is_some (get names m s.rrsets) ≡ true) cs
      → is_nonempty cs ≡ true
      → is_some (wildcard_by qname cs) ≡ true
  by_some qname [] h k = k
  by_some qname (c ∷ cs) h k = ground (arith, h.0)

  next_lem :
      (qname : DomainName) (o : Option DomainName)
      → next_is_covered names s qname o
        ≡ (elim o [ none ↦ true | some w ↦ is_covered (last_of (length w) qname) ])
  unfolding next_closest_encloser
  next_lem qname none = refl
  next_lem qname (some w) = rw (last_of_lem (length w) qname) refl

  is_some-first : (p : NsecRecord → Bool) (rs : List NsecRecord) → is_some (first p rs) ≡ any p rs
  is_some-first p [] = refl
  is_some-first p (r ∷ rs) = ground (arith, is_some-first p rs)

  -- A record of the name, or one above it.
  record_lem :
      (must_match : Bool) (qname : DomainName)
      → is_some (nsec_for names s must_match qname)
        ≡ (is_some (get names qname s.rrsets) || (not must_match && is_above qname))
  unfolding nsec_for nsec_above
  record_lem must_match qname = ground (
    arith,
    is_some-first
        (λ r.
          names.is_subdomain (next_name names r) qname
          && not (same_name names (next_name names r) qname))
        s.rrsets,
  )

  type_lem :
      (rdtype : ℕ) (o : Option NsecRecord) → (bits_of rdtype o).has_rdtype ≡ has_type rdtype o
  unfolding bits_of
  type_lem rdtype o = ground arith

  allows_lem :
      (rdtype : ℕ) (qname origin : DomainName) (is_zone must_match : Bool)
      (given : Option NsecRecord)
      → bits_allow (matched names s qname rdtype origin is_zone must_match) (bits_of rdtype given)
        ≡ allows rdtype is_zone (get names qname s.rrsets) given
  unfolding matched bits_of
  allows_lem rdtype qname origin is_zone must_match given =
      ground (arith, type_lem rdtype (get names qname s.rrsets))

  shown_some :
      (qname : DomainName)
      → IsNameApi names
      → is_covered qname ≡ true
      → is_some (wildcard_shown qname) ≡ true
  shown_some qname laws h = by_some qname _ (covering_found names laws s qname) h

-- A proof that a name does not exist is VALID exactly when the origin of the zone is not covered, the
-- name is covered, and so is the wildcard that `_get_wildcard` makes of the name and the first record
-- that covers it.
pub nxdomain_status-valid :
    (names : NameApi) (s : NsecSet) (qname origin : DomainName)
    → IsNameApi names
    → is_valid (nxdomain_status names s (covered names s qname origin)).validation_status ≡ (
        not (is_covered names s origin)
        && (is_covered names s qname && of_wildcard names s (is_covered names s) qname))
unfolding covered
nxdomain_status-valid names s qname origin laws =
    nxdomain_lem names laws s (covered names s qname origin) (covering_found names laws s origin)
    ∙ ground (
      arith,
      wildcard_of_lem names s qname (nsec_covering_name names qname s),
      shown_some names s qname laws,
    )

-- A wildcard answer's proof is VALID exactly when the origin of the zone is not covered, the name is
-- covered, and for the wildcard that `_get_wildcard` makes of the name and the first record that covers
-- it: the wildcard is not covered, but the end of the name that has as many labels is.
pub wildcard_status-valid :
    (names : NameApi) (s : NsecSet) (qname origin : DomainName)
    → IsNameApi names
    → is_valid (wildcard_status names s (covered names s qname origin)).validation_status ≡ (
        not (is_covered names s origin)
        && (is_covered names s qname
            && of_wildcard names s
                (λ w. is_covered names s (last_of (length w) qname) && not (is_covered names s w))
                qname))
unfolding covered
wildcard_status-valid names s qname origin laws =
    wildcard_lem names laws s (covered names s qname origin) (covering_found names laws s origin)
    ∙ ground (
      arith,
      wildcard_of_lem names s qname (nsec_covering_name names qname s),
      shown_some names s qname laws,
      next_lem names s qname (wildcard_shown names s qname),
    )

-- A proof that a name has no record of a type: with a record of the name, or, where that is accepted,
-- of another whose next name lies below it, it is VALID exactly when the name is not covered and the
-- bitmap of the name's own record allows it. (For an empty non-terminal this is the empty one.) With no
-- such record, it is VALID exactly when there is a record of the wildcard that `_get_wildcard` makes,
-- the origin is not covered, and the bitmap of that record allows it and does not have the type.
pub nodata_status-valid :
    (names : NameApi) (s : NsecSet) (qname : DomainName) (rdtype : ℕ) (origin : DomainName)
    (is_zone sname_must_match : Bool)
    → IsNameApi names
    → is_valid
        (nodata_status names s
          (matched names s qname rdtype origin is_zone sname_must_match)).validation_status
      ≡ (let own = get names qname s.rrsets in
          let wild = wildcard_record names s qname in
          if is_some own || (not sname_must_match && is_above names s qname)
          then not (is_covered names s qname) && allows names s rdtype is_zone own own
          else is_some wild
            && (not (is_covered names s origin)
                && (not (has_type rdtype wild) && allows names s rdtype is_zone own wild)))
unfolding matched nsec_covering_name wildcard_of
nodata_status-valid names s qname rdtype origin is_zone sname_must_match laws =
    nodata_lem names laws s (matched names s qname rdtype origin is_zone sname_must_match)
      (covering_found names laws s origin)
    ∙ rw
        (
          wildcard_of_lem names s qname (nsec_covering_name names qname s),
          record_lem names s sname_must_match qname,
          allows_lem names s rdtype qname origin is_zone sname_must_match
              (get names qname s.rrsets),
          allows_lem names s rdtype qname origin is_zone sname_must_match
              (wildcard_record names s qname),
          type_lem names s rdtype (wildcard_record names s qname),
        )
        refl
