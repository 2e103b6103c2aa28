-- ===== src/Denial/Status/Verdict.antt =====
-- The verdicts of the NSEC statuses (dnsviz/analysis/status.py): when a denial of existence is VALID,
-- and that it is so exactly when no error was found.
use dnsviz.Base.{
  List, [], ◌∷◌, ◌++◌, Option, none, some, Bool, true, not, ◌&&◌, ◌||◌, ◌≡◌, inl, inr, refl, ◌∙◌,
  if◌then◌else◌, is_nonempty, is_some, arith, All, Option-cases, Bool-cases, first, select, map,
}
use dnsviz.Dns.Message.{DomainName}
use dnsviz.Dns.Names.{NameApi, IsNameApi, same_name}
use dnsviz.Status.Issue.{Issue}
use dnsviz.Denial.NsecSet.{NsecRecord, NsecSet, get, nsec_covering_name}
use dnsviz.Denial.Status.{
  Judged, fail, is_valid, Covered, check_origin, nxdomain_status, wildcard_status,
  next_closest_encloser,
}
use dnsviz.Denial.Status.Nodata.{
  Matched, Bits, nodata_status, check_bits, check_referral, of_parent, check_wildcard,
}

-- VALID stands for no errors.
abbrev pub IsHonest : Judged → Type 0
IsHonest j = is_valid j.validation_status ≡ not (is_nonempty j.errors)

fail-nonempty : (is : List Issue) (i : Issue) → is_nonempty (is ++ i ∷ []) ≡ true
fail-nonempty [] i = refl
fail-nonempty (j ∷ is) i = refl

fail-IsHonest : (i : Issue) (j : Judged) → IsHonest (fail i j)
unfolding fail
fail-IsHonest i j = rw (fail-nonempty j.errors i) refl

found_in :
    (p : NsecRecord → Bool) (rs : List NsecRecord) (r : NsecRecord)
    → p r ≡ true
    → is_some (first p (r ∷ rs)) ≡ true
found_in p rs r h = ground arith

found_later :
    (p : NsecRecord → Bool) (rs : List NsecRecord) (r : NsecRecord)
    → is_some (first p rs) ≡ true
    → is_some (first p (r ∷ rs)) ≡ true
found_later p rs r h = ground arith

-- The bits allow a denial: those of a delegation for DS or a referral, and else not the type's.
abbrev pub bits_allow : Matched → Bits → Bool
bits_allow m b =
    if of_parent m
    then (not m.is_zone || b.has_ns) && (not b.has_ds && not b.has_soa)
    else not m.bits.has_rdtype

wildcard_bits-IsHonest : (m : Matched) → IsHonest (check_wildcard m)
unfolding check_wildcard check_bits check_referral fail
wildcard_bits-IsHonest m = ground arith

-- The name one label below the closest encloser is covered.
abbrev pub next_is_covered : NameApi → NsecSet → DomainName → Option DomainName → Bool
next_is_covered names s qname none = true
next_is_covered names s qname (some w) =
    is_nonempty (nsec_covering_name names (next_closest_encloser qname w) s)

module _ (names : NameApi) (laws : IsNameApi names) (s : NsecSet) where
  same_refl : (n : DomainName) → same_name names n n ≡ true
  same_refl n = ground (arith, laws.swapped n n)

  grow_found :
      (r : NsecRecord) (rs : List NsecRecord) (ns : List DomainName)
      → All (λ n. is_some (get names n rs) ≡ true) ns
      → All (λ n. is_some (get names n (r ∷ rs)) ≡ true) ns
  grow_found r rs [] h = tt
  grow_found r rs (n ∷ ns) h = (found_later _ rs r h.0, grow_found r rs ns h.1)

  selected_found :
      (ok : NsecRecord → Bool) (rs : List NsecRecord)
      → All (λ n. is_some (get names n rs) ≡ true) (map (λ (r : NsecRecord). r.name) (select ok rs))
  selected_found ok [] = tt
  selected_found ok (r ∷ rs) = elim (Bool-cases (ok r)) [
    | inl q ↦
        let rest = grow_found r rs _ (selected_found ok rs) in
        let own = found_in (λ q. same_name names q.name r.name) rs r (same_refl r.name) in
        rw q (own, rest)
    | inr q ↦ rw q (grow_found r rs _ (selected_found ok rs))
  ]

  -- Every covering name is the owner of a record of the set.
  pub covering_found :
      (n : DomainName)
      → All (λ m. is_some (get names m s.rrsets) ≡ true) (nsec_covering_name names n s)
  unfolding nsec_covering_name
  covering_found n = selected_found _ s.rrsets

  origin_lem :
      (o : DomainName) (ns : List DomainName) (j : Judged)
      → All (λ m. is_some (get names m s.rrsets) ≡ true) ns
      → is_valid (check_origin names s o ns j).validation_status
        ≡ (not (is_nonempty ns) && is_valid j.validation_status)
  unfolding check_origin fail
  origin_lem o [] j h = refl
  origin_lem o (n ∷ ns) j h = elim (Option-cases (get names n s.rrsets)) [
    | inl q ↦ ground arith
    | inr (r, q) ↦ ground (arith, q)
  ]

  origin-IsHonest :
      (o : DomainName) (ns : List DomainName) (j : Judged)
      → IsHonest j
      → IsHonest (check_origin names s o ns j)
  unfolding check_origin
  origin-IsHonest o [] j h = h
  origin-IsHonest o (n ∷ ns) j h = elim (Option-cases (get names n s.rrsets)) [
    | inl q ↦ rw (q, check_origin) h
    | inr (r, q) ↦ rw (q, check_origin) (fail-IsHonest _ j)
  ]

  -- Whether a wildcard, if there is one, is covered.
  pub nxdomain_lem :
      (c : Covered)
      → All (λ m. is_some (get names m s.rrsets) ≡ true) c.nsec_names_covering_origin
      → is_valid (nxdomain_status names s c).validation_status ≡ (
          not (is_nonempty c.nsec_names_covering_origin)
          && (is_nonempty c.nsec_names_covering_qname
              && (not (is_some c.wildcard_name) || is_nonempty c.nsec_names_covering_wildcard)))
  unfolding nxdomain_status fail
  nxdomain_lem c h = origin_lem c.origin c.nsec_names_covering_origin _ h ∙ ground arith

  nxdomain-IsHonest : (c : Covered) → IsHonest (nxdomain_status names s c)
  unfolding nxdomain_status fail
  nxdomain-IsHonest c = origin-IsHonest c.origin c.nsec_names_covering_origin _ (ground arith)

  pub wildcard_lem :
      (c : Covered)
      → All (λ m. is_some (get names m s.rrsets) ≡ true) c.nsec_names_covering_origin
      → is_valid (wildcard_status names s c).validation_status ≡ (
          not (is_nonempty c.nsec_names_covering_origin)
          && (is_nonempty c.nsec_names_covering_qname
              && (next_is_covered names s c.qname c.wildcard_name
                  && not (is_some c.wildcard_name && is_nonempty c.nsec_names_covering_wildcard))))
  unfolding wildcard_status fail
  wildcard_lem c h = origin_lem c.origin c.nsec_names_covering_origin _ h ∙ ground arith

  wildcard-IsHonest : (c : Covered) → IsHonest (wildcard_status names s c)
  unfolding wildcard_status fail
  wildcard-IsHonest c = origin-IsHonest c.origin c.nsec_names_covering_origin _ (ground arith)

  pub nodata_lem :
      (m : Matched)
      → All (λ n. is_some (get names n s.rrsets) ≡ true) m.nsec_names_covering_origin
      → is_valid (nodata_status names s m).validation_status ≡ (
          if is_some m.nsec_for_qname
          then not (is_nonempty m.nsec_names_covering_qname) && bits_allow m m.bits
          else is_some m.nsec_for_wildcard_name
            && (not (is_nonempty m.nsec_names_covering_origin)
                && (not m.wildcard_bits.has_rdtype && bits_allow m m.wildcard_bits)))
  unfolding nodata_status check_wildcard check_bits check_referral fail
  nodata_lem m h =
      ground (arith, origin_lem m.origin m.nsec_names_covering_origin (check_wildcard m) h)

  nodata-IsHonest : (m : Matched) → IsHonest (nodata_status names s m)
  unfolding nodata_status check_wildcard check_bits check_referral fail
  nodata-IsHonest m = ground (
    arith,
    origin-IsHonest m.origin m.nsec_names_covering_origin (check_wildcard m)
        (wildcard_bits-IsHonest m),
  )

-- The three kinds of proof are VALID exactly when they list no error.
pub status-IsHonest :
    (names : NameApi) (s : NsecSet) (c : Covered) (m : Matched)
    → IsNameApi names
    → IsHonest (nxdomain_status names s c)
      × IsHonest (wildcard_status names s c)
      × IsHonest (nodata_status names s m)
status-IsHonest names s c m laws = (
  nxdomain-IsHonest names laws s c,
  wildcard-IsHonest names laws s c,
  nodata-IsHonest names laws s m,
)
