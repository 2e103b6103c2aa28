-- ===== src/Denial/Nsec3/Matching.antt =====
-- When NSEC3StatusNODATA of dnsviz/analysis/status.py is VALID, by the records for the name and for
-- its wildcards.
use dnsviz.Base.{
  ℕ, List, [], ◌∷◌, Option, none, some, Bool, true, false, not, ◌&&◌, ◌||◌, ◌==◌, ◌≡◌, inl, inr,
  refl, ◌∙◌, if◌then◌else◌, any, is_nonempty, is_some, arith, Option-cases,
}
use dnsviz.Dns.Message.{DomainName}
use dnsviz.Dns.Names.{NameApi}
use dnsviz.Denial.NsecSet.{HashParams, NsecSet, add}
use dnsviz.Denial.Closest.{HashApi}
use dnsviz.Denial.Status.{Judged, fail, is_valid}
use dnsviz.Denial.Nsec3.{
  Enclosers, Hashed, Params, cover_qname, get_next_closest_encloser, get_wildcard, hash_covering,
  valid_algs,
}
use dnsviz.Denial.Nsec3.Nodata.{
  HashedNodata, Owners, check_opt_out, check_qname, check_wildcard_name, cover_each,
  find_all_wildcards, find_qname, find_wildcards, nodata_checks, owner_for, see_owner,
}
use dnsviz.Denial.Nsec3.Verdict.{fail_status, qname_keeps, qname_step, report_algorithm_lem}

-- The bits allow a denial: those of a delegation for DS or a referral, and else neither the type nor
-- an alias.
abbrev pub bitmap_allows : HashedNodata → Bool
bitmap_allows m =
    let b = m.for_qname.bits in
    if m.rdtype == 43 || m.referral
    then (not m.is_zone || b.has_ns) && (not b.has_ds && not b.has_soa)
    else not b.has_rdtype && not b.has_cname

abbrev pub is_valid_status : Option Judged → Option Bool
is_valid_status none = none
is_valid_status (some j) = some (is_valid j.validation_status)

check_qname_lem : (m : HashedNodata) → is_valid (check_qname m).validation_status ≡ bitmap_allows m
unfolding check_qname fail
check_qname_lem m = ground arith

check_opt_out_lem :
    (ps : Params) (m : HashedNodata)
    → is_valid (check_opt_out ps m).validation_status
      ≡ (elim (m.hashed.opt_out) [ none ↦ false | some b ↦ b ])
unfolding check_opt_out
check_opt_out_lem ps m = grind (arith, fail_status)

check_wildcard_lem :
    (names : NameApi) (ps : Params) (m : HashedNodata)
    → is_valid_status (check_wildcard_name names ps m) ≡ (
        if is_nonempty m.hashed.nsec_names_covering_qname
        then some (not m.for_wildcard_name.bits.has_rdtype)
        else if is_nonempty (valid_algs ps)
        then none
        else some false)
unfolding check_wildcard_name fail
check_wildcard_lem names ps m = grind (arith, report_algorithm_lem)

pub nodata_checks_lem :
    (names : NameApi) (ps : Params) (m : HashedNodata)
    → is_valid_status (nodata_checks names ps m) ≡ (
        if is_nonempty m.for_qname.owners
        then some (bitmap_allows m)
        else if is_nonempty m.for_wildcard_name.owners
        then (if is_nonempty m.hashed.nsec_names_covering_qname
            then some (not m.for_wildcard_name.bits.has_rdtype)
            else if is_nonempty (valid_algs ps)
            then none
            else some false)
        else some (
            is_nonempty m.hashed.nsec_names_covering_qname
            && (elim (m.hashed.opt_out) [ none ↦ false | some b ↦ b ])))
unfolding nodata_checks
nodata_checks_lem names ps m =
    grind
      (arith, check_wildcard_lem names ps m, check_qname_lem m, check_opt_out_lem ps m, fail_status)

module _ (names : NameApi) where
  add_lem : (d : DomainName) (ns : List DomainName) → is_nonempty (add names d ns) ≡ true
  add_lem d [] = refl
  add_lem d (n ∷ ns) = ground arith

  module _ (hash : HashApi) (origin : DomainName) (s : NsecSet) (rdtype : ℕ) where
    -- The owner of some record, with its parameters, is the hash of the name.
    abbrev matches : DomainName → HashParams × List DomainName → Bool
    matches name p = is_some (owner_for names hash origin s rdtype p name)

    abbrev covers_next : DomainName → Enclosers → HashParams × List DomainName → Bool
    covers_next qname es p =
        any
          (λ e. is_some (hash_covering names hash origin s p (get_next_closest_encloser qname e.0)))
          es

    abbrev pub is_matched : DomainName → Bool
    is_matched name = any (matches name) s.nsec3_params

    abbrev pub wildcard_is_matched : Enclosers → Bool
    wildcard_is_matched es =
        any (λ p. any (λ e. matches (get_wildcard names e.0) p) es) s.nsec3_params

    -- A record covers the name one label below a closest encloser.
    abbrev pub covers_some_next : DomainName → Enclosers → Bool
    covers_some_next qname es = any (covers_next qname es) s.nsec3_params

    pub each_lem :
        (p : HashParams × List DomainName) (es : Enclosers) (qname : DomainName) (h : Hashed)
        → h.qname ≡ qname
        → ((cover_each names hash origin s rdtype p es h).qname ≡ h.qname)
          × ((cover_each names hash origin s rdtype p es h).closest_encloser ≡ h.closest_encloser)
          × (is_nonempty (cover_each names hash origin s rdtype p es h).nsec_names_covering_qname
              ≡ (is_nonempty h.nsec_names_covering_qname || covers_next qname es p))
    each_lem p [] qname h eq = (refl, refl, ground arith)
    each_lem p (e ∷ es) qname h eq =
        let k = cover_qname names hash origin s p e.0 h in
        let (q1, e1, w) = qname_keeps names hash origin s p e.0 h in
        let (q2, e2, c2) = each_lem p es qname k (q1 ∙ eq) in
        (q2 ∙ q1, e2 ∙ e1, ground (arith, c2, qname_step names hash origin s p e.0 h, eq))

    wildcards_lem :
        (p : HashParams × List DomainName) (es : Enclosers) (o : Owners)
        → is_nonempty (find_wildcards names hash origin s rdtype p es o).owners
          ≡ (is_nonempty o.owners || any (λ e. matches (get_wildcard names e.0) p) es)
    unfolding find_wildcards
    wildcards_lem p [] o = ground arith
    wildcards_lem p (e ∷ es) o =
        elim (Option-cases (owner_for names hash origin s rdtype p (get_wildcard names e.0))) [
          | inl q ↦ ground (arith, q, wildcards_lem p es o)
          | inr (d, q) ↦ ground (
            arith,
            q,
            add_lem d o.owners,
            wildcards_lem p es (see_owner names hash origin s rdtype d o),
          )
        ]

    pub all_wildcards_lem :
        (ps : Params) (es : Enclosers) (o : Owners)
        → is_nonempty (find_all_wildcards names hash origin s rdtype ps es o).owners
          ≡ (is_nonempty o.owners || any (λ p. any (λ e. matches (get_wildcard names e.0) p) es) ps)
    unfolding find_all_wildcards
    all_wildcards_lem [] es o = ground arith
    all_wildcards_lem (p ∷ ps) es o = ground (
      arith,
      all_wildcards_lem ps es (find_wildcards names hash origin s rdtype p es o),
      wildcards_lem p es o,
    )

    -- The second loop. Where no record is for the name, each round looks for covering records.
    pub qname_lem :
        (ps : Params) (qname : DomainName) (o : Owners) (h : Hashed)
        → h.qname ≡ qname
        → (is_nonempty (find_qname names hash origin s rdtype ps (o, h)).0.owners
            ≡ (is_nonempty o.owners || any (matches qname) ps))
          × (any (matches qname) ps ≡ false
              → is_nonempty
                  (find_qname names hash origin s rdtype ps (o, h)).1.nsec_names_covering_qname
                ≡ (is_nonempty h.nsec_names_covering_qname
                    || any (covers_next qname h.closest_encloser) ps))
    unfolding find_qname
    qname_lem [] qname o h eq = (ground arith, λ u. ground arith)
    qname_lem (p ∷ ps) qname o h eq =
        elim (Option-cases (owner_for names hash origin s rdtype p qname)) [
          | inl q ↦
              let k = cover_each names hash origin s rdtype p h.closest_encloser h in
              let (q1, e1, c1) = each_lem p h.closest_encloser qname h eq in
              let (a, b) = qname_lem ps qname o k (q1 ∙ eq) in
              (ground (arith, q, eq, a), λ u. ground (arith, q, eq, b, c1, e1, u))
          | inr (d, q) ↦
              let (a, b) = qname_lem ps qname (see_owner names hash origin s rdtype d o) h eq in
              (ground (arith, q, eq, a, add_lem d o.owners), λ u. ground (arith, q, u))
        ]
