-- ===== src/Denial/Nsec3/Verdict.antt =====
-- When the NSEC3 statuses of dnsviz/analysis/status.py are VALID, by what the hashes of the names and
-- the records that cover them show.
use dnsviz.Base.{
  List, [], ◌∷◌, some, Bool, true, false, not, ◌&&◌, ◌||◌, ◌≡◌, inl, inr, refl, ◌∙◌, sym, ap, any,
  is_nonempty, is_some, arith, Option-cases,
}
use dnsviz.Dns.Message.{DomainName}
use dnsviz.Status.Issue.{Issue, no_closest_encloser_name_error}
use dnsviz.Dns.Names.{NameApi}
use dnsviz.Denial.NsecSet.{HashParams, NsecSet}
use dnsviz.Denial.Closest.{HashApi}
use dnsviz.Denial.Status.{Judged, invalid, is_valid, unjudged}
use dnsviz.Denial.Nsec3.{
  Enclosers, Hashed, Nsec3Status, Params, conclude, cover_qname, cover_wildcard,
  get_next_closest_encloser, get_wildcard, hash_covering, invalid_algs, report_algorithm,
  report_valid, set_names, valid_algs,
}
use dnsviz.Denial.Nsec3.Nxdomain.{
  cover_enclosers, cover_params, fail_nsec3, fail_once, invalidate, nxdomain_checks, uncovered,
  wildcard_checks,
}

any_or :
    {A : Type 0} (p : A → Bool) (b : Bool) (xs : List A) (x : A)
    → ((b || p x) || any p xs) ≡ (b || any p (x ∷ xs))
any_or p b xs x = ground arith

pub report_algorithm_lem :
    (ps : Params) (j : Judged) → (report_algorithm ps j).validation_status ≡ j.validation_status
unfolding report_algorithm
report_algorithm_lem [] j = refl
report_algorithm_lem (p ∷ ps) j = refl

report_valid_lem :
    (ps : Params) (i : Issue) (j : Judged)
    → (report_valid ps i j).validation_status ≡ j.validation_status
unfolding report_valid
report_valid_lem [] i j = refl
report_valid_lem (p ∷ ps) i j = refl

pub fail_status :
    (ps : Params) (i : Issue) (j : Judged) → (fail_nsec3 ps i j).validation_status ≡ invalid
unfolding fail_nsec3
fail_status ps i j = report_algorithm_lem (invalid_algs ps) _ ∙ report_valid_lem (valid_algs ps) i _

pub once_status :
    (ps : Params) (i : Issue) (j : Judged) → (fail_once ps i j).validation_status ≡ invalid
unfolding fail_once
once_status ps i j = ground (
  arith,
  report_algorithm_lem (invalid_algs ps) (report_valid (valid_algs ps) i (invalidate j)),
  report_valid_lem (valid_algs ps) i (invalidate j),
)

-- The checks, in terms of what is covered.
nxdomain_checks_status :
    (names : NameApi) (ps : Params) (h : Hashed)
    → is_valid (nxdomain_checks names ps h).validation_status ≡ (
        is_nonempty h.closest_encloser
        && (is_nonempty h.nsec_names_covering_qname && is_nonempty h.nsec_names_covering_wildcard))
unfolding nxdomain_checks
nxdomain_checks_status names ps h =
    ground (arith, fail_status ps (no_closest_encloser_name_error h.qname) unjudged)

wildcard_checks_status :
    (w : DomainName) (ps : Params) (h : Hashed)
    → is_nonempty h.closest_encloser ≡ true
    → is_valid (wildcard_checks w ps h).validation_status ≡ (
        is_nonempty h.nsec_names_covering_qname && not (is_nonempty h.nsec_names_covering_wildcard))
unfolding wildcard_checks
wildcard_checks_status w ps h e = grind (arith, fail_status)

module _ (names : NameApi) where
  set_names_lem :
      (n : DomainName) (ns : List DomainName) (d : Enclosers)
      → is_nonempty (set_names names n ns d) ≡ true
  set_names_lem n ns [] = refl
  set_names_lem n ns ((m, ms) ∷ d) = ground arith

  module _ (hash : HashApi) (origin : DomainName) (s : NsecSet) where
    -- Some record, with its parameters, covers the hash of the name.
    abbrev pub is_covered : DomainName → Bool
    is_covered name = any (λ p. is_some (hash_covering names hash origin s p name)) s.nsec3_params

    -- Some closest encloser has a covered name one label below it, towards the queried name.
    abbrev pub next_closer_is_covered : DomainName → Enclosers → Bool
    next_closer_is_covered qname = any (λ e. is_covered (get_next_closest_encloser qname e.0))

    abbrev pub wildcard_is_covered : Enclosers → Bool
    wildcard_is_covered = any (λ e. is_covered (get_wildcard names e.0))

    pub qname_step :
        (p : HashParams × List DomainName) (e : DomainName) (h : Hashed)
        → is_nonempty (cover_qname names hash origin s p e h).nsec_names_covering_qname ≡ (
            is_nonempty h.nsec_names_covering_qname
            || is_some (hash_covering names hash origin s p (get_next_closest_encloser h.qname e)))
    unfolding cover_qname
    qname_step p e h =
        elim (Option-cases
          (hash_covering names hash origin s p (get_next_closest_encloser h.qname e))) [
            | inl q ↦ ground (arith, q)
            | inr (dc, q) ↦ ground (arith, q, set_names_lem dc.0 dc.1 h.nsec_names_covering_qname)
          ]

    wildcard_step :
        (p : HashParams × List DomainName) (e : DomainName) (h : Hashed)
        → is_nonempty (cover_wildcard names hash origin s p e h).nsec_names_covering_wildcard ≡ (
            is_nonempty h.nsec_names_covering_wildcard
            || is_some (hash_covering names hash origin s p (get_wildcard names e)))
    unfolding cover_wildcard
    wildcard_step p e h =
        elim (Option-cases (hash_covering names hash origin s p (get_wildcard names e))) [
          | inl q ↦ ground (arith, q)
          | inr (dc, q) ↦ ground (arith, q, set_names_lem dc.0 dc.1 h.nsec_names_covering_wildcard)
        ]

    pub qname_keeps :
        (p : HashParams × List DomainName) (e : DomainName) (h : Hashed)
        → ((cover_qname names hash origin s p e h).qname ≡ h.qname)
          × ((cover_qname names hash origin s p e h).closest_encloser ≡ h.closest_encloser)
          × ((cover_qname names hash origin s p e h).nsec_names_covering_wildcard
              ≡ h.nsec_names_covering_wildcard)
    unfolding cover_qname
    qname_keeps p e h =
        elim (Option-cases
          (hash_covering names hash origin s p (get_next_closest_encloser h.qname e))) [
            | inl q ↦ rw (q, cover_qname) (refl, refl, refl)
            | inr (dc, q) ↦ rw (q, cover_qname) (refl, refl, refl)
          ]

    wildcard_keeps :
        (p : HashParams × List DomainName) (e : DomainName) (h : Hashed)
        → ((cover_wildcard names hash origin s p e h).qname ≡ h.qname)
          × ((cover_wildcard names hash origin s p e h).closest_encloser ≡ h.closest_encloser)
          × ((cover_wildcard names hash origin s p e h).nsec_names_covering_qname
              ≡ h.nsec_names_covering_qname)
    unfolding cover_wildcard
    wildcard_keeps p e h =
        elim (Option-cases (hash_covering names hash origin s p (get_wildcard names e))) [
          | inl q ↦ rw (q, cover_wildcard) (refl, refl, refl)
          | inr (dc, q) ↦ rw (q, cover_wildcard) (refl, refl, refl)
        ]

    -- The fields after a loop, in terms of those before.
    record Covers (qname_covered wildcard_covered : Bool) (h k : Hashed) : Type 0 where
      keeps_qname : k.qname ≡ h.qname
      keeps_encloser : k.closest_encloser ≡ h.closest_encloser
      over_qname :
          is_nonempty k.nsec_names_covering_qname
          ≡ (is_nonempty h.nsec_names_covering_qname || qname_covered)
      over_wildcard :
          is_nonempty k.nsec_names_covering_wildcard
          ≡ (is_nonempty h.nsec_names_covering_wildcard || wildcard_covered)

    no_loop : (h : Hashed) → Covers false false h h
    no_loop h = record {
      keeps_qname = refl;
      keeps_encloser = refl;
      over_qname = ground arith;
      over_wildcard = ground arith;
    }

    loops :
        {a b c d : Bool} {h k l : Hashed}
        → Covers a b h k
        → Covers c d k l
        → Covers (a || c) (b || d) h l
    loops u v = record {
      keeps_qname = v.keeps_qname ∙ u.keeps_qname;
      keeps_encloser = v.keeps_encloser ∙ u.keeps_encloser;
      over_qname = ground (arith, u.over_qname, v.over_qname);
      over_wildcard = ground (arith, u.over_wildcard, v.over_wildcard);
    }

    abbrev hashes_over : DomainName → List (HashParams × List DomainName) → Bool
    hashes_over name = any (λ p. is_some (hash_covering names hash origin s p name))

    step :
        (p : HashParams × List DomainName) (e qname : DomainName) (h : Hashed)
        → h.qname ≡ qname
        → Covers
            (is_some (hash_covering names hash origin s p (get_next_closest_encloser qname e)))
            (is_some (hash_covering names hash origin s p (get_wildcard names e)))
            h
            (cover_wildcard names hash origin s p e (cover_qname names hash origin s p e h))
    step p e qname h eq =
        let k = cover_qname names hash origin s p e h in
        let (q1, e1, w1) = qname_keeps p e h in
        let (q2, e2, w2) = wildcard_keeps p e k in
        record {
          keeps_qname = q2 ∙ q1;
          keeps_encloser = e2 ∙ e1;
          over_qname = ap is_nonempty w2 ∙ rw (sym eq) (qname_step p e h);
          over_wildcard =
              wildcard_step p e k
              ∙ ap
                  (λ (w : Enclosers).
                    is_nonempty w
                    || is_some (hash_covering names hash origin s p (get_wildcard names e)))
                  w1;
        }

    params_loop :
        (e qname : DomainName) (ps : Params) (h : Hashed)
        → h.qname ≡ qname
        → Covers
            (hashes_over (get_next_closest_encloser qname e) ps)
            (hashes_over (get_wildcard names e) ps)
            h
            (cover_params names hash origin s e ps h)
    unfolding cover_params
    params_loop e qname [] h eq = no_loop h
    params_loop e qname (p ∷ ps) h eq =
        let first = step p e qname h eq in
        loops first (params_loop e qname ps _ (first.keeps_qname ∙ eq))

    enclosers_loop :
        (qname : DomainName) (es : Enclosers) (h : Hashed)
        → h.qname ≡ qname
        → Covers
            (next_closer_is_covered qname es)
            (wildcard_is_covered es)
            h
            (cover_enclosers names hash origin s es h)
    unfolding cover_enclosers
    enclosers_loop qname [] h eq = no_loop h
    enclosers_loop qname (e ∷ es) h eq =
        let first = params_loop e.0 qname s.nsec3_params h eq in
        loops first (enclosers_loop qname es _ (first.keeps_qname ∙ eq))

    pub nxdomain_verdict :
        (qname : DomainName) (es : Enclosers)
        → is_valid
            (nxdomain_checks names s.nsec3_params (
              cover_enclosers names hash origin s es
                (uncovered names hash origin s qname es))).validation_status
          ≡ (next_closer_is_covered qname es && wildcard_is_covered es)
    nxdomain_verdict qname es =
        let c = enclosers_loop qname es (uncovered names hash origin s qname es) refl in
        nxdomain_checks_status names s.nsec3_params _
        ∙ ground (arith, c.keeps_encloser, c.over_qname, c.over_wildcard)

    pub wildcard_verdict :
        (qname w : DomainName) (es : Enclosers)
        → is_nonempty es ≡ true
        → is_valid
            (wildcard_checks w s.nsec3_params (
              cover_enclosers names hash origin s es
                (uncovered names hash origin s qname es))).validation_status
          ≡ (next_closer_is_covered qname es && not (wildcard_is_covered es))
    wildcard_verdict qname w es some_encloser =
        let c = enclosers_loop qname es (uncovered names hash origin s qname es) refl in
        wildcard_checks_status w s.nsec3_params _ (ap is_nonempty c.keeps_encloser ∙ some_encloser)
        ∙ ground (arith, c.over_qname, c.over_wildcard)

    pub conclude_status :
        (proof : List DomainName) (j : Judged) (st : Nsec3Status) (b : Bool)
        → is_valid j.validation_status ≡ b
        → conclude names s proof j ≡ some st
        → is_valid st.judged.validation_status ≡ b
    unfolding conclude
    conclude_status proof j st b q e = ground arith
