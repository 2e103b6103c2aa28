-- ===== src/Denial/Nsec3/Nxdomain.antt =====
-- dnsviz/analysis/status.py: NSEC3StatusNXDOMAIN and NSEC3StatusWildcard.
use dnsviz.Base.{
  List, [], ◌∷◌, ◌++◌, Option, none, some, Bool, true, false, if◌then◌else◌, any, is_nonempty,
}
use dnsviz.Dns.Message.{DomainName}
use dnsviz.Dns.Names.{NameApi}
use dnsviz.Status.Issue.{
  Issue, next_closest_encloser_not_covered_name_error,
  next_closest_encloser_not_covered_wildcard_answer, no_closest_encloser_name_error,
  unsupported_nsec3_algorithm, wildcard_covered_answer_nsec3, wildcard_not_covered_nsec3,
}
use dnsviz.Denial.NsecSet.{NsecSet, labels_above}
use dnsviz.Denial.Closest.{HashApi, get_closest_encloser}
use dnsviz.Denial.Status.{Judged, add_all, invalid, unjudged}
use dnsviz.Denial.Nsec3.{
  Enclosers, Hashed, Nsec3Status, Params, conclude, cover_qname, cover_wildcard,
  get_next_closest_encloser, get_wildcard, invalid_algs, report_algorithm, report_valid, valid_algs,
}

-- `self.validation_status = NSEC_STATUS_INVALID`
abbrev pub invalidate : Judged → Judged
invalidate j = record j { validation_status = invalid }

-- `invalid_alg_err in self.errors`
abbrev pub is_unsupported : Issue → Bool
is_unsupported (unsupported_nsec3_algorithm a) = true
is_unsupported _ = false

-- An invalid status, with the error for the valid algorithms and that of an invalid algorithm.
unfoldable pub fail_nsec3 : Params → Issue → Judged → Judged
unfolding valid_algs invalid_algs report_valid report_algorithm
fail_nsec3 ps i j =
    report_algorithm (invalid_algs ps) (report_valid (valid_algs ps) i (invalidate j))

-- The same, where the algorithm may have been reported.
unfoldable pub fail_once : Params → Issue → Judged → Judged
unfolding valid_algs invalid_algs report_valid report_algorithm
fail_once ps i j =
    let reported = report_valid (valid_algs ps) i (invalidate j) in
    if any is_unsupported reported.errors
    then reported
    else report_algorithm (invalid_algs ps) reported

-- NSEC3StatusNXDOMAIN._set_validation_status, its checks
unfoldable pub nxdomain_checks : NameApi → Params → Hashed → Judged
unfolding fail_nsec3 fail_once get_next_closest_encloser get_wildcard
nxdomain_checks names ps h = elim (h.closest_encloser) [
  | [] ↦ fail_nsec3 ps (no_closest_encloser_name_error h.qname) unjudged
  | e ∷ es ↦
      let j1 =
        if is_nonempty h.nsec_names_covering_qname
        then unjudged
        else fail_nsec3 ps
            (next_closest_encloser_not_covered_name_error (get_next_closest_encloser h.qname e.0))
            unjudged in
      if is_nonempty h.nsec_names_covering_wildcard
      then j1
      else fail_once ps (wildcard_not_covered_nsec3 (get_wildcard names e.0)) j1
]

-- NSEC3StatusWildcard._set_validation_status, its checks. (It has a closest encloser.)
unfoldable pub wildcard_checks : DomainName → Params → Hashed → Judged
unfolding fail_nsec3 get_next_closest_encloser
wildcard_checks wildcard_name ps h =
    let j1 : Judged =
      if is_nonempty h.nsec_names_covering_qname then unjudged else elim (h.closest_encloser) [
        | [] ↦ unjudged
        | e ∷ es ↦
            fail_nsec3 ps
              (next_closest_encloser_not_covered_wildcard_answer
                (get_next_closest_encloser h.qname e.0))
              unjudged
      ] in
    if is_nonempty h.nsec_names_covering_wildcard
    then record j1 {
      validation_status = invalid;
      errors = j1.errors ++ wildcard_covered_answer_nsec3 wildcard_name ∷ [];
    }
    else j1

module _ (names : NameApi) where
  abbrev pub add_values : NsecSet → Enclosers → List DomainName → List DomainName
  add_values s [] ns = ns
  add_values s ((n, ms) ∷ d) ns = add_values s d (add_all names s ms ns)

  module _ (hash : HashApi) (origin : DomainName) (s : NsecSet) where
    -- The loops of `__init__`, over the parameters and over the closest enclosers.
    unfoldable pub cover_params : DomainName → Params → Hashed → Hashed
    unfolding cover_qname cover_wildcard
    cover_params encloser [] h = h
    cover_params encloser (p ∷ ps) h = cover_params encloser ps (
        cover_wildcard names hash origin s p encloser
          (cover_qname names hash origin s p encloser h))

    unfoldable pub cover_enclosers : Enclosers → Hashed → Hashed
    unfolding cover_params
    cover_enclosers [] h = h
    cover_enclosers (e ∷ es) h = cover_enclosers es (cover_params e.0 s.nsec3_params h)

    abbrev pub uncovered : DomainName → Enclosers → Hashed
    uncovered qname es = record {
      qname = qname;
      closest_encloser = es;
      nsec_names_covering_qname = [];
      nsec_names_covering_wildcard = [];
      opt_out = none;
    }

    -- NSEC3StatusNXDOMAIN.__init__; none where a KeyError or a ValueError comes up.
    unfoldable pub nxdomain_nsec3_status : DomainName → Option Nsec3Status
    unfolding cover_enclosers nxdomain_checks conclude get_closest_encloser
    nxdomain_nsec3_status qname = elim (get_closest_encloser names hash origin s qname) [
      | none ↦ none
      | some es ↦
          let h = cover_enclosers es (uncovered qname es) in
          let proof =
            add_values s h.nsec_names_covering_wildcard
              (add_values s h.nsec_names_covering_qname (add_values s es [])) in
          conclude names s proof (nxdomain_checks names s.nsec3_params h)
    ]

    -- NSEC3StatusWildcard._set_closest_encloser; its dummy set {None} is an empty list here, as None
    -- is not projected. (A wildcard name has a parent.)
    unfoldable pub wildcard_encloser : DomainName → Enclosers → Enclosers
    wildcard_encloser wildcard_name [] = (labels_above wildcard_name, []) ∷ []
    wildcard_encloser wildcard_name (e ∷ es) = e ∷ es

    -- NSEC3StatusWildcard.__init__
    unfoldable pub wildcard_nsec3_status : (qname wildcard_name : DomainName) → Option Nsec3Status
    unfolding cover_enclosers wildcard_checks conclude wildcard_encloser get_closest_encloser
    wildcard_nsec3_status qname wildcard_name =
        elim (get_closest_encloser names hash origin s qname) [
          | none ↦ none
          | some found ↦
              let es = wildcard_encloser wildcard_name found in
              let h = cover_enclosers es (uncovered qname es) in
              let proof = add_values s h.nsec_names_covering_qname (add_values s es []) in
              conclude names s proof (wildcard_checks wildcard_name s.nsec3_params h)
        ]
