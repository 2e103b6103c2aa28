-- ===== src/Denial/Nsec3/Reported.antt =====
-- That the checks of the NSEC3 statuses of dnsviz/analysis/status.py list an error exactly when the
-- status is not VALID.
use dnsviz.Base.{
  List, [], ◌∷◌, ◌++◌, Option, none, some, true, ◌||◌, ◌≡◌, inl, inr, refl, any, is_nonempty, arith,
  Bool-cases,
}
use dnsviz.Dns.Message.{DomainName}
use dnsviz.Dns.Names.{NameApi}
use dnsviz.Status.Issue.{Issue}
use dnsviz.Denial.NsecSet.{HashParams}
use dnsviz.Denial.Status.{Judged, fail, unjudged}
use dnsviz.Denial.Status.Verdict.{IsHonest}
use dnsviz.Denial.Nsec3.{Hashed, Params, invalid_algs, report_algorithm, report_valid, valid_algs}
use dnsviz.Denial.Nsec3.Nxdomain.{
  fail_nsec3, fail_once, invalidate, is_unsupported, nxdomain_checks, wildcard_checks,
}
use dnsviz.Denial.Nsec3.Nodata.{
  HashedNodata, check_opt_out, check_qname, check_wildcard_name, nodata_checks,
}
use dnsviz.Denial.Nsec3.Verdict.{fail_status, once_status, report_algorithm_lem}

-- Each parameter has a valid or an invalid algorithm.
algs_lem :
    (p : HashParams × List DomainName) (ps : Params)
    → (is_nonempty (valid_algs (p ∷ ps)) || is_nonempty (invalid_algs (p ∷ ps))) ≡ true
unfolding valid_algs invalid_algs
algs_lem p ps = ground arith

end_nonempty : (is : List Issue) (i : Issue) → is_nonempty (is ++ i ∷ []) ≡ true
end_nonempty [] i = refl
end_nonempty (j ∷ is) i = refl

report_algorithm_errors :
    (ps : Params) (j : Judged)
    → is_nonempty (report_algorithm ps j).errors ≡ (is_nonempty ps || is_nonempty j.errors)
unfolding report_algorithm
report_algorithm_errors [] j = refl
report_algorithm_errors (p ∷ ps) j = end_nonempty j.errors _

report_valid_errors :
    (ps : Params) (i : Issue) (j : Judged)
    → is_nonempty (report_valid ps i j).errors ≡ (is_nonempty ps || is_nonempty j.errors)
unfolding report_valid
report_valid_errors [] i j = refl
report_valid_errors (p ∷ ps) i j = end_nonempty j.errors i

fail_errors :
    (ps : Params) (i : Issue) (j : Judged)
    → is_nonempty ps ≡ true
    → is_nonempty (fail_nsec3 ps i j).errors ≡ true
unfolding fail_nsec3
fail_errors [] i j h = cc
fail_errors (p ∷ ps) i j h = ground (
  arith,
  algs_lem p ps,
  report_algorithm_errors (invalid_algs (p ∷ ps))
      (report_valid (valid_algs (p ∷ ps)) i (invalidate j)),
  report_valid_errors (valid_algs (p ∷ ps)) i (invalidate j),
)

any_nonempty : (is : List Issue) → any is_unsupported is ≡ true → is_nonempty is ≡ true
any_nonempty [] h = cc
any_nonempty (i ∷ is) h = refl

once_errors :
    (ps : Params) (i : Issue) (j : Judged)
    → is_nonempty ps ≡ true
    → is_nonempty (fail_once ps i j).errors ≡ true
unfolding fail_once
once_errors [] i j h = cc
once_errors (p ∷ ps) i j h =
    let r = report_valid (valid_algs (p ∷ ps)) i (invalidate j) in
    elim (Bool-cases (any is_unsupported r.errors)) [
      | inl q ↦ rw (q, fail_once) (any_nonempty r.errors q)
      | inr q ↦
          rw (q, fail_once)
            (ground (
              arith,
              algs_lem p ps,
              report_algorithm_errors (invalid_algs (p ∷ ps)) r,
              report_valid_errors (valid_algs (p ∷ ps)) i (invalidate j),
            ))
    ]

-- An option of a status is honest where there is one.
abbrev pub IsHonestOption : Option Judged → Type 0
IsHonestOption none = Unit
IsHonestOption (some j) = IsHonest j

fail-IsHonest :
    (ps : Params) (i : Issue) (j : Judged) → is_nonempty ps ≡ true → IsHonest (fail_nsec3 ps i j)
fail-IsHonest ps i j h = ground (arith, fail_errors ps i j h, fail_status ps i j)

once-IsHonest :
    (ps : Params) (i : Issue) (j : Judged) → is_nonempty ps ≡ true → IsHonest (fail_once ps i j)
once-IsHonest ps i j h = ground (arith, once_errors ps i j h, once_status ps i j)

nxdomain-IsHonest :
    (names : NameApi) (ps : Params) (h : Hashed)
    → is_nonempty ps ≡ true
    → IsHonest (nxdomain_checks names ps h)
unfolding nxdomain_checks
nxdomain-IsHonest names ps h some_params = grind (arith, fail-IsHonest, once-IsHonest)

wildcard-IsHonest :
    (w : DomainName) (ps : Params) (h : Hashed)
    → is_nonempty ps ≡ true
    → IsHonest (wildcard_checks w ps h)
unfolding wildcard_checks
wildcard-IsHonest w ps h some_params = grind (arith, fail-IsHonest, end_nonempty)

qname-IsHonest : (m : HashedNodata) → IsHonest (check_qname m)
unfolding check_qname fail
qname-IsHonest m = ground arith

wildcard_name-IsHonest :
    (names : NameApi) (p : HashParams × List DomainName) (ps : Params) (m : HashedNodata)
    → IsHonestOption (check_wildcard_name names (p ∷ ps) m)
unfolding check_wildcard_name fail
wildcard_name-IsHonest names p ps m =
    grind (arith, algs_lem p ps, report_algorithm_errors, report_algorithm_lem, end_nonempty)

opt_out-IsHonest :
    (ps : Params) (m : HashedNodata) → is_nonempty ps ≡ true → IsHonest (check_opt_out ps m)
unfolding check_opt_out
opt_out-IsHonest ps m h = grind (arith, fail-IsHonest)

nodata-IsHonest :
    (names : NameApi) (ps : Params) (m : HashedNodata)
    → is_nonempty ps ≡ true
    → IsHonestOption (nodata_checks names ps m)
unfolding nodata_checks
nodata-IsHonest names [] m h = cc
nodata-IsHonest names (p ∷ ps) m h = elim (Bool-cases (is_nonempty m.for_qname.owners)) [
  | inl a ↦ rw (a, nodata_checks) (qname-IsHonest m)
  | inr a ↦ elim (Bool-cases (is_nonempty m.for_wildcard_name.owners)) [
    | inl b ↦ rw (a, b, nodata_checks) (wildcard_name-IsHonest names p ps m)
    | inr b ↦ elim (Bool-cases (is_nonempty m.hashed.nsec_names_covering_qname)) [
      | inl c ↦ rw (a, b, c, nodata_checks) (opt_out-IsHonest (p ∷ ps) m h)
      | inr c ↦ rw (a, b, c, nodata_checks) (fail-IsHonest (p ∷ ps) _ unjudged h)
    ]
  ]
]

-- With at least one NSEC3 record, the checks of the three kinds of proof list an error exactly when
-- they find the proof not VALID (and raise no exception).
pub nsec3_checks-IsHonest :
    (names : NameApi) (ps : Params) (h : Hashed) (m : HashedNodata) (wildcard_name : DomainName)
    → is_nonempty ps ≡ true
    → IsHonest (nxdomain_checks names ps h)
      × IsHonest (wildcard_checks wildcard_name ps h)
      × IsHonestOption (nodata_checks names ps m)
nsec3_checks-IsHonest names ps h m wildcard_name some_params = (
  nxdomain-IsHonest names ps h some_params,
  wildcard-IsHonest wildcard_name ps h some_params,
  nodata-IsHonest names ps m some_params,
)
