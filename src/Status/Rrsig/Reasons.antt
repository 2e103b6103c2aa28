-- ===== src/Status/Rrsig/Reasons.antt =====
-- The errors of RRSIGStatus (dnsviz/analysis/status.py): a signature that is INVALID, premature,
-- expired or wrong comes with an error that says why.
use dnsviz.Base.{Option, Bool, true, false, ◌≡◌, List, [], ◌∷◌, ◌++◌, arith, is_nonempty, refl}
use dnsviz.Dns.Names.{NameApi}
use dnsviz.Status.Issue.{Issue}
use dnsviz.Status.Rrsig.{
  Checked, RrsigStatus, Signing, Validator, expired, invalid, invalid_sig, mark, premature,
  unchecked,
}
use dnsviz.Status.Rrsig.Checks.{
  check_algorithm, check_expiration, check_inception, check_labels, check_length, check_revoked,
  check_signature, check_signer, check_ttls, rrsig_status, signature_valid, warn_algorithm,
}

abbrev pub is_erroneous : RrsigStatus → Bool
is_erroneous expired = true
is_erroneous premature = true
is_erroneous invalid_sig = true
is_erroneous invalid = true
is_erroneous _ = false

abbrev pub HasReason : Checked → Type 0
HasReason c = is_erroneous c.validation_status ≡ true → is_nonempty c.errors ≡ true

nonempty_append : (is : List Issue) (i : Issue) → is_nonempty (is ++ i ∷ []) ≡ true
nonempty_append [] i = refl
nonempty_append (j ∷ is) i = refl

module _ (g : Signing) (c : Checked) (h : HasReason c) where
  algorithm_reason : (sig : Option Bool) → HasReason (check_algorithm g sig c)
  unfolding check_algorithm mark
  algorithm_reason sig = ground (arith, h)

  warn_reason : HasReason (warn_algorithm g c)
  unfolding warn_algorithm
  warn_reason = ground (arith, h)

  ttls_reason : HasReason (check_ttls g c)
  unfolding check_ttls
  ttls_reason = grind (arith, h, nonempty_append)

  signer_reason : (names : NameApi) → HasReason (check_signer g names c)
  unfolding check_signer mark
  signer_reason names = grind (arith, h, nonempty_append)

  labels_reason : HasReason (check_labels g c)
  unfolding check_labels mark
  labels_reason = grind (arith, h, nonempty_append)

  revoked_reason : HasReason (check_revoked g c)
  unfolding check_revoked mark
  revoked_reason = grind (arith, h, nonempty_append)

  length_reason : HasReason (check_length g c)
  unfolding check_length
  length_reason = grind (arith, h, nonempty_append)

  inception_reason : HasReason (check_inception g c)
  unfolding check_inception mark
  inception_reason = grind (arith, h, nonempty_append)

  expiration_reason : HasReason (check_expiration g c)
  unfolding check_expiration mark
  expiration_reason = grind (arith, h, nonempty_append)

  signature_reason : (sig : Option Bool) → HasReason (check_signature g sig c)
  unfolding check_signature mark
  signature_reason sig = grind (arith, h, nonempty_append)

-- A status EXPIRED, PREMATURE, INVALID_SIG or INVALID comes with at least one error.
pub rrsig_status-HasReason :
    (names : NameApi) (validate : Validator) (g : Signing)
    → is_erroneous (rrsig_status names validate g).validation_status ≡ true
    → is_nonempty (rrsig_status names validate g).errors ≡ true
unfolding rrsig_status
rrsig_status-HasReason names validate g wrong =
    let sig = signature_valid validate g in
    let a = algorithm_reason g unchecked (λ e. cc) sig in
    let t = ttls_reason g _ (warn_reason g _ a) in
    let l = labels_reason g _ (signer_reason g _ t names) in
    let i = inception_reason g _ (length_reason g _ (revoked_reason g _ l)) in
    signature_reason g _ (expiration_reason g _ i) sig wrong
