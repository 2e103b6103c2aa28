-- ===== src/Status/Rrsig/Verdict.antt =====
-- The verdict of RRSIGStatus (dnsviz/analysis/status.py): exactly when a signature is VALID, and what
-- an INVALID status comes with.
use dnsviz.Base.{
  ◌-◌, ◌<◌, ◌≤◌, Option, none, some, Bool, true, false, not, ◌&&◌, ◌≡◌, ◌↔◌, inl, inr, arith, ltb,
  leb, ◌==◌, elem, is_some, length, Option-cases, sym, ◌∙◌,
}
use dnsviz.Dns.Names.{NameApi}
use dnsviz.Status.Rrsig.{
  Checked, Dnskey, RrsigStatus, Signing, Validator, is_valid, mark, unchecked, valid,
}
use dnsviz.Status.Rrsig.Checks.{
  check_algorithm, check_expiration, check_inception, check_labels, check_length, check_revoked,
  check_signature, check_signer, check_ttls, is_revoked, rrsig_status, signature_valid,
  signer_is_zone, warn_algorithm,
}

abbrev status_valid : Checked → Bool
status_valid c = is_valid c.validation_status

module _ (g : Signing) where
  -- The signature was validated, to this result, and its algorithm counts.
  abbrev pub is_validated : Option Bool → Bool
  is_validated sig = is_some sig && elem g.rrsig.algorithm g.supported_algs

  -- The key is not revoked, or signs the DNSKEY RRset.
  abbrev pub revoked_elsewhere : Option Dnskey → Bool
  revoked_elsewhere none = false
  revoked_elsewhere (some k) = is_revoked g k && not (g.rrsig.covers == 48)

  abbrev pub owner_has_labels : Bool
  owner_has_labels = leb g.rrsig.labels (length g.rrset.name - 1)

  abbrev pub is_current : Bool
  is_current = leb g.rrsig.inception g.reference_ts && ltb g.reference_ts g.rrsig.expiration

  -- A failed signature is held against the RRSIG only if key tag and algorithm are the key's.
  abbrev pub is_refuted : Option Bool → Option Dnskey → Bool
  is_refuted (some false) (some k) =
      elem k.algorithm g.supported_algs && k.key_tag == g.rrsig.key_tag
  is_refuted _ _ = false

  check_algorithm_lem :
      (sig : Option Bool) (c : Checked)
      → status_valid (check_algorithm g sig c) ≡ (is_validated sig && status_valid c)
  unfolding check_algorithm mark
  check_algorithm_lem sig c = ground arith

  warn_algorithm_lem : (c : Checked) → (warn_algorithm g c).validation_status ≡ c.validation_status
  unfolding warn_algorithm
  warn_algorithm_lem c = ground arith

  check_ttls_lem : (c : Checked) → (check_ttls g c).validation_status ≡ c.validation_status
  unfolding check_ttls
  check_ttls_lem c = ground arith

  check_signer_lem :
      (names : NameApi) (c : Checked)
      → status_valid (check_signer g names c) ≡ (signer_is_zone g names && status_valid c)
  unfolding check_signer mark
  check_signer_lem names c = ground arith

  check_labels_lem :
      (c : Checked) → status_valid (check_labels g c) ≡ (owner_has_labels && status_valid c)
  unfolding check_labels mark
  check_labels_lem c = ground arith

  check_revoked_lem :
      (c : Checked)
      → status_valid (check_revoked g c) ≡ (not (revoked_elsewhere g.dnskey) && status_valid c)
  unfolding check_revoked mark
  check_revoked_lem c = ground arith

  check_length_lem : (c : Checked) → (check_length g c).validation_status ≡ c.validation_status
  unfolding check_length
  check_length_lem c = ground arith

  check_inception_lem :
      (c : Checked)
      → status_valid (check_inception g c)
        ≡ (leb g.rrsig.inception g.reference_ts && status_valid c)
  unfolding check_inception mark
  check_inception_lem c = ground arith

  check_expiration_lem :
      (c : Checked)
      → status_valid (check_expiration g c)
        ≡ (ltb g.reference_ts g.rrsig.expiration && status_valid c)
  unfolding check_expiration mark
  check_expiration_lem c = ground arith

  check_signature_lem :
      (sig : Option Bool) (c : Checked)
      → status_valid (check_signature g sig c) ≡ (not (is_refuted sig g.dnskey) && status_valid c)
  unfolding check_signature mark
  check_signature_lem sig c = ground arith

-- What a signature, made with the key k, needs to be VALID.
pub record IsSound (names : NameApi) (validate : Validator) (g : Signing) : Type 0 where
  pub verified : signature_valid validate g ≡ some true
  pub supported : elem g.rrsig.algorithm g.supported_algs ≡ true
  pub by_zone : signer_is_zone g names ≡ true
  pub labels : g.rrsig.labels ≤ length g.rrset.name - 1
  pub not_revoked : revoked_elsewhere g g.dnskey ≡ false
  pub begun : g.rrsig.inception ≤ g.reference_ts
  pub not_ended : g.reference_ts < g.rrsig.expiration

and_true : (a b : Bool) → (a && b) ≡ true → (a ≡ true) × (b ≡ true)
and_true a b h = ground arith

-- The conjunction of the checks that can change the status.
abbrev passes : NameApi → Validator → Signing → Bool
passes names validate g =
    let sig = signature_valid validate g in
    not (is_refuted g sig g.dnskey)
    && (is_current g
        && (not (revoked_elsewhere g g.dnskey)
            && (owner_has_labels g && (signer_is_zone g names && is_validated g sig))))

status_passes :
    (names : NameApi) (validate : Validator) (g : Signing)
    → status_valid (rrsig_status names validate g) ≡ passes names validate g
unfolding rrsig_status
status_passes names validate g =
    let sig = signature_valid validate g in
    let a = check_algorithm g sig unchecked in
    let c1 = warn_algorithm g a in
    let t = check_ttls g c1 in
    let s = check_signer g names t in
    let c2 = check_labels g s in
    let r = check_revoked g c2 in
    let l = check_length g r in
    let c3 = check_inception g l in
    let x = check_expiration g c3 in
    ground (
      arith,
      check_signature_lem g sig x,
      check_expiration_lem g c3,
      check_inception_lem g l,
      check_length_lem g r,
      check_revoked_lem g c2,
      check_labels_lem g s,
      check_signer_lem g names t,
      check_ttls_lem g c1,
      warn_algorithm_lem g a,
      check_algorithm_lem g sig unchecked,
    )

valid_of : (s : RrsigStatus) → (is_valid s ≡ true) ↔ (s ≡ valid)
valid_of s = ground arith

module _ (names : NameApi) (validate : Validator) (g : Signing) (k : Dnskey)
    (key : g.dnskey ≡ some k) (alg : k.algorithm ≡ g.rrsig.algorithm)
    (tag : k.key_tag ≡ g.rrsig.key_tag) where
  passes_of : IsSound names validate g → passes names validate g ≡ true
  passes_of s =
      ground
        (arith, s.verified, s.supported, s.by_zone, s.labels, s.not_revoked, s.begun, s.not_ended)

  IsSound-of : passes names validate g ≡ true → IsSound names validate g
  IsSound-of h = elim (Option-cases (signature_valid validate g)) [
    | inl q ↦ ground arith
    | inr (b, q) ↦ record {
      verified = ground arith;
      supported = ground arith;
      by_zone = ground arith;
      labels = ground arith;
      not_revoked = ground arith;
      begun = ground arith;
      not_ended = ground arith;
    }
  ]

-- For a key with the signature's algorithm and key tag, the status is VALID exactly for a verified
-- signature with a supported algorithm, by the zone, with no more labels than the owner, within
-- its period, and by a key that is not revoked (or that signs the DNSKEY RRset).
pub rrsig_status-IsSound :
    (names : NameApi) (validate : Validator) (g : Signing) (k : Dnskey)
    → g.dnskey ≡ some k
    → k.algorithm ≡ g.rrsig.algorithm
    → k.key_tag ≡ g.rrsig.key_tag
    → ((rrsig_status names validate g).validation_status ≡ valid) ↔ IsSound names validate g
rrsig_status-IsSound names validate g k key alg tag = (
  (λ h. IsSound-of names validate g k key alg tag (
      sym (status_passes names validate g)
      ∙ (valid_of (rrsig_status names validate g).validation_status).1 h)),
  (λ s.
      (valid_of (rrsig_status names validate g).validation_status).0
        (status_passes names validate g ∙ passes_of names validate g k key alg tag s)),
)
