-- ===== src/Status/Ds/Verdict.antt =====
-- The verdict of DSStatus (dnsviz/analysis/status.py): exactly when a DS record is VALID, and that an
-- INVALID one comes with an error.
use dnsviz.Base.{
  Option, none, some, Bool, true, false, not, ◌&&◌, ◌≡◌, ◌↔◌, inl, inr, arith, ◌==◌, elem, is_some,
  Option-cases, sym, ◌∙◌,
}
use dnsviz.Status.Ds.{
  Delegation, DigestValidator, Digested, DsKey, DsStatus, check_digest, check_digest_type,
  check_revoked, check_sha1, digest_valid, ds_status, ignore_sha1, is_revoked, is_valid, mark,
  unchecked, valid, warn_digest_type,
}

abbrev status_valid : Digested → Bool
status_valid c = is_valid c.validation_status

abbrev revoked : Delegation → Option DsKey → Bool
revoked g none = false
revoked g (some k) = is_revoked g k

abbrev refuted : Delegation → Option Bool → Option DsKey → Bool
refuted g (some false) (some k) =
    elem g.ds.digest_type g.supported_digest_algs && k.key_tag == g.ds.key_tag
refuted g _ _ = false

-- A SHA-1 digest is ignored where the RRset has a SHA-256 one that is supported.
abbrev pub is_superseded : Delegation → Bool
is_superseded g = g.ds.digest_type == 1 && (elem 2 g.rrset && elem 2 g.supported_digest_algs)

module _ (g : Delegation) where
  digest_type_lem :
      (v : Option Bool) (c : Digested)
      → status_valid (check_digest_type g v c)
        ≡ ((is_some v && elem g.ds.digest_type g.supported_digest_algs) && status_valid c)
  unfolding check_digest_type mark
  digest_type_lem v c = ground arith

  warn_lem : (c : Digested) → (warn_digest_type g c).validation_status ≡ c.validation_status
  unfolding warn_digest_type
  warn_lem c = ground arith

  revoked_lem :
      (c : Digested)
      → status_valid (check_revoked g c) ≡ (not (revoked g g.dnskey) && status_valid c)
  unfolding check_revoked mark
  revoked_lem c = ground arith

  digest_lem :
      (v : Option Bool) (c : Digested)
      → status_valid (check_digest g v c) ≡ (not (refuted g v g.dnskey) && status_valid c)
  unfolding check_digest mark
  digest_lem v c = ground arith

  sha1_lem :
      (c : Digested) → status_valid (check_sha1 g c) ≡ (not (is_superseded g) && status_valid c)
  unfolding check_sha1 ignore_sha1 mark
  sha1_lem c = ground arith

abbrev passes : DigestValidator → Delegation → Bool
passes validate g =
    let v = digest_valid validate g in
    not (is_superseded g)
    && (not (refuted g v g.dnskey)
        && (not (revoked g g.dnskey)
            && (is_some v && elem g.ds.digest_type g.supported_digest_algs)))

status_passes :
    (validate : DigestValidator) (g : Delegation)
    → status_valid (ds_status validate g) ≡ passes validate g
unfolding ds_status
status_passes validate g =
    let v = digest_valid validate g in
    let a = check_digest_type g v unchecked in
    let w = warn_digest_type g a in
    let r = check_revoked g w in
    ground (
      arith,
      sha1_lem g (check_digest g v r),
      digest_lem g v r,
      revoked_lem g w,
      warn_lem g a,
      digest_type_lem g v unchecked,
    )

-- What a DS record for the key k needs to be VALID.
pub record IsSound (validate : DigestValidator) (g : Delegation) (k : DsKey) : Type 0 where
  pub matched : digest_valid validate g ≡ some true
  pub supported : elem g.ds.digest_type g.supported_digest_algs ≡ true
  pub not_revoked : is_revoked g k ≡ false
  pub not_superseded : is_superseded g ≡ false

valid_of : (s : DsStatus) → (is_valid s ≡ true) ↔ (s ≡ valid)
valid_of s = ground arith

module _ (validate : DigestValidator) (g : Delegation) (k : DsKey) (key : g.dnskey ≡ some k)
    (tag : k.key_tag ≡ g.ds.key_tag) where
  passes_of : IsSound validate g k → passes validate g ≡ true
  passes_of s = ground (arith, s.matched, s.supported, s.not_revoked, s.not_superseded)

  IsSound-of : passes validate g ≡ true → IsSound validate g k
  IsSound-of h = elim (Option-cases (digest_valid validate g)) [
    | inl q ↦ ground arith
    | inr (b, q) ↦ record {
      matched = ground arith;
      supported = ground arith;
      not_revoked = ground arith;
      not_superseded = ground arith;
    }
  ]

-- For a key with the DS record's key tag, the status is VALID exactly when the digest matches, its
-- type is supported, the key is not revoked, and the digest is not a SHA-1 one beside a supported
-- SHA-256 one (RFC 4509). Beside a supported SHA-384 one alone, a SHA-1 digest stays VALID, other than
-- the comment in the source says.
pub ds_status-IsSound :
    (validate : DigestValidator) (g : Delegation) (k : DsKey)
    → g.dnskey ≡ some k
    → k.key_tag ≡ g.ds.key_tag
    → ((ds_status validate g).validation_status ≡ valid) ↔ IsSound validate g k
ds_status-IsSound validate g k key tag =
    let status = valid_of (ds_status validate g).validation_status in
    (
      (λ h. IsSound-of validate g k key tag (sym (status_passes validate g) ∙ status.1 h)),
      (λ s. status.0 (status_passes validate g ∙ passes_of validate g k key tag s)),
    )
