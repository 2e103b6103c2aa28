-- ===== src/Status/Ds.antt =====
-- dnsviz/analysis/status.py: DSStatus.__init__, as a sequence of checks on the status, the errors and
-- the warnings.
pub mod Verdict
use dnsviz.Base.{
  ℕ, List, [], ◌∷◌, ◌++◌, Option, none, some, Bool, true, false, not, ◌&&◌, ◌||◌, ◌==◌,
  if◌then◌else◌, elem, is_some, bit_and, select, any, is_nonempty,
}
use dnsviz.Dns.Message.{Bytes, RRset}
use dnsviz.Status.Issue.{
  Issue, digest_algorithm_not_recommended, digest_algorithm_not_supported,
  digest_algorithm_prohibited, digest_algorithm_validation_prohibited, digest_invalid,
  dnskey_revoked_ds, ds_digest_algorithm_ignored, ds_digest_algorithm_maybe_ignored,
}

-- DS_STATUS_*
pub data DsStatus : Type 0 where
  valid indeterminate_no_dnskey indeterminate_match_pre_revoke indeterminate_unknown_algorithm
        algorithm_ignored invalid_digest invalid :
      DsStatus

-- The DNSKEYMeta: its flags, its key tag, and the bytes that a DS digests.
pub record DsKey : Type 0 where
  pub flags : ℕ
  pub key_tag : ℕ
  pub message_for_ds : Bytes

-- A DS record.
pub record Ds : Type 0 where
  pub key_tag : ℕ
  pub digest_type : ℕ
  pub digest : Bytes

-- The arguments of the constructor; `rrset` holds the digest types of the whole DS RRset.
pub record Delegation : Type 0 where
  pub ds : Ds
  pub rrset : List ℕ
  pub dnskey : Option DsKey
  pub supported_digest_algs : List ℕ

pub record Digested : Type 0 where
  pub validation_status : DsStatus
  pub errors : List Issue
  pub warnings : List Issue

abbrev pub is_valid : DsStatus → Bool
is_valid valid = true
is_valid _ = false

-- `if self.validation_status == DS_STATUS_VALID: self.validation_status = ...`
unfoldable pub mark : DsStatus → Digested → Digested
mark s c = if is_valid c.validation_status then record c { validation_status = s } else c

abbrev pub error : Issue → Digested → Digested
error i c = record c { errors = c.errors ++ i ∷ [] }

abbrev pub warn : Issue → Digested → Digested
warn i c = record c { warnings = c.warnings ++ i ∷ [] }

-- `crypto.validate_ds_digest`: none where the digest cannot be made.
abbrev pub DigestValidator : Type 0
DigestValidator = (digest_type : ℕ) (digest message : Bytes) → Option Bool

unfoldable pub digest_valid : DigestValidator → Delegation → Option Bool
digest_valid validate g = elim (g.dnskey) [
  | none ↦ none
  | some k ↦ validate g.ds.digest_type g.ds.digest k.message_for_ds
]

-- DS_DIGEST_ALGS_VALIDATION_PROHIBITED and DS_DIGEST_ALGS_NOT_RECOMMENDED are empty.
abbrev pub validation_prohibited : List ℕ
validation_prohibited = []

abbrev pub not_recommended : List ℕ
not_recommended = []

abbrev pub prohibited : List ℕ
prohibited = 0 ∷ 1 ∷ 3 ∷ []

module _ (g : Delegation) where
  unfoldable pub check_digest_type : Option Bool → Digested → Digested
  check_digest_type valid? c =
      if not (is_some valid?) || not (elem g.ds.digest_type g.supported_digest_algs)
      then elim (g.dnskey) [
        | none ↦ mark indeterminate_no_dnskey c
        | some k ↦
            if elem g.ds.digest_type validation_prohibited
            then mark algorithm_ignored c
            else warn (digest_algorithm_not_supported g.ds.digest_type)
                (mark indeterminate_unknown_algorithm c)
      ]
      else c

  unfoldable pub warn_digest_type : Digested → Digested
  warn_digest_type c =
      let t = g.ds.digest_type in
      let c1 =
        if elem t validation_prohibited
        then warn (digest_algorithm_validation_prohibited t) c
        else c in
      if elem t prohibited
      then warn (digest_algorithm_prohibited t) c1
      else if elem t not_recommended
      then warn (digest_algorithm_not_recommended t) c1
      else c1

  -- The REVOKE flag is 0x80.
  abbrev pub is_revoked : DsKey → Bool
  is_revoked k = not (bit_and k.flags 0x80 == 0)

  unfoldable pub check_revoked : Digested → Digested
  check_revoked c = elim (g.dnskey) [
    | none ↦ c
    | some k ↦
        if is_revoked k
        then if not (k.key_tag == g.ds.key_tag)
          then mark indeterminate_match_pre_revoke c
          else mark invalid (error dnskey_revoked_ds c)
        else c
  ]

  -- A digest that differs, reported unless the key was revoked after the DS was made.
  unfoldable pub check_digest : Option Bool → Digested → Digested
  check_digest (some false) c = elim (g.dnskey) [
    | none ↦ c
    | some k ↦
        if elem g.ds.digest_type g.supported_digest_algs && k.key_tag == g.ds.key_tag
        then error digest_invalid (mark invalid_digest c)
        else c
  ]
  check_digest _ c = c

  -- The set `stronger_algs_all_ds`, in increasing order: the supported digest types of the RRset
  -- among DS_DIGEST_ALGS_STRONGER_THAN_SHA1.
  abbrev pub stronger_algs_all_ds : List ℕ
  stronger_algs_all_ds = select (λ t. elem t g.rrset && elem t g.supported_digest_algs) (2 ∷ 4 ∷ [])

  -- The loop over that set; DS_DIGEST_ALGS_IGNORING_SHA1 holds 2.
  unfoldable pub ignore_sha1 : List ℕ → Digested → Digested
  ignore_sha1 [] c = c
  ignore_sha1 (t ∷ ts) c = ignore_sha1 ts (
      if elem t (2 ∷ [])
      then warn (ds_digest_algorithm_ignored 1 t) (mark algorithm_ignored c)
      else warn (ds_digest_algorithm_maybe_ignored 1 t) c)

  -- RFC 4509, for a DS with digest type SHA-1.
  unfoldable pub check_sha1 : Digested → Digested
  check_sha1 c = if g.ds.digest_type == 1 then ignore_sha1 stronger_algs_all_ds c else c

abbrev pub unchecked : Digested
unchecked = record { validation_status = valid; errors = []; warnings = [] }

-- DSStatus.__init__
unfoldable pub ds_status : DigestValidator → Delegation → Digested
ds_status validate g =
    let digest = digest_valid validate g in
    let c1 = warn_digest_type g (check_digest_type g digest unchecked) in
    check_sha1 g (check_digest g digest (check_revoked g c1))
