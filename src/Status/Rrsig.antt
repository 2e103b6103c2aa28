-- ===== src/Status/Rrsig.antt =====
-- dnsviz/analysis/status.py: RRSIGStatus.__init__, what it reads and what it changes. Timestamps and TTLs are whole seconds.
pub mod Checks
pub mod Verdict
pub mod Reasons
use dnsviz.Base.{
  ℕ, ◌+◌, ◌-◌, ◌*◌, List, [], ◌∷◌, ◌++◌, Option, none, some, Bool, true, false, not, ◌&&◌, ◌||◌,
  ltb, leb, ◌==◌, if◌then◌else◌, elem, is_some, length, lookup, bit_and,
}
use dnsviz.Dns.Message.{Bytes, DomainName}
use dnsviz.Status.Issue.{
  Issue, rrsig_bad_length_ecdsa256, rrsig_bad_length_ecdsa384, rrsig_bad_length_ed25519,
  rrsig_bad_length_ed448, rrsig_bad_length_gost,
}

-- RRSIG_STATUS_*
pub data RrsigStatus : Type 0 where
  valid indeterminate_no_dnskey indeterminate_match_pre_revoke indeterminate_unknown_algorithm
        algorithm_ignored expired premature invalid_sig invalid :
      RrsigStatus

-- The DNSKEY's rdata and its key tag (DNSKEYMeta).
pub record Dnskey : Type 0 where
  pub algorithm : ℕ
  pub flags : ℕ
  pub key : Bytes
  pub key_tag : ℕ

pub record Rrsig : Type 0 where
  pub algorithm : ℕ
  pub labels : ℕ
  pub original_ttl : ℕ
  pub expiration : ℕ
  pub inception : ℕ
  pub key_tag : ℕ
  pub signer : DomainName
  pub signature : Bytes
  pub covers : ℕ

-- The RRsetInfo: the RRset, whether TTLs are compared, the TTL with which the signature came, and
-- the bytes that it signs.
pub record SignedRrset : Type 0 where
  pub name : DomainName
  pub rdtype : ℕ
  pub ttl : ℕ
  pub ttl_cmp : Bool
  pub rrsig_ttl : ℕ
  pub message_for_rrsig : Bytes

-- The arguments of the constructor.
pub record Signing : Type 0 where
  pub rrset : SignedRrset
  pub rrsig : Rrsig
  pub dnskey : Option Dnskey
  pub zone_name : Option DomainName
  pub reference_ts : ℕ
  pub supported_algs : List ℕ

-- The attributes that the checks change.
pub record Checked : Type 0 where
  pub validation_status : RrsigStatus
  pub errors : List Issue
  pub warnings : List Issue

abbrev pub not_recommended : List ℕ
not_recommended = 5 ∷ 7 ∷ 10 ∷ []

abbrev pub prohibited : List ℕ
prohibited = 1 ∷ 3 ∷ 6 ∷ 12 ∷ []

abbrev pub validation_prohibited : List ℕ
validation_prohibited = 1 ∷ 3 ∷ 6 ∷ []

abbrev pub is_valid : RrsigStatus → Bool
is_valid valid = true
is_valid _ = false

-- `if self.validation_status == RRSIG_STATUS_VALID: self.validation_status = ...`
unfoldable pub mark : RrsigStatus → Checked → Checked
mark s c = if is_valid c.validation_status then record c { validation_status = s } else c

abbrev pub error : Issue → Checked → Checked
error i c = record c { errors = c.errors ++ i ∷ [] }

abbrev pub warn : Issue → Checked → Checked
warn i c = record c { warnings = c.warnings ++ i ∷ [] }

-- RRSIG_SIG_LENGTHS_BY_ALGORITHM and RRSIG_SIG_LENGTH_ERRORS
abbrev pub sig_lengths : List (ℕ × (ℕ × (ℕ → Issue)))
sig_lengths =
    (12, (512, rrsig_bad_length_gost))
    ∷ (13, (512, rrsig_bad_length_ecdsa256))
    ∷ (14, (768, rrsig_bad_length_ecdsa384))
    ∷ (15, (512, rrsig_bad_length_ed25519))
    ∷ (16, (912, rrsig_bad_length_ed448))
    ∷ []

-- The result of the cryptographic validation: none where it is not possible.
abbrev pub Validator : Type 0
Validator = (algorithm : ℕ) (signature message key : Bytes) → Option Bool

abbrev pub unchecked : Checked
unchecked = record { validation_status = valid; errors = []; warnings = [] }

abbrev pub min : ℕ → ℕ → ℕ
min a b = if leb a b then a else b
