-- ===== src/Tests/Status.antt =====
-- Tests of the statuses of signatures and DS records.
use dnsviz.Base.{ℕ, [], ◌∷◌, some, true, ◌≡◌, ◌↔◌, refl, is_nonempty}
use dnsviz.Dns.Message.{DomainName}
use dnsviz.Status.Rrsig
use dnsviz.Status.Rrsig.{Rrsig, Dnskey, SignedRrset, Signing, Validator}
use dnsviz.Status.Rrsig.Checks.{
  rrsig_status, check_algorithm, warn_algorithm, check_ttls, check_signer, check_labels,
  check_revoked, check_length, check_inception, check_expiration, check_signature, signature_valid,
  signer_is_zone,
}
use dnsviz.Status.Rrsig.Verdict.{rrsig_status-IsSound}
use dnsviz.Status.Rrsig.Reasons.{rrsig_status-HasReason, is_erroneous}
use dnsviz.Status.Ds
use dnsviz.Status.Ds.{Ds, DsKey, Delegation, ds_status, DigestValidator}
use dnsviz.Status.Ds.Verdict.{ds_status-IsSound}
use dnsviz.Tests.{by_length}

abbrev zone : DomainName
zone = (122 ∷ []) ∷ [] ∷ []

-- A signature that verifies whatever is signed.
abbrev accepting : Validator
accepting _ _ _ _ = some true

abbrev a_key : Dnskey
a_key = record { algorithm = 8; flags = 256; key = 1 ∷ []; key_tag = 4242 }

abbrev signing : ℕ → Signing
signing now = record {
  rrset = record {
    name = zone;
    rdtype = 1;
    ttl = 300;
    ttl_cmp = true;
    rrsig_ttl = 300;
    message_for_rrsig = [];
  };
  rrsig = record {
    algorithm = 8;
    labels = 1;
    original_ttl = 300;
    expiration = 90000;
    inception = 10000;
    key_tag = 4242;
    signer = zone;
    signature = 7 ∷ [];
    covers = 1;
  };
  dnskey = some a_key;
  zone_name = some zone;
  reference_ts = now;
  supported_algs = 8 ∷ [];
}

rrsig_status-IsSound_example :
    ((rrsig_status by_length accepting (signing 20000)).validation_status ≡ Rrsig.valid)
    ↔ Rrsig.Verdict.IsSound by_length accepting (signing 20000)
rrsig_status-IsSound_example =
    rrsig_status-IsSound by_length accepting (signing 20000) a_key refl refl refl

-- A week later the signature has expired.
expired : is_erroneous (rrsig_status by_length accepting (signing 700000)).validation_status ≡ true
unfolding rrsig_status check_algorithm warn_algorithm check_ttls check_signer check_labels
    check_revoked check_length check_inception check_expiration check_signature signature_valid
    signer_is_zone Rrsig.mark
expired = refl

rrsig_status-HasReason_example :
    is_nonempty (rrsig_status by_length accepting (signing 700000)).errors ≡ true
rrsig_status-HasReason_example = rrsig_status-HasReason by_length accepting (signing 700000) expired

abbrev ds_key : DsKey
ds_key = record { flags = 257; key_tag = 4242; message_for_ds = [] }

abbrev delegation : Delegation
delegation = record {
  ds = record { key_tag = 4242; digest_type = 1; digest = [] };
  rrset = 1 ∷ 2 ∷ [];
  dnskey = some ds_key;
  supported_digest_algs = 1 ∷ 2 ∷ 4 ∷ [];
}

abbrev matching : DigestValidator
matching _ _ _ = some true

ds_status-IsSound_example :
    ((ds_status matching delegation).validation_status ≡ Ds.valid)
    ↔ Ds.Verdict.IsSound matching delegation ds_key
ds_status-IsSound_example = ds_status-IsSound matching delegation ds_key refl refl
