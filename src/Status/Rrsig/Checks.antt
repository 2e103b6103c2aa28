-- ===== src/Status/Rrsig/Checks.antt =====
-- dnsviz/analysis/status.py: RRSIGStatus.__init__, as a sequence of checks on the status, the errors
-- and the warnings.
use dnsviz.Base.{
  ℕ, ◌+◌, ◌-◌, ◌*◌, [], ◌∷◌, Option, none, some, Bool, false, not, ◌&&◌, ◌||◌, ltb, leb, ◌==◌,
  if◌then◌else◌, elem, is_some, length, lookup, bit_and,
}
use dnsviz.Dns.Message.{DomainName}
use dnsviz.Dns.Names.{NameApi, same_name}
use dnsviz.Status.Issue.{
  Issue, algorithm_not_recommended, algorithm_not_supported, algorithm_prohibited,
  algorithm_validation_prohibited, dnskey_revoked_rrsig, expiration_in_past,
  expiration_within_clock_skew, inception_in_future, inception_within_clock_skew,
  original_ttl_exceeded_rrset, original_ttl_exceeded_rrsig, rrset_ttl_mismatch,
  rrsig_labels_exceed_rrset_owner_labels, signature_invalid, signer_not_zone, ttl_beyond_expiration,
}
use dnsviz.Status.Rrsig.{
  Checked, Dnskey, Signing, Validator, algorithm_ignored, error, expired,
  indeterminate_match_pre_revoke, indeterminate_no_dnskey, indeterminate_unknown_algorithm, invalid,
  invalid_sig, mark, min, not_recommended, premature, prohibited, sig_lengths, unchecked,
  validation_prohibited, warn,
}

unfoldable pub signature_valid : Validator → Signing → Option Bool
signature_valid validate g = elim (g.dnskey) [
  | none ↦ none
  | some k ↦ validate k.algorithm g.rrsig.signature g.rrset.message_for_rrsig k.key
]

module _ (g : Signing) where
  -- The signature could not be validated, or its algorithm is to be ignored: why.
  unfoldable pub check_algorithm : Option Bool → Checked → Checked
  check_algorithm sig c =
      if not (is_some sig) || not (elem g.rrsig.algorithm g.supported_algs)
      then elim (g.dnskey) [
        | none ↦ mark indeterminate_no_dnskey c
        | some k ↦
            if elem k.algorithm validation_prohibited
            then mark algorithm_ignored c
            else warn (algorithm_not_supported g.rrsig.algorithm)
                (mark indeterminate_unknown_algorithm c)
      ]
      else c

  unfoldable pub warn_algorithm : Checked → Checked
  warn_algorithm c =
      let alg = g.rrsig.algorithm in
      let c1 =
        if elem alg validation_prohibited
        then warn (algorithm_validation_prohibited alg) c
        else c in
      if elem alg prohibited
      then warn (algorithm_prohibited alg) c1
      else if elem alg not_recommended
      then warn (algorithm_not_recommended alg) c1
      else c1

  -- RDTYPES_TTL_EXEMPT holds NSEC3PARAM, 51.
  unfoldable pub check_ttls : Checked → Checked
  check_ttls c =
      let ttl = g.rrset.ttl in
      let sig = g.rrset.rrsig_ttl in
      let orig = g.rrsig.original_ttl in
      let c1 =
        if g.rrset.ttl_cmp && not (ttl == sig) then warn (rrset_ttl_mismatch ttl sig) c else c in
      let c2 = if ltb orig ttl then error (original_ttl_exceeded_rrset ttl orig) c1 else c1 in
      let c3 = if ltb orig sig then error (original_ttl_exceeded_rrsig sig orig) c2 else c2 in
      if elem g.rrset.rdtype (51 ∷ []) then c else c3

  abbrev pub min_ttl : ℕ
  min_ttl = min (min g.rrset.ttl g.rrset.rrsig_ttl) g.rrsig.original_ttl

  -- The signer is the zone, or with no zone given an ancestor of the owner.
  unfoldable pub signer_is_zone : NameApi → Bool
  signer_is_zone names = elim (g.zone_name) [
    | none ↦ names.is_subdomain g.rrset.name g.rrsig.signer
    | some z ↦ same_name names g.rrsig.signer z
  ]

  unfoldable pub check_signer : NameApi → Checked → Checked
  check_signer names c =
      let zone : DomainName = elim (g.zone_name) [ none ↦ g.rrsig.signer | some z ↦ z ] in
      if not (signer_is_zone names)
      then error (signer_not_zone zone g.rrsig.signer) (mark invalid c)
      else c

  -- `rrsig.labels > len(name) - 1`; a name has at least its root label.
  unfoldable pub check_labels : Checked → Checked
  check_labels c =
      let owner = length g.rrset.name - 1 in
      if ltb owner g.rrsig.labels
      then mark invalid (error (rrsig_labels_exceed_rrset_owner_labels g.rrsig.labels owner) c)
      else c

  -- The REVOKE flag is 0x80, and DNSKEY is type 48.
  abbrev pub is_revoked : Dnskey → Bool
  is_revoked k = not (bit_and k.flags 0x80 == 0)

  unfoldable pub check_revoked : Checked → Checked
  check_revoked c = elim (g.dnskey) [
    | none ↦ c
    | some k ↦
        if is_revoked k && not (g.rrsig.covers == 48)
        then if not (g.rrsig.key_tag == k.key_tag)
          then mark indeterminate_match_pre_revoke c
          else mark invalid (error dnskey_revoked_rrsig c)
        else c
  ]

  unfoldable pub check_length : Checked → Checked
  check_length c =
      let len = length g.rrsig.signature * 8 in
      elim (lookup {B = ℕ × (ℕ → Issue)} g.rrsig.algorithm sig_lengths) [
        | none ↦ c
        | some (n, issue) ↦ if not (len == n) then error (issue len) c else c
      ]

  -- CLOCK_SKEW_WARNING is 300; the difference is written as a sum.
  unfoldable pub check_inception : Checked → Checked
  check_inception c =
      let start = g.rrsig.inception in
      if ltb g.reference_ts start
      then error (inception_in_future start g.reference_ts) (mark premature c)
      else if ltb g.reference_ts (start + 300)
      then warn (inception_within_clock_skew start g.reference_ts) c
      else c

  unfoldable pub check_expiration : Checked → Checked
  check_expiration c =
      let end = g.rrsig.expiration in
      let now = g.reference_ts in
      if leb end now
      then error (expiration_in_past end now) (mark expired c)
      else if ltb end (now + min_ttl)
      then error (ttl_beyond_expiration end min_ttl now) c
      else if leb end (now + 300)
      then warn (expiration_within_clock_skew end now) c
      else c

  -- A signature that failed, reported unless the key was revoked after signing.
  unfoldable pub check_signature : Option Bool → Checked → Checked
  check_signature (some false) c = elim (g.dnskey) [
    | none ↦ c
    | some k ↦
        if elem k.algorithm g.supported_algs && k.key_tag == g.rrsig.key_tag
        then error signature_invalid (mark invalid_sig c)
        else c
  ]
  check_signature _ c = c

-- RRSIGStatus.__init__
unfoldable pub rrsig_status : NameApi → Validator → Signing → Checked
rrsig_status names validate g =
    let sig = signature_valid validate g in
    let c1 = warn_algorithm g (check_algorithm g sig unchecked) in
    let c2 = check_labels g (check_signer g names (check_ttls g c1)) in
    let c3 = check_inception g (check_length g (check_revoked g c2)) in
    check_signature g sig (check_expiration g c3)
