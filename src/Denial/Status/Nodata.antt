-- ===== src/Denial/Status/Nodata.antt =====
-- dnsviz/analysis/status.py: NSECStatusNODATA.
use dnsviz.Base.{
  ℕ, List, [], Option, none, some, Bool, false, not, ◌&&◌, ◌||◌, ◌==◌, if◌then◌else◌, is_nonempty,
  is_some, first,
}
use dnsviz.Dns.Message.{DomainName}
use dnsviz.Dns.Names.{NameApi, same_name}
use dnsviz.Status.Issue.{
  Issue, referral_without_ns_bit_nsec, referral_with_ds_bit_nsec, referral_with_soa_bit_nsec,
  stype_in_bitmap_nodata_nsec, sname_covered_nodata_nsec, no_nsec_matching_sname_nodata,
}
use dnsviz.Denial.NsecSet.{NsecRecord, NsecSet, get, in_windows, nsec_covering_name, next_name}
use dnsviz.Denial.Status.{Judged, unjudged, fail, check_origin, wildcard_of}

-- The bits of a record's bitmap that matter; all clear where there is no record for the name.
pub record Bits : Type 0 where
  pub has_rdtype : Bool
  pub has_ns : Bool
  pub has_ds : Bool
  pub has_soa : Bool

-- NS is 2, DS is 43 and SOA is 6.
unfoldable pub bits_of : ℕ → Option NsecRecord → Bits
unfolding in_windows
bits_of rdtype none = record { has_rdtype = false; has_ns = false; has_ds = false; has_soa = false }
bits_of rdtype (some r) = record {
  has_rdtype = in_windows rdtype r.windows;
  has_ns = in_windows 2 r.windows;
  has_ds = in_windows 43 r.windows;
  has_soa = in_windows 6 r.windows;
}

-- The fields that `_set_validation_status` reads.
pub record Matched : Type 0 where
  pub qname : DomainName
  pub rdtype : ℕ
  pub origin : DomainName
  pub is_zone : Bool
  pub referral : Bool
  pub nsec_for_qname : Option NsecRecord
  pub bits : Bits
  pub nsec_names_covering_qname : List DomainName
  pub wildcard_name : Option DomainName
  pub nsec_for_wildcard_name : Option NsecRecord
  pub wildcard_bits : Bits
  pub nsec_names_covering_origin : List DomainName

abbrev pub fail_if : Bool → Issue → Judged → Judged
fail_if b i j = if b then fail i j else j

-- The checks of a referral or a DS query, on the bits of a name's record.
unfoldable pub check_referral : Bool → DomainName → Bits → Judged → Judged
unfolding fail
check_referral is_zone name b j = fail_if b.has_soa (referral_with_soa_bit_nsec name) (
    fail_if b.has_ds (referral_with_ds_bit_nsec name)
      (fail_if (is_zone && not b.has_ns) (referral_without_ns_bit_nsec name) j))

abbrev pub of_parent : Matched → Bool
of_parent m = (m.rdtype == 43) || m.referral

-- The bits of the name's own record. (`has_rdtype` is that of the name in both places.)
unfoldable pub check_bits : Matched → DomainName → Bits → Judged → Judged
unfolding check_referral fail
check_bits m name b j =
    if of_parent m
    then check_referral m.is_zone name b j
    else fail_if m.bits.has_rdtype (stype_in_bitmap_nodata_nsec m.qname m.rdtype) j

abbrev pub wildcard_or_empty : Matched → DomainName
wildcard_or_empty m = elim (m.wildcard_name) [ none ↦ [] | some w ↦ w ]

-- The branch of a record for the wildcard, before the check of the origin.
unfoldable pub check_wildcard : Matched → Judged
unfolding check_bits fail
check_wildcard m =
    fail_if m.wildcard_bits.has_rdtype (stype_in_bitmap_nodata_nsec (wildcard_or_empty m) m.rdtype)
      (check_bits m (wildcard_or_empty m) m.wildcard_bits unjudged)

module _ (names : NameApi) (s : NsecSet) where
  -- A record whose next name lies below the name, which makes it an empty non-terminal.
  unfoldable pub nsec_above : DomainName → Option NsecRecord
  nsec_above qname =
      first
        (λ r.
          names.is_subdomain (next_name names r) qname
          && not (same_name names (next_name names r) qname))
        s.rrsets

  unfoldable pub nsec_for : Bool → DomainName → Option NsecRecord
  unfolding nsec_above
  nsec_for sname_must_match qname = elim (get names qname s.rrsets) [
    | some r ↦ some r
    | none ↦ if sname_must_match then none else nsec_above qname
  ]

  -- NSECStatusNODATA.__init__, up to the call of `_set_validation_status`
  unfoldable pub matched :
      (qname : DomainName) (rdtype : ℕ) (origin : DomainName) (is_zone sname_must_match : Bool)
      → Matched
  unfolding nsec_for bits_of
  matched qname rdtype origin is_zone sname_must_match =
      let over_qname = nsec_covering_name names qname s in
      let wildcard = wildcard_of names s qname over_qname in
      let for_wildcard : Option NsecRecord = elim wildcard [
        | none ↦ none
        | some w ↦ get names w s.rrsets
      ] in
      record {
        qname = qname;
        rdtype = rdtype;
        origin = origin;
        is_zone = is_zone;
        referral = s.referral;
        nsec_for_qname = nsec_for sname_must_match qname;
        bits = bits_of rdtype (get names qname s.rrsets);
        nsec_names_covering_qname = over_qname;
        wildcard_name = wildcard;
        nsec_for_wildcard_name = for_wildcard;
        wildcard_bits = bits_of rdtype for_wildcard;
        nsec_names_covering_origin = nsec_covering_name names origin s;
      }

  -- NSECStatusNODATA._set_validation_status, its checks
  unfoldable pub nodata_status : Matched → Judged
  unfolding check_bits check_wildcard fail
  nodata_status m =
      if is_some m.nsec_for_qname
      then fail_if (is_nonempty m.nsec_names_covering_qname) (sname_covered_nodata_nsec m.qname)
          (check_bits m m.qname m.bits unjudged)
      else if is_some m.nsec_for_wildcard_name
      then check_origin names s m.origin m.nsec_names_covering_origin (check_wildcard m)
      else fail (no_nsec_matching_sname_nodata m.qname) unjudged
