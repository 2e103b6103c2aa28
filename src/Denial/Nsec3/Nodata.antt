-- ===== src/Denial/Nsec3/Nodata.antt =====
-- dnsviz/analysis/status.py: NSEC3StatusNODATA.
use dnsviz.Base.{
  ℕ, List, [], ◌∷◌, Option, none, some, Bool, true, false, not, ◌&&◌, ◌||◌, ◌==◌, if◌then◌else◌,
  is_nonempty,
}
use dnsviz.Dns.Message.{DomainName}
use dnsviz.Dns.Names.{NameApi}
use dnsviz.Status.Issue.{
  Issue, no_nsec3_matching_sname_ds_nodata, no_nsec3_matching_sname_nodata,
  opt_out_flag_not_set_nodata, opt_out_flag_not_set_nodata_ds, referral_with_ds_bit_nsec3,
  referral_with_soa_bit_nsec3, referral_without_ns_bit_nsec3, stype_in_bitmap_nodata_nsec3,
  stype_in_bitmap_wildcard_nodata_nsec3,
}
use dnsviz.Denial.NsecSet.{HashParams, NsecRecord, NsecSet, add, get, has_name, in_windows}
use dnsviz.Denial.Closest.{HashApi, get_closest_encloser, get_digest_name_for_nsec3}
use dnsviz.Denial.Status.{Judged, add_all, fail, invalid, unjudged}
use dnsviz.Denial.Nsec3.{
  Enclosers, Hashed, Nsec3Status, Params, conclude, cover_qname, get_next_closest_encloser,
  get_wildcard, invalid_algs, report_algorithm, valid_algs,
}
use dnsviz.Denial.Nsec3.Nxdomain.{add_values, fail_nsec3, uncovered}

-- The bits that the bitmaps of the records for a name have.
pub record Bitmap : Type 0 where
  pub has_rdtype : Bool
  pub has_cname : Bool
  pub has_ns : Bool
  pub has_ds : Bool
  pub has_soa : Bool

abbrev pub no_bits : Bitmap
no_bits = record {
  has_rdtype = false;
  has_cname = false;
  has_ns = false;
  has_ds = false;
  has_soa = false;
}

-- CNAME is 5, NS is 2, DS is 43 and SOA is 6. (An owner with parameters has a record.)
unfoldable pub see_bits : ℕ → Option NsecRecord → Bitmap → Bitmap
unfolding in_windows
see_bits rdtype none b = b
see_bits rdtype (some r) b = record {
  has_rdtype = in_windows rdtype r.windows || b.has_rdtype;
  has_cname = in_windows 5 r.windows || b.has_cname;
  has_ns = in_windows 2 r.windows || b.has_ns;
  has_ds = in_windows 43 r.windows || b.has_ds;
  has_soa = in_windows 6 r.windows || b.has_soa;
}

-- The owners of the records for a name, and their bits.
pub record Owners : Type 0 where
  pub owners : List DomainName
  pub bits : Bitmap

pub record HashedNodata : Type 0 where
  pub rdtype : ℕ
  pub is_zone : Bool
  pub referral : Bool
  pub hashed : Hashed
  pub for_qname : Owners
  pub for_wildcard_name : Owners

abbrev pub append_if : Bool → Issue → Judged → Judged
append_if b i j = if b then fail i j else j

-- The record of the name itself: the bits for a referral or DS (43), or of the type.
unfoldable pub check_qname : HashedNodata → Judged
unfolding fail
check_qname m =
    let name = m.hashed.qname in
    let b = m.for_qname.bits in
    if m.rdtype == 43 || m.referral
    then append_if b.has_soa (referral_with_soa_bit_nsec3 name) (
        append_if b.has_ds (referral_with_ds_bit_nsec3 name)
          (append_if (m.is_zone && not b.has_ns) (referral_without_ns_bit_nsec3 name) unjudged))
    else append_if b.has_cname (stype_in_bitmap_nodata_nsec3 name 5)
        (append_if b.has_rdtype (stype_in_bitmap_nodata_nsec3 name m.rdtype) unjudged)

abbrev pub first_encloser : Enclosers → DomainName
first_encloser [] = []
first_encloser (e ∷ es) = e.0

-- The record of the wildcard. The name `next_closest_encloser` is not bound where the source reads
-- it: none is this UnboundLocalError. (With a record of a wildcard there is a closest encloser.)
unfoldable pub check_wildcard_name : NameApi → Params → HashedNodata → Option Judged
unfolding fail get_wildcard report_algorithm valid_algs invalid_algs
check_wildcard_name names ps m =
    let b = m.for_wildcard_name.bits in
    let wildcard = get_wildcard names (first_encloser m.hashed.closest_encloser) in
    let stype = stype_in_bitmap_wildcard_nodata_nsec3 wildcard m.rdtype in
    if is_nonempty m.hashed.nsec_names_covering_qname
    then some (append_if b.has_rdtype stype unjudged)
    else if is_nonempty (valid_algs ps)
    then none
    else some (
        append_if b.has_rdtype stype
          (report_algorithm (invalid_algs ps) (record unjudged { validation_status = invalid })))

-- No record, but the next closest encloser is covered: it has to be opted out.
unfoldable pub check_opt_out : Params → HashedNodata → Judged
unfolding fail_nsec3 get_next_closest_encloser
check_opt_out ps m =
    let next =
      get_next_closest_encloser m.hashed.qname (first_encloser m.hashed.closest_encloser) in
    elim (m.hashed.opt_out) [
      | some true ↦ unjudged
      | _ ↦
          fail_nsec3 ps
            (if m.rdtype == 43
              then opt_out_flag_not_set_nodata_ds next
              else opt_out_flag_not_set_nodata next)
            unjudged
    ]

-- NSEC3StatusNODATA._set_validation_status, its checks
unfoldable pub nodata_checks : NameApi → Params → HashedNodata → Option Judged
unfolding check_qname check_wildcard_name check_opt_out fail_nsec3
nodata_checks names ps m =
    if is_nonempty m.for_qname.owners
    then some (check_qname m)
    else if is_nonempty m.for_wildcard_name.owners
    then check_wildcard_name names ps m
    else if is_nonempty m.hashed.nsec_names_covering_qname
    then some (check_opt_out ps m)
    else some (
        fail_nsec3 ps
          (if m.rdtype == 43
            then no_nsec3_matching_sname_ds_nodata m.hashed.qname
            else no_nsec3_matching_sname_nodata m.hashed.qname)
          unjudged)

module _ (names : NameApi) (hash : HashApi) (origin : DomainName) (s : NsecSet) (rdtype : ℕ) where
  -- `digest_name in nsec3_names`, for the hash of a name
  abbrev pub owner_for : HashParams × List DomainName → DomainName → Option DomainName
  owner_for (p, ns) name = elim (get_digest_name_for_nsec3 names hash origin p name) [
    | none ↦ none
    | some d ↦ if has_name names d ns then some d else none
  ]

  abbrev pub see_owner : DomainName → Owners → Owners
  see_owner d o = record {
    owners = add names d o.owners;
    bits = see_bits rdtype (get names d s.rrsets) o.bits;
  }

  -- The first loop, for each parameters and closest encloser.
  unfoldable pub find_wildcards : HashParams × List DomainName → Enclosers → Owners → Owners
  unfolding see_bits get_wildcard
  find_wildcards p [] o = o
  find_wildcards p (e ∷ es) o =
      find_wildcards p es
        (elim (owner_for p (get_wildcard names e.0)) [ none ↦ o | some d ↦ see_owner d o ])

  unfoldable pub find_all_wildcards : Params → Enclosers → Owners → Owners
  unfolding find_wildcards
  find_all_wildcards [] es o = o
  find_all_wildcards (p ∷ ps) es o = find_all_wildcards ps es (find_wildcards p es o)

  abbrev pub cover_each : HashParams × List DomainName → Enclosers → Hashed → Hashed
  cover_each p [] h = h
  cover_each p (e ∷ es) h = cover_each p es (cover_qname names hash origin s p e.0 h)

  -- The second loop: the record of the name, or else what covers the next closest enclosers.
  unfoldable pub find_qname : Params → Owners × Hashed → Owners × Hashed
  unfolding see_bits cover_qname
  find_qname [] found = found
  find_qname (p ∷ ps) (o, h) = find_qname ps (elim (owner_for p h.qname) [
    | some d ↦ (see_owner d o, h)
    | none ↦ (o, cover_each p h.closest_encloser h)
  ])

  -- NSEC3StatusNODATA.__init__, up to the call of `_set_validation_status`
  unfoldable pub matched_nsec3 : (qname : DomainName) (is_zone : Bool) → Enclosers → HashedNodata
  unfolding find_all_wildcards find_qname
  matched_nsec3 qname is_zone es =
      let none_yet : Owners = record { owners = []; bits = no_bits } in
      let (for_qname, h) =
        find_qname s.nsec3_params (none_yet, uncovered names hash origin s qname es) in
      record {
        rdtype = rdtype;
        is_zone = is_zone;
        referral = s.referral;
        hashed = h;
        for_qname = for_qname;
        for_wildcard_name = find_all_wildcards s.nsec3_params es none_yet;
      }

  -- NSEC3StatusNODATA.__init__; none where an exception comes up.
  unfoldable pub nodata_nsec3_status : (qname : DomainName) (is_zone : Bool) → Option Nsec3Status
  unfolding matched_nsec3 nodata_checks conclude get_closest_encloser
  nodata_nsec3_status qname is_zone = elim (get_closest_encloser names hash origin s qname) [
    | none ↦ none
    | some es ↦
        let m = matched_nsec3 qname is_zone es in
        let covering =
          if is_nonempty m.for_qname.owners
          then add_all names s m.for_qname.owners (add_values names s es [])
          else add_values names s m.hashed.nsec_names_covering_qname (add_values names s es []) in
        elim (nodata_checks names s.nsec3_params m) [
          | none ↦ none
          | some j ↦ conclude names s (add_all names s m.for_wildcard_name.owners covering) j
        ]
  ]
