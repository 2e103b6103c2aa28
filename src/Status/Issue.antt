-- ===== src/Status/Issue.antt =====
-- dnsviz/analysis/errors.py, as dnsviz/analysis/status.py uses it: an error or a warning is its class
-- with the keyword arguments of its constructor. Names stand for their text, times for their date.
use dnsviz.Base.{ℕ}
use dnsviz.Dns.Message.{Bytes, DomainName}

pub data Issue : Type 0 where
  algorithm_not_supported algorithm_validation_prohibited algorithm_prohibited
        algorithm_not_recommended :
      ℕ → Issue
  rrset_ttl_mismatch : (rrset_ttl rrsig_ttl : ℕ) → Issue
  original_ttl_exceeded_rrset : (rrset_ttl original_ttl : ℕ) → Issue
  original_ttl_exceeded_rrsig : (rrsig_ttl original_ttl : ℕ) → Issue
  signer_not_zone : (zone_name signer_name : DomainName) → Issue
  rrsig_labels_exceed_rrset_owner_labels : (rrsig_labels rrset_owner_labels : ℕ) → Issue
  dnskey_revoked_rrsig dnskey_revoked_ds signature_invalid digest_invalid : Issue
  rrsig_bad_length_gost rrsig_bad_length_ecdsa256 rrsig_bad_length_ecdsa384 rrsig_bad_length_ed25519
        rrsig_bad_length_ed448 :
      ℕ → Issue
  inception_in_future inception_within_clock_skew : (inception reference_time : ℕ) → Issue
  expiration_in_past expiration_within_clock_skew : (expiration reference_time : ℕ) → Issue
  ttl_beyond_expiration : (expiration rrsig_ttl reference_time : ℕ) → Issue
  digest_algorithm_not_supported digest_algorithm_validation_prohibited digest_algorithm_prohibited
        digest_algorithm_not_recommended :
      ℕ → Issue
  ds_digest_algorithm_ignored ds_digest_algorithm_maybe_ignored :
      (algorithm new_algorithm : ℕ) → Issue
  sname_not_covered_name_error sname_not_covered_wildcard_answer : (sname : DomainName) → Issue
  wildcard_not_covered_nsec : (wildcard : DomainName) → Issue
  last_nsec_next_not_zone : (nsec_owner next_name zone_name : DomainName) → Issue
  wildcard_expansion_invalid : (sname wildcard next_closest_encloser : DomainName) → Issue
  wildcard_covered_answer_nsec : (wildcard : DomainName) → Issue
  referral_without_ns_bit_nsec referral_with_ds_bit_nsec referral_with_soa_bit_nsec
        sname_covered_nodata_nsec no_nsec_matching_sname_nodata :
      (sname : DomainName) → Issue
  stype_in_bitmap_nodata_nsec : (sname : DomainName) (stype : ℕ) → Issue
  unsupported_nsec3_algorithm nsec3_iteration_count_non_zero : ℕ → Issue
  no_closest_encloser_name_error wildcard_not_covered_nsec3 wildcard_covered_answer_nsec3
        invalid_nsec3_owner_name referral_without_ns_bit_nsec3 referral_with_ds_bit_nsec3
        referral_with_soa_bit_nsec3 no_nsec3_matching_sname_ds_nodata
        no_nsec3_matching_sname_nodata :
      DomainName → Issue
  next_closest_encloser_not_covered_name_error next_closest_encloser_not_covered_wildcard_answer
        next_closest_encloser_not_covered_wildcard_nodata opt_out_flag_not_set_nodata_ds
        opt_out_flag_not_set_nodata :
      (next_closest_encloser : DomainName) → Issue
  stype_in_bitmap_nodata_nsec3 stype_in_bitmap_wildcard_nodata_nsec3 :
      (sname : DomainName) (stype : ℕ) → Issue
  invalid_nsec3_hash : (name : DomainName) (hash : Bytes) → Issue
  dname_no_cname dname_ttl_zero : Issue
  dname_target_mismatch : (included_target synthesized_target : DomainName) → Issue
  dname_ttl_mismatch : (cname_ttl dname_ttl : ℕ) → Issue
  edns_support_no_opt edns_ignored gratuitous_opt : Issue
  implemented_edns_version_not_provided edns_version_mismatch :
      (request_version response_version : ℕ) → Issue
  edns_undefined_flags_set cookie_invalid_length missing_sep_for_alg : ℕ → Issue
  gratuitous_cookie malformed_cookie_without_formerr no_server_cookie_without_badcookie
        invalid_server_cookie_without_badcookie no_cookie_option no_server_cookie
        client_cookie_mismatch no_sep :
      Issue
  server_unresponsive_udp server_unresponsive_tcp server_invalid_response_udp
        server_invalid_response_tcp server_not_authoritative :
      Issue
  not_authoritative recursion_not_available : Issue
  referral_for_ds_query : (parent : DomainName) → Issue
  inconsistent_nxdomain_ancestry : (qname ancestor_qname : DomainName) → Issue
  foreign_class_data_answer foreign_class_data_authority foreign_class_data_additional :
      (cls : ℕ) → Issue
