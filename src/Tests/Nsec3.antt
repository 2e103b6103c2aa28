-- ===== src/Tests/Nsec3.antt =====
-- Tests of the NSEC3 statuses.
use dnsviz.Base.{
  [], ◌∷◌, Option, none, some, true, false, ◌≡◌, refl, not, ◌&&◌, is_nonempty, if◌then◌else◌, ◌==◌,
  ◌||◌,
}
use dnsviz.Denial.NsecSet.{
  add_params, covers, in_windows, insert, is_valid_nsec3_hash, is_valid_nsec3_name, next_name,
  nsec_covering_name, nsec_covers_name, project, rdtype_exists_in_bitmap,
}
use dnsviz.Denial.Closest.{
  check_closest_encloser, checked_enclosers, find_encloser, get_closest_encloser,
  get_digest_for_nsec3, get_digest_name_for_nsec3, potential_enclosers,
}
use dnsviz.Denial.Nsec3.Next.{get_next_closest_encloser-next}
use dnsviz.Denial.Status.{next_closest_encloser, is_valid, unjudged}
use dnsviz.Denial.Status.Verdict.{IsHonest}
use dnsviz.Denial.Nsec3.{
  Enclosers, Nsec3Status, conclude, cover_qname, cover_wildcard, get_next_closest_encloser,
  get_wildcard, has_opt_out, hash_covering, invalid_algs, iteration_warnings, max_iterations,
  nsec3_covering_name, owner_errors_of, report_algorithm, report_valid, valid_algs,
}
use dnsviz.Denial.Nsec3.Nxdomain.{
  cover_enclosers, cover_params, fail_nsec3, fail_once, nxdomain_checks, nxdomain_nsec3_status,
  wildcard_checks, wildcard_encloser, wildcard_nsec3_status,
}
use dnsviz.Denial.Nsec3.Nodata.{HashedNodata, matched_nsec3, nodata_checks}
use dnsviz.Denial.Nsec3.Verdict.{next_closer_is_covered, wildcard_is_covered}
use dnsviz.Denial.Nsec3.Valid.{IsStatus, nxdomain_nsec3_status-valid, wildcard_nsec3_status-valid}
use dnsviz.Denial.Nsec3.Matching.{
  covers_some_next, is_matched, is_valid_status, wildcard_is_matched,
}
use dnsviz.Denial.Nsec3.Bitmaps.{has_bit, is_opted_out, nodata_checks-matched, wildcard_has_bit}
use dnsviz.Denial.Nsec3.Reported.{IsHonestOption, nsec3_checks-IsHonest}
use dnsviz.Base32.{b32encode}
use dnsviz.Denial.Nsec3.Returns.{IsIndexed}
use dnsviz.Dns.Names.{IsNameApi}
use dnsviz.Tests.{before_trans, compare_swapped, same_leb, same_trans}
use dnsviz.Tests.Denial.{key, by_key, count_labels, hashed_origin, nsec3_set, origin, queried}

by_key-IsNameApi : IsNameApi by_key
by_key-IsNameApi = record {
  swapped = λ a b. compare_swapped (key a) (key b);
  trans_before = λ a b c. before_trans (key a) (key b) (key c);
  trans_same = λ a b c. same_trans (key a) (key b) (key c);
  subdomain_refl = λ a b. same_leb (key a) (key b);
}

nsec3_set-IsIndexed : IsIndexed by_key nsec3_set nsec3_set.nsec3_params
nsec3_set-IsIndexed = ((refl, tt), tt)

abbrev found : Enclosers
found = (origin, hashed_origin ∷ []) ∷ []

abbrev no_status : Nsec3Status
no_status = record {
  judged = unjudged;
  warnings = [];
  nsec_set_info = nsec3_set;
  owner_errors = [];
}

abbrev or_none : Option Nsec3Status → Nsec3Status
or_none none = no_status
or_none (some st) = st

closest_encloser_found :
    get_closest_encloser by_key count_labels origin nsec3_set queried ≡ some found
unfolding get_closest_encloser potential_enclosers checked_enclosers check_closest_encloser
    rdtype_exists_in_bitmap in_windows find_encloser get_digest_name_for_nsec3 get_digest_for_nsec3
    nsec_covering_name nsec_covers_name covers next_name b32encode
closest_encloser_found = refl

abbrev denied : Nsec3Status
denied = or_none (nxdomain_nsec3_status by_key count_labels origin nsec3_set queried)

is_denied : nxdomain_nsec3_status by_key count_labels origin nsec3_set queried ≡ some denied
unfolding nxdomain_nsec3_status get_closest_encloser potential_enclosers checked_enclosers
    check_closest_encloser rdtype_exists_in_bitmap in_windows find_encloser
    get_digest_name_for_nsec3 get_digest_for_nsec3 nsec_covering_name nsec_covers_name covers
    next_name b32encode cover_enclosers cover_params cover_qname cover_wildcard hash_covering
    nsec3_covering_name has_opt_out get_next_closest_encloser get_wildcard nxdomain_checks
    fail_nsec3 fail_once valid_algs invalid_algs report_valid report_algorithm conclude
    owner_errors_of iteration_warnings max_iterations project insert is_valid_nsec3_name
    is_valid_nsec3_hash add_params
is_denied = refl

nxdomain_nsec3_status-valid_example :
    (es : Enclosers) × (get_closest_encloser by_key count_labels origin nsec3_set queried ≡ some es)
    × IsStatus (nxdomain_nsec3_status by_key count_labels origin nsec3_set queried) (
        next_closer_is_covered by_key count_labels origin nsec3_set queried es
        && wildcard_is_covered by_key count_labels origin nsec3_set es)
nxdomain_nsec3_status-valid_example =
    nxdomain_nsec3_status-valid by_key count_labels origin nsec3_set queried by_key-IsNameApi
      nsec3_set-IsIndexed

denied_is_valid : is_valid denied.judged.validation_status ≡ true
unfolding nxdomain_nsec3_status get_closest_encloser potential_enclosers checked_enclosers
    check_closest_encloser rdtype_exists_in_bitmap in_windows find_encloser
    get_digest_name_for_nsec3 get_digest_for_nsec3 nsec_covering_name nsec_covers_name covers
    next_name b32encode cover_enclosers cover_params cover_qname cover_wildcard hash_covering
    nsec3_covering_name has_opt_out get_next_closest_encloser get_wildcard nxdomain_checks
    fail_nsec3 fail_once valid_algs invalid_algs report_valid report_algorithm conclude
    owner_errors_of iteration_warnings max_iterations project insert is_valid_nsec3_name
    is_valid_nsec3_hash add_params
denied_is_valid = refl

abbrev answered : Nsec3Status
answered =
    or_none
      (wildcard_nsec3_status by_key count_labels origin nsec3_set queried ((42 ∷ []) ∷ origin))

is_answered :
    wildcard_nsec3_status by_key count_labels origin nsec3_set queried ((42 ∷ []) ∷ origin)
    ≡ some answered
unfolding wildcard_nsec3_status wildcard_encloser get_closest_encloser potential_enclosers
    checked_enclosers check_closest_encloser rdtype_exists_in_bitmap in_windows find_encloser
    get_digest_name_for_nsec3 get_digest_for_nsec3 nsec_covering_name nsec_covers_name covers
    next_name b32encode cover_enclosers cover_params cover_qname cover_wildcard hash_covering
    nsec3_covering_name has_opt_out get_next_closest_encloser get_wildcard wildcard_checks
    fail_nsec3 valid_algs invalid_algs report_valid report_algorithm conclude owner_errors_of
    iteration_warnings max_iterations project insert is_valid_nsec3_name is_valid_nsec3_hash
    add_params
is_answered = refl

wildcard_nsec3_status-valid_example :
    (es : Enclosers) × (get_closest_encloser by_key count_labels origin nsec3_set queried ≡ some es)
    × IsStatus
        (wildcard_nsec3_status by_key count_labels origin nsec3_set queried ((42 ∷ []) ∷ origin))
        (next_closer_is_covered by_key count_labels origin nsec3_set queried
            (wildcard_encloser by_key count_labels origin nsec3_set ((42 ∷ []) ∷ origin) es)
          && not (
              wildcard_is_covered by_key count_labels origin nsec3_set
                (wildcard_encloser by_key count_labels origin nsec3_set ((42 ∷ []) ∷ origin) es)))
wildcard_nsec3_status-valid_example =
    wildcard_nsec3_status-valid by_key count_labels origin nsec3_set queried ((42 ∷ []) ∷ origin)
      by_key-IsNameApi nsec3_set-IsIndexed

-- MX records of the queried name.
abbrev without_mx : HashedNodata
without_mx = matched_nsec3 by_key count_labels origin nsec3_set 15 queried false found

nodata_checks-matched_example :
    is_valid_status (nodata_checks by_key nsec3_set.nsec3_params without_mx) ≡ (
      let has = has_bit by_key count_labels origin nsec3_set 15 queried in
      if is_matched by_key count_labels origin nsec3_set 15 queried
      then (if (15 == 43) || nsec3_set.referral
          then some ((not false || has 2) && (not (has 43) && not (has 6)))
          else some (not (has 15) && not (has 5)))
      else if wildcard_is_matched by_key count_labels origin nsec3_set 15 found
      then (if covers_some_next by_key count_labels origin nsec3_set 15 queried found
          then some (not (wildcard_has_bit by_key count_labels origin nsec3_set 15 found 15))
          else if is_nonempty (valid_algs nsec3_set.nsec3_params)
          then none
          else some false)
      else some (
          covers_some_next by_key count_labels origin nsec3_set 15 queried found
          && is_opted_out by_key count_labels origin nsec3_set 15 queried found))
nodata_checks-matched_example =
    nodata_checks-matched by_key count_labels origin nsec3_set 15 queried false found

nsec3_checks-IsHonest_example :
    IsHonest (nxdomain_checks by_key nsec3_set.nsec3_params without_mx.hashed)
    × IsHonest (wildcard_checks queried nsec3_set.nsec3_params without_mx.hashed)
    × IsHonestOption (nodata_checks by_key nsec3_set.nsec3_params without_mx)
nsec3_checks-IsHonest_example =
    nsec3_checks-IsHonest by_key nsec3_set.nsec3_params without_mx.hashed without_mx queried refl

get_next_closest_encloser-next_example :
    (get_next_closest_encloser ((97 ∷ []) ∷ (98 ∷ []) ∷ origin) origin ≡ (98 ∷ []) ∷ origin)
    × (next_closest_encloser ((97 ∷ []) ∷ (98 ∷ []) ∷ origin) ((42 ∷ []) ∷ origin)
        ≡ (98 ∷ []) ∷ origin)
get_next_closest_encloser-next_example =
    get_next_closest_encloser-next ((97 ∷ []) ∷ []) (98 ∷ []) (42 ∷ []) origin
