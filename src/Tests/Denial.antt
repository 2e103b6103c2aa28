-- ===== src/Tests/Denial.antt =====
-- Tests of denial of existence.
use dnsviz.Base.{
  ℕ, [], ◌∷◌, some, true, false, ◌≡◌, refl, All, not, ◌&&◌, ◌||◌, is_some, if◌then◌else◌, leb,
  length, ◌*◌,
}
use Prim.Native.Nat.{compare}
use dnsviz.Base32.{b32encode}
use dnsviz.Dns.Message.{DomainName}
use dnsviz.Dns.Names.{NameApi, before, same_name}
use dnsviz.Denial.NsecSet.{
  NsecSet, NsecRecord, nsec, nsec3, HashParams, get, nsec_covers_name, nsec_covering_name,
  next_name, covers, empty_set,
}
use dnsviz.Denial.Covering.{between, nsec_covers_name-between, nsec_covering_name-apart}
use dnsviz.Denial.Closest.{HashApi, find_encloser, get_digest_name_for_nsec3, get_digest_for_nsec3}
use dnsviz.Denial.Encloser.{IsEncloser, find_encloser-IsEncloser}
use dnsviz.Denial.Wildcard.{get_wildcard, last_index}
use dnsviz.Denial.Wildcard.Encloser.{get_wildcard-encloser}
use dnsviz.Denial.Status.{covered, nxdomain_status, wildcard_status, is_valid}
use dnsviz.Denial.Status.Nodata.{matched, nodata_status, Matched}
use dnsviz.Denial.Status.Verdict.{status-IsHonest, IsHonest}
use dnsviz.Denial.Status.Valid.{
  allows, has_type, is_above, is_covered, last_of, nodata_status-valid, nxdomain_status-valid,
  of_wildcard, wildcard_record, wildcard_status-valid,
}
use dnsviz.Tests.{by_length, by_length-IsNameApi}

-- Names by their number of labels.
abbrev pub origin : DomainName
origin = (122 ∷ []) ∷ [] ∷ []

abbrev pub queried : DomainName
queried = (98 ∷ []) ∷ (109 ∷ []) ∷ origin

-- A record that goes from the origin round to itself, and its set.
abbrev round_trip : NsecRecord
round_trip = record { name = origin; next = nsec origin; windows = (0, 34 ∷ []) ∷ [] }

abbrev one_record : NsecSet
one_record = record (empty_set by_length false) { rrsets = round_trip ∷ [] }

nsec_covers_name-between_example : nsec_covers_name by_length one_record queried round_trip ≡ (
    between by_length origin queried (next_name by_length round_trip)
    && not (
        before by_length origin (next_name by_length round_trip)
        && by_length.is_subdomain (next_name by_length round_trip) queried))
nsec_covers_name-between_example =
    nsec_covers_name-between by_length one_record queried round_trip by_length-IsNameApi refl

covers_queried : nsec_covers_name by_length one_record queried round_trip ≡ true
unfolding nsec_covers_name covers next_name
covers_queried = refl

nsec_covering_name-apart_example :
    All
      (λ n. same_name by_length n queried ≡ false)
      (nsec_covering_name by_length queried one_record)
nsec_covering_name-apart_example =
    nsec_covering_name-apart by_length one_record queried by_length-IsNameApi

-- b.m.z., with the NSEC from a.m.z. to x.z.: the wildcard is *.m.z.
get_wildcard-encloser_example :
    get_wildcard
      ((98 ∷ []) ∷ (109 ∷ []) ∷ origin)
      ((97 ∷ []) ∷ (109 ∷ []) ∷ origin)
      ((120 ∷ []) ∷ origin)
    ≡ (42 ∷ []) ∷ (109 ∷ []) ∷ origin
get_wildcard-encloser_example =
    get_wildcard-encloser [] (98 ∷ []) ((97 ∷ []) ∷ []) (109 ∷ []) origin ((120 ∷ []) ∷ origin) refl
      refl

-- c.b.m.z., with the NSEC from a.m.z. to b.z.: the closest encloser is m.z., but the label b of the
-- next name is taken for one below it.
mixed_wildcard :
    get_wildcard
      ((99 ∷ []) ∷ (98 ∷ []) ∷ (109 ∷ []) ∷ origin)
      ((97 ∷ []) ∷ (109 ∷ []) ∷ origin)
      ((98 ∷ []) ∷ (121 ∷ []) ∷ origin)
    ≡ (42 ∷ []) ∷ (98 ∷ []) ∷ (109 ∷ []) ∷ origin
unfolding get_wildcard last_index
mixed_wildcard = refl

nxdomain_status-valid_example :
    is_valid
      (nxdomain_status by_length one_record
        (covered by_length one_record queried origin)).validation_status
    ≡ (not (is_covered by_length one_record origin)
        && (is_covered by_length one_record queried
            && of_wildcard by_length one_record (is_covered by_length one_record) queried))
nxdomain_status-valid_example =
    nxdomain_status-valid by_length one_record queried origin by_length-IsNameApi

wildcard_status-valid_example :
    is_valid
      (wildcard_status by_length one_record
        (covered by_length one_record queried origin)).validation_status
    ≡ (not (is_covered by_length one_record origin)
        && (is_covered by_length one_record queried
            && of_wildcard by_length one_record
                (λ w.
                  is_covered by_length one_record (last_of (length w) queried)
                  && not (is_covered by_length one_record w))
                queried))
wildcard_status-valid_example =
    wildcard_status-valid by_length one_record queried origin by_length-IsNameApi

-- The origin has no MX record.
abbrev no_mx : Matched
no_mx = matched by_length one_record origin 15 origin true false

nodata_status-valid_example :
    is_valid (nodata_status by_length one_record no_mx).validation_status ≡ (
      let own = get by_length origin one_record.rrsets in
      let wild = wildcard_record by_length one_record origin in
      if is_some own || (not false && is_above by_length one_record origin)
      then not (is_covered by_length one_record origin)
        && allows by_length one_record 15 true own own
      else is_some wild
        && (not (is_covered by_length one_record origin)
            && (not (has_type 15 wild) && allows by_length one_record 15 true own wild)))
nodata_status-valid_example =
    nodata_status-valid by_length one_record origin 15 origin true false by_length-IsNameApi

status-IsHonest_example :
    IsHonest (nxdomain_status by_length one_record (covered by_length one_record queried origin))
    × IsHonest (wildcard_status by_length one_record (covered by_length one_record queried origin))
    × IsHonest (nodata_status by_length one_record no_mx)
status-IsHonest_example =
    status-IsHonest by_length one_record (covered by_length one_record queried origin) no_mx
      by_length-IsNameApi

-- Names by the first byte of their first label.
abbrev pub key : DomainName → ℕ
key [] = 0
key ([] ∷ ls) = 0
key ((b ∷ l) ∷ ls) = b

abbrev pub by_key : NameApi
by_key = record {
  order = λ a b. compare (key a) (key b);
  is_subdomain = λ a b. leb (key b) (key a);
  from_text = λ t o. t ∷ o;
}

-- A hash that keeps the number of labels, in the first of its bits.
abbrev pub count_labels : HashApi
count_labels = record { to_wire = λ n. length n * 8 ∷ []; sha1 = λ x. x }

abbrev pub sha1_params : HashParams
sha1_params = record { salt = []; algorithm = 1; iterations = 0 }

-- The only NSEC3 record is that of the hash of the origin, and goes round to itself.
abbrev pub hashed_origin : DomainName
hashed_origin = (50 ∷ 48 ∷ 61 ∷ 61 ∷ 61 ∷ 61 ∷ 61 ∷ 61 ∷ []) ∷ origin

abbrev pub nsec3_set : NsecSet
nsec3_set = record (empty_set by_key false) {
  rrsets =
      (record {
        name = hashed_origin;
        next = nsec3 (16 ∷ []) sha1_params 0;
        windows = (0, 34 ∷ []) ∷ [];
      })
      ∷ [];
  nsec3_params = (sha1_params, hashed_origin ∷ []) ∷ [];
  use_nsec3 = true;
}

encloser_found :
    find_encloser by_key count_labels origin nsec3_set sha1_params
      (hashed_origin ∷ [])
      false
      queried
    ≡ some (origin, hashed_origin)
unfolding find_encloser get_digest_name_for_nsec3 get_digest_for_nsec3 nsec_covering_name
    nsec_covers_name covers next_name b32encode
encloser_found = refl

find_encloser-IsEncloser_example :
    IsEncloser by_key count_labels origin nsec3_set sha1_params
      (hashed_origin ∷ [])
      queried
      origin
      hashed_origin
find_encloser-IsEncloser_example =
    find_encloser-IsEncloser by_key count_labels origin nsec3_set sha1_params (hashed_origin ∷ [])
      queried origin hashed_origin encloser_found
