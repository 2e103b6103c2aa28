-- ===== src/Denial/Nsec3.antt =====
-- dnsviz/analysis/status.py: NSEC3Status, and what the three NSEC3 statuses have in common;
-- dnsviz/response.py: NSECSet.nsec3_covering_name and get_algorithm_support. The table of digests by
-- name only saves computations, and is left out.
pub mod Nxdomain
pub mod Nodata
pub mod Returns
pub mod Valid
pub mod Verdict
pub mod Matching
pub mod Bitmaps
pub mod Next
pub mod Reported
use dnsviz.Base.{
  ℕ, ◌+◌, ◌-◌, List, [], ◌∷◌, ◌++◌, Option, none, some, Bool, true, false, not, ◌&&◌, ◌||◌, ◌==◌,
  if◌then◌else◌, length, drop, any, elem, first, select, is_nonempty, ltb, map, bit_and,
}
use dnsviz.Dns.Message.{Bytes, DomainName}
use dnsviz.Dns.Names.{NameApi, same_name}
use dnsviz.Base32.{b32encode}
use dnsviz.Status.Issue.{
  Issue, unsupported_nsec3_algorithm, nsec3_iteration_count_non_zero, invalid_nsec3_owner_name,
  invalid_nsec3_hash,
}
use dnsviz.Denial.NsecSet.{
  HashParams, NsecRecord, NsecSet, nsec, nsec3, has_name, get, project, nsec_covers_name,
}
use dnsviz.Denial.Closest.{HashApi, get_digest_name_for_nsec3}
use dnsviz.Denial.Status.{Judged, is_valid, owners}

-- A dictionary from names to sets of names.
abbrev pub Enclosers : Type 0
Enclosers = List (DomainName × List DomainName)

abbrev pub Params : Type 0
Params = List (HashParams × List DomainName)

-- The fields that `_set_validation_status` reads; `nsec_for_qname` and what follows are of
-- NSEC3StatusNODATA.
pub record Hashed : Type 0 where
  pub qname : DomainName
  pub closest_encloser : Enclosers
  pub nsec_names_covering_qname : Enclosers
  pub nsec_names_covering_wildcard : Enclosers
  pub opt_out : Option Bool

-- The whole outcome; the warnings, and the errors of the records that are kept.
pub record Nsec3Status : Type 0 where
  pub judged : Judged
  pub warnings : List Issue
  pub nsec_set_info : NsecSet
  pub owner_errors : List Issue

-- `crypto.nsec3_alg_is_supported`, for the algorithm of some parameters
abbrev pub is_supported : HashParams × List DomainName → Bool
is_supported (p, ns) = elem p.algorithm (1 ∷ [])

-- The two sets of NSECSet.get_algorithm_support, by the parameters.
unfoldable pub valid_algs : Params → Params
valid_algs = select is_supported

unfoldable pub invalid_algs : Params → Params
invalid_algs = select (λ p. not (is_supported p))

-- `self.errors.append(invalid_alg_err)`, if there is an invalid algorithm
unfoldable pub report_algorithm : Params → Judged → Judged
report_algorithm [] j = j
report_algorithm ((p, ns) ∷ ps) j = record j {
  errors = j.errors ++ unsupported_nsec3_algorithm p.algorithm ∷ [];
}

-- `self.errors.append(issue)`, if there is a valid algorithm
unfoldable pub report_valid : Params → Issue → Judged → Judged
report_valid [] i j = j
report_valid (p ∷ ps) i j = record j { errors = j.errors ++ i ∷ [] }

unfoldable pub max_iterations : Params → ℕ → ℕ
max_iterations [] most = most
max_iterations ((p, ns) ∷ ps) most =
    max_iterations ps (if ltb most p.iterations then p.iterations else most)

-- NSEC3_ITERATION_COUNT_WARNING is 0.
unfoldable pub iteration_warnings : Params → List Issue
unfolding max_iterations
iteration_warnings ps =
    let most = max_iterations ps 0 in
    if ltb 0 most then nsec3_iteration_count_non_zero most ∷ [] else []

-- NSEC3Status._get_next_closest_encloser
unfoldable pub get_next_closest_encloser : (qname encloser : DomainName) → DomainName
get_next_closest_encloser qname encloser = drop (length qname - (length encloser + 1)) qname

-- The flags of an NSEC3 record.
abbrev pub flags_of : NsecRecord → ℕ
flags_of r = elim (r.next) [ nsec n ↦ 0 | nsec3 hash params flags ↦ flags ]

abbrev pub hash_of : NsecRecord → Bytes
hash_of r = elim (r.next) [ nsec n ↦ [] | nsec3 hash params flags ↦ hash ]

module _ (names : NameApi) where
  -- NSEC3Status._get_wildcard; `*` is the byte 42.
  unfoldable pub get_wildcard : (encloser : DomainName) → DomainName
  get_wildcard encloser = names.from_text (42 ∷ []) encloser

  -- `d[name] = ns`
  abbrev pub set_names : DomainName → List DomainName → Enclosers → Enclosers
  set_names n ns [] = (n, ns) ∷ []
  set_names n ns ((m, ms) ∷ d) =
      if same_name names n m then (m, ns) ∷ d else (m, ms) ∷ set_names n ns d

  -- The owner has no valid name or hash, or its record does not cover the name. (An owner with
  -- parameters has a record.)
  abbrev pub covered_by : NsecSet → DomainName → DomainName → Bool
  covered_by s name n =
      not (has_name names n s.invalid_nsec3_owner || has_name names n s.invalid_nsec3_hash)
      && (elim (get names n s.rrsets) [ none ↦ false | some r ↦ nsec_covers_name names s name r ])

  -- NSECSet.nsec3_covering_name, for the owners with the parameters
  unfoldable pub nsec3_covering_name : NsecSet → List DomainName → DomainName → List DomainName
  nsec3_covering_name s nsec3_names name = select (covered_by s name) nsec3_names

  -- Some covering record has the opt-out flag.
  unfoldable pub has_opt_out : NsecSet → List DomainName → Bool
  has_opt_out s = any (λ n. elim (get names n s.rrsets) [
    | none ↦ false
    | some r ↦ not (bit_and (flags_of r) 1 == 0)
  ])

  -- The errors about the owner names and hashes of the records.
  unfoldable pub owner_errors_of : NsecSet → List Issue
  owner_errors_of s =
      map invalid_nsec3_owner_name s.invalid_nsec3_owner
      ++ map
          (λ n.
            invalid_nsec3_hash n
              (elim (get names n s.rrsets) [ none ↦ [] | some r ↦ b32encode (hash_of r) ]))
          s.invalid_nsec3_hash

  -- The end of `_set_validation_status`; none is the ValueError of the projection.
  unfoldable pub conclude : NsecSet → List DomainName → Judged → Option Nsec3Status
  unfolding owner_errors_of iteration_warnings
  conclude s proof j =
      elim (project names (if is_valid j.validation_status then proof else owners names s) s) [
        | none ↦ none
        | some kept ↦ some (record {
          judged = j;
          warnings = iteration_warnings s.nsec3_params;
          nsec_set_info = kept;
          owner_errors = owner_errors_of kept;
        })
      ]

  module _ (hash : HashApi) (origin : DomainName) (s : NsecSet) where
    -- The hash of a name, with the records that cover it, if any do.
    unfoldable pub hash_covering :
        HashParams × List DomainName → DomainName → Option (DomainName × List DomainName)
    unfolding nsec3_covering_name
    hash_covering (p, ns) name = elim (get_digest_name_for_nsec3 names hash origin p name) [
      | none ↦ none
      | some d ↦
          let cs = nsec3_covering_name s ns d in if is_nonempty cs then some (d, cs) else none
    ]

    unfoldable pub cover_qname : HashParams × List DomainName → DomainName → Hashed → Hashed
    unfolding hash_covering has_opt_out get_next_closest_encloser
    cover_qname p encloser h = elim (hash_covering p (get_next_closest_encloser h.qname encloser)) [
      | none ↦ h
      | some (d, cs) ↦ record h {
        nsec_names_covering_qname = set_names d cs h.nsec_names_covering_qname;
        opt_out = some (has_opt_out s cs);
      }
    ]

    unfoldable pub cover_wildcard : HashParams × List DomainName → DomainName → Hashed → Hashed
    unfolding hash_covering get_wildcard
    cover_wildcard p encloser h = elim (hash_covering p (get_wildcard encloser)) [
      | none ↦ h
      | some (d, cs) ↦ record h {
        nsec_names_covering_wildcard = set_names d cs h.nsec_names_covering_wildcard;
      }
    ]
