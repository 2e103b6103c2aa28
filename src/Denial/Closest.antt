-- ===== src/Denial/Closest.antt =====
-- dnsviz/response.py: the closest encloser of a name, from NSEC3 records (RFC 5155, section 8.3), and
-- the hash of a name (dnsviz/crypto.py: get_digest_for_nsec3).
use dnsviz.Base.{
  ℕ, zero, suc, List, [], ◌∷◌, ◌++◌, Option, none, some, Bool, true, false, not, ◌&&◌, ◌||◌,
  if◌then◌else◌, length, elem, ltb, is_nonempty,
}
use dnsviz.Dns.Message.{Bytes, DomainName}
use dnsviz.Dns.Names.{NameApi, same_name}
use dnsviz.Base32.{b32encode}
use dnsviz.Denial.NsecSet.{
  HashParams, NsecSet, has_name, add, nsec_covering_name, rdtype_exists_in_bitmap,
}

-- `name.canonicalize().to_wire()`, and `hashlib.sha1(x).digest()`
pub record HashApi : Type 0 where
  pub to_wire : DomainName → Bytes
  pub sha1 : Bytes → Bytes

-- The loop of get_digest_for_nsec3: `iterations + 1` rounds.
abbrev pub iterate : HashApi → Bytes → ℕ → Bytes → Bytes
iterate api salt zero val = api.sha1 (val ++ salt)
iterate api salt (suc n) val = iterate api salt n (api.sha1 (val ++ salt))

-- none for an unsupported algorithm; SHA-1 is number 1.
unfoldable pub get_digest_for_nsec3 : HashApi → Bytes → HashParams → Option Bytes
get_digest_for_nsec3 api val p =
    if elem p.algorithm (1 ∷ []) then some (iterate api p.salt p.iterations val) else none

module _ (names : NameApi) (hash : HashApi) (origin : DomainName) where
  -- NSECSet.get_digest_name_for_nsec3
  unfoldable pub get_digest_name_for_nsec3 : HashParams → DomainName → Option DomainName
  unfolding get_digest_for_nsec3
  get_digest_name_for_nsec3 p name = elim (get_digest_for_nsec3 hash (hash.to_wire name) p) [
    | none ↦ none
    | some digest ↦ some (names.from_text (b32encode digest) origin)
  ]

  -- The loop of `_find_potential_closest_enclosers`, which finds at most one name, with the name of
  -- its hash. `nsec3_names` are the owners with the parameters `p`.
  unfoldable pub find_encloser :
      NsecSet → HashParams → List DomainName → Bool → DomainName → Option (DomainName × DomainName)
  find_encloser s p nsec3_names flag [] = none
  find_encloser s p nsec3_names flag (l ∷ sname) =
      let digest = get_digest_name_for_nsec3 p (l ∷ sname) in
      let name : DomainName = elim digest [ none ↦ [] | some d ↦ d ] in
      let matches = has_name names name nsec3_names in
      let next = (matches && flag) || is_nonempty (nsec_covering_name names name s) in
      let rest = find_encloser s p nsec3_names next sname in
      if ltb (length (l ∷ sname)) (length origin) then none else elim digest [
        | none ↦ none
        | some d ↦ if matches then (if next then some (l ∷ sname, d) else none) else rest
      ]

  abbrev pub merge :
      Option (DomainName × DomainName)
      → List (DomainName × List DomainName)
      → List (DomainName × List DomainName)
  merge none found = found
  merge (some (n, d)) [] = (n, d ∷ []) ∷ []
  merge (some (n, d)) ((m, ds) ∷ found) =
      let rest = merge (some (n, d)) found in
      if same_name names n m then (m, add names d ds) ∷ found else (m, ds) ∷ rest

  -- The first loop of get_closest_encloser, over the hash parameters.
  unfoldable pub potential_enclosers :
      NsecSet
      → DomainName
      → List (HashParams × List DomainName)
      → List (DomainName × List DomainName)
      → List (DomainName × List DomainName)
  potential_enclosers s qname [] found = found
  potential_enclosers s qname ((p, ns) ∷ params) found =
      potential_enclosers s qname params (merge (find_encloser s p ns false qname) found)

  -- DNAME is 39, NS is 2 and SOA is 6; none is the KeyError of a missing record.
  unfoldable pub check_closest_encloser : NsecSet → DomainName → DomainName → Option Bool
  check_closest_encloser s name nsec_name =
      if not (names.is_subdomain name origin)
      then some false
      else elim (rdtype_exists_in_bitmap names nsec_name 39 s) [
        | none ↦ none
        | some true ↦ some false
        | some false ↦ elim (rdtype_exists_in_bitmap names nsec_name 2 s) [
          | none ↦ none
          | some false ↦ some true
          | some true ↦ rdtype_exists_in_bitmap names nsec_name 6 s
        ]
      ]

  abbrev pub keep_checked : NsecSet → DomainName → List DomainName → Option (List DomainName)
  keep_checked s name [] = some []
  keep_checked s name (d ∷ ds) = elim (check_closest_encloser s name d) [
    | none ↦ none
    | some ok ↦ elim (keep_checked s name ds) [
      | none ↦ none
      | some kept ↦ some (if ok then d ∷ kept else kept)
    ]
  ]

  -- The second loop: names whose records all fail the check are deleted.
  unfoldable pub checked_enclosers :
      NsecSet → List (DomainName × List DomainName) → Option (List (DomainName × List DomainName))
  checked_enclosers s [] = some []
  checked_enclosers s ((n, ds) ∷ found) = elim (keep_checked s n ds) [
    | none ↦ none
    | some kept ↦ elim (checked_enclosers s found) [
      | none ↦ none
      | some rest ↦ some (if is_nonempty kept then (n, kept) ∷ rest else rest)
    ]
  ]

  -- NSECSet.get_closest_encloser
  unfoldable pub get_closest_encloser :
      NsecSet → DomainName → Option (List (DomainName × List DomainName))
  unfolding potential_enclosers checked_enclosers
  get_closest_encloser s qname = checked_enclosers s (potential_enclosers s qname s.nsec3_params [])
