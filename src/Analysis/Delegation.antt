-- ===== src/Analysis/Delegation.antt =====
-- dnsviz/analysis/offline.py: OfflineDomainNameAnalysis._populate_ds_status, the status of a delegation
-- by its DS records. A triple of server, client and response that answered the DNSKEY query is a
-- number; objects that are keys of dictionaries (DNSKEYs) are numbered.
pub mod Anchored
pub mod Secure
use dnsviz.Base.{
  ℕ, List, [], ◌∷◌, ◌++◌, Option, none, some, Bool, true, false, not, ◌&&◌, ◌||◌, ◌==◌,
  if◌then◌else◌, elem, all, any, select, map, is_nonempty, is_some, lookup,
}
use dnsviz.Status.Issue.{Issue, missing_sep_for_alg, no_sep}
use dnsviz.Status.Ds.{DigestValidator, Digested, Ds, DsKey, ds_status, is_valid}

pub data DelegationStatus : Type 0 where
  secure insecure bogus incomplete lame : DelegationStatus

-- The DNSKEYMeta of a record.
pub record Dnskey : Type 0 where
  pub ident : ℕ
  pub key : DsKey
  pub key_tag_no_revoke : ℕ
  pub algorithm : ℕ

-- An RRSIG of a DNSKEY RRset, who returned it, and its validation status by DNSKEY
-- (`self.rrsig_status[dnskey_info][rrsig]`): whether it is VALID.
pub record KeyRrsig : Type 0 where
  pub algorithm : ℕ
  pub key_tag : ℕ
  pub responders : List ℕ
  pub is_valid_by : List (ℕ × Bool)

-- A DNSKEY RRset; `is_own` is that it has the name of the zone and the type DNSKEY.
pub record DnskeyInfo : Type 0 where
  pub is_own : Bool
  pub keys : List Dnskey
  pub rrsig_info : List KeyRrsig

pub record DsRecord : Type 0 where
  pub ds : Ds
  pub algorithm : ℕ

-- A DS (or DLV) RRset; `is_own` as above.
pub record DsInfo : Type 0 where
  pub is_own : Bool
  pub records : List DsRecord

-- What `_populate_ds_status` reads, after its queries were found. The last fields are the servers
-- that a lame delegation lacks, in the order of the tests.
pub record Zone : Type 0 where
  pub ds_rrset_answer_info : List DsInfo
  pub dnskey_answer_info : List DnskeyInfo
  pub dnskey_server_client_responses : List ℕ
  pub supported_algs : List ℕ
  pub supported_digest_algs : List ℕ
  pub parent_is_signed : Bool
  pub has_valid_denial : Bool
  pub has_auth_or_designated : Bool
  pub has_responsive : Bool
  pub has_valid_servers : Bool
  pub is_authoritative_analysis : Bool
  pub has_auth_servers_clients : Bool

-- Sets of algorithms by responder.
abbrev pub Seps : Type 0
Seps = List (ℕ × List ℕ)

abbrev pub is_subset : List ℕ → List ℕ → Bool
is_subset xs ys = all (λ x. elem x ys) xs

abbrev pub add_number : ℕ → List ℕ → List ℕ
add_number x xs = if elem x xs then xs else xs ++ x ∷ []

abbrev pub add_numbers : List ℕ → List ℕ → List ℕ
add_numbers [] ys = ys
add_numbers (x ∷ xs) ys = add_numbers xs (add_number x ys)

-- `if key in seps: seps[key].add(alg)`, and the key is deleted once no DS algorithm is missing
unfoldable pub note : (ds_algs : List ℕ) (responder alg : ℕ) → Seps → Seps
note ds_algs r alg [] = []
note ds_algs r alg ((q, algs) ∷ seps) =
    let rest = note ds_algs r alg seps in
    let grown = add_number alg algs in
    if r == q then if is_subset ds_algs grown then seps else (q, grown) ∷ seps else (q, algs) ∷ rest

-- `for x in xs: ...`, for a body that changes one of the two dictionaries
abbrev pub each : {A : Type 0} → (A → Seps → Seps) → List A → Seps → Seps
each f [] seps = seps
each f (x ∷ xs) seps = each f xs (f x seps)

-- The key tag and the algorithm of the DS record are those of the DNSKEY.
abbrev pub is_candidate : DsRecord → Dnskey → Bool
is_candidate d k =
    (d.ds.key_tag == k.key.key_tag || d.ds.key_tag == k.key_tag_no_revoke)
    && d.algorithm == k.algorithm

-- An RRSIG that the DNSKEY made: it has a status for the key, and the key's tag.
abbrev pub is_made_by : Dnskey → KeyRrsig → Bool
is_made_by k g = is_some (lookup k.ident g.is_valid_by) && k.key.key_tag == g.key_tag

abbrev pub is_validated_by : Dnskey → KeyRrsig → Bool
is_validated_by k g = elim (lookup k.ident g.is_valid_by) [ none ↦ false | some b ↦ b ]

module _ (validate : DigestValidator) (z : Zone) where
  -- The DSStatus of a record and a key; the algorithms of its RRset are its digest types.
  unfoldable pub ds_status_of : DsInfo → DsRecord → Dnskey → Digested
  unfolding ds_status
  ds_status_of info d k = ds_status validate (record {
    ds = d.ds;
    rrset = map (λ (e : DsRecord). e.ds.digest_type) info.records;
    dnskey = some k.key;
    supported_digest_algs = z.supported_digest_algs;
  })

  abbrev pub ds_algs : DsInfo → List ℕ
  ds_algs info = map (λ (d : DsRecord). d.algorithm) info.records

  abbrev pub is_supported : DsRecord → Bool
  is_supported d =
      elem d.algorithm z.supported_algs && elem d.ds.digest_type z.supported_digest_algs

  abbrev pub supported_ds_algs : DsInfo → List ℕ
  supported_ds_algs info = map (λ (d : DsRecord). d.algorithm) (select is_supported info.records)

  -- The loop over the responders of an RRSIG.
  unfoldable pub note_rrsig : DsInfo → KeyRrsig → Seps → Seps
  unfolding note
  note_rrsig info g = each (λ r. note (ds_algs info) r g.algorithm) g.responders

  -- Whether an RRSIG counts for a key: for `algs_signing_sep`, it was made by the key; for
  -- `algs_validating_sep`, the digest and the RRSIG are also VALID.
  abbrev pub is_signing : DsInfo → DsRecord → Dnskey → KeyRrsig → Bool
  is_signing info d k g = is_made_by k g

  abbrev pub is_validating : DsInfo → DsRecord → Dnskey → KeyRrsig → Bool
  is_validating info d k g =
      is_made_by k g && (is_valid (ds_status_of info d k).validation_status && is_validated_by k g)

  -- The loops over the RRSIGs and over the keys of a DNSKEY RRset, and over these RRsets.
  unfoldable pub note_rrsigs : (KeyRrsig → Bool) → DsInfo → List KeyRrsig → Seps → Seps
  unfolding note_rrsig
  note_rrsigs counts info = each (λ g seps. if counts g then note_rrsig info g seps else seps)

  unfoldable pub note_keys :
      (Dnskey → KeyRrsig → Bool) → DsInfo → DsRecord → DnskeyInfo → Seps → Seps
  unfolding note_rrsigs
  note_keys counts info d i =
      each
        (λ k seps. if is_candidate d k then note_rrsigs (counts k) info i.rrsig_info seps else seps)
        i.keys

  unfoldable pub note_infos : (Dnskey → KeyRrsig → Bool) → DsInfo → DsRecord → Seps → Seps
  unfolding note_keys
  note_infos counts info d =
      each (λ i seps. if i.is_own then note_keys counts info d i seps else seps)
        z.dnskey_answer_info

  unfoldable pub algs_validating_sep : DsInfo → Seps → Seps
  unfolding note_infos ds_status_of
  algs_validating_sep info = each (λ d. note_infos (is_validating info d) info d) info.records

  unfoldable pub algs_signing_sep : DsInfo → Seps → Seps
  unfolding note_infos
  algs_signing_sep info = each (λ d. note_infos (is_signing info d) info d) info.records

  abbrev pub no_algs : Seps
  no_algs = map (λ (r : ℕ). (r, [])) z.dnskey_server_client_responses

  -- A responder is left without the DS algorithms, and with none that is supported.
  abbrev pub lacks_sep : DsInfo → Seps → ℕ → Bool
  lacks_sep info seps r = elim (lookup r seps) [
    | none ↦ false
    | some algs ↦ not (any (λ a. elem a algs) (supported_ds_algs info))
  ]

  -- Some responder makes the delegation secure.
  unfoldable pub info_is_secure : DsInfo → Bool
  unfolding algs_validating_sep
  info_is_secure info =
      let seps = algs_validating_sep info no_algs in
      is_nonempty z.dnskey_server_client_responses
      && (not (is_nonempty seps)
          || any (λ r. not (lacks_sep info seps r)) z.dnskey_server_client_responses)

  -- The algorithms that some responder has no signing key for.
  abbrev pub missing_algs : DsInfo → Seps → List ℕ → List ℕ
  missing_algs info [] found = found
  missing_algs info ((r, algs) ∷ rest) found =
      missing_algs info rest (add_numbers (select (λ a. not (elem a algs)) (ds_algs info)) found)

  -- The errors for a DS RRset, each once; the source adds the responders to them.
  unfoldable pub info_errors : DsInfo → List Issue
  unfolding algs_validating_sep algs_signing_sep
  info_errors info =
      let seps = algs_validating_sep info no_algs in
      let signing = algs_signing_sep info no_algs in
      if is_nonempty z.dnskey_server_client_responses
      then (if is_nonempty (supported_ds_algs info)
            && any (lacks_sep info seps) z.dnskey_server_client_responses
          then no_sep ∷ []
          else [])
        ++ map missing_sep_for_alg (missing_algs info signing [])
      else no_sep ∷ []

  abbrev pub own_infos : List DsInfo
  own_infos = select (λ (i : DsInfo). i.is_own) z.ds_rrset_answer_info

  -- The status where no DS RRset made it secure.
  unfoldable pub unanchored : DelegationStatus
  unanchored =
      if is_nonempty z.ds_rrset_answer_info
      then (if is_nonempty own_infos
          then if any (λ i. is_nonempty (supported_ds_algs i)) own_infos then bogus else insecure
          else bogus)
      else if z.parent_is_signed
      then if z.has_valid_denial then insecure else bogus
      else insecure

  abbrev pub is_insecure : DelegationStatus → Bool
  is_insecure insecure = true
  is_insecure _ = false

  -- Without servers that answer (with authority), an insecure delegation is lame.
  abbrev pub is_lame : Bool
  is_lame =
      if not z.has_auth_or_designated
      then true
      else if not z.has_responsive
      then true
      else if not z.has_valid_servers
      then true
      else z.is_authoritative_analysis && not z.has_auth_servers_clients

  -- The status, up to the checks of NXDOMAIN responses for DS.
  unfoldable pub delegation_status : DelegationStatus
  unfolding info_is_secure unanchored
  delegation_status =
      let status = if any info_is_secure own_infos then secure else unanchored in
      if is_lame && is_insecure status then lame else status

  -- A referral exists in the parent, and some of its servers deny the name.
  unfoldable pub incomplete_status : (denies : Bool) → DelegationStatus → DelegationStatus
  incomplete_status denies status = if denies && is_insecure status then incomplete else status
