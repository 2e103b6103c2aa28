-- ===== src/Denial/Status.antt =====
-- dnsviz/analysis/status.py: NSECStatusNXDOMAIN, NSECStatusWildcard and NSECStatusNODATA, for sets of
-- NSEC records. Where the source takes some element of a set, the model takes the first.
pub mod Nodata
pub mod Verdict
pub mod Valid
use dnsviz.Base.{
  ℕ, ◌-◌, List, [], ◌∷◌, ◌++◌, Option, none, some, Bool, true, false, not, ◌&&◌, ◌||◌,
  if◌then◌else◌, length, drop, is_nonempty, is_some, map,
}
use dnsviz.Dns.Message.{Bytes, DomainName}
use dnsviz.Dns.Names.{NameApi}
use dnsviz.Status.Issue.{
  Issue, sname_not_covered_name_error, sname_not_covered_wildcard_answer, wildcard_not_covered_nsec,
  last_nsec_next_not_zone, wildcard_expansion_invalid, wildcard_covered_answer_nsec,
}
use dnsviz.Denial.NsecSet.{NsecRecord, NsecSet, get, project, nsec_covering_name, next_name, add}
use dnsviz.Denial.Wildcard.{get_wildcard}

-- NSEC_STATUS_*
pub data NsecStatus : Type 0 where
  valid indeterminate invalid : NsecStatus

-- The fields that `_set_validation_status` reads; a dictionary of covering names has one key at
-- most, and is here the list of the covering names.
pub record Covered : Type 0 where
  pub qname : DomainName
  pub origin : DomainName
  pub wildcard_name : Option DomainName
  pub nsec_names_covering_qname : List DomainName
  pub nsec_names_covering_wildcard : List DomainName
  pub nsec_names_covering_origin : List DomainName

-- The result; the projected set is none where the projection raises a ValueError.
pub record Judged : Type 0 where
  pub validation_status : NsecStatus
  pub errors : List Issue

abbrev pub unjudged : Judged
unjudged = record { validation_status = valid; errors = [] }

-- `self.validation_status = NSEC_STATUS_INVALID` and `self.errors.append(issue)`
unfoldable pub fail : Issue → Judged → Judged
fail i j = record { validation_status = invalid; errors = j.errors ++ i ∷ [] }

abbrev pub is_valid : NsecStatus → Bool
is_valid valid = true
is_valid _ = false

-- `_next_closest_encloser`: as many labels of the name as the wildcard has.
unfoldable pub next_closest_encloser : (qname wildcard : DomainName) → DomainName
next_closest_encloser qname wildcard = drop (length qname - length wildcard) qname

module _ (names : NameApi) (s : NsecSet) where
  -- The wildcard that the first covering record shows, if any covers the name.
  unfoldable pub wildcard_of : DomainName → List DomainName → Option DomainName
  wildcard_of qname [] = none
  wildcard_of qname (c ∷ cs) = elim (get names c s.rrsets) [
    | none ↦ none
    | some r ↦ some (get_wildcard qname r.name (next_name names r))
  ]

  -- NSECStatusNXDOMAIN.__init__, up to the call of `_set_validation_status`
  unfoldable pub covered : (qname origin : DomainName) → Covered
  unfolding wildcard_of
  covered qname origin =
      let over_qname = nsec_covering_name names qname s in
      let wildcard = wildcard_of qname over_qname in
      record {
        qname = qname;
        origin = origin;
        wildcard_name = wildcard;
        nsec_names_covering_qname = over_qname;
        nsec_names_covering_wildcard = elim wildcard [
          | none ↦ []
          | some w ↦ nsec_covering_name names w s
        ];
        nsec_names_covering_origin = nsec_covering_name names origin s;
      }

  -- The origin is covered: the last NSEC does not point back to the zone. (The covering names are
  -- owners in the set, so the record is always there, here and in `wildcard_of`.)
  unfoldable pub check_origin : DomainName → List DomainName → Judged → Judged
  unfolding fail
  check_origin origin [] j = j
  check_origin origin (c ∷ cs) j = elim (get names c s.rrsets) [
    | none ↦ j
    | some r ↦ fail (last_nsec_next_not_zone r.name (next_name names r) origin) j
  ]

  -- NSECStatusNXDOMAIN._set_validation_status, its checks
  unfoldable pub nxdomain_status : Covered → Judged
  unfolding fail
  nxdomain_status c =
      let j1 =
        if is_nonempty c.nsec_names_covering_qname
        then unjudged
        else fail (sname_not_covered_name_error c.qname) unjudged in
      let j2 : Judged = elim (c.wildcard_name) [
        | none ↦ j1
        | some w ↦
            if is_nonempty c.nsec_names_covering_wildcard
            then j1
            else fail (wildcard_not_covered_nsec w) j1
      ] in
      check_origin c.origin c.nsec_names_covering_origin j2

  -- NSECStatusWildcard._set_validation_status, its checks. (A covered name has a wildcard.)
  unfoldable pub wildcard_status : Covered → Judged
  unfolding fail
  wildcard_status c =
      let j1 : Judged = elim (c.nsec_names_covering_qname) [
        | [] ↦ fail (sname_not_covered_wildcard_answer c.qname) unjudged
        | n ∷ ns ↦ elim (c.wildcard_name) [
          | none ↦ unjudged
          | some w ↦
              let next = next_closest_encloser c.qname w in
              if is_nonempty (nsec_covering_name names next s)
              then unjudged
              else fail (wildcard_expansion_invalid c.qname w next) unjudged
        ]
      ] in
      let j2 : Judged = elim (c.wildcard_name) [
        | none ↦ j1
        | some w ↦
            if is_nonempty c.nsec_names_covering_wildcard
            then fail (wildcard_covered_answer_nsec w) j1
            else j1
      ] in
      check_origin c.origin c.nsec_names_covering_origin j2

  abbrev pub add_all : List DomainName → List DomainName → List DomainName
  add_all [] ns = ns
  add_all (m ∷ ms) ns = add_all ms (add names m ns)

  abbrev pub owners : List DomainName
  owners = map (λ (r : NsecRecord). r.name) s.rrsets

  -- The records kept: those of the proof, if it is valid, and all otherwise.
  unfoldable pub nxdomain_set : Covered → Judged → Option NsecSet
  nxdomain_set c j =
      if is_valid j.validation_status
      then project names
          (add_all c.nsec_names_covering_wildcard (add_all c.nsec_names_covering_qname [])) s
      else project names owners s

  unfoldable pub wildcard_set : Covered → Judged → Option NsecSet
  wildcard_set c j =
      if is_valid j.validation_status
      then project names (add_all c.nsec_names_covering_qname []) s
      else project names owners s
