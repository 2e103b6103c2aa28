-- ===== src/Denial/Nsec3/Valid.antt =====
-- What makes the NSEC3 statuses of dnsviz/analysis/status.py, for a name that does not exist and for a
-- wildcard's answer, VALID.
use dnsviz.Base.{
  Option, none, some, Bool, true, not, ◌&&◌, ◌≡◌, refl, [], ◌∷◌, is_nonempty, is_some, arith,
}
use dnsviz.Dns.Message.{DomainName}
use dnsviz.Dns.Names.{IsNameApi, NameApi}
use dnsviz.Denial.NsecSet.{NsecSet}
use dnsviz.Denial.Closest.{HashApi, get_closest_encloser}
use dnsviz.Denial.Status.{is_valid}
use dnsviz.Denial.Nsec3.{Enclosers, Nsec3Status}
use dnsviz.Denial.Nsec3.Returns.{IsIndexed, encloser_lem, nxdomain_some, wildcard_some}
use dnsviz.Denial.Nsec3.Verdict.{
  conclude_status, next_closer_is_covered, nxdomain_verdict, wildcard_is_covered, wildcard_verdict,
}
use dnsviz.Denial.Nsec3.Nxdomain.{nxdomain_nsec3_status, wildcard_encloser, wildcard_nsec3_status}

-- A record of NSEC3 status, with its verdict.
abbrev pub IsStatus : Option Nsec3Status → Bool → Type 0
IsStatus none b = ⊥
IsStatus (some st) b = is_valid st.judged.validation_status ≡ b

IsStatus-some :
    (o : Option Nsec3Status) (b : Bool)
    → is_some o ≡ true
    → ((st : Nsec3Status) → o ≡ some st → is_valid st.judged.validation_status ≡ b)
    → IsStatus o b
IsStatus-some none b h k = ground (arith, h)
IsStatus-some (some st) b h k = k st refl

some_encloser :
    (names : NameApi) (hash : HashApi) (origin : DomainName) (s : NsecSet) (w : DomainName)
    (found : Enclosers)
    → is_nonempty (wildcard_encloser names hash origin s w found) ≡ true
unfolding wildcard_encloser
some_encloser names hash origin s w [] = refl
some_encloser names hash origin s w (e ∷ es) = refl

-- In a set whose NSEC3 owners all have records, the closest enclosers of a name are found, and the
-- proof that the name does not exist gets a status. It is VALID exactly when, for some closest encloser,
-- a record covers the hash of the name one label below it, and for some closest encloser a record
-- covers the hash of its wildcard.
pub nxdomain_nsec3_status-valid :
    (names : NameApi) (hash : HashApi) (origin : DomainName) (s : NsecSet) (qname : DomainName)
    → IsNameApi names
    → IsIndexed names s s.nsec3_params
    → (es : Enclosers) × (get_closest_encloser names hash origin s qname ≡ some es)
      × IsStatus (nxdomain_nsec3_status names hash origin s qname) (
          next_closer_is_covered names hash origin s qname es
          && wildcard_is_covered names hash origin s es)
unfolding nxdomain_nsec3_status
nxdomain_nsec3_status-valid names hash origin s qname laws i =
    let (es, found, owners_found) = encloser_lem names laws s hash origin qname i in
    (
      es,
      found,
      IsStatus-some _ _ (nxdomain_some names laws s hash origin qname es i owners_found found)
          (λ st e.
            conclude_status names hash origin s _ _ st _
              (nxdomain_verdict names hash origin s qname es)
              (rw (found, nxdomain_nsec3_status) at e)),
    )

-- In a set whose NSEC3 owners all have records, the proof that a name has no records but those of a
-- wildcard gets a status. It is VALID exactly when a record covers the hash of the name one label below
-- a closest encloser, and none that of a closest encloser's wildcard. Where no closest encloser was
-- found, it is the parent of the wildcard.
pub wildcard_nsec3_status-valid :
    (names : NameApi) (hash : HashApi) (origin : DomainName) (s : NsecSet)
    (qname wildcard_name : DomainName)
    → IsNameApi names
    → IsIndexed names s s.nsec3_params
    → (found : Enclosers) × (get_closest_encloser names hash origin s qname ≡ some found)
      × IsStatus (wildcard_nsec3_status names hash origin s qname wildcard_name) (
          next_closer_is_covered names hash origin s qname
            (wildcard_encloser names hash origin s wildcard_name found)
          && not (
              wildcard_is_covered names hash origin s
                (wildcard_encloser names hash origin s wildcard_name found)))
unfolding wildcard_nsec3_status
wildcard_nsec3_status-valid names hash origin s qname wildcard_name laws i =
    let (found, q, owners_found) = encloser_lem names laws s hash origin qname i in
    (
      found,
      q,
      IsStatus-some _ _
          (wildcard_some names laws s hash origin qname wildcard_name found i owners_found q)
          (λ st e.
            conclude_status names hash origin s _ _ st _
              (wildcard_verdict names hash origin s qname wildcard_name
                (wildcard_encloser names hash origin s wildcard_name found)
                (some_encloser names hash origin s wildcard_name found))
              (rw (q, wildcard_nsec3_status) at e)),
    )
