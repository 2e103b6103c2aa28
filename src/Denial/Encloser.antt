-- ===== src/Denial/Encloser.antt =====
-- That a closest encloser found by dnsviz/response.py is one by RFC 5155: its hash is the owner of an
-- NSEC3 record, and the next closer name, one label below, is covered.
use dnsviz.Base.{
  ◌∙◌, ◌≤◌, List, [], ◌∷◌, ◌++◌, some, Bool, true, false, ◌≡◌, ◌⊎◌, inl, inr, refl, ap, arith,
  length, is_nonempty, Option-cases, Bool-cases,
}
use dnsviz.Dns.Message.{Bytes, DomainName}
use dnsviz.Dns.Names.{NameApi}
use dnsviz.Denial.NsecSet.{HashParams, NsecSet, has_name, nsec_covering_name, labels_above}
use dnsviz.Denial.Closest.{HashApi, get_digest_name_for_nsec3, find_encloser}

-- The hash of the name is covered by some record of the set.
abbrev pub IsCovered : NameApi → HashApi → DomainName → NsecSet → HashParams → DomainName → Type 0
IsCovered names hash origin s p name =
    (d : DomainName) × (get_digest_name_for_nsec3 names hash origin p name ≡ some d)
    × (is_nonempty (nsec_covering_name names d s) ≡ true)

-- What RFC 5155 asks of a closest encloser `name` of `qname`, with the hash `digest`. (That it is in
-- the zone is not among it: the length is all that the search compares.)
pub record IsEncloser (names : NameApi) (hash : HashApi) (origin : DomainName) (s : NsecSet)
    (p : HashParams) (nsec3_names : List DomainName) (qname name digest : DomainName) : Type 0 where
  pub ancestor : (front : List Bytes) × (qname ≡ front ++ name)
  pub long_enough : length origin ≤ length name
  pub hashed : get_digest_name_for_nsec3 names hash origin p name ≡ some digest
  pub matched : has_name names digest nsec3_names ≡ true
  pub next_closer :
      (next : DomainName) × ((labels_above next ≡ name) ⊎ (next ≡ name))
      × ((front : List Bytes) × (qname ≡ front ++ next))
      × IsCovered names hash origin s p next

append_label :
    (front : List Bytes) (l : Bytes) (sname : DomainName)
    → front ++ (l ∷ sname) ≡ (front ++ l ∷ []) ++ sname
append_label [] l sname = refl
append_label (k ∷ front) l sname = ap (λ (n : DomainName). k ∷ n) (append_label front l sname)

module _ (names : NameApi) (hash : HashApi) (origin : DomainName) (s : NsecSet) (p : HashParams)
    (nsec3_names : List DomainName) where
  -- What a step of the loop does with a name that has a hash.
  step :
      (flag : Bool) (l : Bytes) (sname name digest d : DomainName)
      → get_digest_name_for_nsec3 names hash origin p (l ∷ sname) ≡ some d
      → find_encloser names hash origin s p nsec3_names flag (l ∷ sname) ≡ some (name, digest)
      → (length origin ≤ length (l ∷ sname))
        × (((has_name names d nsec3_names ≡ false)
              × (find_encloser names hash origin s p nsec3_names
                    (is_nonempty (nsec_covering_name names d s))
                    sname
                  ≡ some (name, digest)))
            ⊎ ((has_name names d nsec3_names ≡ true)
                × (name ≡ l ∷ sname)
                × (digest ≡ d)
                × ((flag ≡ true) ⊎ (is_nonempty (nsec_covering_name names d s) ≡ true))))
  unfolding find_encloser
  step flag l sname name digest d q e = elim (Bool-cases (has_name names d nsec3_names)) [
    | inl m ↦ ground arith
    | inr m ↦ ground arith
  ]

  found :
      (flag : Bool) (sname name digest qname : DomainName) (front : List Bytes)
      → qname ≡ front ++ sname
      → (flag ≡ true
          → (l : Bytes) × ((above : List Bytes) × (qname ≡ above ++ (l ∷ sname)))
            × IsCovered names hash origin s p (l ∷ sname))
      → find_encloser names hash origin s p nsec3_names flag sname ≡ some (name, digest)
      → IsEncloser names hash origin s p nsec3_names qname name digest
  unfolding find_encloser
  found flag [] name digest qname front o h e = cc
  found flag (l ∷ sname) name digest qname front o h e =
      elim (Option-cases (get_digest_name_for_nsec3 names hash origin p (l ∷ sname))) [
        | inl q ↦ ground arith
        | inr (d, q) ↦
            let (long, found_or_not) = step flag l sname name digest d q e in
            elim found_or_not [
              | inl (m, e') ↦
                  found (is_nonempty (nsec_covering_name names d s)) sname name digest qname
                    (front ++ l ∷ []) (o ∙ append_label front l sname)
                    (λ c. (l, (front, o), (d, q, c))) e'
              | inr (m, qn, qd, by) ↦
                  rw (qn, qd)
                    (record {
                      ancestor = (front, o);
                      long_enough = long;
                      hashed = q;
                      matched = m;
                      next_closer = elim by [
                        | inl f ↦ let (k, above, c) = h f in (k ∷ l ∷ sname, inl refl, above, c)
                        | inr c ↦ (l ∷ sname, inr refl, (front, o), (d, q, c))
                      ];
                    })
            ]
      ]

-- A name that the search for potential closest enclosers finds is the queried name or an ancestor of
-- it, with at least as many labels as the origin; its hash is the owner of an NSEC3 record with the
-- same parameters; and the hash of the name that has one label more of the queried name is covered (or
-- its own hash is).
pub find_encloser-IsEncloser :
    (names : NameApi) (hash : HashApi) (origin : DomainName) (s : NsecSet) (p : HashParams)
    (nsec3_names : List DomainName) (qname name digest : DomainName)
    → find_encloser names hash origin s p nsec3_names false qname ≡ some (name, digest)
    → IsEncloser names hash origin s p nsec3_names qname name digest
find_encloser-IsEncloser names hash origin s p nsec3_names qname name digest e =
    found names hash origin s p nsec3_names false qname name digest qname [] refl (λ q. cc) e
