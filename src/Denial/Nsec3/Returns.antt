-- ===== src/Denial/Nsec3/Returns.antt =====
-- That the NSEC3 statuses of dnsviz/analysis/status.py raise no KeyError or ValueError: each owner with
-- parameters has a record, and so has each name that they put together.
use dnsviz.Base.{
  List, [], ◌∷◌, ◌++◌, some, Bool, true, false, ◌≡◌, inl, inr, refl, sym, if◌then◌else◌, All,
  is_nonempty, is_some, arith, Option-cases, Bool-cases, map, select,
}
use dnsviz.Dns.Message.{DomainName}
use dnsviz.Dns.Names.{IsNameApi, NameApi, same_name}
use dnsviz.Denial.NsecSet.{
  HashParams, NsecRecord, NsecSet, add, all_get, get, has_name, project, rdtype_exists_in_bitmap,
}
use dnsviz.Denial.Closest.{
  HashApi, check_closest_encloser, checked_enclosers, find_encloser, get_closest_encloser,
  get_digest_name_for_nsec3, keep_checked, merge, potential_enclosers,
}
use dnsviz.Denial.Encloser.{find_encloser-IsEncloser}
use dnsviz.Denial.Status.{Judged, add_all, is_valid, owners}
use dnsviz.Denial.Nsec3.{
  Enclosers, Hashed, Params, conclude, cover_qname, cover_wildcard, covered_by,
  get_next_closest_encloser, get_wildcard, hash_covering, nsec3_covering_name, set_names,
}
use dnsviz.Denial.Nsec3.Nxdomain.{
  add_values, cover_enclosers, cover_params, nxdomain_nsec3_status, uncovered, wildcard_encloser,
  wildcard_nsec3_status,
}

module _ (names : NameApi) (s : NsecSet) where
  -- The name has a record.
  abbrev IsOwner : DomainName → Type 0
  IsOwner n = is_some (get names n s.rrsets) ≡ true

  abbrev pub AreOwners : List DomainName → Type 0
  AreOwners = All IsOwner

  -- A dictionary of owners.
  abbrev pub HasOwners : Enclosers → Type 0
  HasOwners = All (λ (e : DomainName × List DomainName). AreOwners e.1)

  -- The owners with parameters have records.
  abbrev pub IsIndexed : Params → Type 0
  IsIndexed = All (λ (p : HashParams × List DomainName). AreOwners p.1)

module _ (names : NameApi) (laws : IsNameApi names) where
  same_trans :
      (a b c : DomainName)
      → same_name names a b ≡ true
      → same_name names b c ≡ true
      → same_name names a c ≡ true
  same_trans a b c h k = ground (arith, h, k, laws.trans_same a b c)

  module _ (s : NsecSet) where
    get_same :
        (rs : List NsecRecord) (n d : DomainName)
        → same_name names n d ≡ true
        → is_some (get names n rs) ≡ true
        → is_some (get names d rs) ≡ true
    get_same [] n d h k = k
    get_same (r ∷ rs) n d h k = elim (Bool-cases (same_name names r.name n)) [
      | inl q ↦ ground (arith, same_trans r.name n d q h)
      | inr q ↦ ground (arith, get_same rs n d h (ground (arith, q, k)))
    ]

    IsOwner-in :
        (d : DomainName) (ns : List DomainName)
        → has_name names d ns ≡ true
        → AreOwners names s ns
        → IsOwner names s d
    IsOwner-in d [] h o = ground (arith, h)
    IsOwner-in d (n ∷ ns) h o = elim (Bool-cases (same_name names n d)) [
      | inl q ↦ get_same s.rrsets n d q o.0
      | inr q ↦ IsOwner-in d ns (ground (arith, h, q)) o.1
    ]

    AreOwners-append :
        (ns ms : List DomainName)
        → AreOwners names s ns
        → AreOwners names s ms
        → AreOwners names s (ns ++ ms)
    AreOwners-append [] ms h k = k
    AreOwners-append (n ∷ ns) ms h k = (h.0, AreOwners-append ns ms h.1 k)

    AreOwners-add :
        (d : DomainName) (ns : List DomainName)
        → IsOwner names s d
        → AreOwners names s ns
        → AreOwners names s (add names d ns)
    AreOwners-add d ns h k = elim (Bool-cases (has_name names d ns)) [
      | inl q ↦ rw q k
      | inr q ↦ rw q (AreOwners-append ns (d ∷ []) k (h, tt))
    ]

    AreOwners-add_all :
        (ms ns : List DomainName)
        → AreOwners names s ms
        → AreOwners names s ns
        → AreOwners names s (add_all names s ms ns)
    AreOwners-add_all [] ns h k = k
    AreOwners-add_all (m ∷ ms) ns h k =
        AreOwners-add_all ms (add names m ns) h.1 (AreOwners-add m ns h.0 k)

    AreOwners-add_values :
        (d : Enclosers) (ns : List DomainName)
        → HasOwners names s d
        → AreOwners names s ns
        → AreOwners names s (add_values names s d ns)
    AreOwners-add_values [] ns h k = k
    AreOwners-add_values (e ∷ d) ns h k =
        AreOwners-add_values d _ h.1 (AreOwners-add_all e.1 ns h.0 k)

    HasOwners-set_names :
        (n : DomainName) (ns : List DomainName) (d : Enclosers)
        → AreOwners names s ns
        → HasOwners names s d
        → HasOwners names s (set_names names n ns d)
    HasOwners-set_names n ns [] h k = (h, tt)
    HasOwners-set_names n ns ((m, ms) ∷ d) h k = elim (Bool-cases (same_name names n m)) [
      | inl q ↦ rw q (h, k.1)
      | inr q ↦ rw q (k.0, HasOwners-set_names n ns d h k.1)
    ]

    AreOwners-if :
        (b : Bool) (d : DomainName) (kept : List DomainName)
        → IsOwner names s d
        → AreOwners names s kept
        → AreOwners names s (if b then d ∷ kept else kept)
    AreOwners-if true d kept o h = (o, h)
    AreOwners-if false d kept o h = h

    HasOwners-if :
        (b : Bool) (n : DomainName) (kept : List DomainName) (es : Enclosers)
        → AreOwners names s kept
        → HasOwners names s es
        → HasOwners names s (if b then (n, kept) ∷ es else es)
    HasOwners-if true n kept es o h = (o, h)
    HasOwners-if false n kept es o h = h

    AreOwners-select :
        (p : DomainName → Bool) (ns : List DomainName)
        → AreOwners names s ns
        → AreOwners names s (select p ns)
    AreOwners-select p [] h = tt
    AreOwners-select p (n ∷ ns) h = elim (Bool-cases (p n)) [
      | inl q ↦ rw q (h.0, AreOwners-select p ns h.1)
      | inr q ↦ rw q (AreOwners-select p ns h.1)
    ]

    is_some-all_get :
        (ns : List DomainName) → AreOwners names s ns → is_some (all_get names ns s.rrsets) ≡ true
    is_some-all_get [] h = refl
    is_some-all_get (n ∷ ns) h = ground (arith, h.0, is_some-all_get ns h.1)

    is_some-project :
        (ns : List DomainName) → AreOwners names s ns → is_some (project names ns s) ≡ true
    unfolding project
    is_some-project ns h = ground (arith, is_some-all_get ns h)

    -- The owners of the records.
    grow :
        (r : NsecRecord) (rs : List NsecRecord) (ns : List DomainName)
        → All (λ n. is_some (get names n rs) ≡ true) ns
        → All (λ n. is_some (get names n (r ∷ rs)) ≡ true) ns
    grow r rs [] h = tt
    grow r rs (n ∷ ns) h = (ground (arith, h.0), grow r rs ns h.1)

    own_record :
        (r : NsecRecord) (rs : List NsecRecord) → is_some (get names r.name (r ∷ rs)) ≡ true
    own_record r rs = ground (arith, laws.swapped r.name r.name)

    is_some-get :
        (rs : List NsecRecord)
        → All (λ n. is_some (get names n rs) ≡ true) (map (λ (r : NsecRecord). r.name) rs)
    is_some-get [] = tt
    is_some-get (r ∷ rs) = (own_record r rs, grow r rs _ (is_some-get rs))

    is_some-conclude :
        (proof : List DomainName) (j : Judged)
        → AreOwners names s proof
        → is_some (conclude names s proof j) ≡ true
    unfolding conclude
    is_some-conclude proof j h = elim (Bool-cases (is_valid j.validation_status)) [
      | inl q ↦ ground (arith, q, is_some-project proof h)
      | inr q ↦ ground (arith, q, is_some-project (owners names s) (is_some-get s.rrsets))
    ]

    module _ (hash : HashApi) (origin : DomainName) where
      HasOwners-merge :
          (n d : DomainName) (found : Enclosers)
          → IsOwner names s d
          → HasOwners names s found
          → HasOwners names s (merge names hash origin (some (n, d)) found)
      HasOwners-merge n d [] o h = ((o, tt), tt)
      HasOwners-merge n d ((m, ds) ∷ found) o h = elim (Bool-cases (same_name names n m)) [
        | inl q ↦ rw q (AreOwners-add d ds o h.0, h.1)
        | inr q ↦ rw q (h.0, HasOwners-merge n d found o h.1)
      ]

      HasOwners-potential :
          (qname : DomainName) (ps : Params) (found : Enclosers)
          → IsIndexed names s ps
          → HasOwners names s found
          → HasOwners names s (potential_enclosers names hash origin s qname ps found)
      unfolding potential_enclosers
      HasOwners-potential qname [] found i h = h
      HasOwners-potential qname ((p, ns) ∷ ps) found i h =
          elim (Option-cases (find_encloser names hash origin s p ns false qname)) [
            | inl q ↦ rw q (HasOwners-potential qname ps found i.1 h)
            | inr (nd, q) ↦
                let e = find_encloser-IsEncloser names hash origin s p ns qname nd.0 nd.1 q in
                let o = IsOwner-in nd.1 ns e.matched i.0 in
                rw q (HasOwners-potential qname ps _ i.1 (HasOwners-merge nd.0 nd.1 found o h))
          ]

      check_some :
          (n d : DomainName)
          → IsOwner names s d
          → is_some (check_closest_encloser names hash origin s n d) ≡ true
      unfolding check_closest_encloser rdtype_exists_in_bitmap
      check_some n d o = ground (arith, o)

      -- The names that are kept, and that there are such.
      keep_lem :
          (n : DomainName) (ds : List DomainName)
          → AreOwners names s ds
          → (kept : List DomainName) × (keep_checked names hash origin s n ds ≡ some kept)
            × AreOwners names s kept
      keep_lem n [] o = ([], refl, tt)
      keep_lem n (d ∷ ds) o = elim (Option-cases (check_closest_encloser names hash origin s n d)) [
        | inl q ↦ ground (arith, q, check_some n d o.0)
        | inr (b, q) ↦
            let (kept, e, h) = keep_lem n ds o.1 in
            (
              if b then d ∷ kept else kept,
              rw (keep_checked, q, e) refl,
              AreOwners-if b d kept o.0 h,
            )
      ]

      checked_lem :
          (found : Enclosers)
          → HasOwners names s found
          → (es : Enclosers) × (checked_enclosers names hash origin s found ≡ some es)
            × HasOwners names s es
      unfolding checked_enclosers
      checked_lem [] h = ([], refl, tt)
      checked_lem ((n, ds) ∷ found) h =
          let (kept, e, o) = keep_lem n ds h.0 in
          let (es, f, k) = checked_lem found h.1 in
          (
            if is_nonempty kept then (n, kept) ∷ es else es,
            rw (e, f, checked_enclosers) refl,
            HasOwners-if (is_nonempty kept) n kept es o k,
          )

      -- The closest enclosers are found, with the owners of records.
      pub encloser_lem :
          (qname : DomainName)
          → IsIndexed names s s.nsec3_params
          → (es : Enclosers) × (get_closest_encloser names hash origin s qname ≡ some es)
            × HasOwners names s es
      unfolding get_closest_encloser
      encloser_lem qname i = checked_lem _ (HasOwners-potential qname s.nsec3_params [] i tt)

      -- What the loops gather has records.
      Gathered : Hashed → Type 0
      Gathered h =
          HasOwners names s h.nsec_names_covering_qname
          × HasOwners names s h.nsec_names_covering_wildcard

      covering_owners :
          (p : HashParams × List DomainName) (name d : DomainName) (cs : List DomainName)
          → AreOwners names s p.1
          → hash_covering names hash origin s p name ≡ some (d, cs)
          → AreOwners names s cs
      unfolding hash_covering nsec3_covering_name
      covering_owners p name d cs o e =
          elim (Option-cases (get_digest_name_for_nsec3 names hash origin p.0 name)) [
            | inl q ↦ ground (arith, q, e)
            | inr (x, q) ↦ elim (Bool-cases (is_nonempty (nsec3_covering_name names s p.1 x))) [
              | inl k ↦
                  let same : nsec3_covering_name names s p.1 x ≡ cs = ground (arith, q, k, e) in
                  rw (sym same) (AreOwners-select (covered_by names s x) p.1 o)
              | inr k ↦ ground (arith, q, k, e)
            ]
          ]

      Gathered-qname :
          (p : HashParams × List DomainName) (e : DomainName) (h : Hashed)
          → AreOwners names s p.1
          → Gathered h
          → Gathered (cover_qname names hash origin s p e h)
      unfolding cover_qname Gathered
      Gathered-qname p e h o g =
          elim (Option-cases
            (hash_covering names hash origin s p (get_next_closest_encloser h.qname e))) [
              | inl q ↦ rw (q, cover_qname) g
              | inr (dc, q) ↦
                  rw (q, cover_qname)
                    (
                      HasOwners-set_names dc.0 dc.1 h.nsec_names_covering_qname
                          (covering_owners p _ dc.0 dc.1 o q) g.0,
                      g.1,
                    )
            ]

      Gathered-wildcard :
          (p : HashParams × List DomainName) (e : DomainName) (h : Hashed)
          → AreOwners names s p.1
          → Gathered h
          → Gathered (cover_wildcard names hash origin s p e h)
      unfolding cover_wildcard Gathered
      Gathered-wildcard p e h o g =
          elim (Option-cases (hash_covering names hash origin s p (get_wildcard names e))) [
            | inl q ↦ rw (q, cover_wildcard) g
            | inr (dc, q) ↦
                rw (q, cover_wildcard)
                  (
                    g.0,
                    HasOwners-set_names dc.0 dc.1 h.nsec_names_covering_wildcard
                        (covering_owners p _ dc.0 dc.1 o q) g.1,
                  )
          ]

      Gathered-params :
          (e : DomainName) (ps : Params) (h : Hashed)
          → IsIndexed names s ps
          → Gathered h
          → Gathered (cover_params names hash origin s e ps h)
      unfolding cover_params
      Gathered-params e [] h i g = g
      Gathered-params e (p ∷ ps) h i g =
          Gathered-params e ps _ i.1 (Gathered-wildcard p e _ i.0 (Gathered-qname p e h i.0 g))

      Gathered-enclosers :
          (es : Enclosers) (h : Hashed)
          → IsIndexed names s s.nsec3_params
          → Gathered h
          → Gathered (cover_enclosers names hash origin s es h)
      unfolding cover_enclosers
      Gathered-enclosers [] h i g = g
      Gathered-enclosers (e ∷ es) h i g =
          Gathered-enclosers es _ i (Gathered-params e.0 s.nsec3_params h i g)

      Gathered-all :
          (qname : DomainName) (es : Enclosers)
          → IsIndexed names s s.nsec3_params
          → Gathered
              (cover_enclosers names hash origin s es (uncovered names hash origin s qname es))
      unfolding Gathered
      Gathered-all qname es i = Gathered-enclosers es _ i (tt, tt)

      pub nxdomain_some :
          (qname : DomainName) (es : Enclosers)
          → IsIndexed names s s.nsec3_params
          → HasOwners names s es
          → get_closest_encloser names hash origin s qname ≡ some es
          → is_some (nxdomain_nsec3_status names hash origin s qname) ≡ true
      unfolding nxdomain_nsec3_status Gathered
      nxdomain_some qname es i h e =
          let g = Gathered-all qname es i in
          rw (e, nxdomain_nsec3_status)
            (is_some-conclude _ _ (
              AreOwners-add_values _ _ g.1
                (AreOwners-add_values _ _ g.0 (AreOwners-add_values es [] h tt))))

      HasOwners-wildcard :
          (w : DomainName) (es : Enclosers)
          → HasOwners names s es
          → HasOwners names s (wildcard_encloser names hash origin s w es)
      unfolding wildcard_encloser
      HasOwners-wildcard w [] h = (tt, tt)
      HasOwners-wildcard w (e ∷ es) h = h

      pub wildcard_some :
          (qname w : DomainName) (es : Enclosers)
          → IsIndexed names s s.nsec3_params
          → HasOwners names s es
          → get_closest_encloser names hash origin s qname ≡ some es
          → is_some (wildcard_nsec3_status names hash origin s qname w) ≡ true
      unfolding wildcard_nsec3_status Gathered
      wildcard_some qname w es i h e =
          let g = Gathered-all qname (wildcard_encloser names hash origin s w es) i in
          rw (e, wildcard_nsec3_status)
            (is_some-conclude _ _ (
              AreOwners-add_values _ _ g.0 (
                AreOwners-add_values (wildcard_encloser names hash origin s w es) []
                  (HasOwners-wildcard w es h) tt)))
