-- ===== src/Aggregate/Table/Laws.antt =====
-- What the dictionaries of responses of dnsviz/query.py hold after additions.
use dnsviz.Base.{
  List, [], ◌∷◌, ◌++◌, Option, none, some, Bool, true, false, not, ◌&&◌, ◌||◌, ◌==◌, ◌≡◌, refl, inl,
  inr, if◌then◌else◌, lookup, is_some, arith, Option-cases, Bool-cases,
}
use dnsviz.Aggregate.Table.{
  Address, Entries, Table, add, add_entries, all_keys, entries, get, get_entry, has_keys, of_server,
}

-- `a if a is not None else b`
abbrev pub or_else : {A : Type 0} → Option A → Option A → Option A
or_else none b = b
or_else (some a) b = some a

lookup_append :
    {B : Type 0} (k : Address) (bs : List (Address × B)) (j : Address) (b : B)
    → lookup k (bs ++ (j, b) ∷ []) ≡ or_else (lookup k bs) (if k == j then some b else none)
lookup_append k [] j b = refl
lookup_append k ((i, a) ∷ bs) j b = ground (arith, lookup_append k bs j b)

module _ {A : Type 0} where
  -- After an addition that succeeds: the new response under its keys, and all else as before.
  pub get-add :
      (s c : Address) (r : A) (t t' : Table A) (u d : Address)
      → add s c r t ≡ some t'
      → get u d t' ≡ (if u == s && d == c then some r else get u d t)
  unfolding add
  get-add s c r [] t' u d e = ground arith
  get-add s c r ((v, cs) ∷ t) t' u d e = elim (Bool-cases (s == v)) [
    | inl q ↦ elim (Option-cases (lookup c cs)) [
      | inl n ↦ ground (arith, q, n, e, lookup_append d cs c r)
      | inr (o, n) ↦ ground (arith, q, n, e)
    ]
    | inr q ↦ elim (Option-cases (add s c r t)) [
      | inl n ↦ ground (arith, q, n, e)
      | inr (t2, n) ↦ ground (arith, q, n, e, get-add s c r t t2 u d n)
    ]
  ]

  add_fails :
      (s c : Address) (r : A) (t : Table A) → is_some (add s c r t) ≡ not (is_some (get s c t))
  unfolding add
  add_fails s c r [] = refl
  add_fails s c r ((v, cs) ∷ t) = ground (arith, add_fails s c r t)

  abbrev pub disjoint : Entries A → Table A → Bool
  disjoint [] t = true
  disjoint ((s, (c, r)) ∷ es) t = not (is_some (get s c t)) && disjoint es t

  -- All the additions: a response is the one that was there, or the one added.
  pub get-add_entries :
      (es : Entries A) (t t' : Table A) (u d : Address)
      → add_entries es t ≡ some t'
      → get u d t' ≡ or_else (get u d t) (get_entry u d es)
  unfolding add_entries
  get-add_entries [] t t' u d e = ground (arith)
  get-add_entries ((s, (c, r)) ∷ es) t t' u d e = elim (Option-cases (add s c r t)) [
    | inl q ↦ ground (arith, q, e)
    | inr (t1, q) ↦ ground (
      arith,
      q,
      e,
      add_fails s c r t,
      get-add s c r t t1 u d q,
      get-add_entries es t1 t' u d (rw (q, add_entries) at e),
    )
  ]

  pub get_entry-append :
      (es fs : Entries A) (u d : Address)
      → get_entry u d (es ++ fs) ≡ or_else (get_entry u d es) (get_entry u d fs)
  get_entry-append [] fs u d = refl
  get_entry-append ((s, (c, r)) ∷ es) fs u d = ground (arith, get_entry-append es fs u d)

  pub get_entry-of_server :
      (s : Address) (cs : List (Address × A)) (u d : Address)
      → get_entry u d (of_server s cs) ≡ (if u == s then lookup d cs else none)
  get_entry-of_server s [] u d = ground arith
  get_entry-of_server s ((c, r) ∷ cs) u d = ground (arith, get_entry-of_server s cs u d)

  -- The triples of a dictionary hold what it holds.
  pub get_entry-entries :
      (t : Table A) (u d : Address) → all_keys t ≡ true → get_entry u d (entries t) ≡ get u d t
  get_entry-entries [] u d h = refl
  get_entry-entries ((s, cs) ∷ t) u d h = ground (
    arith,
    h,
    get_entry-append (of_server s cs) (entries t) u d,
    get_entry-of_server s cs u d,
    get_entry-entries t u d,
  )

  abbrev pub distinct : Entries A → Bool
  distinct [] = true
  distinct ((s, (c, r)) ∷ es) = not (is_some (get_entry s c es)) && distinct es

  disjoint-add :
      (es : Entries A) (s c : Address) (r : A) (t t' : Table A)
      → add s c r t ≡ some t'
      → is_some (get_entry s c es) ≡ false
      → disjoint es t' ≡ disjoint es t
  disjoint-add [] s c r t t' e h = refl
  disjoint-add ((u, (d, q)) ∷ es) s c r t t' e h =
      ground (arith, h, get-add s c r t t' u d e, disjoint-add es s c r t t' e)

  -- The additions succeed exactly when no key is there.
  pub add_entries_succeeds :
      (es : Entries A) (t : Table A)
      → distinct es ≡ true
      → is_some (add_entries es t) ≡ disjoint es t
  unfolding add_entries
  add_entries_succeeds [] t h = refl
  add_entries_succeeds ((s, (c, r)) ∷ es) t h = elim (Option-cases (add s c r t)) [
    | inl q ↦ ground (arith, q, add_fails s c r t)
    | inr (t1, q) ↦
        ground
          (arith, q, h, add_fails s c r t, add_entries_succeeds es t1, disjoint-add es s c r t t1 q)
  ]

  later_get :
      (s c : Address) (r : A) (es : Entries A) (u d : Address)
      → is_some (get_entry u d es) ≡ true
      → is_some (get_entry u d ((s, (c, r)) ∷ es)) ≡ true
  later_get s c r es u d g = ground (arith, g)

  first_get :
      (s c : Address) (r : A) (es : Entries A) → is_some (get_entry s c ((s, (c, r)) ∷ es)) ≡ true
  first_get s c r es = ground arith

  pub distinct-append :
      (es fs : Entries A)
      → distinct es ≡ true
      → distinct fs ≡ true
      → ((u d : Address) → is_some (get_entry u d es) ≡ true → is_some (get_entry u d fs) ≡ false)
      → distinct (es ++ fs) ≡ true
  distinct-append [] fs h k apart = k
  distinct-append ((s, (c, r)) ∷ es) fs h k apart =
      let tail : distinct es ≡ true = ground (arith, h) in
      let rest = distinct-append es fs tail k (λ u d g. apart u d (later_get s c r es u d g)) in
      ground (arith, h, apart s c (first_get s c r es), get_entry-append es fs s c, rest)

  pub distinct-of_server :
      (s : Address) (cs : List (Address × A))
      → has_keys cs ≡ true
      → distinct (of_server s cs) ≡ true
  distinct-of_server s [] h = refl
  distinct-of_server s ((c, r) ∷ cs) h =
      ground (arith, h, get_entry-of_server s cs s c, distinct-of_server s cs)

  no_server : (t : Table A) (s : Address) (d : Address) → lookup s t ≡ none → get s d t ≡ none
  no_server t s d h = ground (arith, h)

  pub distinct-entries : (t : Table A) → all_keys t ≡ true → distinct (entries t) ≡ true
  distinct-entries [] h = refl
  distinct-entries ((s, cs) ∷ t) h =
      let tail : all_keys t ≡ true = ground (arith, h) in
      let own : has_keys cs ≡ true = ground (arith, h) in
      let new : lookup s t ≡ none = ground (arith, h) in
      distinct-append (of_server s cs) (entries t) (distinct-of_server s cs own)
        (distinct-entries t tail)
        (λ u d g. ground (
          arith,
          g,
          get_entry-of_server s cs u d,
          get_entry-entries t u d tail,
          no_server t s d new,
        ))

  append_keys :
      (cs : List (Address × A)) (c : Address) (r : A)
      → has_keys cs ≡ true
      → lookup c cs ≡ none
      → has_keys (cs ++ (c, r) ∷ []) ≡ true
  append_keys [] c r h k = refl
  append_keys ((d, q) ∷ cs) c r h k =
      ground (arith, h, k, append_keys cs c r, lookup_append d cs c r)

  -- The servers after an addition.
  add_servers :
      (s c : Address) (r : A) (t t' : Table A) (u : Address)
      → add s c r t ≡ some t'
      → is_some (lookup u t') ≡ (u == s || is_some (lookup u t))
  unfolding add
  add_servers s c r [] t' u e = ground (arith, e)
  add_servers s c r ((v, cs) ∷ t) t' u e = elim (Bool-cases (s == v)) [
    | inl q ↦ elim (Option-cases (lookup c cs)) [
      | inl n ↦ ground (arith, q, n, e)
      | inr (o, n) ↦ ground (arith, q, n, e)
    ]
    | inr q ↦ elim (Option-cases (add s c r t)) [
      | inl n ↦ ground (arith, q, n, e)
      | inr (t2, n) ↦ ground (arith, q, n, e, add_servers s c r t t2 u n)
    ]
  ]

  pub add_keys :
      (s c : Address) (r : A) (t t' : Table A)
      → all_keys t ≡ true
      → add s c r t ≡ some t'
      → all_keys t' ≡ true
  unfolding add
  add_keys s c r [] t' h e = ground (arith, e)
  add_keys s c r ((v, cs) ∷ t) t' h e = elim (Bool-cases (s == v)) [
    | inl q ↦ elim (Option-cases (lookup c cs)) [
      | inl n ↦ ground (arith, q, n, e, h, append_keys cs c r)
      | inr (o, n) ↦ ground (arith, q, n, e)
    ]
    | inr q ↦ elim (Option-cases (add s c r t)) [
      | inl n ↦ ground (arith, q, n, e)
      | inr (t2, n) ↦ ground (arith, q, n, e, h, add_keys s c r t t2, add_servers s c r t t2 v n)
    ]
  ]

  pub add_entries_keys :
      (es : Entries A) (t t' : Table A)
      → all_keys t ≡ true
      → add_entries es t ≡ some t'
      → all_keys t' ≡ true
  unfolding add_entries
  add_entries_keys [] t t' h e = ground (arith, h, e)
  add_entries_keys ((s, (c, r)) ∷ es) t t' h e = elim (Option-cases (add s c r t)) [
    | inl q ↦ ground (arith, q, e)
    | inr (t1, q) ↦ add_entries_keys es t1 t' (add_keys s c r t t1 h q) (rw (q, add_entries) at e)
  ]
