-- ===== src/Aggregate/Queries/Clones.antt =====
-- DNSQuery of dnsviz/query.py as a function from servers and clients to responses, and what the loops
-- that add clones of responses do to it.
use dnsviz.Base.{
  ℕ, [], ◌∷◌, Option, none, some, true, ◌==◌, ◌≡◌, refl, ◌∙◌, inl, inr, ◌⊎◌, if◌then◌else◌, arith,
  Option-cases,
}
use dnsviz.Response.Classify.{DnsResponse}
use dnsviz.Aggregate.Table.{
  Address, Entries, Table, add, add_entries, all_keys, entries, get, get_entry,
}
use dnsviz.Aggregate.Table.Laws.{
  get-add_entries, add_entries_keys, add_entries_succeeds, disjoint, distinct, distinct-entries,
  get_entry-entries, or_else,
}
use dnsviz.Aggregate.Queries.{
  DnsQuery, Outcome, Owned, QueryError, add_clones, add_response, already_exists, copy, ok, raised,
  without_responses,
}

-- The responses, without the order in which they came.
abbrev pub view : DnsQuery → Address → Address → Option DnsResponse
view q s c = elim (get s c q.responses) [ none ↦ none | some o ↦ some o.response ]

abbrev pub owned : ℕ → Entries Owned → Entries Owned
owned i [] = []
owned i ((s, (c, o)) ∷ es) = (s, (c, record o { query = some i })) ∷ owned i es

same_self : (n : ℕ) → (n == n) ≡ true
same_self n = ground arith

add_own :
    (s c : Address) (o : Owned) (q : DnsQuery)
    → add_response s c (record o { query = some q.ident }) q
      ≡ (elim (add s c (record o { query = some q.ident }) q.responses) [
        | none ↦ raised already_exists
        | some t ↦ ok (record q { responses = t })
      ])
unfolding add_response
add_own s c o q = ground (arith, same_self q.ident)

-- Adding clones is adding to the dictionaries.
pub clones_lem :
    (es : Entries Owned) (q : DnsQuery)
    → add_clones es q ≡ (elim (add_entries (owned q.ident es) q.responses) [
      | none ↦ raised already_exists
      | some t ↦ ok (record q { responses = t })
    ])
unfolding add_clones add_entries
clones_lem [] q = refl
clones_lem ((s, (c, o)) ∷ es) q =
    elim (Option-cases (add s c (record o { query = some q.ident }) q.responses)) [
      | inl n ↦ rw (add_own s c o q, n, add_clones, add_entries) refl
      | inr (t, n) ↦
          rw (add_own s c o q, n, add_clones, add_entries)
            (clones_lem es (record q { responses = t }))
    ]

get_entry-owned :
    (i : ℕ) (es : Entries Owned) (s c : Address)
    → get_entry s c (owned i es)
      ≡ (elim (get_entry s c es) [ none ↦ none | some o ↦ some (record o { query = some i }) ])
get_entry-owned i [] s c = refl
get_entry-owned i ((u, (d, o)) ∷ es) s c = ground (arith, get_entry-owned i es s c)

distinct-owned : (i : ℕ) (es : Entries Owned) → distinct (owned i es) ≡ distinct es
distinct-owned i [] = refl
distinct-owned i ((u, (d, o)) ∷ es) = ground (arith, get_entry-owned i es u d, distinct-owned i es)

disjoint-owned :
    (i : ℕ) (es : Entries Owned) (t : Table Owned) → disjoint (owned i es) t ≡ disjoint es t
disjoint-owned i [] t = refl
disjoint-owned i ((u, (d, o)) ∷ es) t = ground (arith, disjoint-owned i es t)

-- The keys of the dictionaries are different, and each response belongs to the query.
pub record IsWell (q : DnsQuery) : Type 0 where
  pub keyed : all_keys q.responses ≡ true
  pub owning : (s c : Address) (o : Owned) → get s c q.responses ≡ some o → o.query ≡ some q.ident

abbrev pub error_of : Outcome → Option QueryError
error_of (raised e) = some e
error_of (ok q) = none

abbrev pub response_in : Entries Owned → Address → Address → Option DnsResponse
response_in es s c = elim (get_entry s c es) [ none ↦ none | some o ↦ some o.response ]

pub clones_error :
    (es : Entries Owned) (q : DnsQuery)
    → distinct es ≡ true
    → error_of (add_clones es q) ≡ (if disjoint es q.responses then none else some already_exists)
clones_error es q h = ground (
  arith,
  clones_lem es q,
  distinct-owned q.ident es,
  disjoint-owned q.ident es q.responses,
  add_entries_succeeds (owned q.ident es) q.responses,
  h,
)

-- What a loop of additions makes of a well-formed query.
pub record Added (es : Entries Owned) (q p : DnsQuery) : Type 0 where
  pub same_ident : p.ident ≡ q.ident
  pub well : IsWell p
  pub seen : (s c : Address) → view p s c ≡ or_else (view q s c) (response_in es s c)

pub clones_ok :
    (es : Entries Owned) (q p : DnsQuery)
    → add_clones es q ≡ ok p
    → (t : Table Owned) × (add_entries (owned q.ident es) q.responses ≡ some t)
      × (p ≡ record q { responses = t })
clones_ok es q p e = elim (Option-cases (add_entries (owned q.ident es) q.responses)) [
  | inl n ↦ ground (arith, n, clones_lem es q, e)
  | inr (t, n) ↦ (t, n, ground (arith, n, clones_lem es q, e))
]

-- A response after the additions was there, or is a clone of the query.
owning_lem :
    (i : ℕ) (es : Entries Owned) (t t' : Table Owned) (s c : Address) (o : Owned)
    → add_entries (owned i es) t ≡ some t'
    → get s c t' ≡ some o
    → (get s c t ≡ some o) ⊎ (o.query ≡ some i)
owning_lem i es t t' s c o e g = elim (Option-cases (get s c t)) [
  | inl n ↦ elim (Option-cases (get_entry s c es)) [
    | inl k ↦
        ground (arith, get-add_entries (owned i es) t t' s c e, get_entry-owned i es s c, n, k, g)
    | inr (r, k) ↦
        inr (
          ground
            (arith, get-add_entries (owned i es) t t' s c e, get_entry-owned i es s c, n, k, g))
  ]
  | inr (r, n) ↦ inl (ground (arith, get-add_entries (owned i es) t t' s c e, n, g))
]

pub clones-Added :
    (es : Entries Owned) (q p : DnsQuery) → IsWell q → add_clones es q ≡ ok p → Added es q p
clones-Added es q p w e =
    let (t, n, by) = clones_ok es q p e in
    let added : Added es q (record q { responses = t }) = record {
      same_ident = refl;
      well = record {
        keyed = add_entries_keys (owned q.ident es) q.responses t w.keyed n;
        owning = λ s c o g. elim (owning_lem q.ident es q.responses t s c o n g) [
          | inl k ↦ w.owning s c o k
          | inr k ↦ k
        ];
      };
      seen = λ s c. ground (
        arith,
        get-add_entries (owned q.ident es) q.responses t s c n,
        get_entry-owned q.ident es s c,
      );
    } in
    rw by added

pub bare-IsWell : (fresh : ℕ) (q : DnsQuery) → IsWell (without_responses fresh q)
bare-IsWell fresh q = record { keyed = refl; owning = λ s c o g. ground (arith, g) }

pub response_in_lem :
    (q : DnsQuery)
    → all_keys q.responses ≡ true
    → (s c : Address) → response_in (entries q.responses) s c ≡ view q s c
response_in_lem q h s c = ground (arith, get_entry-entries q.responses s c h)

pub disjoint-nil : (es : Entries Owned) → disjoint es [] ≡ true
disjoint-nil [] = refl
disjoint-nil ((s, (c, o)) ∷ es) = ground (arith, disjoint-nil es)

pub outcome_cases :
    (x : Outcome) → ((e : QueryError) × (x ≡ raised e)) ⊎ ((q : DnsQuery) × (x ≡ ok q))
outcome_cases (raised e) = inl (e, refl)
outcome_cases (ok q) = inr (q, refl)

-- A copy of a well-formed query is one, with the same responses.
pub copied :
    (fresh : ℕ) (a : DnsQuery)
    → IsWell a
    → (p : DnsQuery) × (copy fresh true a ≡ ok p)
      × IsWell p
      × (p.ident ≡ fresh)
      × ((s c : Address) → view p s c ≡ view a s c)
unfolding copy
copied fresh a w =
    let q = without_responses fresh a in
    let no_error = clones_error (entries a.responses) q (distinct-entries a.responses w.keyed) in
    elim (outcome_cases (add_clones (entries a.responses) q)) [
      | inl (x, e) ↦ ground (arith, e, no_error, disjoint-nil (entries a.responses))
      | inr (p, e) ↦
          let r = clones-Added (entries a.responses) q p (bare-IsWell fresh a) e in
          (p, e, r.well, r.same_ident, λ s c. r.seen s c ∙ response_in_lem a w.keyed s c)
    ]
