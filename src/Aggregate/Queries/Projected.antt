-- ===== src/Aggregate/Queries/Projected.antt =====
-- What projecting a DNSQuery of dnsviz/query.py to some servers does.
use dnsviz.Base.{
  ℕ, List, [], ◌∷◌, none, some, Bool, true, false, not, ◌&&◌, ◌==◌, ◌≡◌, refl, inl, inr, ==_iff,
  if◌then◌else◌, any, lookup, is_some, arith, Option-cases, Bool-cases, elem, all,
}
use dnsviz.Aggregate.Table.{Address, Table, all_keys, get, get_entry, has_keys, of_server}
use dnsviz.Aggregate.Table.Laws.{
  distinct, distinct-append, get_entry-append, distinct-of_server, get_entry-of_server,
}
use dnsviz.Aggregate.Queries.{
  DnsQuery, Outcome, Owned, add_clones, copy, not_queried, of_servers, ok, project, raised,
  without_responses,
}
use dnsviz.Aggregate.Queries.Clones.{
  IsWell, bare-IsWell, clones-Added, clones_error, disjoint-nil, outcome_cases, view,
}

-- Different servers, as of a set.
abbrev pub all_different : List Address → Bool
all_different [] = true
all_different (s ∷ ss) = not (elem s ss) && all_different ss

keys_of :
    (t : Table Owned) (u : Address) (cs : List (Address × Owned))
    → all_keys t ≡ true
    → lookup u t ≡ some cs
    → has_keys cs ≡ true
keys_of [] u cs k n = ground (arith, n)
keys_of ((s, ds) ∷ t) u cs k n = elim (Bool-cases (u == s)) [
  | inl q ↦ let own : has_keys ds ≡ true = ground (arith, k) in ground (arith, q, n, own)
  | inr q ↦ keys_of t u cs (ground (arith, k)) (ground (arith, q, n))
]

module _ (t : Table Owned) where
  get_entry-of_servers :
      (ss : List Address) (s c : Address)
      → get_entry s c (of_servers ss t) ≡ (if elem s ss then get s c t else none)
  get_entry-of_servers [] s c = refl
  get_entry-of_servers (u ∷ ss) s c = elim (Option-cases (lookup u t)) [
    | inl n ↦ ground (arith, n, get_entry-of_servers ss s c, ==_iff s u)
    | inr (cs, n) ↦ ground (
      arith,
      n,
      get_entry-of_servers ss s c,
      get_entry-append (of_server u cs) (of_servers ss t) s c,
      get_entry-of_server u cs s c,
    )
  ]

  not_elem_get :
      (ss : List Address) (u s c : Address)
      → elem u ss ≡ false
      → is_some (get_entry s c (of_servers ss t)) ≡ true
      → (s == u) ≡ false
  not_elem_get ss u s c h g = ground (arith, h, g, get_entry-of_servers ss s c, ==_iff s u)

  distinct-of_servers :
      (ss : List Address)
      → all_keys t ≡ true
      → all_different ss ≡ true
      → distinct (of_servers ss t) ≡ true
  distinct-of_servers [] k h = refl
  distinct-of_servers (u ∷ ss) k h = elim (Option-cases (lookup u t)) [
    | inl n ↦ ground (arith, n, h, distinct-of_servers ss k)
    | inr (cs, n) ↦
        let rest = distinct-of_servers ss k (ground (arith, h)) in
        let own = distinct-of_server u cs (keys_of t u cs k n) in
        rw n (
          distinct-append (of_server u cs) (of_servers ss t) own rest (λ s c g.
            ground
              (arith, g, h, get_entry-of_server u cs s c, get_entry-of_servers ss s c, ==_iff s u)))
  ]

-- The part of a query from some servers.
pub record IsPart (servers : List Address) (q p : DnsQuery) : Type 0 where
  pub well : IsWell p
  pub seen : (s c : Address) → view p s c ≡ (if elem s servers then view q s c else none)

abbrev pub is_queried : DnsQuery → Address → Bool
is_queried q s = is_some (lookup s q.responses)

abbrev pub IsProjected : List Address → DnsQuery → Outcome → Type 0
IsProjected servers q (ok p) = (all (is_queried q) servers ≡ true) × IsPart servers q p
IsProjected servers q (raised not_queried) = all (is_queried q) servers ≡ false
IsProjected servers q (raised _) = ⊥

any-all :
    (q : DnsQuery) (ss : List Address)
    → any (λ s. not (is_some (lookup s q.responses))) ss ≡ not (all (is_queried q) ss)
any-all q [] = refl
any-all q (s ∷ ss) = ground (arith, any-all q ss)

IsProjected-clones :
    (fresh : ℕ) (servers : List Address) (q : DnsQuery)
    → IsWell q
    → all_different servers ≡ true
    → all (is_queried q) servers ≡ true
    → IsProjected servers q
        (add_clones (of_servers servers q.responses) (without_responses fresh q))
IsProjected-clones fresh servers q w h k =
    let es = of_servers servers q.responses in
    let bare = without_responses fresh q in
    let no_error = clones_error es bare (distinct-of_servers q.responses servers w.keyed h) in
    elim (outcome_cases (add_clones es bare)) [
      | inl (x, e) ↦ ground (arith, e, no_error, disjoint-nil es)
      | inr (p, e) ↦
          let r = clones-Added es bare p (bare-IsWell fresh q) e in
          rw e (
            k,
            record {
              well = r.well;
              seen =
                  λ s c. ground (arith, r.seen s c, get_entry-of_servers q.responses servers s c);
            },
          )
    ]

-- Projecting a well-formed query to different servers gives a well-formed query with the responses from
-- these servers and no others; it raises an error exactly when some server was not queried.
pub project-IsProjected :
    (fresh : ℕ) (servers : List Address) (q : DnsQuery)
    → IsWell q
    → all_different servers ≡ true
    → IsProjected servers q (project fresh servers q)
unfolding project copy
project-IsProjected fresh servers q w h = elim (Bool-cases (all (is_queried q) servers)) [
  | inl k ↦ rw (any-all q servers, k, project, copy) (IsProjected-clones fresh servers q w h k)
  | inr k ↦ rw (any-all q servers, k, project) k
]
