-- ===== src/Aggregate/Multi/Merged.antt =====
-- MultiQuery of dnsviz/query.py as a function from parameters, servers and clients to responses.
use dnsviz.Base.{
  ℕ, List, [], ◌∷◌, Option, none, some, Bool, true, ◌&&◌, ◌==◌, ◌≡◌, refl, sym, ap, ◌∙◌, inl, inr,
  ==_iff, All, if◌then◌else◌, arith, Option-cases, Bool-cases, bytes_eq,
}
use dnsviz.Dns.Message.{Bytes, DomainName}
use dnsviz.Dns.Names.{NameApi, same_name}
use dnsviz.Response.Classify.{DnsResponse}
use dnsviz.Aggregate.Table.{Address, Entries, entries}
use dnsviz.Aggregate.Table.Laws.{or_else}
use dnsviz.Aggregate.Queries.{
  DnsQuery, Owned, add_clones, copy, join, ok, same_bool, same_number, without_responses,
}
use dnsviz.Aggregate.Queries.Clones.{IsWell, clones_ok, outcome_cases, view}
use dnsviz.Aggregate.Queries.Joined.{join-IsJoined}
use dnsviz.Aggregate.Predicates.Unions.{is_union}
use dnsviz.Aggregate.Multi.{
  MultiOutcome, MultiQuery, QueryParams, add_query, added, find_query, params_of, refused,
  same_params, set_query,
}

bytes_refl : (x : Bytes) → bytes_eq x x ≡ true
bytes_refl [] = refl
bytes_refl (b ∷ x) = ground (arith, bytes_refl x)

bytes_same : (x y : Bytes) → bytes_eq x y ≡ true → x ≡ y
bytes_same [] [] h = refl
bytes_same [] (b ∷ y) h = ground (arith, h)
bytes_same (a ∷ x) [] h = ground (arith, h)
bytes_same (a ∷ x) (b ∷ y) h = ground (arith, h, bytes_same x y, ==_iff a b)

number_same : (a b : Option ℕ) → same_number a b ≡ true → a ≡ b
number_same a b h = ground (arith, h)

bool_same : (a b : Bool) → same_bool a b ≡ true → a ≡ b
bool_same a b h = ground (arith, h)

params_refl : (p : QueryParams) → same_params p p ≡ true
params_refl p = ground (arith, bytes_refl p.qname_text, bytes_refl p.edns_options_str)

params_same : (p q : QueryParams) → same_params p q ≡ true → p ≡ q
params_same p q h = ground (
  arith,
  h,
  bytes_same p.qname_text q.qname_text,
  bytes_same p.edns_options_str q.edns_options_str,
  number_same p.edns q.edns,
  bool_same p.tcp q.tcp,
)

find_set :
    (k j : QueryParams) (q : DnsQuery) (qs : List (QueryParams × DnsQuery))
    → find_query j (set_query k q qs) ≡ (if same_params j k then some q else find_query j qs)
find_set k j q [] = refl
find_set k j q ((i, r) ∷ qs) = elim (Bool-cases (same_params k i)) [
  | inl h ↦ rw (params_same k i h, params_refl i) (ground arith)
  | inr h ↦ elim (Bool-cases (same_params j i)) [
    | inl l ↦ elim (Bool-cases (same_params j k)) [
      | inl n ↦
          let same : same_params k i ≡ true =
            ap (λ x. same_params x i) (sym (params_same j k n)) ∙ l in
          ground (arith, h, same)
      | inr n ↦ ground (arith, h, l, n)
    ]
    | inr l ↦ ground (arith, h, l, find_set k j q qs)
  ]
]

-- The responses, by the parameters of their query.
abbrev pub multi_view : MultiQuery → QueryParams → Address → Address → Option DnsResponse
multi_view m k s c = elim (find_query k m.queries) [ none ↦ none | some q ↦ view q s c ]

module _ (to_text : DomainName → Bytes) where
  clones_keep :
      (es : Entries Owned) (q p : DnsQuery)
      → add_clones es q ≡ ok p
      → params_of to_text p ≡ params_of to_text q
  unfolding params_of
  clones_keep es q p e = let (t, _, by) = clones_ok es q p e in rw by refl

  bare_params :
      (fresh : ℕ) (a : DnsQuery)
      → params_of to_text (without_responses fresh a) ≡ params_of to_text a
  unfolding params_of
  bare_params fresh a = refl

  join_keeps :
      (fresh : ℕ) (a b q : DnsQuery)
      → IsWell a
      → IsWell b
      → join to_text fresh a b ≡ ok q
      → params_of to_text q ≡ params_of to_text a
  unfolding join copy
  join_keeps fresh a b q wa wb e =
      elim (outcome_cases (add_clones (entries a.responses) (without_responses fresh a))) [
        | inl (x, h) ↦ ground (arith, e, h)
        | inr (p, h) ↦
            let last : add_clones (entries b.responses) p ≡ ok q = ground (arith, e, h) in
            clones_keep (entries b.responses) p q last
            ∙ clones_keep (entries a.responses) (without_responses fresh a) p h
            ∙ bare_params fresh a
      ]

  -- The queries are well formed, and each stands under its own parameters.
  abbrev pub IsIndexed : List (QueryParams × DnsQuery) → Type 0
  IsIndexed = All (λ (e : QueryParams × DnsQuery). IsWell e.1 × (params_of to_text e.1 ≡ e.0))

  found-IsIndexed :
      (k : QueryParams) (q : DnsQuery) (qs : List (QueryParams × DnsQuery))
      → IsIndexed qs
      → find_query k qs ≡ some q
      → IsWell q × (params_of to_text q ≡ k)
  found-IsIndexed k q [] h e = ground (arith, e)
  found-IsIndexed k q ((j, r) ∷ qs) h e = elim (Bool-cases (same_params k j)) [
    | inl n ↦
        let by : r ≡ q = ground (arith, n, e) in
        rw (sym by) (h.0.0, h.0.1 ∙ sym (params_same k j n))
    | inr n ↦ found-IsIndexed k q qs h.1 (ground (arith, n, e))
  ]

  set-IsIndexed :
      (k : QueryParams) (q : DnsQuery) (qs : List (QueryParams × DnsQuery))
      → IsWell q
      → params_of to_text q ≡ k
      → IsIndexed qs
      → IsIndexed (set_query k q qs)
  set-IsIndexed k q [] w e h = ((w, e), tt)
  set-IsIndexed k q ((j, r) ∷ qs) w e h = elim (Bool-cases (same_params k j)) [
    | inl n ↦ rw n ((w, e ∙ params_same k j n), h.1)
    | inr n ↦ rw n (h.0, set-IsIndexed k q qs w e h.1)
  ]

  -- What an addition leaves.
  pub record Merges (m m' : MultiQuery) (q : DnsQuery) : Type 0 where
    pub indexed : IsIndexed m'.queries
    pub seen :
        (k : QueryParams) (s c : Address)
        → multi_view m' k s c ≡ (
            if same_params k (params_of to_text q)
            then or_else (multi_view m k s c) (view q s c)
            else multi_view m k s c)

  merge_seen :
      (m : MultiQuery) (q r : DnsQuery) (old : Option DnsQuery)
      → find_query (params_of to_text q) m.queries ≡ old
      → ((s c : Address)
          → view r s c ≡ or_else (elim old [ none ↦ none | some o ↦ view o s c ]) (view q s c))
      → (k : QueryParams) (s c : Address)
      → multi_view (record m { queries = set_query (params_of to_text q) r m.queries }) k s c ≡ (
          if same_params k (params_of to_text q)
          then or_else (multi_view m k s c) (view q s c)
          else multi_view m k s c)
  merge_seen m q r old n v k s c =
      let key = params_of to_text q in
      elim (Bool-cases (same_params k key)) [
        | inl h ↦
            let same = ap (λ x. find_query x m.queries) (params_same k key h) ∙ n in
            rw (multi_view, find_set key k r m.queries, h, same) (v s c)
        | inr h ↦ rw (multi_view, find_set key k r m.queries, h) refl
      ]

  merge_old :
      (fresh : ℕ) (m : MultiQuery) (q old r : DnsQuery)
      → IsIndexed m.queries
      → IsWell q
      → find_query (params_of to_text q) m.queries ≡ some old
      → join to_text fresh old q ≡ ok r
      → Merges m (record m { queries = set_query (params_of to_text q) r m.queries }) q
  merge_old fresh m q old r h w n e =
      let (w_old, key) = found-IsIndexed (params_of to_text q) old m.queries h n in
      let u = is_union _ old q r _ (join-IsJoined to_text fresh old q w_old w) e in
      record {
        indexed =
            set-IsIndexed (params_of to_text q) r m.queries u.well
              (join_keeps fresh old q r w_old w e ∙ key) h;
        seen = merge_seen m q r (some old) n u.seen;
      }

  merge_new :
      (m : MultiQuery) (q : DnsQuery)
      → IsIndexed m.queries
      → IsWell q
      → find_query (params_of to_text q) m.queries ≡ none
      → Merges m (record m { queries = set_query (params_of to_text q) q m.queries }) q
  merge_new m q h w n = record {
    indexed = set-IsIndexed (params_of to_text q) q m.queries w refl h;
    seen = merge_seen m q q none n (λ s c. refl);
  }

  -- Of a refusal nothing is said.
  abbrev MergesIn : MultiQuery → DnsQuery → MultiOutcome → Type 0
  MergesIn m q (refused e) = Unit
  MergesIn m q (added m') = Merges m m' q

  merges :
      (names : NameApi) (fresh : ℕ) (q : DnsQuery) (m : MultiQuery)
      → IsIndexed m.queries
      → IsWell q
      → MergesIn m q (add_query names to_text fresh q m)
  unfolding add_query
  merges names fresh q m h w =
      elim (Bool-cases
        (same_name names m.qname q.qname && (m.rdtype == q.rdtype && m.rdclass == q.rdclass))) [
          | inr k ↦ rw (k, add_query) tt
          | inl k ↦ elim (Option-cases (find_query (params_of to_text q) m.queries)) [
            | inl n ↦ rw (k, n, add_query) (merge_new m q h w n)
            | inr (old, n) ↦ elim (outcome_cases (join to_text fresh old q)) [
              | inl (x, e) ↦ rw (k, n, e, add_query) tt
              | inr (r, e) ↦ rw (k, n, e, add_query) (merge_old fresh m q old r h w n e)
            ]
          ]
        ]

-- Adding a well-formed query, when it succeeds, keeps the queries well formed and each under its own
-- parameters; the responses of the new query are found under its parameters, after those that were
-- there, and all others are as before.
pub add_query-Merges :
    (to_text : DomainName → Bytes) (names : NameApi) (fresh : ℕ) (q : DnsQuery) (m m' : MultiQuery)
    → IsIndexed to_text m.queries
    → IsWell q
    → add_query names to_text fresh q m ≡ added m'
    → Merges to_text m m' q
add_query-Merges to_text names fresh q m m' h w e = rw e at (merges to_text names fresh q m h w)
