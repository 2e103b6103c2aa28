-- ===== src/Aggregate/Predicates/Unions.antt =====
-- What the predicates of DNSQuery (dnsviz/query.py) say of a union of two queries.
use dnsviz.Base.{
  ℕ, [], ◌∷◌, none, some, Bool, true, false, not, ◌&&◌, ◌||◌, ◌≡◌, refl, ◌∙◌, inl, inr, ==_iff,
  arith, Option-cases, Bool-cases,
}
use dnsviz.Dns.Message.{Bytes, DomainName}
use dnsviz.Response.Classify.{DnsResponse}
use dnsviz.Aggregate.Table.{Address, Entries, entries, get, get_entry}
use dnsviz.Aggregate.Table.Laws.{distinct, distinct-entries, get_entry-entries}
use dnsviz.Aggregate.Queries.{DnsQuery, Outcome, Owned, join, ok}
use dnsviz.Aggregate.Queries.Clones.{IsWell, view}
use dnsviz.Aggregate.Queries.Joined.{IsJoined, IsUnion, join-IsJoined}
use dnsviz.Aggregate.Predicates.{all_loop, any_loop, is_usable, is_valid_complete_response_any}

-- Some response satisfies a test.
abbrev any_entry : (DnsResponse → Bool) → Entries Owned → Bool
any_entry p [] = false
any_entry p ((s, (c, o)) ∷ es) = p o.response || any_entry p es

any_loop_lem :
    (p : DnsResponse → Bool) (es : Entries Owned)
    → any_loop p es ≡ any_entry (λ r. is_usable r && p r) es
unfolding any_loop
any_loop_lem p [] = refl
any_loop_lem p ((s, (c, o)) ∷ es) = ground (arith, any_loop_lem p es)

-- With a response that has counted, it is left that none fails.
all_true :
    (p : DnsResponse → Bool) (es : Entries Owned)
    → all_loop p (some true) es ≡ not (any_entry (λ r. is_usable r && not (p r)) es)
unfolding all_loop
all_true p [] = refl
all_true p ((s, (c, o)) ∷ es) = ground (arith, all_true p es)

-- True exactly when some response counts, and none that counts fails.
all_none :
    (p : DnsResponse → Bool) (es : Entries Owned)
    → all_loop p none es
      ≡ (any_entry is_usable es && not (any_entry (λ r. is_usable r && not (p r)) es))
unfolding all_loop
all_none p [] = refl
all_none p ((s, (c, o)) ∷ es) = ground (arith, all_none p es, all_true p es)

module _ (p : DnsResponse → Bool) where
  found_entry :
      (es : Entries Owned)
      → distinct es ≡ true
      → any_entry p es ≡ true
      → (s : Address) × (c : Address) × (o : Owned) × (get_entry s c es ≡ some o)
        × (p o.response ≡ true)
  found_entry [] d h = ground (arith, h)
  found_entry ((s, (c, o)) ∷ es) d h = elim (Bool-cases (p o.response)) [
    | inl k ↦ (s, c, o, ground arith, k)
    | inr k ↦
        let (u, e, r, g, fits) = found_entry es (ground (arith, d)) (ground (arith, h, k)) in
        (u, e, r, ground (arith, g, d, ==_iff u s, ==_iff e c), fits)
  ]

  entry_any :
      (es : Entries Owned) (s c : Address) (o : Owned)
      → get_entry s c es ≡ some o
      → p o.response ≡ true
      → any_entry p es ≡ true
  entry_any [] s c o g k = ground (arith, g)
  entry_any ((u, (d, r)) ∷ es) s c o g k = ground (arith, g, k, entry_any es s c o)

  -- The same, of a query's view.
  found_view :
      (q : DnsQuery)
      → IsWell q
      → any_entry p (entries q.responses) ≡ true
      → (s : Address) × (c : Address) × (r : DnsResponse) × (view q s c ≡ some r) × (p r ≡ true)
  found_view q w h =
      let (s, c, o, g, k) =
        found_entry (entries q.responses) (distinct-entries q.responses w.keyed) h in
      (s, c, o.response, ground (arith, g, get_entry-entries q.responses s c w.keyed), k)

  view_any :
      (q : DnsQuery)
      → IsWell q
      → (s c : Address) (r : DnsResponse) → view q s c ≡ some r
      → p r ≡ true
      → any_entry p (entries q.responses) ≡ true
  view_any q w s c r v k = elim (Option-cases (get s c q.responses)) [
    | inl n ↦ ground (arith, n, v)
    | inr (o, n) ↦
        entry_any (entries q.responses) s c o (get_entry-entries q.responses s c w.keyed ∙ n)
          (ground (arith, n, v, k))
  ]

  from_union :
      (a b q : DnsQuery)
      → IsWell a
      → IsWell b
      → IsUnion a b q
      → any_entry p (entries q.responses) ≡ true
      → (any_entry p (entries a.responses) || any_entry p (entries b.responses)) ≡ true
  from_union a b q wa wb u h =
      let (s, c, r, v, k) = found_view q u.well h in
      elim (Option-cases (view a s c)) [
        | inl n ↦ ground (arith, view_any b wb s c r (ground (arith, n, v, u.seen s c)) k)
        | inr (x, n) ↦ ground (arith, view_any a wa s c r (ground (arith, n, v, u.seen s c)) k)
      ]

  to_union :
      (a b q : DnsQuery)
      → IsWell a
      → IsWell b
      → IsUnion a b q
      → (any_entry p (entries a.responses) || any_entry p (entries b.responses)) ≡ true
      → any_entry p (entries q.responses) ≡ true
  to_union a b q wa wb u h = elim (Bool-cases (any_entry p (entries a.responses))) [
    | inl k ↦
        let (s, c, r, v, fits) = found_view a wa k in
        view_any q u.well s c r (ground (arith, v, u.seen s c)) fits
    | inr k ↦
        let (s, c, r, v, fits) = found_view b wb (ground (arith, h, k)) in
        view_any q u.well s c r (ground (arith, v, u.seen s c, u.apart s c)) fits
  ]

  any_union :
      (a b q : DnsQuery)
      → IsWell a
      → IsWell b
      → IsUnion a b q
      → any_entry p (entries q.responses)
        ≡ (any_entry p (entries a.responses) || any_entry p (entries b.responses))
  any_union a b q wa wb u = ground (arith, from_union a b q wa wb u, to_union a b q wa wb u)

with_true : (es : Entries Owned) → any_entry (λ r. is_usable r && true) es ≡ any_entry is_usable es
with_true [] = refl
with_true ((s, (c, o)) ∷ es) = ground (arith, with_true es)

-- A response that fails counts.
fails_usable :
    (p : DnsResponse → Bool) (es : Entries Owned)
    → any_entry (λ r. is_usable r && not (p r)) es ≡ true
    → any_entry is_usable es ≡ true
fails_usable p [] h = h
fails_usable p ((s, (c, o)) ∷ es) h = ground (arith, h, fails_usable p es)

some_usable :
    (q : DnsQuery) → is_valid_complete_response_any q ≡ any_entry is_usable (entries q.responses)
unfolding is_valid_complete_response_any
some_usable q = any_loop_lem (λ r. true) (entries q.responses) ∙ with_true (entries q.responses)

pub is_union :
    (same : Bool) (a b q : DnsQuery) (x : Outcome) → IsJoined same a b x → x ≡ ok q → IsUnion a b q
is_union same a b q x j e = let (_, u) = rw e at j in u

-- For a query that joins two well-formed ones, and a test of responses: some valid and complete
-- response passes exactly when one does in either query; and all of them pass, with at least one,
-- exactly when all do in each query that has such responses, and at least one has.
pub join-all_loop :
    (p : DnsResponse → Bool) (to_text : DomainName → Bytes) (fresh : ℕ) (a b q : DnsQuery)
    → IsWell a
    → IsWell b
    → join to_text fresh a b ≡ ok q
    → (any_loop p (entries q.responses)
        ≡ (any_loop p (entries a.responses) || any_loop p (entries b.responses)))
      × (all_loop p none (entries q.responses) ≡ (
          (is_valid_complete_response_any a || is_valid_complete_response_any b)
          && ((all_loop p none (entries a.responses) || not (is_valid_complete_response_any a))
              && (all_loop p none (entries b.responses)
                  || not (is_valid_complete_response_any b)))))
join-all_loop p to_text fresh a b q wa wb e =
    let u = is_union _ a b q _ (join-IsJoined to_text fresh a b wa wb) e in
    let passes = any_union (λ r. is_usable r && p r) a b q wa wb u in
    let fails = any_union (λ r. is_usable r && not (p r)) a b q wa wb u in
    let counts = any_union is_usable a b q wa wb u in
    let none_a = all_none p (entries a.responses) in
    let none_b = all_none p (entries b.responses) in
    (
      any_loop_lem p (entries q.responses)
          ∙ ground (
            arith,
            passes,
            any_loop_lem p (entries a.responses),
            any_loop_lem p (entries b.responses),
          ),
      all_none p (entries q.responses)
          ∙ ground (
            arith,
            fails,
            counts,
            none_a,
            none_b,
            some_usable a,
            some_usable b,
            fails_usable p (entries a.responses),
            fails_usable p (entries b.responses),
          ),
    )
