-- ===== src/Aggregate/Queries/Joined.antt =====
-- DNSQuery of dnsviz/query.py as a function from servers and clients to responses: what joining and
-- projecting do to it, and when they raise an error.
use dnsviz.Base.{
  ℕ, [], ◌∷◌, Bool, true, false, ◌&&◌, ◌≡◌, refl, sym, ap, ◌∙◌, inl, inr, is_some, arith,
  Bool-cases,
}
use dnsviz.Dns.Message.{Bytes, DomainName}
use dnsviz.Aggregate.Table.{Address, Entries, Table, entries, get, get_entry}
use dnsviz.Aggregate.Table.Laws.{disjoint, distinct, distinct-entries, get_entry-entries, or_else}
use dnsviz.Aggregate.Queries.{
  DnsQuery, Outcome, Owned, QueryError, add_clones, already_exists, join, ok, parameters_differ,
  raised, same_parameters,
}
use dnsviz.Aggregate.Queries.Clones.{
  IsWell, clones-Added, clones_error, copied, outcome_cases, response_in_lem, view,
}

common_key :
    (es : Entries Owned) (t : Table Owned)
    → disjoint es t ≡ false
    → (s : Address) × (c : Address) × (is_some (get_entry s c es) ≡ true)
      × (is_some (get s c t) ≡ true)
common_key [] t h = ground (arith, h)
common_key ((s, (c, o)) ∷ es) t h = elim (Bool-cases (is_some (get s c t))) [
  | inl k ↦ (s, c, ground arith, k)
  | inr k ↦
      let (u, d, a, b) = common_key es t (ground (arith, h, k)) in (u, d, ground (arith, a), b)
]

no_common_key :
    (es : Entries Owned) (t : Table Owned) (s c : Address)
    → disjoint es t ≡ true
    → (is_some (get_entry s c es) && is_some (get s c t)) ≡ false
no_common_key [] t s c h = refl
no_common_key ((u, (d, o)) ∷ es) t s c h = ground (arith, h, no_common_key es t s c)

disjoint_same :
    (es : Entries Owned) (t t' : Table Owned)
    → ((s c : Address) → is_some (get s c t) ≡ is_some (get s c t'))
    → disjoint es t ≡ disjoint es t'
disjoint_same [] t t' h = refl
disjoint_same ((u, (d, o)) ∷ es) t t' h = ground (arith, h u d, disjoint_same es t t' h)

view_some : (q : DnsQuery) (s c : Address) → is_some (get s c q.responses) ≡ is_some (view q s c)
view_some q s c = ground arith

-- The union of two queries: well formed, with the responses of both, which have no keys in common.
pub record IsUnion (a b q : DnsQuery) : Type 0 where
  pub well : IsWell q
  pub seen : (s c : Address) → view q s c ≡ or_else (view a s c) (view b s c)
  pub apart : (s c : Address) → (is_some (view a s c) && is_some (view b s c)) ≡ false

-- A server and a client for which both queries have a response.
pub record Overlaps (a b : DnsQuery) : Type 0 where
  pub server : Address
  pub client : Address
  pub in_first : is_some (view a server client) ≡ true
  pub in_second : is_some (view b server client) ≡ true

abbrev pub IsJoined : (same : Bool) → DnsQuery → DnsQuery → Outcome → Type 0
IsJoined same a b (ok q) = (same ≡ true) × IsUnion a b q
IsJoined same a b (raised parameters_differ) = same ≡ false
IsJoined same a b (raised already_exists) = (same ≡ true) × Overlaps a b
IsJoined same a b (raised _) = ⊥

clones_raise :
    (es : Entries Owned) (q : DnsQuery) (x : QueryError)
    → distinct es ≡ true
    → add_clones es q ≡ raised x
    → (x ≡ already_exists) × (disjoint es q.responses ≡ false)
clones_raise es q x h e =
    (ground (arith, clones_error es q h, e), ground (arith, clones_error es q h, e))

clones_disjoint :
    (es : Entries Owned) (q p : DnsQuery)
    → distinct es ≡ true
    → add_clones es q ≡ ok p
    → disjoint es q.responses ≡ true
clones_disjoint es q p h e = ground (arith, clones_error es q h, e)

queried_lem :
    (b : DnsQuery)
    → IsWell b
    → (s c : Address) → is_some (get_entry s c (entries b.responses)) ≡ is_some (view b s c)
queried_lem b w s c = ap is_some (get_entry-entries b.responses s c w.keyed) ∙ view_some b s c

IsJoined-clones :
    (a b p : DnsQuery)
    → IsWell a
    → IsWell b
    → IsWell p
    → ((s c : Address) → view p s c ≡ view a s c)
    → IsJoined true a b (add_clones (entries b.responses) p)
IsJoined-clones a b p wa wb wp vp =
    let es = entries b.responses in
    let h = distinct-entries b.responses wb.keyed in
    elim (outcome_cases (add_clones es p)) [
      | inl (x, e) ↦
          let (by, common) = clones_raise es p x h e in
          let (s, c, k, l) = common_key es p.responses common in
          rw (e, by)
            (
              refl,
              record {
                server = s;
                client = c;
                in_first = rw (sym (vp s c)) (sym (view_some p s c) ∙ l);
                in_second = sym (queried_lem b wb s c) ∙ k;
              },
            )
      | inr (q, e) ↦
          let r = clones-Added es p q wp e in
          rw e (
            refl,
            record {
              well = r.well;
              seen = λ s c. ground (arith, r.seen s c, vp s c, response_in_lem b wb.keyed s c);
              apart = λ s c. ground (
                arith,
                no_common_key es p.responses s c (clones_disjoint es p q h e),
                vp s c,
                view_some p s c,
                queried_lem b wb s c,
              );
            },
          )
    ]

-- Joining two well-formed queries with the same parameters gives a well-formed query with the
-- responses of both, or raises an error where both have one for some server and client; with other
-- parameters it raises an error.
pub join-IsJoined :
    (to_text : DomainName → Bytes) (fresh : ℕ) (a b : DnsQuery)
    → IsWell a
    → IsWell b
    → IsJoined (same_parameters to_text a b) a b (join to_text fresh a b)
unfolding join
join-IsJoined to_text fresh a b wa wb = elim (Bool-cases (same_parameters to_text a b)) [
  | inl k ↦
      let (p, e, wp, _, vp) = copied fresh a wa in
      rw (k, e, join) (IsJoined-clones a b p wa wb wp vp)
  | inr k ↦ rw (k, join) refl
]
