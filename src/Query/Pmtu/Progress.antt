-- ===== src/Query/Pmtu/Progress.antt =====
-- Each probe of PMTUBoundingHandler (dnsviz/query.py) in PICKLE halves the interval of payloads.
use dnsviz.Base.{
  List, ℕ, zero, suc, ◌≤◌, ◌-◌, ◌*◌, ◌^◌, ◌+◌, Option, none, some, ◌≡◌, ◌≢◌, inl, inr, refl, arith,
  false, Option-cases, ap, ◌∙◌,
}
use dnsviz.Base.Int.{ℤ, pos, ◌+ℤ◌, ◌-ℤ◌, ◌≤ℤ◌, leb_ℤ, pos_part, neg_part, +ℤ_parts, -ℤ_parts}
use native.Mathlib.Numerals.{unary_clauses}
use dnsviz.Dns.Message.{Request, EdnsOption}
use dnsviz.Dns.Api.{EdnsApi, IsEdnsApi}
use dnsviz.Query.Types.{Arrival, Context, Retry, returned, change_udp_max_payload}
use dnsviz.Query.Handlers.{tc_bit, TcBit-cases}
use dnsviz.Query.Pmtu.{
  Pmtu, Seen, pickle, pmtu_handle, seen, midpoint, in_pickle, in_state, shrink, grow, settle,
  search_on, rate_limited,
}
use dnsviz.Query.Pmtu.Bounds.{midpoint_bounds, lower_half, upper_half}
use dnsviz.Query.Pmtu.Safety.{set_payload}

-- Bounds inside [l, u], at most half as far apart, around the payload of the next probe.
abbrev pub IsNarrower : ℤ → ℤ → ℤ → Option ℤ → Option ℤ → Type 0
IsNarrower l u x (some l') (some u') =
    (l ≤ℤ l')
    × (l' ≤ℤ x)
    × (x ≤ℤ u')
    × (u' ≤ℤ u)
    × ((u' -ℤ l') +ℤ (u' -ℤ l') ≤ℤ u -ℤ l)
    × (x ≡ midpoint l' u')
IsNarrower l u x _ _ = ⊥

-- The search goes on from there, with EDNS still on and that payload in the request.
pub record IsNarrowed (l u x : ℤ) (p : Pmtu) (c : Context) : Type 0 where
  pub state : p.state ≡ pickle
  pub bounds : IsNarrower l u x p.lower_bound p.upper_bound
  pub payload : c.request.payload ≡ x
  pub edns : c.request.edns ≢ none

wide : (a : ℤ) → leb_ℤ a (pos 1) ≡ false → pos 2 ≤ℤ a
wide a h = ground arith

set_edns :
    (api : EdnsApi) (laws : IsEdnsApi api) (r : Request) (e : Option ℕ) (f : ℕ) (x : ℤ)
    (o : List EdnsOption)
    → e ≢ none
    → (api.use_edns r e f x o).edns ≢ none
set_edns api laws r e f x o h = rw (laws.used_edns r e f x o) h

module _ (api : EdnsApi) (laws : IsEdnsApi api) (a : Arrival) (t : Seen) (v : ℕ) (p p' : Pmtu)
    (c c' : Context) (r : Retry) (l u x : ℤ) (edns : c.request.edns ≡ some v)
    (state : p.state ≡ pickle) (lower : p.lower_bound ≡ some l) (upper : p.upper_bound ≡ some u)
    (centred : c.request.payload ≡ midpoint l u) (asks : r.action ≡ change_udp_max_payload x) where
  shrink-IsNarrowed :
      pos 2 ≤ℤ u -ℤ l → shrink api a t p c ≡ (returned (some r), p', c') → IsNarrowed l u x p' c'
  unfolding shrink
  shrink-IsNarrowed w e =
      let u' = c.request.payload -ℤ pos 1 in
      ground (
        arith,
        lower_half l u w,
        midpoint_bounds l (midpoint l u -ℤ pos 1) (lower_half l u w).0,
        set_payload api laws c.request c.request.edns v c.request.ednsflags (midpoint l u')
            c.request.options edns,
        laws.used_edns c.request c.request.edns c.request.ednsflags (midpoint l u')
            c.request.options,
      )

  grow-IsNarrowed :
      pos 2 ≤ℤ u -ℤ l → grow api a t p c u ≡ (returned (some r), p', c') → IsNarrowed l u x p' c'
  unfolding grow
  grow-IsNarrowed w e = ground (
    arith,
    upper_half l u w,
    midpoint_bounds (midpoint l u) u (upper_half l u w).1,
    set_payload api laws c.request c.request.edns v c.request.ednsflags
        (midpoint c.request.payload u) c.request.options edns,
    laws.used_edns c.request c.request.edns c.request.ednsflags (midpoint c.request.payload u)
        c.request.options,
  )

  rate_limited_asks : rate_limited a p c ≢ (returned (some r), p', c')
  unfolding rate_limited
  rate_limited_asks e = ground arith

  settle_asks : settle api a t p c ≢ (returned (some r), p', c')
  unfolding settle
  settle_asks e = ground arith

  in_pickle-IsNarrowed :
      in_pickle api a t p c ≡ (returned (some r), p', c') → IsNarrowed l u x p' c'
  unfolding in_pickle search_on
  in_pickle-IsNarrowed e =
      ground
        (arith, wide (u -ℤ l), shrink-IsNarrowed, grow-IsNarrowed, rate_limited_asks, settle_asks)

  in_state-IsNarrowed : in_state api a t p c ≡ (returned (some r), p', c') → IsNarrowed l u x p' c'
  unfolding in_state
  in_state-IsNarrowed e = ground (arith, in_pickle-IsNarrowed)

-- In PICKLE, with EDNS on and the request's payload in the middle of the bounds l and u, a retry with another payload leaves
-- bounds at most half as far apart, still inside the old ones and around the new payload.
pub pmtu-IsNarrowed :
    (api : EdnsApi) (a : Arrival) (p p' : Pmtu) (c c' : Context) (r : Retry) (l u x : ℤ)
    → IsEdnsApi api
    → c.request.edns ≢ none
    → p.state ≡ pickle
    → p.lower_bound ≡ some l
    → p.upper_bound ≡ some u
    → c.request.payload ≡ midpoint l u
    → r.action ≡ change_udp_max_payload x
    → pmtu_handle api a p c ≡ (returned (some r), p', c')
    → IsNarrowed l u x p' c'
unfolding pmtu_handle
pmtu-IsNarrowed api a p p' c c' r l u x laws on state lower upper centred asks e =
    elim (Option-cases c.request.edns) [
      | inl off ↦ absurd (on off)
      | inr (v, edns) ↦ elim (TcBit-cases (tc_bit a.wire)) [
        | inl q ↦ ground (
          arith,
          in_state-IsNarrowed api laws a (seen a c false) v p p' c c' r l u x edns state lower upper
              centred asks,
        )
        | inr (inl q) ↦ ground arith
        | inr (inr (b, q)) ↦ ground (
          arith,
          in_state-IsNarrowed api laws a (seen a c b) v p p' c c' r l u x edns state lower upper
              centred asks,
        )
      ]
    ]

-- The state of a search: the bounds, and their middle in the request.
pub record IsAt (l u : ℤ) (p : Pmtu) (c : Context) : Type 0 where
  pub state : p.state ≡ pickle
  pub lower : p.lower_bound ≡ some l
  pub upper : p.upper_bound ≡ some u
  pub centred : c.request.payload ≡ midpoint l u
  pub edns : c.request.edns ≢ none

-- `k` probes in a row: answers for which the handler changed the payload. Between two of them the
-- query handler may change its other parts, but not the request.
pub data Probes (api : EdnsApi) (p : Pmtu) (c : Context) : ℕ → Pmtu → Context → Type 0 where
  begun : Probes api p c zero p c
  probe :
      {k : ℕ} {p1 p2 : Pmtu} {c1 c2 c3 : Context}
      → Probes api p c k p1 c1
      → (a : Arrival) (r : Retry) (x : ℤ) → pmtu_handle api a p1 c1 ≡ (returned (some r), p2, c2)
      → r.action ≡ change_udp_max_payload x
      → c3.request ≡ c2.request
      → Probes api p c (suc k) p2 c3

-- How far apart the bounds are.
abbrev pub width : ℤ → ℤ → ℕ
width l u = pos_part u + neg_part l - (pos_part l + neg_part u)

width_halved :
    (l u l' u' : ℤ)
    → (u' -ℤ l') +ℤ (u' -ℤ l') ≤ℤ u -ℤ l
    → l' ≤ℤ u'
    → width l' u' + width l' u' ≤ width l u
width_halved l u l' u' h o =
    omega (arith, +ℤ_parts (u' -ℤ l') (u' -ℤ l'), -ℤ_parts u' l', -ℤ_parts u l)

mul_mono : (n a b : ℕ) → a ≤ b → n * a ≤ n * b
mul_mono n a b h = grind arith

pow_suc : (k : ℕ) → 2 ^ suc k ≡ 2 ^ k * 2
pow_suc k = simp unary_clauses refl

halve_more : (n w w' all : ℕ) → n * w ≤ all → w' + w' ≤ w → n * 2 * w' ≤ all
halve_more n w w' all h k = omega (arith, mul_mono n (w' + w') w k)

-- The record of a search, with its bounds as a pair, and the bound on their distance.
pub record IsWithin (k : ℕ) (l u : ℤ) (p : Pmtu) (c : Context) : Type 0 where
  pub low : ℤ
  pub high : ℤ
  pub at : IsAt low high p c
  pub above : l ≤ℤ low
  pub below : high ≤ℤ u
  pub closer : 2 ^ k * width low high ≤ width l u

-- The two bounds that are there, with what holds of them.
abbrev pub Bounds : ℤ → ℤ → ℤ → Option ℤ → Option ℤ → Type 0
Bounds l u x o o' =
    (l' : ℤ) × (u' : ℤ) × (o ≡ some l')
    × (o' ≡ some u')
    × (l ≤ℤ l')
    × (u' ≤ℤ u)
    × (width l' u' + width l' u' ≤ width l u)
    × (x ≡ midpoint l' u')

order_through : (a x b : ℤ) → a ≤ℤ x → x ≤ℤ b → a ≤ℤ b
order_through a x b h k = omega arith

Bounds-of : (l u x : ℤ) (o o' : Option ℤ) → IsNarrower l u x o o' → Bounds l u x o o'
Bounds-of l u x none o' h = absurd h
Bounds-of l u x (some l') none h = absurd h
Bounds-of l u x (some l') (some u') (a, b, c, d, e, m) =
    (l', u', refl, refl, a, d, width_halved l u l' u' e (order_through l' x u' b c), m)

-- From a search in PICKLE, with EDNS on and the middle of the bounds as the request's payload, after
-- k probes in a row the bounds still lie in the interval, and 2 ^ k times closer.
pub Probes-halve :
    (api : EdnsApi) (k : ℕ) (l u : ℤ) (p p' : Pmtu) (c c' : Context)
    → IsEdnsApi api
    → IsAt l u p c
    → Probes api p c k p' c'
    → IsWithin k l u p' c'
Probes-halve api zero l u p p' c c' laws at begun = record {
  low = l;
  high = u;
  at = at;
  above = omega arith;
  below = omega arith;
  closer = omega arith;
}
Probes-halve api (suc k) l u p p' c c' laws at (probe s a r x e asks same) =
    let so_far = Probes-halve api k l u p _ c _ laws at s in
    let next =
      pmtu-IsNarrowed api a _ p' _ _ r so_far.low so_far.high x laws so_far.at.edns so_far.at.state
        so_far.at.lower so_far.at.upper so_far.at.centred asks e in
    let (l', u', ql, qu, above, below, closer, centred) =
      Bounds-of so_far.low so_far.high x p'.lower_bound p'.upper_bound next.bounds in
    record {
      low = l';
      high = u';
      at = record {
        state = next.state;
        lower = ql;
        upper = qu;
        centred = ap (λ (q : Request). q.payload) same ∙ next.payload ∙ centred;
        edns = rw same next.edns;
      };
      above = order_through l so_far.low l' so_far.above above;
      below = order_through u' so_far.high u below so_far.below;
      closer = rw (pow_suc k) (
          halve_more (2 ^ k) (width so_far.low so_far.high) (width l' u') (width l u) so_far.closer
            closer);
    }
