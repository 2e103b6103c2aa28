-- ===== src/Response/Replay/Search.antt =====
-- PMTUBoundingHandler of dnsviz/query.py against `_review_history` of dnsviz/response.py.
use dnsviz.Base.{Option-cases, inl, inr, some, ◌≡◌, refl, arith, false}
use dnsviz.Base.Int.{ℤ, pos, ◌-ℤ◌}
use dnsviz.Dns.Api.{EdnsApi, IsEdnsApi}
use dnsviz.Query.Types.{Arrival, Context, Retry, returned}
use dnsviz.Query.Handlers.{set_tcp, tc_bit, TcBit-cases}
use dnsviz.Query.Pmtu
use dnsviz.Query.Pmtu.{
  Pmtu, Seen, State, start, reduced_payload, using_tcp, tcp_minus_one, pickle, tcp_final, invalid,
  pmtu_handle, midpoint, seen,
}
use dnsviz.Response.History.{Options, apply_action}
use dnsviz.Response.Replay.{Agrees, IsSentByUdp}
use dnsviz.Response.Replay.Settings.{settings_with_tcp, payload-Agrees}

module _ (api : EdnsApi) (laws : IsEdnsApi api) (a : Arrival) (t : Seen) (p p' : Pmtu)
    (c c' : Context) (s : Options) (r : Retry) (same : Agrees c s) where
  in_start-Agrees :
      c.params.tcp ≡ false
      → Pmtu.in_start api a t p c ≡ (returned (some r), p', c')
      → Agrees c' (apply_action r.action s)
  unfolding Pmtu.in_start apply_action
  in_start-Agrees udp e = ground (arith, payload-Agrees api laws c p.reduced s same)

  in_reduced_payload-Agrees :
      Pmtu.in_reduced_payload api a t p c ≡ (returned (some r), p', c')
      → Agrees c' (apply_action r.action s)
  unfolding Pmtu.in_reduced_payload apply_action
  in_reduced_payload-Agrees e = ground arith

  udp-Agrees : Agrees (set_tcp false c) (record s { tcp = false })
  udp-Agrees = record {
    flags = same.flags;
    edns = same.edns;
    tcp = refl;
    settings = settings_with_tcp c.request.edns c.request s false same.settings;
  }

  in_using_tcp-Agrees :
      Pmtu.in_using_tcp api a t p c ≡ (returned (some r), p', c')
      → Agrees c' (apply_action r.action s)
  unfolding Pmtu.in_using_tcp apply_action
  in_using_tcp-Agrees e = elim (Option-cases t.response_len) [
    | inl q ↦ ground arith
    | inr (n, q) ↦ ground (
      arith,
      payload-Agrees api laws (set_tcp false c) (pos n -ℤ pos 1) (record s { tcp = false })
          udp-Agrees refl,
    )
  ]

  rate_limited-Agrees :
      Pmtu.rate_limited a p c ≡ (returned (some r), p', c') → Agrees c' (apply_action r.action s)
  unfolding Pmtu.rate_limited apply_action
  rate_limited-Agrees e = ground arith

  shrink-Agrees :
      c.params.tcp ≡ false
      → Pmtu.shrink api a t p c ≡ (returned (some r), p', c')
      → Agrees c' (apply_action r.action s)
  unfolding Pmtu.shrink apply_action
  shrink-Agrees udp e = elim (Option-cases p.lower_bound) [
    | inl q ↦ ground arith
    | inr (l, q) ↦
        ground
          (arith, payload-Agrees api laws c (midpoint l (c.request.payload -ℤ pos 1)) s same udp)
  ]

  grow-Agrees :
      (upper : ℤ)
      → c.params.tcp ≡ false
      → Pmtu.grow api a t p c upper ≡ (returned (some r), p', c')
      → Agrees c' (apply_action r.action s)
  unfolding Pmtu.grow apply_action
  grow-Agrees upper udp e =
      ground (arith, payload-Agrees api laws c (midpoint c.request.payload upper) s same udp)

  truncated_minus_one-Agrees :
      Pmtu.truncated_minus_one api a t p c ≡ (returned (some r), p', c')
      → Agrees c' (apply_action r.action s)
  unfolding Pmtu.truncated_minus_one apply_action
  truncated_minus_one-Agrees e = ground arith

  in_tcp_minus_one-Agrees :
      c.params.tcp ≡ false
      → Pmtu.in_tcp_minus_one api a t p c ≡ (returned (some r), p', c')
      → Agrees c' (apply_action r.action s)
  unfolding Pmtu.in_tcp_minus_one
  in_tcp_minus_one-Agrees udp e =
      ground (arith, shrink-Agrees udp, rate_limited-Agrees, truncated_minus_one-Agrees)

  settle-Agrees :
      Pmtu.settle api a t p c ≡ (returned (some r), p', c') → Agrees c' (apply_action r.action s)
  unfolding Pmtu.settle apply_action
  settle-Agrees e = ground arith

  search_on-Agrees :
      (upper : ℤ)
      → c.params.tcp ≡ false
      → Pmtu.search_on api a t p c upper ≡ (returned (some r), p', c')
      → Agrees c' (apply_action r.action s)
  unfolding Pmtu.search_on
  search_on-Agrees upper udp e =
      ground (arith, shrink-Agrees udp, rate_limited-Agrees, grow-Agrees upper udp)

  in_pickle-Agrees :
      c.params.tcp ≡ false
      → Pmtu.in_pickle api a t p c ≡ (returned (some r), p', c')
      → Agrees c' (apply_action r.action s)
  unfolding Pmtu.in_pickle
  in_pickle-Agrees udp e = elim (Option-cases p.upper_bound) [
    | inl q ↦ ground arith
    | inr (u, q) ↦ ground (arith, settle-Agrees, search_on-Agrees u udp)
  ]

  dispatch-Agrees :
      (st : State)
      → IsSentByUdp st c
      → Pmtu.dispatch api a t st p c ≡ (returned (some r), p', c')
      → Agrees c' (apply_action r.action s)
  dispatch-Agrees start udp e = in_start-Agrees udp e
  dispatch-Agrees reduced_payload udp e = in_reduced_payload-Agrees e
  dispatch-Agrees using_tcp udp e = in_using_tcp-Agrees e
  dispatch-Agrees tcp_minus_one udp e = in_tcp_minus_one-Agrees udp e
  dispatch-Agrees pickle udp e = in_pickle-Agrees udp e
  dispatch-Agrees tcp_final udp e = cc
  dispatch-Agrees invalid udp e = cc

  in_state-Agrees :
      IsSentByUdp p.state c
      → Pmtu.in_state api a t p c ≡ (returned (some r), p', c')
      → Agrees c' (apply_action r.action s)
  unfolding Pmtu.in_state
  in_state-Agrees udp e = ground (arith, dispatch-Agrees p.state udp)

-- A retry that the search asks for is replayed exactly.
pub pmtu-Agrees :
    (api : EdnsApi) (a : Arrival) (p p' : Pmtu) (c c' : Context) (s : Options) (r : Retry)
    → IsEdnsApi api
    → Agrees c s
    → IsSentByUdp p.state c
    → pmtu_handle api a p c ≡ (returned (some r), p', c')
    → Agrees c' (apply_action r.action s)
unfolding pmtu_handle
pmtu-Agrees api a p p' c c' s r laws same udp e = elim (TcBit-cases (tc_bit a.wire)) [
  | inl q ↦ ground (arith, in_state-Agrees api laws a (seen a c false) p p' c c' s r same udp)
  | inr (inl q) ↦ ground arith
  | inr (inr (b, q)) ↦
      ground (arith, in_state-Agrees api laws a (seen a c b) p p' c c' s r same udp)
]
