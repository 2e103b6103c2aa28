-- ===== src/Query/Pmtu/Safety.antt =====
-- PMTUBoundingHandler (dnsviz/query.py) never computes with an unset bound.
use dnsviz.Base.{
  List, ℕ, Option, none, some, ◌≡◌, ◌≢◌, inl, inr, refl, arith, true, false, Bool, Option-cases,
  is_some, ◌||◌,
}
use dnsviz.Base.Int.{ℤ, pos, ◌-ℤ◌}
use dnsviz.Dns.Message.{Request, EdnsOption}
use dnsviz.Dns.Api.{EdnsApi, IsEdnsApi}
use dnsviz.Query.Types.{Arrival, Context, raised, type_error, Response, message}
use dnsviz.Query.Handlers.{bit, tc_bit, TcBit-cases}
use dnsviz.Query.Pmtu.{
  Pmtu, Seen, Turn, State, start, reduced_payload, using_tcp, tcp_minus_one, pickle, tcp_final,
  invalid, pmtu_handle, seen, midpoint, in_start, in_reduced_payload, in_using_tcp,
  in_tcp_minus_one, in_pickle, in_state, shrink, grow, settle, search_on, rate_limited,
  truncated_minus_one, below_mark, dispatch,
}
use dnsviz.Query.Pmtu.Bounds.{Inv}

-- A message is always parsed from a wire.
abbrev pub HasWire : Response → Option (List ℕ) → Type 0
HasWire (message m) w = w ≢ none
HasWire _ w = Unit

-- The invariant holds afterwards, and no bound was None.
abbrev pub IsSafe : Turn → Type 0
IsSafe t = Inv t.1.state t.1 t.2 × (t.0 ≢ raised type_error)

pub set_payload :
    (api : EdnsApi) (laws : IsEdnsApi api) (r : Request) (e : Option ℕ) (v f : ℕ) (x : ℤ)
    (o : List EdnsOption)
    → e ≡ some v
    → (api.use_edns r e f x o).payload ≡ x
set_payload api laws r e v f x o h = rw h (laws.used_payload r v f x o)

module _ (api : EdnsApi) (laws : IsEdnsApi api) (a : Arrival) (t : Seen) (v : ℕ) (p : Pmtu)
    (c : Context) (edns : c.request.edns ≡ some v)
    (measured : (t.truncated || t.valid) ≡ true → is_some t.response_len ≡ true) where
  in_start-IsSafe : p.state ≡ start → IsSafe (in_start api a t p c)
  unfolding in_start
  in_start-IsSafe e = ground arith

  in_reduced-IsSafe : p.state ≡ reduced_payload → IsSafe (in_reduced_payload api a t p c)
  unfolding in_reduced_payload
  in_reduced-IsSafe e = ground arith

  in_using_tcp-IsSafe : p.state ≡ using_tcp → Inv using_tcp p c → IsSafe (in_using_tcp api a t p c)
  unfolding in_using_tcp
  in_using_tcp-IsSafe e i = ground arith

  shrink-IsSafe :
      is_some p.lower_bound ≡ true → is_some p.water_mark ≡ true → IsSafe (shrink api a t p c)
  unfolding shrink
  shrink-IsSafe l w = elim (Option-cases p.lower_bound) [
    | inl q ↦ ground arith
    | inr (x, q) ↦ ground (
      arith,
      set_payload api laws c.request c.request.edns v c.request.ednsflags
          (midpoint x (c.request.payload -ℤ pos 1)) c.request.options edns,
    )
  ]

  rate_limited-IsSafe : (st : State) → p.state ≡ st → Inv st p c → IsSafe (rate_limited a p c)
  unfolding rate_limited
  rate_limited-IsSafe st e i = ground arith

  grow-IsSafe :
      (l u : ℤ)
      → p.state ≡ pickle
      → p.lower_bound ≡ some l
      → p.upper_bound ≡ some u
      → is_some p.water_mark ≡ true
      → IsSafe (grow api a t p c u)
  unfolding grow
  grow-IsSafe l u e el eu w = ground (
    arith,
    set_payload api laws c.request c.request.edns v c.request.ednsflags
        (midpoint c.request.payload u) c.request.options edns,
  )

  truncated-IsSafe :
      p.state ≡ tcp_minus_one → Inv tcp_minus_one p c → IsSafe (truncated_minus_one api a t p c)
  unfolding truncated_minus_one
  truncated-IsSafe e i = ground arith

  in_tcp_minus_one-IsSafe :
      p.state ≡ tcp_minus_one → Inv tcp_minus_one p c → IsSafe (in_tcp_minus_one api a t p c)
  unfolding in_tcp_minus_one below_mark
  in_tcp_minus_one-IsSafe e i =
      ground (arith, shrink-IsSafe, rate_limited-IsSafe tcp_minus_one, truncated-IsSafe)

  settle-IsSafe : IsSafe (settle api a t p c)
  unfolding settle
  settle-IsSafe = ground arith

  search_on-IsSafe :
      (l u : ℤ)
      → p.state ≡ pickle
      → p.lower_bound ≡ some l
      → p.upper_bound ≡ some u
      → Inv pickle p c
      → (t.timed || t.valid || t.truncated) ≡ true
      → IsSafe (search_on api a t p c u)
  unfolding search_on below_mark
  search_on-IsSafe l u e el eu i g =
      ground (arith, shrink-IsSafe, rate_limited-IsSafe pickle, grow-IsSafe l u)

  in_pickle-IsSafe :
      p.state ≡ pickle
      → Inv pickle p c
      → (t.timed || t.valid || t.truncated) ≡ true
      → IsSafe (in_pickle api a t p c)
  unfolding in_pickle
  in_pickle-IsSafe e i g = elim (Option-cases p.upper_bound) [
    | inl q ↦ ground arith
    | inr (u, q) ↦ elim (Option-cases p.lower_bound) [
      | inl s ↦ ground arith
      | inr (l, s) ↦ ground (arith, settle-IsSafe, search_on-IsSafe l u)
    ]
  ]

  dispatch-IsSafe :
      (st : State)
      → p.state ≡ st
      → Inv st p c
      → (t.timed || t.valid || t.truncated) ≡ true
      → IsSafe (dispatch api a t st p c)
  dispatch-IsSafe start e i g = in_start-IsSafe e
  dispatch-IsSafe reduced_payload e i g = in_reduced-IsSafe e
  dispatch-IsSafe using_tcp e i g = in_using_tcp-IsSafe e i
  dispatch-IsSafe tcp_minus_one e i g = in_tcp_minus_one-IsSafe e i
  dispatch-IsSafe pickle e i g = in_pickle-IsSafe e i g
  dispatch-IsSafe tcp_final e i g = ground arith
  dispatch-IsSafe invalid e i g = ground arith

module _ (api : EdnsApi) (laws : IsEdnsApi api) (a : Arrival) (t : Seen) (p : Pmtu) (c : Context)
    (measured : (t.truncated || t.valid) ≡ true → is_some t.response_len ≡ true) where
  in_state-IsSafe : Inv p.state p c → IsSafe (in_state api a t p c)
  unfolding in_state
  in_state-IsSafe i = elim (Option-cases c.request.edns) [
    | inl q ↦ ground arith
    | inr (v, q) ↦ ground (arith, dispatch-IsSafe api laws a t v p c q measured p.state refl i)
  ]

measured_valid :
    (a : Arrival) (c : Context)
    → HasWire a.response a.wire
    → (seen a c false).valid ≡ true
    → is_some (seen a c false).response_len ≡ true
measured_valid a c w h = ground arith

measured_bit :
    (a : Arrival) (c : Context) (b : Bool)
    → tc_bit a.wire ≡ bit b
    → is_some (seen a c b).response_len ≡ true
measured_bit a c b h = ground arith

-- From a state whose bounds are set as it needs them, and for a response that has a wire if it is a
-- message, `handle` never computes with None, and leaves such a state.
pub pmtu-IsSafe :
    (api : EdnsApi) (a : Arrival) (p : Pmtu) (c : Context)
    → IsEdnsApi api
    → HasWire a.response a.wire
    → Inv p.state p c
    → IsSafe (pmtu_handle api a p c)
unfolding pmtu_handle
pmtu-IsSafe api a p c laws w i = elim (TcBit-cases (tc_bit a.wire)) [
  | inl q ↦ ground (arith, in_state-IsSafe api laws a (seen a c false) p c (measured_valid a c w) i)
  | inr (inl q) ↦ ground arith
  | inr (inr (b, q)) ↦
      ground (arith, in_state-IsSafe api laws a (seen a c b) p c (λ _. measured_bit a c b q) i)
]
