-- ===== src/Query/Pmtu.antt =====
-- dnsviz/query.py: PMTUBoundingHandler, a state machine that looks for the largest UDP payload
-- that reaches the client, by a binary search between two bounds. The bounds are Python integers;
-- `none` is Python's None, and arithmetic on it is a TypeError.
pub mod Bounds
pub mod Safety
pub mod Progress
use dnsviz.Base.{
  ℕ, List, [], ◌∷◌, reverse, Option, none, some, Bool, true, false, not, ◌&&◌, ◌||◌, ltb, leb, ◌==◌,
  if◌then◌else◌, elem, length, head?, is_some,
}
use dnsviz.Base.Int.{ℤ, pos, ◌+ℤ◌, ◌-ℤ◌, half, ltb_ℤ, leb_ℤ}
use dnsviz.Dns.Message.{Bytes}
use dnsviz.Dns.Api.{EdnsApi}
use dnsviz.Query.Types.{
  timeout, tc_set, diagnostic, use_tcp, change_udp_max_payload, change_sport, Action, Retry,
  Response, message, Arrival, Context, index_error, type_error, Outcome, returned, raised,
}
use dnsviz.Query.Handlers.{
  same_cause, is_timeout, is_on, get_num_timeouts, retry_of, set_tcp, set_wait, set_timeout,
  with_payload, TcBit, no_wire, short_wire, bit, tc_bit,
}

pub data State : Type 0 where
  start reduced_payload using_tcp tcp_minus_one pickle tcp_final invalid : State

pub record Pmtu : Type 0 where
  pub reduced : ℤ
  pub initial_timeouts : ℕ
  pub max_timeouts : ℕ
  pub bounding_timeout : ℕ
  pub lower_bound : Option ℤ
  pub upper_bound : Option ℤ
  pub water_mark : Option ℤ
  pub state : State

-- What `handle` computes first from the response. `response_len` is `none` without a wire.
pub record Seen : Type 0 where
  pub timeouts : ℕ
  pub timed : Bool
  pub valid : Bool
  pub truncated : Bool
  pub response_len : Option ℕ

abbrev pub Turn : Type 0
Turn = Outcome × Pmtu × Context

abbrev pub pass : Pmtu → Context → Turn
pass p c = (returned none, p, c)

abbrev pub goto : State → Pmtu → Pmtu
goto s p = record p { state = s }

-- `rcode in (NOERROR, NXDOMAIN)` of a message
abbrev pub is_valid : Response → Bool
is_valid (message m) = elem m.rcode (0 ∷ 3 ∷ [])
is_valid _ = false

abbrev pub is_sport_change : Action → Bool
is_sport_change change_sport = true
is_sport_change _ = false

-- `self._lower_bound + (self._upper_bound + 1 - self._lower_bound)//2`
unfoldable pub midpoint : ℤ → ℤ → ℤ
midpoint lower upper = lower +ℤ half (upper +ℤ pos 1 -ℤ lower)

unfoldable pub use_tcp_finally : Outcome → Pmtu → Context → Turn
use_tcp_finally o p c = (o, goto tcp_final p, set_tcp true c)

-- A message smaller than the watermark: wait once and try again, then settle for TCP.
unfoldable pub rate_limited : Arrival → Pmtu → Context → Turn
unfolding use_tcp_finally
rate_limited a p c = elim (head? (reverse c.history)) [
  | none ↦ (raised index_error, p, c)
  | some last ↦
      if same_cause last.cause diagnostic && is_sport_change last.action
      then use_tcp_finally (retry_of a diagnostic none use_tcp) p c
      else (retry_of a diagnostic none change_sport, p, set_wait 1000 c)
]

-- `response_len < self._water_mark`; none is the TypeError of a comparison with None.
unfoldable pub below_mark : Option ℕ → Option ℤ → Option Bool
below_mark (some n) (some w) = some (ltb_ℤ (pos n) w)
below_mark _ _ = none

module _ (api : EdnsApi) (a : Arrival) (s : Seen) where
  unfoldable pub in_start : Pmtu → Context → Turn
  in_start p c =
      if leb p.initial_timeouts s.timeouts
      then (
        retry_of a timeout none (change_udp_max_payload p.reduced),
        record p {
          lower_bound = some p.reduced;
          upper_bound = some (c.request.payload -ℤ pos 1);
          state = reduced_payload;
        },
        with_payload api p.reduced c,
      )
      else pass p c

  -- `self._state == self.INVALID` in the source is a comparison, so the state stays.
  unfoldable pub in_reduced_payload : Pmtu → Context → Turn
  in_reduced_payload p c =
      if leb p.max_timeouts s.timeouts
      then pass p c
      else if not s.timed && (s.truncated || s.valid)
      then (
        (if s.truncated
            then retry_of a tc_set s.response_len use_tcp
            else retry_of a diagnostic s.response_len use_tcp),
        record p {
          lower_bound = elim (s.response_len) [ none ↦ none | some n ↦ some (pos n) ];
          water_mark = elim (s.response_len) [ none ↦ none | some n ↦ some (pos n) ];
          state = using_tcp;
        },
        set_tcp true (set_timeout p.bounding_timeout c),
      )
      else pass p c

  unfoldable pub in_using_tcp : Pmtu → Context → Turn
  in_using_tcp p c =
      if not s.timed && s.valid
      then elim (s.response_len) [
        | none ↦ (raised type_error, p, set_tcp false c)
        | some n ↦ (
          retry_of a diagnostic s.response_len (change_udp_max_payload (pos n -ℤ pos 1)),
          goto tcp_minus_one p,
          with_payload api (pos n -ℤ pos 1) (set_tcp false c),
        )
      ]
      else pass p c

  -- The shared body of a timeout in TCP_MINUS_ONE and PICKLE.
  unfoldable pub shrink : Pmtu → Context → Turn
  unfolding midpoint
  shrink p c =
      let upper = c.request.payload -ℤ pos 1 in
      elim (p.lower_bound) [
        | none ↦ (raised type_error, record p { upper_bound = some upper }, c)
        | some lower ↦ (
          retry_of a timeout none (change_udp_max_payload (midpoint lower upper)),
          record p { upper_bound = some upper; state = pickle },
          with_payload api (midpoint lower upper) c,
        )
      ]

  -- The body of a valid answer in PICKLE.
  unfoldable pub grow : Pmtu → Context → ℤ → Turn
  unfolding midpoint
  grow p c upper =
      let lower = c.request.payload in
      (
        retry_of a diagnostic s.response_len (change_udp_max_payload (midpoint lower upper)),
        record p { lower_bound = some lower },
        with_payload api (midpoint lower upper) c,
      )

  unfoldable pub truncated_minus_one : Pmtu → Context → Turn
  unfolding use_tcp_finally
  truncated_minus_one p c =
      if s.truncated
      then use_tcp_finally (retry_of a tc_set s.response_len use_tcp) p c
      else pass p c

  unfoldable pub in_tcp_minus_one : Pmtu → Context → Turn
  in_tcp_minus_one p c =
      if s.timed
      then shrink p c
      else if is_some s.response_len
      then elim (below_mark s.response_len p.water_mark) [
        | none ↦ (raised type_error, p, c)
        | some below ↦ if below then rate_limited a p c else truncated_minus_one p c
      ]
      else truncated_minus_one p c

  -- The search is over: report why, and use TCP. A valid answer, not truncated, returns None.
  unfoldable pub settle : Pmtu → Context → Turn
  unfolding use_tcp_finally
  settle p c =
      use_tcp_finally
        (if s.truncated
          then retry_of a tc_set s.response_len use_tcp
          else if s.timed
          then retry_of a timeout none use_tcp
          else if not s.valid
          then retry_of a diagnostic none use_tcp
          else returned none)
        p c

  unfoldable pub search_on : Pmtu → Context → ℤ → Turn
  search_on p c upper =
      if s.timed then shrink p c else elim (below_mark s.response_len p.water_mark) [
        | none ↦ (raised type_error, p, c)
        | some below ↦
            if below then rate_limited a p c else if s.valid then grow p c upper else pass p c
      ]

  unfoldable pub in_pickle : Pmtu → Context → Turn
  in_pickle p c = elim (p.upper_bound) [
    | none ↦ (raised type_error, p, c)
    | some upper ↦ elim (p.lower_bound) [
      | none ↦ (raised type_error, p, c)
      | some lower ↦ if leb_ℤ (upper -ℤ lower) (pos 1) then settle p c else search_on p c upper
    ]
  ]

  abbrev pub dispatch : State → Pmtu → Context → Turn
  dispatch start = in_start
  dispatch reduced_payload = in_reduced_payload
  dispatch using_tcp = in_using_tcp
  dispatch tcp_minus_one = in_tcp_minus_one
  dispatch pickle = in_pickle
  dispatch tcp_final = pass
  dispatch invalid = pass

  -- `handle` once the response is read: the guard, and the chain of tests on the state.
  unfoldable pub in_state : Pmtu → Context → Turn
  in_state p c =
      if is_on c.request.edns && (s.timed || s.valid || s.truncated)
      then dispatch p.state p c
      else pass (goto invalid p) c

abbrev pub seen : Arrival → Context → Bool → Seen
seen a c tc = record {
  timeouts = get_num_timeouts a.response c.history;
  timed = is_timeout a.response;
  valid = is_valid a.response;
  truncated = tc;
  response_len = elim (a.wire) [ none ↦ none | some w ↦ some (length w) ];
}

abbrev pub is_invalid : State → Bool
is_invalid invalid = true
is_invalid _ = false

-- PMTUBoundingHandler.handle
unfoldable pub pmtu_handle : EdnsApi → Arrival → Pmtu → Context → Turn
pmtu_handle api a p c = if is_invalid p.state then pass p c else elim (tc_bit a.wire) [
  | no_wire ↦ in_state api a (seen a c false) p c
  | short_wire ↦ (raised index_error, p, c)
  | bit b ↦ in_state api a (seen a c b) p c
]
