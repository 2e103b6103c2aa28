-- ===== src/Query/Limits.antt =====
-- dnsviz/query.py: when `handle_response` may ask for another attempt. The limits are handlers of
-- the list, and the loop consults them even after a retry was found.
use dnsviz.Base.{
  ℕ, suc, ◌+◌, ◌<◌, ◌≤◌, Option, none, some, ◌≡◌, ◌≢◌, ◌⊎◌, inl, inr, refl, sym, arith, List, [],
  ◌∷◌, ◌++◌, All, Bool-cases, true, if◌then◌else◌,
}
use mathlib.Core.List.{reverse-append}
use dnsviz.Dns.Api.{EdnsApi}
use dnsviz.Query.Types.{Cause, timeout, Arrival, Context, Retry, Outcome, returned, raised}
use dnsviz.Query.Handlers.{same_cause, trailing, get_retry_qty, get_num_timeouts, is_timeout}
use dnsviz.Query.Handlers
use dnsviz.Query.Chain.{
  Handler, handle, consult, conclude, handle_response, QueryHandler, again, recorded,
  is_action_independent, set_sport, max_timeouts_handler, lifetime_handler, default_accept_handler,
  get_timeout, get_remaining_lifetime,
}
use dnsviz.Query.Causes.{Explains, HasThreshold}
use dnsviz.Query.Quiet.{history-handle}
use dnsviz.Query.Consult.{Outcome-cases, consult_keeps, history-consult, consult-Explains}

-- The number of trailing attempts with a cause, after one more attempt.
pub qty_recorded :
    (k : Cause) (h : List Retry) (r : Retry)
    → get_retry_qty k (h ++ r ∷ []) ≡ (if same_cause r.cause k then suc (get_retry_qty k h) else 0)
unfolding get_retry_qty trailing
qty_recorded k h r = rw (reverse-append h (r ∷ [])) refl

module _ (api : EdnsApi) (a : Arrival) (sport : Option ℕ) where
  -- A limiting handler at its place in the list lets the loop end with no exception only if it
  -- returns itself.
  reaches :
      (P : List Retry → Type 0) (h : Handler)
      → is_action_independent h ≡ true
      → ((c : Context) (o : Option Retry) → (handle api a h c).0 ≡ returned o → P c.history)
      → (front back : List Handler) (o x : Option Retry) (c : Context)
      → (consult api a sport o (front ++ h ∷ back) c).outcome ≡ returned x
      → P c.history
  unfolding consult
  reaches P h i f [] back none x c e = elim (Outcome-cases (handle api a h c).0) [
    | inl (y, q) ↦ ground arith
    | inr (inl q) ↦ f c _ q
    | inr (inr (y, q)) ↦ f c _ q
  ]
  reaches P h i f [] back (some r) x c e = elim (Outcome-cases (handle api a h c).0) [
    | inl (y, q) ↦ ground arith
    | inr (inl q) ↦ f c _ q
    | inr (inr (y, q)) ↦ f c _ q
  ]
  reaches P h i f (g ∷ front) back none x c e = elim (Outcome-cases (handle api a g c).0) [
    | inl (y, q) ↦ ground arith
    | inr (inl q) ↦
        let ind = reaches P h i f front back none x (handle api a g c).2 in
        let same = history-handle api a g c in rw (sym same) (ind (ground arith))
    | inr (inr (y, q)) ↦
        let ind = reaches P h i f front back (some y) x (set_sport sport y (handle api a g c).2) in
        let same = history-handle api a g c in rw (sym same) (ind (ground arith))
  ]
  reaches P h i f (g ∷ front) back (some r) x c e = elim (Bool-cases (is_action_independent g)) [
    | inl j ↦
        let ind = reaches P h i f front back (some r) x (handle api a g c).2 in
        let same = history-handle api a g c in rw (sym same) (ind (ground arith))
    | inr j ↦ reaches P h i f front back (some r) x c (ground arith)
  ]

below_max :
    (api : EdnsApi) (a : Arrival) (m : ℕ) (c : Context) (o : Option Retry)
    → (handle api a (max_timeouts_handler m) c).0 ≡ returned o
    → get_num_timeouts a.response c.history < m
unfolding handle Handlers.max_timeouts_handler
below_max api a m c o e = ground arith

before_end :
    (api : EdnsApi) (a : Arrival) (start lifetime : ℕ) (c : Context) (o : Option Retry)
    → (handle api a (lifetime_handler start lifetime) c).0 ≡ returned o
    → a.now < start + lifetime
unfolding handle Handlers.lifetime_handler
before_end api a start lifetime c o e = ground arith

-- The history after the loop ended with this outcome.
abbrev History : Outcome → List Retry → List Retry → Type 0
History o h h' =
    ((o ≡ returned none) × (h' ≡ h))
    ⊎ ((r : Retry) × (o ≡ returned (some r)) × (h' ≡ (if recorded r then h ++ r ∷ [] else h)))

concluded :
    (now : ℕ) (client : Option ℕ) (o : Outcome) (q : QueryHandler) (h : List Retry)
    → q.context.history ≡ h
    → (conclude now client o q).0 ≡ again
    → History o h (conclude now client o q).1.context.history
unfolding conclude
concluded now client (raised x) q h e v = ground arith
concluded now client (returned none) q h e v = inl (refl, e)
concluded now client (returned (some r)) q h e v = inr (r, refl, ground arith)

concluded_response :
    (api : EdnsApi) (a : Arrival) (client sport : Option ℕ) (q : QueryHandler)
    → (handle_response api a client sport q).0 ≡ again
    → History
        (consult api a sport none q.handlers q.context).outcome
        q.context.history
        (handle_response api a client sport q).1.context.history
unfolding handle_response
concluded_response api a client sport q e =
    let r = consult api a sport none q.handlers q.context in
    concluded a.now client r.outcome (record q { handlers = r.handlers; context = r.context })
      q.context.history (history-consult api a sport none q.handlers q.context) e

timeouts_next :
    (h h' : List Retry) (r : Retry) (a : Arrival) (m : ℕ)
    → get_num_timeouts a.response h < m
    → get_retry_qty timeout h < m
    → Explains r.cause r.cause_arg a
    → h' ≡ (if recorded r then h ++ r ∷ [] else h)
    → get_retry_qty timeout h' < m
unfolding get_num_timeouts
timeouts_next h h' r a m below old why e = elim (Bool-cases (recorded r)) [
  | inl q ↦ ground (arith, qty_recorded timeout h r)
  | inr q ↦ ground arith
]

-- A limit of m among the handlers keeps the retries for a timeout at the end of the history fewer than
-- m: if there are fewer than m before a response is handled, and another attempt is asked for, there
-- are fewer than m in the new history. (Thresholds are positive. An attempt that no handler has a retry
-- for is not in the history, so this is no bound on the attempts.)
pub handle_response-bounds_timeouts :
    (api : EdnsApi) (a : Arrival) (client sport : Option ℕ) (m : ℕ) (front back : List Handler)
    (q : QueryHandler)
    → q.handlers ≡ front ++ max_timeouts_handler m ∷ back
    → All HasThreshold q.handlers
    → get_retry_qty timeout q.context.history < m
    → (handle_response api a client sport q).0 ≡ again
    → get_retry_qty timeout (handle_response api a client sport q).1.context.history < m
handle_response-bounds_timeouts api a client sport m front back q list positive old e =
    let reached =
      reaches api a sport (λ h. get_num_timeouts a.response h < m) (max_timeouts_handler m) refl
        (below_max api a m) front back none in
    elim (concluded_response api a client sport q e) [
      | inl (o, same) ↦ rw same old
      | inr (r, o, grown) ↦
          timeouts_next q.context.history _ r a m (reached (some r) q.context (rw (sym list) o)) old
            (consult-Explains api a sport r q.handlers q.context positive o) grown
    ]

-- With a lifetime among the handlers, another attempt is asked for only before its end.
pub handle_response-ends :
    (api : EdnsApi) (a : Arrival) (client sport : Option ℕ) (start lifetime : ℕ)
    (front back : List Handler) (q : QueryHandler)
    → q.handlers ≡ front ++ lifetime_handler start lifetime ∷ back
    → (handle_response api a client sport q).0 ≡ again
    → a.now < start + lifetime
handle_response-ends api a client sport start lifetime front back q list e =
    let reached =
      reaches api a sport (λ h. a.now < start + lifetime) (lifetime_handler start lifetime) refl
        (before_end api a start lifetime) front back none in
    elim (concluded_response api a client sport q e) [
      | inl (o, same) ↦ reached none q.context (rw (sym list) o)
      | inr (r, o, grown) ↦ reached (some r) q.context (rw (sym list) o)
    ]

accepts :
    (api : EdnsApi) (a : Arrival) (c : Context) (o : Option Retry)
    → (handle api a default_accept_handler c).0 ≢ returned o
unfolding handle Handlers.default_accept
accepts api a c o e = ground arith

consult_ends :
    (api : EdnsApi) (a : Arrival) (sport : Option ℕ) (front : List Handler) (c : Context)
    → (consult api a sport none (front ++ default_accept_handler ∷ []) c).outcome ≢ returned none
unfolding consult
consult_ends api a sport [] c e = ground (arith, accepts api a c none)
consult_ends api a sport (h ∷ front) c e = elim (Outcome-cases (handle api a h c).0) [
  | inl (x, q) ↦ ground arith
  | inr (inl q) ↦ ground (arith, consult_ends api a sport front (handle api a h c).2)
  | inr (inr (y, q)) ↦ ground (
    arith,
    consult_keeps api a sport y (front ++ default_accept_handler ∷ [])
        (set_sport sport y (handle api a h c).2),
  )
]

-- When the last handler accepts by default, each further attempt is asked for by a retry, which
-- describes what arrived, and is the last of the new history unless it failed for want of
-- descriptors. The handlers' thresholds are positive.
pub handle_response-records :
    (api : EdnsApi) (a : Arrival) (client sport : Option ℕ) (front : List Handler)
    (q : QueryHandler)
    → q.handlers ≡ front ++ default_accept_handler ∷ []
    → All HasThreshold q.handlers
    → (handle_response api a client sport q).0 ≡ again
    → (r : Retry) × Explains r.cause r.cause_arg a
      × ((handle_response api a client sport q).1.context.history
          ≡ (if recorded r then q.context.history ++ r ∷ [] else q.context.history))
handle_response-records api a client sport front q list positive e =
    elim (concluded_response api a client sport q e) [
      | inl (o, same) ↦ absurd (consult_ends api a sport front q.context (rw (sym list) o))
      | inr (r, o, grown) ↦
          (r, consult-Explains api a sport r q.handlers q.context positive o, grown)
    ]

-- With an expiration and a timeout of at least 100 ms, the timeout of the next attempt is between
-- 100 ms and that timeout, and runs past the expiration only if it is the minimum of 100 ms.
pub get_timeout-bounds :
    (now end : ℕ) (q : QueryHandler)
    → q.expiration ≡ some end
    → 100 ≤ q.context.params.timeout
    → (100 ≤ get_timeout now q)
      × (get_timeout now q ≤ q.context.params.timeout)
      × ((get_timeout now q ≡ 100) ⊎ (now + get_timeout now q ≤ end))
unfolding get_timeout get_remaining_lifetime
get_timeout-bounds now end q e h = ground arith
