-- ===== src/Query/Consult.antt =====
-- The loop of `handle_response` (dnsviz/query.py) over the handlers.
use dnsviz.Base.{
  Option, none, some, ◌≡◌, ◌≢◌, ◌⊎◌, inl, inr, refl, arith, List, [], ◌∷◌, All, Bool-cases, ℕ,
}
use dnsviz.Dns.Api.{EdnsApi}
use dnsviz.Query.Types.{Arrival, Context, Retry, Outcome, returned, raised, Exc}
use dnsviz.Query.Chain.{Handler, handle, consult, is_action_independent, set_sport, sport_after}
use dnsviz.Query.Causes.{Explains, HasThreshold, handle-Explains}
use dnsviz.Query.Quiet.{SameRequest, IsQuiet, handle-quiet, independent-quiet, history-handle}

pub Outcome-cases :
    (o : Outcome)
    → ((e : Exc) × (o ≡ raised e)) ⊎ ((o ≡ returned none) ⊎ ((r : Retry) × (o ≡ returned (some r))))
Outcome-cases (raised e) = inl (e, refl)
Outcome-cases (returned none) = inr (inl refl)
Outcome-cases (returned (some r)) = inr (inr (r, refl))

-- A triple with its first part known.
pub of_first : {A B C : Type 0} (x : A × B × C) {a : A} → x.0 ≡ a → x ≡ (a, x.1, x.2)
of_first x e i = (e i, x.1, x.2)

module _ (api : EdnsApi) (a : Arrival) (sport : Option ℕ) where
  -- Once a retry is found it stays, and the request stays.
  pub consult_found :
      (r r' : Retry) (hs : List Handler) (c : Context)
      → (consult api a sport (some r) hs c).outcome ≡ returned (some r')
      → (r ≡ r') × SameRequest c (consult api a sport (some r) hs c).context
  unfolding consult
  consult_found r r' [] c e = (cc, record { request = refl; tcp = refl })
  consult_found r r' (h ∷ hs) c e = elim (Bool-cases (is_action_independent h)) [
    | inl i ↦ elim (Outcome-cases (handle api a h c).0) [
      | inl (x, q) ↦ ground arith
      | inr (inl q) ↦
          ground (arith, independent-quiet api a h c i, consult_found r r' hs (handle api a h c).2)
      | inr (inr (y, q)) ↦
          ground (arith, independent-quiet api a h c i, consult_found r r' hs (handle api a h c).2)
    ]
    | inr d ↦ ground (arith, consult_found r r' hs c)
  ]

  sport_same : (c : Context) (o : Option Retry) → SameRequest c (sport_after sport o c)
  sport_same c none = record { request = refl; tcp = refl }
  sport_same c (some r) = record { request = refl; tcp = refl }

  -- Once a retry is found, some retry or an exception is the outcome.
  pub consult_keeps :
      (r : Retry) (hs : List Handler) (c : Context)
      → (consult api a sport (some r) hs c).outcome ≢ returned none
  unfolding consult
  consult_keeps r [] c = cc
  consult_keeps r (h ∷ hs) c =
      ground (arith, consult_keeps r hs (handle api a h c).2, consult_keeps r hs c)

  -- No handler asks for anything: nothing to replay.
  pub consult_idle :
      (hs : List Handler) (c : Context)
      → All IsQuiet hs
      → (consult api a sport none hs c).outcome ≡ returned none
      → SameRequest c (consult api a sport none hs c).context
  unfolding consult
  consult_idle [] c k e = record { request = refl; tcp = refl }
  consult_idle (h ∷ hs) c k e = elim (Outcome-cases (handle api a h c).0) [
    | inl (x, q) ↦ ground arith
    | inr (inl q) ↦
        let quiet =
          handle-quiet api a h (handle api a h c).1 c (handle api a h c).2 k.0
            (of_first (handle api a h c) q) in
        ground (arith, quiet, consult_idle hs (handle api a h c).2 k.1)
    | inr (inr (y, q)) ↦ ground (arith, consult_keeps y hs (set_sport sport y (handle api a h c).2))
  ]

  pub history-consult :
      (o : Option Retry) (hs : List Handler) (c : Context)
      → (consult api a sport o hs c).context.history ≡ c.history
  unfolding consult
  history-consult o [] c = refl
  history-consult none (h ∷ hs) c = elim (Outcome-cases (handle api a h c).0) [
    | inl (x, q) ↦ ground (arith, history-handle api a h c)
    | inr (inl q) ↦
        ground (arith, history-handle api a h c, history-consult none hs (handle api a h c).2)
    | inr (inr (y, q)) ↦ ground (
      arith,
      history-handle api a h c,
      history-consult (some y) hs (set_sport sport y (handle api a h c).2),
    )
  ]
  history-consult (some r) (h ∷ hs) c = ground (
    arith,
    history-handle api a h c,
    history-consult (some r) hs (handle api a h c).2,
    history-consult (some r) hs c,
  )

  -- The retry that the loop ends with describes the response.
  pub consult-Explains :
      (r : Retry) (hs : List Handler) (c : Context)
      → All HasThreshold hs
      → (consult api a sport none hs c).outcome ≡ returned (some r)
      → Explains r.cause r.cause_arg a
  unfolding consult
  consult-Explains r [] c k e = cc
  consult-Explains r (h ∷ hs) c k e = elim (Outcome-cases (handle api a h c).0) [
    | inl (x, q) ↦ ground arith
    | inr (inl q) ↦ ground (arith, consult-Explains r hs (handle api a h c).2 k.1)
    | inr (inr (y, q)) ↦
        let here =
          handle-Explains api a h (handle api a h c).1 c (handle api a h c).2 y k.0
            (of_first (handle api a h c) q) in
        ground (arith, here, consult_found y r hs (set_sport sport y (handle api a h c).2))
  ]
