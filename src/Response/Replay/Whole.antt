-- ===== src/Response/Replay/Whole.antt =====
-- handle_response of dnsviz/query.py, all handlers in turn, against `_review_history` of
-- dnsviz/response.py.
use dnsviz.Base.{
  ℕ, Option, none, some, ◌≡◌, ◌⊎◌, inl, inr, refl, ap, ◌∙◌, arith, List, [], ◌∷◌, ◌++◌, All, true,
  false,
}
use dnsviz.Dns.Api.{EdnsApi, IsEdnsApi}
use dnsviz.Dns.Message.{Request}
use dnsviz.Query.Types.{Arrival, Context, Retry, Outcome, returned, raised, Exc}
use dnsviz.Query.Pmtu.{State, using_tcp}
use dnsviz.Query.Chain.{
  Handler, handle, consult, conclude, handle_response, QueryHandler, again, arg_in, set_sport,
  recorded, clear_edns_flag_on_timeout_handler, change_edns_version_on_timeout_handler,
  pmtu_bounding_handler,
}
use dnsviz.Query.Quiet.{SameRequest, IsQuiet, handle-quiet}
use dnsviz.Response.History.{Options, apply_action}
use dnsviz.Response.Replay.{Agrees, EdnsAgrees, IsReplayable, IsSentByUdp}
use dnsviz.Query.Consult.{
  Outcome-cases, of_first, consult_found, consult_idle, history-consult, consult-Explains,
}
use dnsviz.Query.Causes.{HasThreshold, Explains}
use dnsviz.Query.Handlers.{errno_of}
use dnsviz.Response.Replay.Handled.{handle-Agrees}

-- The actions of the history, replayed in order.
unfoldable pub replay : List Retry → Options → Options
replay [] s = s
replay (r ∷ rs) s = replay rs (apply_action r.action s)

pub replay-append :
    (rs : List Retry) (r : Retry) (s : Options)
    → replay (rs ++ r ∷ []) s ≡ apply_action r.action (replay rs s)
unfolding replay
replay-append [] r s = refl
replay-append (q ∷ rs) r s = replay-append rs r (apply_action q.action s)

settings_same :
    (q q' : Request) (s : Options) → q' ≡ q → EdnsAgrees q.edns q s → EdnsAgrees q'.edns q' s
settings_same q q' s e h = rw e h

module _ (c c' : Context) (same : SameRequest c c') where
  Agrees-same : (s : Options) → Agrees c s → Agrees c' s
  Agrees-same s h = record {
    flags = ap (λ (q : Request). q.flags) same.request ∙ h.flags;
    edns = ap (λ (q : Request). q.edns) same.request ∙ h.edns;
    tcp = same.tcp ∙ h.tcp;
    settings = settings_same c.request c'.request s same.request h.settings;
  }

  udp_same : (st : State) → IsSentByUdp st c → IsSentByUdp st c'
  udp_same using_tcp h = tt
  udp_same _ h = same.tcp ∙ h

  IsReplayable-same : (h : Handler) → IsReplayable h c → IsReplayable h c'
  IsReplayable-same (change_edns_version_on_timeout_handler v n) k = rw same.request k
  IsReplayable-same (clear_edns_flag_on_timeout_handler f n) k = k
  IsReplayable-same (pmtu_bounding_handler p) k = udp_same p.state k
  IsReplayable-same _ k = tt

  All-same :
      (hs : List Handler)
      → All (λ h. IsReplayable h c × IsQuiet h) hs
      → All (λ h. IsReplayable h c' × IsQuiet h) hs
  All-same [] k = tt
  All-same (h ∷ hs) k = ((IsReplayable-same h k.0.0, k.0.1), All-same hs k.1)

module _ (api : EdnsApi) (a : Arrival) (sport : Option ℕ) (laws : IsEdnsApi api) (s : Options) where
  -- The first handler that asks for a retry decides, and its action is replayed exactly.
  consult-Agrees :
      (r : Retry) (hs : List Handler) (c : Context)
      → All (λ h. IsReplayable h c × IsQuiet h) hs
      → Agrees c s
      → (consult api a sport none hs c).outcome ≡ returned (some r)
      → Agrees (consult api a sport none hs c).context (apply_action r.action s)
  unfolding consult
  consult-Agrees r [] c k same e = cc
  consult-Agrees r (h ∷ hs) c k same e = elim (Outcome-cases (handle api a h c).0) [
    | inl (x, q) ↦ ground arith
    | inr (inl q) ↦
        let quiet =
          handle-quiet api a h (handle api a h c).1 c (handle api a h c).2 k.0.1
            (of_first (handle api a h c) q) in
        ground (
          arith,
          consult-Agrees r hs (handle api a h c).2 (All-same c (handle api a h c).2 quiet hs k.1)
              (Agrees-same c (handle api a h c).2 quiet s same),
        )
    | inr (inr (y, q)) ↦
        let found =
          handle-Agrees api a h (handle api a h c).1 c (handle api a h c).2 s y laws same k.0.0
            (of_first (handle api a h c) q) in
        let next = set_sport sport y (handle api a h c).2 in
        let last : (consult api a sport (some y) hs next).outcome ≡ returned (some r) =
          ground arith in
        let (kept, after) = consult_found api a sport y r hs next last in
        ground (
          arith,
          Agrees-same next (consult api a sport (some y) hs next).context after
              (apply_action y.action s)
              (Agrees-same (handle api a h c).2 next (record { request = refl; tcp = refl })
                (apply_action y.action s) found),
        )
  ]

pub record IsRecordable (h : Handler) (c : Context) : Type 0 where
  pub replayable : IsReplayable h c
  pub quiet : IsQuiet h
  pub threshold : HasThreshold h

recorded_of_Explains :
    (r : Retry) (a : Arrival)
    → arg_in (errno_of a.response) (24 ∷ []) ≡ false
    → Explains r.cause r.cause_arg a
    → recorded r ≡ true
unfolding recorded
recorded_of_Explains r a h x = ground arith

replayables :
    (hs : List Handler) (c : Context)
    → All (λ h. IsRecordable h c) hs
    → All (λ h. IsReplayable h c × IsQuiet h) hs
replayables [] c k = tt
replayables (h ∷ hs) c k = ((k.0.replayable, k.0.quiet), replayables hs c k.1)

quiets : (hs : List Handler) (c : Context) → All (λ h. IsRecordable h c) hs → All IsQuiet hs
quiets [] c k = tt
quiets (h ∷ hs) c k = (k.0.quiet, quiets hs c k.1)

thresholds :
    (hs : List Handler) (c : Context) → All (λ h. IsRecordable h c) hs → All HasThreshold hs
thresholds [] c k = tt
thresholds (h ∷ hs) c k = (k.0.threshold, thresholds hs c k.1)

Agrees-scheduled :
    (c : Context) (s : Options)
    → Agrees c s
    → Agrees (record c { params = record c.params { wait = 0 } }) s
Agrees-scheduled c s h = record {
  flags = h.flags;
  edns = h.edns;
  tcp = h.tcp;
  settings = h.settings;
}

Agrees-recorded :
    (c : Context) (s : Options) (rs : List Retry)
    → Agrees c s
    → Agrees (record c { params = record c.params { wait = 0 }; history = rs }) s
Agrees-recorded c s rs h = record {
  flags = h.flags;
  edns = h.edns;
  tcp = h.tcp;
  settings = h.settings;
}

conclude-Agrees :
    (now : ℕ) (client : Option ℕ) (o : Outcome) (q : QueryHandler) (s : Options)
    → ((e : Exc) × (o ≡ raised e))
      ⊎ ((o ≡ returned none) × Agrees q.context (replay q.context.history s)
          ⊎ ((r : Retry) × (o ≡ returned (some r))
              × (recorded r ≡ true)
              × Agrees q.context (apply_action r.action (replay q.context.history s))))
    → (conclude now client o q).0 ≡ again
    → Agrees
        (conclude now client o q).1.context
        (replay (conclude now client o q).1.context.history s)
unfolding conclude
conclude-Agrees now client (raised e) q s h v = ground arith
conclude-Agrees now client (returned none) q s (inl (e, h)) v = cc
conclude-Agrees now client (returned none) q s (inr (inl (e, h))) v = Agrees-scheduled q.context _ h
conclude-Agrees now client (returned none) q s (inr (inr (r, e, k, h))) v = cc
conclude-Agrees now client (returned (some r)) q s (inl (e, h)) v = cc
conclude-Agrees now client (returned (some r)) q s (inr (inl (e, h))) v = cc
conclude-Agrees now client (returned (some r)) q s (inr (inr (y, e, k, h))) v = ground (
  arith,
  replay-append q.context.history r s,
  Agrees-recorded q.context (apply_action r.action (replay q.context.history s))
      (q.context.history ++ r ∷ []),
)

-- Whatever arrives, if the review of the history so far gives the options in use, and the handlers
-- are recordable, and the failure is not EMFILE, then after a retry was decided on the review of
-- the new history gives the options of the new attempt. (EDNS flags are compared by the 16 lowest bits
-- of `ednsflags`, options by their codes.)
pub handle_response-Agrees :
    (api : EdnsApi) (a : Arrival) (client sport : Option ℕ) (q : QueryHandler) (s : Options)
    → IsEdnsApi api
    → All (λ h. IsRecordable h q.context) q.handlers
    → arg_in (errno_of a.response) (24 ∷ []) ≡ false
    → Agrees q.context (replay q.context.history s)
    → (handle_response api a client sport q).0 ≡ again
    → Agrees
        (handle_response api a client sport q).1.context
        (replay (handle_response api a client sport q).1.context.history s)
unfolding handle_response
handle_response-Agrees api a client sport q s laws k no_emfile same e =
    let r = consult api a sport none q.handlers q.context in
    let kept = history-consult api a sport none q.handlers q.context in
    let old = replay q.context.history s in
    conclude-Agrees a.now client r.outcome (record q { handlers = r.handlers; context = r.context })
      s
      (elim (Outcome-cases r.outcome) [
        | inl (x, o) ↦ inl (x, o)
        | inr (inl o) ↦ inr (
            inl (
              o,
              rw kept (
                  Agrees-same q.context r.context
                    (consult_idle api a sport q.handlers q.context (quiets q.handlers q.context k)
                      o)
                    old same),
            ))
        | inr (inr (y, o)) ↦ inr (
            inr (
              y,
              o,
              recorded_of_Explains y a no_emfile (
                  consult-Explains api a sport y q.handlers q.context
                    (thresholds q.handlers q.context k) o),
              rw kept (
                  consult-Agrees api a sport laws old y q.handlers q.context
                    (replayables q.handlers q.context k) same o),
            ))
      ])
      e
