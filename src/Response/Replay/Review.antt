-- ===== src/Response/Replay/Review.antt =====
-- The review of a whole exchange (`_review_history` of dnsviz/response.py) finds the options that the
-- query handler (dnsviz/query.py) had in use in the end.
use dnsviz.Base.{
  ℕ, suc, Option, some, Bool, ◌≡◌, refl, arith, List, [], ◌∷◌, All, false, Option-cases, inl, inr,
}
use dnsviz.Dns.Api.{EdnsApi, IsEdnsApi}
use dnsviz.Dns.Message.{Request}
use dnsviz.Query.Types.{Arrival, Cause, Context, Params, Retry}
use dnsviz.Query.Handlers.{errno_of}
use dnsviz.Query.Chain.{Handler, QueryHandler, handle_response, again, arg_in, init}
use dnsviz.Response.History.{
  Options, Review, review_retry, review_loop, review_history, reset_edns, initial,
}
use dnsviz.Response.Replay.{Agrees}
use dnsviz.Response.Replay.Whole.{replay, IsRecordable, handle_response-Agrees}

-- The loop of the review replays the actions.
review_loop-replay :
    (i : ℕ) (rs : List Retry) (v : Review) → (review_loop i rs v).options ≡ replay rs v.options
unfolding review_loop review_retry replay
review_loop-replay i [] v = refl
review_loop-replay i (r ∷ rs) v = review_loop-replay (suc i) rs (review_retry i r v)

reset_on : (s : Options) (v : ℕ) → s.edns ≡ some v → reset_edns s ≡ s
unfolding reset_edns
reset_on s v q = ground (arith, q)

reset-Agrees : (c : Context) (s : Options) → Agrees c s → Agrees c (reset_edns s)
unfolding reset_edns
reset-Agrees c s h = elim (Option-cases s.edns) [
  | inl q ↦ record {
    flags = ground (arith, h.flags);
    edns = ground (arith, h.edns);
    tcp = ground (arith, h.tcp);
    settings = rw (h.edns, q) tt;
  }
  | inr (v, q) ↦ rw (reset_on s v q) h
]

review_history-replay :
    (s : Options) (rs : List Retry) (error : Option Cause) (valid : Bool)
    → (review_history s rs error valid).0 ≡ reset_edns (replay rs s)
unfolding review_history
review_history-replay s rs error valid = rw (review_loop-replay 0 rs (initial s)) refl

-- An exchange: the query handler starts, and goes on as long as it asks for another attempt. The
-- exchange ends at the first failure for want of descriptors (errno 24), which is not recorded.
pub data Exchange (api : EdnsApi) (s : Options) : QueryHandler → Type 0 where
  started :
      (now : ℕ) (lifetime : Option ℕ) (request : Request) (params : Params) (hs : List Handler)
      → Agrees (init now lifetime request params hs).context s
      → Exchange api s (init now lifetime request params hs)
  retried :
      {q : QueryHandler}
      → Exchange api s q
      → (a : Arrival) (client sport : Option ℕ) → All (λ h. IsRecordable h q.context) q.handlers
      → arg_in (errno_of a.response) (24 ∷ []) ≡ false
      → (handle_response api a client sport q).0 ≡ again
      → Exchange api s (handle_response api a client sport q).1

Exchange-replay :
    (api : EdnsApi) (s : Options) (q : QueryHandler)
    → IsEdnsApi api
    → Exchange api s q
    → Agrees q.context (replay q.context.history s)
unfolding replay init
Exchange-replay api s q laws (started now lifetime request params hs same) = same
Exchange-replay api s q laws (retried before a client sport ok no_emfile e) =
    handle_response-Agrees api a client sport _ s laws ok no_emfile
      (Exchange-replay api s _ laws before) e

-- After an exchange of any length the review of its history, whatever the final error and validity,
-- gives the flags, the EDNS version, EDNS flags (the 16 lowest bits of `ednsflags`), payload and codes
-- of options, and the transport that the query handler has in use. At each attempt the handlers are
-- recordable (positive thresholds, no payload search in PICKLE, only changes that the review can know),
-- and no attempt fails for want of descriptors.
pub Exchange-review :
    (api : EdnsApi) (s : Options) (q : QueryHandler) (error : Option Cause) (valid : Bool)
    → IsEdnsApi api
    → Exchange api s q
    → Agrees q.context (review_history s q.context.history error valid).0
Exchange-review api s q error valid laws x =
    rw (review_history-replay s q.context.history error valid)
      (reset-Agrees q.context (replay q.context.history s) (Exchange-replay api s q laws x))
