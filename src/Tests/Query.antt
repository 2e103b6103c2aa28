-- ===== src/Tests/Query.antt =====
-- Tests of the query handler: runs of it, and the theorems at concrete arguments.
use dnsviz.Base.{
  List, [], arith, if◌then◌else◌, none, refl, some, ◌++◌, ◌+◌, ◌<◌, ◌∷◌, ◌≡◌, ◌≢◌, ◌≤◌, ◌⊎◌,
}
use dnsviz.Base.Int.{pos, ◌+ℤ◌, ◌-ℤ◌, half}
use dnsviz.Dns.Message.{Bytes, EdnsOption, Message}
use dnsviz.Query.Cookie.{add_server_cookie}
use dnsviz.Query.Types.{
  Arrival, Context, Retry, timeout, change_udp_max_payload, no_change, timed_out, returned,
}
use dnsviz.Query.Handlers
use dnsviz.Query.Handlers.{get_retry_qty, trailing}
use dnsviz.Query.Pmtu
use dnsviz.Query.Pmtu.{Pmtu, pickle, pmtu_handle}
use dnsviz.Query.Pmtu.Safety.{IsSafe, pmtu-IsSafe}
use dnsviz.Query.Pmtu.Progress.{IsWithin, IsNarrowed, begun, probe, Probes-halve, pmtu-IsNarrowed}
use dnsviz.Query.Chain.{
  Handler, handle, handle_response, QueryHandler, again, max_timeouts_handler, lifetime_handler,
  retry_on_timeout_handler, default_accept_handler, recorded, init, get_timeout, consult, conclude,
  gives_up,
}
use dnsviz.Query.Causes.{Explains, handle-Explains}
use dnsviz.Query.Limits.{
  handle_response-bounds_timeouts, handle_response-ends, handle_response-records,
  get_timeout-bounds,
}
use dnsviz.Tests.{
  empty_message, plain_edns, plain_edns-IsEdnsApi, a_request, some_params, a_context,
}

-- A query without an answer, at time 2000.
abbrev timeout_arrival : Arrival
timeout_arrival = record { wire = none; response = timed_out; response_time = 1000; now = 2000 }

-- A search between the payloads 513 and 4095.
abbrev searching : Pmtu
searching = record {
  reduced = pos 512;
  initial_timeouts = 2;
  max_timeouts = 3;
  bounding_timeout = 500;
  lower_bound = some (pos 513);
  upper_bound = some (pos 4095);
  water_mark = some (pos 513);
  state = pickle;
}

abbrev probing : Context
probing = record a_context { request = record a_request { payload = pos 2304 } }

-- The search after one more timeout, and its request.
abbrev narrowed : Pmtu
narrowed = record searching { upper_bound = some (pos 2303) }

abbrev probing_less : Context
probing_less = record a_context { request = record a_request { payload = pos 1408 } }

abbrev smaller_probe : Retry
smaller_probe = record {
  response_time = 1000;
  cause = timeout;
  cause_arg = none;
  action = change_udp_max_payload (pos 1408);
}

one_probe :
    pmtu_handle plain_edns timeout_arrival searching probing
    ≡ (returned (some smaller_probe), narrowed, probing_less)
unfolding pmtu_handle Pmtu.in_state Pmtu.in_pickle Pmtu.search_on Pmtu.shrink Pmtu.midpoint ◌-ℤ◌
    ◌+ℤ◌ half
one_probe = refl

middle : pos 2304 ≡ Pmtu.midpoint (pos 513) (pos 4095)
unfolding Pmtu.midpoint ◌-ℤ◌ ◌+ℤ◌ half
middle = refl

on : a_request.edns ≢ none
on e = cc

pmtu-IsSafe_example : IsSafe (pmtu_handle plain_edns timeout_arrival searching probing)
pmtu-IsSafe_example =
    pmtu-IsSafe plain_edns timeout_arrival searching probing plain_edns-IsEdnsApi tt (middle, refl)

pmtu-IsNarrowed_example : IsNarrowed (pos 513) (pos 4095) (pos 1408) narrowed probing_less
pmtu-IsNarrowed_example =
    pmtu-IsNarrowed plain_edns timeout_arrival searching narrowed probing probing_less smaller_probe
      (pos 513) (pos 4095) (pos 1408) plain_edns-IsEdnsApi on refl refl refl middle refl one_probe

Probes-halve_example : IsWithin 1 (pos 513) (pos 4095) narrowed probing_less
Probes-halve_example =
    Probes-halve plain_edns 1 (pos 513) (pos 4095) searching narrowed probing probing_less
      plain_edns-IsEdnsApi
      (record { state = refl; lower = refl; upper = refl; centred = middle; edns = on })
      (probe begun timeout_arrival smaller_probe (pos 1408) one_probe refl refl)

-- A query with at most 5000 ms and two timeouts, which is tried again after each.
abbrev front : List Handler
front = max_timeouts_handler 2 ∷ lifetime_handler 0 5000 ∷ retry_on_timeout_handler ∷ []

abbrev query : QueryHandler
query = init 0 (some 5000) a_request some_params (front ++ default_accept_handler ∷ [])

none_yet : get_retry_qty timeout query.context.history < 2
unfolding get_retry_qty init trailing
none_yet = omega arith

retried : (handle_response plain_edns timeout_arrival none none query).0 ≡ again
unfolding handle_response consult conclude handle init Handlers.max_timeouts_handler
    Handlers.lifetime_handler Handlers.retry_on_timeout Handlers.default_accept gives_up
    get_retry_qty
retried = refl

handle_response-bounds_timeouts_example :
    get_retry_qty timeout
      (handle_response plain_edns timeout_arrival none none query).1.context.history
    < 2
unfolding init
handle_response-bounds_timeouts_example =
    handle_response-bounds_timeouts plain_edns timeout_arrival none none 2 []
      (lifetime_handler 0 5000 ∷ retry_on_timeout_handler ∷ default_accept_handler ∷ []) query refl
      (tt, (tt, (tt, (tt, tt)))) none_yet retried

handle_response-ends_example : 2000 < 5000
unfolding init
handle_response-ends_example =
    handle_response-ends plain_edns timeout_arrival none none 0 5000 (max_timeouts_handler 2 ∷ [])
      (retry_on_timeout_handler ∷ default_accept_handler ∷ []) query refl retried

handle_response-records_example :
    (r : Retry) × Explains r.cause r.cause_arg timeout_arrival
    × ((handle_response plain_edns timeout_arrival none none query).1.context.history
        ≡ (if recorded r then r ∷ [] else []))
unfolding init
handle_response-records_example =
    handle_response-records plain_edns timeout_arrival none none front query refl
      (tt, (tt, (tt, (tt, tt)))) retried

get_timeout-bounds_example :
    (100 ≤ get_timeout 4900 query)
    × (get_timeout 4900 query ≤ 1000)
    × ((get_timeout 4900 query ≡ 100) ⊎ (4900 + get_timeout 4900 query ≤ 5000))
unfolding init
get_timeout-bounds_example = get_timeout-bounds 4900 5000 query refl (omega arith)

-- A retry that a handler asks for after a timeout says so.
asks_again : handle plain_edns timeout_arrival retry_on_timeout_handler a_context ≡ (
  returned (
      some
        (record { response_time = 1000; cause = timeout; cause_arg = none; action = no_change })),
  retry_on_timeout_handler,
  a_context,
)
unfolding handle Handlers.retry_on_timeout
asks_again = refl

handle-Explains_example : Explains timeout none timeout_arrival
handle-Explains_example =
    handle-Explains plain_edns timeout_arrival retry_on_timeout_handler retry_on_timeout_handler
      a_context a_context
      (record { response_time = 1000; cause = timeout; cause_arg = none; action = no_change }) tt
      asks_again

-- A client cookie of 8 bytes, and a message with a server's cookie after it.
abbrev client_cookie : EdnsOption
client_cookie = record { otype = 10; payload = 1 ∷ 2 ∷ 3 ∷ 4 ∷ 5 ∷ 6 ∷ 7 ∷ 8 ∷ [] }

abbrev both_cookies : Bytes
both_cookies = 1 ∷ 2 ∷ 3 ∷ 4 ∷ 5 ∷ 6 ∷ 7 ∷ 8 ∷ 90 ∷ 91 ∷ []

abbrev bad_cookie : Message
bad_cookie = record empty_message {
  rcode = 23;
  options = (record { otype = 10; payload = both_cookies }) ∷ [];
}

taken_over : add_server_cookie (client_cookie ∷ []) bad_cookie ≡ some both_cookies
unfolding add_server_cookie
taken_over = refl
