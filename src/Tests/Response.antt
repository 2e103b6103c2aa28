-- ===== src/Tests/Response.antt =====
-- Tests of the responses: an exchange and its review, and the classification of a message.
use dnsviz.Base.{ℕ, [], ◌∷◌, none, some, true, false, ◌≡◌, ◌≢◌, refl, arith}
use dnsviz.Base.Int.{pos}
use dnsviz.Dns.Message.{DomainName, Message}
use dnsviz.Query.Types.{Arrival, form_error, disable_edns, formerr, Retry, Context, returned}
use dnsviz.Query.Handlers
use dnsviz.Query.Handlers.{get_retry_qty}
use dnsviz.Query.Chain.{
  handle, handle_response, QueryHandler, again, disable_edns_on_formerr_handler,
  default_accept_handler, init, consult, conclude, gives_up,
}
use dnsviz.Response.History.{Options, no_cookie, review_history, apply_action}
use dnsviz.Response.Replay.{Agrees}
use dnsviz.Response.Replay.Whole.{replay, handle_response-Agrees}
use dnsviz.Response.Replay.Handled.{handle-Agrees}
use dnsviz.Response.Replay.Review.{Exchange, started, retried, Exchange-review}
use dnsviz.Response.Classify.{
  DnsResponse, FindRrset, is_nxdomain, is_referral, usable, is_valid_response, is_complete_response,
  is_referral_in,
}
use dnsviz.Base.Bits.{AreSameLow-refl}
use dnsviz.Tests.{
  plain_edns, plain_edns-IsEdnsApi, by_length, a_request, some_params, a_context, empty_message,
}

-- A malformed answer, which makes the handler turn EDNS off.
abbrev malformed : Arrival
malformed = record {
  wire = some (1 ∷ 2 ∷ 3 ∷ []);
  response = form_error;
  response_time = 40;
  now = 100;
}

abbrev query : QueryHandler
query =
    init 0 none a_request some_params
      (disable_edns_on_formerr_handler ∷ default_accept_handler ∷ [])

-- The options of the first request.
abbrev first_options : Options
first_options = record {
  flags = 0x100;
  edns = some 0;
  edns_max_udp_payload = some (pos 4096);
  edns_flags = 0x8000;
  edns_options = [];
  tcp = false;
  server_cookie_status = no_cookie;
}

first-Agrees : Agrees a_context first_options
first-Agrees = record {
  flags = refl;
  edns = refl;
  tcp = refl;
  settings = (AreSameLow-refl 16 a_context.request.ednsflags, refl, refl);
}

goes_on : (handle_response plain_edns malformed none none query).0 ≡ again
unfolding handle_response consult conclude handle init Handlers.disable_edns_on_formerr
    Handlers.default_accept gives_up
goes_on = refl

exchange :
    Exchange plain_edns first_options (handle_response plain_edns malformed none none query).1
unfolding init
exchange =
    retried
      (started 0 none a_request some_params
        (disable_edns_on_formerr_handler ∷ default_accept_handler ∷ []) first-Agrees)
      malformed none none
      (
        record { replayable = tt; quiet = tt; threshold = tt },
        (record { replayable = tt; quiet = tt; threshold = tt }, tt),
      )
      refl goes_on

Exchange-review_example :
    Agrees
      (handle_response plain_edns malformed none none query).1.context
      (review_history first_options
        (handle_response plain_edns malformed none none query).1.context.history
        none
        true).0
Exchange-review_example =
    Exchange-review plain_edns first_options
      (handle_response plain_edns malformed none none query).1 none true plain_edns-IsEdnsApi
      exchange

handle_response-Agrees_example :
    Agrees (handle_response plain_edns malformed none none query).1.context (
      replay (handle_response plain_edns malformed none none query).1.context.history first_options)
unfolding init replay
handle_response-Agrees_example =
    handle_response-Agrees plain_edns malformed none none query first_options plain_edns-IsEdnsApi
      (
        record { replayable = tt; quiet = tt; threshold = tt },
        (record { replayable = tt; quiet = tt; threshold = tt }, tt),
      )
      refl first-Agrees goes_on

abbrev without_edns : Context
without_edns = record a_context { request = record a_request { edns = none } }

abbrev edns_off : Retry
edns_off = record { response_time = 40; cause = formerr; cause_arg = none; action = disable_edns }

turns_off :
    handle plain_edns malformed disable_edns_on_formerr_handler a_context
    ≡ (returned (some edns_off), disable_edns_on_formerr_handler, without_edns)
unfolding handle Handlers.disable_edns_on_formerr
turns_off = refl

handle-Agrees_example : Agrees without_edns (apply_action disable_edns first_options)
handle-Agrees_example =
    handle-Agrees plain_edns malformed disable_edns_on_formerr_handler
      disable_edns_on_formerr_handler a_context without_edns first_options edns_off
      plain_edns-IsEdnsApi first-Agrees tt turns_off

-- The root, a zone, and a name in it.
abbrev root : DomainName
root = [] ∷ []

abbrev zone : DomainName
zone = (122 ∷ []) ∷ root

abbrev name : DomainName
name = (97 ∷ []) ∷ zone

abbrev response_of : Message → DnsResponse
response_of m = record {
  message = some m;
  history = [];
  response_time = 10;
  effective = first_options;
}

abbrev type_a : ℕ
type_a = 1

not_any : type_a ≢ 255
not_any h = ground arith

no_name : is_nxdomain by_length name 1 (response_of (record empty_message { rcode = 3 })) ≡ true
unfolding is_nxdomain usable is_valid_response is_complete_response
no_name = refl

-- A delegation of the name, from the zone.
abbrev delegation : Message
delegation = record empty_message {
  authority = (record { name = name; rdtype = 2; rdclass = 1; ttl = 3600; rdatas = [] }) ∷ [];
}

abbrev find_nothing : FindRrset
find_nothing _ _ _ _ = none

refers :
    is_referral by_length find_nothing name 1 1 (some zone) true (response_of delegation) ≡ true
unfolding is_referral is_referral_in usable is_valid_response is_complete_response
refers = refl
