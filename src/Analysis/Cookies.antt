-- ===== src/Analysis/Cookies.antt =====
-- dnsviz/analysis/offline.py: OfflineDomainNameAnalysis._populate_cookie_errors, what a response did
-- not do of RFC 7873.
use dnsviz.Base.{
  ℕ, List, [], ◌∷◌, ◌++◌, Option, none, some, Bool, true, false, not, ◌&&◌, ◌||◌, ◌==◌, ◌≡◌, refl,
  ap, ◌∙◌, if◌then◌else◌, first, is_some, leb, ltb, length, take, arith, bytes_eq,
}
use dnsviz.Dns.Message.{EdnsOption, Message}
use dnsviz.Query.Types.{Action, Retry, disable_edns, rcode, remove_edns_option, update_dns_cookie}
use dnsviz.Status.Issue.{
  Issue, client_cookie_mismatch, cookie_invalid_length, gratuitous_cookie,
  invalid_server_cookie_without_badcookie, malformed_cookie_without_formerr, no_cookie_option,
  no_server_cookie, no_server_cookie_without_badcookie,
}
use dnsviz.Response.History.{
  CookieStatus, client_cookie_only, improper_length, server_cookie_bad, server_cookie_fresh,
}
use dnsviz.Response.Classify.{DnsResponse}

-- What the method reads besides the response: the version of the query, the status of the cookie that
-- it was first sent with, the attempt at `responsive_cause_index`, whether the server is known to
-- support cookies, and `_strict_cookies`.
pub record CookieCase : Type 0 where
  pub query_edns : Option ℕ
  pub server_cookie_status : CookieStatus
  pub responsive_cause : Option Retry
  pub supports_cookies : Bool
  pub strict_cookies : Bool

abbrev pub is_improper : CookieStatus → Bool
is_improper improper_length = true
is_improper _ = false

abbrev pub is_fresh : CookieStatus → Bool
is_fresh server_cookie_fresh = true
is_fresh _ = false

-- `in (DNS_COOKIE_CLIENT_COOKIE_ONLY, DNS_COOKIE_SERVER_COOKIE_BAD)`
abbrev pub is_unproven : CookieStatus → Bool
is_unproven client_cookie_only = true
is_unproven server_cookie_bad = true
is_unproven _ = false

-- The COOKIE option, number 10, of a list.
abbrev pub cookie_of : List EdnsOption → Option EdnsOption
cookie_of = first (λ o. o.otype == 10)

abbrev pub is_rcode : ℕ → Retry → Bool
is_rcode code retry = elim (retry.cause) [
  | rcode ↦ elim (retry.cause_arg) [ none ↦ false | some arg ↦ arg == code ]
  | _ ↦ false
]

abbrev pub drops_cookie : Action → Bool
drops_cookie disable_edns = true
drops_cookie (remove_edns_option n) = n == 10
drops_cookie _ = false

abbrev pub updates_cookie : Action → Bool
updates_cookie update_dns_cookie = true
updates_cookie _ = false

abbrev pub after_retry : (Retry → Bool) → Option Retry → Bool
after_retry p none = false
after_retry p (some retry) = p retry

-- FORMERR is 1, BADCOOKIE is 23.
unfoldable pub issued_formerr : CookieCase → DnsResponse → Message → Bool
issued_formerr c r m =
    if is_improper r.effective.server_cookie_status
    then m.rcode == 1
    else after_retry (λ retry. is_rcode 1 retry && drops_cookie retry.action) c.responsive_cause

unfoldable pub issued_badcookie : CookieCase → DnsResponse → Message → Bool
issued_badcookie c r m =
    if is_unproven r.effective.server_cookie_status
    then m.rcode == 23
    else after_retry (λ retry. is_rcode 23 retry && updates_cookie retry.action) c.responsive_cause

-- The server sent no cookie of its own.
unfoldable pub missing_cookie : Option EdnsOption → List Issue
missing_cookie none = no_cookie_option ∷ []
missing_cookie (some o) = if length o.payload == 8 then no_server_cookie ∷ [] else []

abbrev pub when : Bool → List Issue → List Issue
when b is = if b then is else []

abbrev pub without_badcookie : CookieStatus → Issue
without_badcookie client_cookie_only = no_server_cookie_without_badcookie
without_badcookie _ = invalid_server_cookie_without_badcookie

-- The scenarios of RFC 7873, sections 5.2.2 to 5.2.5, for a server that supports cookies.
unfoldable pub scenario_errors : CookieCase → DnsResponse → Message → List Issue
unfolding issued_formerr issued_badcookie missing_cookie
scenario_errors c r m =
    let from_server = cookie_of m.options in
    let effective = r.effective.server_cookie_status in
    when (is_improper c.server_cookie_status && not (issued_formerr c r m))
      (malformed_cookie_without_formerr ∷ [])
    ++ when (is_unproven c.server_cookie_status) (
        when (is_unproven effective) (missing_cookie from_server)
        ++ when (c.strict_cookies && not (issued_badcookie c r m))
            (without_badcookie c.server_cookie_status ∷ []))
    ++ when (is_fresh effective) (missing_cookie from_server)

-- Section 5.3: the client cookie in the response, and the length of its option.
unfoldable pub echo_errors : Option EdnsOption → Option EdnsOption → List Issue
echo_errors (some sent) (some o) =
    when (leb 8 (length o.payload) && not (bytes_eq (take 8 o.payload) (take 8 sent.payload)))
      (client_cookie_mismatch ∷ [])
    ++ when (ltb (length o.payload) 8 || ltb 40 (length o.payload))
        (cookie_invalid_length (length o.payload) ∷ [])
echo_errors _ _ = []

unfoldable pub cookie_errors : CookieCase → DnsResponse → List Issue
unfolding scenario_errors echo_errors
cookie_errors c r = elim (r.message) [
  | none ↦ []
  | some m ↦
      let sent = cookie_of r.effective.edns_options in
      let from_server = cookie_of m.options in
      (if not (is_some c.query_edns) || not (is_some sent)
        then when (is_some from_server) (gratuitous_cookie ∷ [])
        else when c.supports_cookies (scenario_errors c r m))
      ++ echo_errors sent from_server
]

no_issue : (a : Bool) → (when a [] ++ []) ≡ []
no_issue true = refl
no_issue false = refl

no_issues : (a b c : Bool) → ((when a (when b [] ++ [])) ++ when c []) ≡ []
no_issues a b c = ground arith

missing_cookie-none :
    (o : EdnsOption) → leb 16 (length o.payload) ≡ true → missing_cookie (some o) ≡ []
unfolding missing_cookie
missing_cookie-none o h = ground (arith, h)

echo_errors-none :
    (sent o : EdnsOption)
    → leb 16 (length o.payload) && leb (length o.payload) 40 ≡ true
    → bytes_eq (take 8 o.payload) (take 8 sent.payload) ≡ true
    → echo_errors (some sent) (some o) ≡ []
unfolding echo_errors
echo_errors-none sent o h e = ground (arith, h, e)

scenario_errors-none :
    (c : CookieCase) (r : DnsResponse) (m : Message)
    → is_improper c.server_cookie_status ≡ false
    → missing_cookie (cookie_of m.options) ≡ []
    → (c.strict_cookies && not (issued_badcookie c r m)) ≡ false
    → scenario_errors c r m ≡ []
unfolding scenario_errors
scenario_errors-none c r m h e b =
    rw (scenario_errors, h, e, b)
      (no_issues (is_unproven c.server_cookie_status) (is_unproven r.effective.server_cookie_status)
        (is_fresh r.effective.server_cookie_status))

opened :
    (c : CookieCase) (r : DnsResponse) (m : Message)
    → r.message ≡ some m
    → cookie_errors c r ≡ (
        (if not (is_some c.query_edns) || not (is_some (cookie_of r.effective.edns_options))
          then when (is_some (cookie_of m.options)) (gratuitous_cookie ∷ [])
          else when c.supports_cookies (scenario_errors c r m))
        ++ echo_errors (cookie_of r.effective.edns_options) (cookie_of m.options))
unfolding cookie_errors
opened c r m e = rw (e, cookie_errors) refl

-- There is no false alarm: a response has no warning about cookies if the query used EDNS and a COOKIE
-- option of proper length, the response has such an option with 16 to 40 bytes and the same client
-- cookie, and BADCOOKIE is either not asked for or came.
pub cookie_errors-none :
    (c : CookieCase) (r : DnsResponse) (m : Message) (sent o : EdnsOption)
    → r.message ≡ some m
    → is_some c.query_edns ≡ true
    → is_improper c.server_cookie_status ≡ false
    → cookie_of r.effective.edns_options ≡ some sent
    → cookie_of m.options ≡ some o
    → leb 16 (length o.payload) && leb (length o.payload) 40 ≡ true
    → bytes_eq (take 8 o.payload) (take 8 sent.payload) ≡ true
    → (c.strict_cookies && not (issued_badcookie c r m)) ≡ false
    → cookie_errors c r ≡ []
cookie_errors-none c r m sent o em eq ei es eo el eb ec =
    let none_missing = ap missing_cookie eo ∙ missing_cookie-none o (ground (arith, el)) in
    opened c r m em
    ∙ rw (eq, es, eo, scenario_errors-none c r m ei none_missing ec, echo_errors-none sent o el eb)
        (no_issue c.supports_cookies)
