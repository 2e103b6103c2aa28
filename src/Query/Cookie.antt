-- ===== src/Query/Cookie.antt =====
-- dnsviz/query.py: AddServerCookieOnBADCOOKIE. The option object is changed in place, so the
-- request's option list holds the new bytes.
pub mod Once
use dnsviz.Base.{
  ℕ, List, [], ◌∷◌, ◌++◌, Option, none, some, Bool, ◌==◌, if◌then◌else◌, take, drop, first,
  bytes_eq,
}
use dnsviz.Dns.Message.{Bytes, EdnsOption, Message}
use dnsviz.Query.Types.{
  rcode, update_dns_cookie, Response, message, Arrival, Context, Outcome, returned,
}
use dnsviz.Query.Handlers.{retry_of, set_request}

-- `o.otype == 10`
abbrev pub is_cookie : EdnsOption → Bool
is_cookie o = o.otype == 10

-- The assignment to the first COOKIE option's bytes.
unfoldable pub set_cookie : Bytes → List EdnsOption → List EdnsOption
set_cookie bytes [] = []
set_cookie bytes (o ∷ os) =
    if is_cookie o then (record o { payload = bytes }) ∷ os else o ∷ set_cookie bytes os

-- What `_add_server_cookie` writes into the client's option; none where it returns False.
unfoldable pub add_server_cookie : List EdnsOption → Message → Option Bytes
add_server_cookie options m = elim (first is_cookie options) [
  | none ↦ none
  | some client ↦ elim (first is_cookie m.options) [
    | none ↦ none
    | some server ↦
        if bytes_eq (drop 8 client.payload) (drop 8 server.payload)
        then none
        else some (take 8 client.payload ++ drop 8 server.payload)
  ]
]

-- The write, and the retry that reports it.
unfoldable pub update_cookie : ℕ → Option Bytes → Arrival → Context → Outcome × Context
update_cookie code none a c = (returned none, c)
update_cookie code (some bytes) a c = (
  retry_of a rcode (some code) update_dns_cookie,
  set_request (record c.request { options = set_cookie bytes c.request.options }) c,
)

-- BADCOOKIE is 23.
unfoldable pub on_badcookie : Response → Arrival → Context → Outcome × Context
on_badcookie (message m) a c =
    if m.rcode == 23
    then update_cookie m.rcode (add_server_cookie c.request.options m) a c
    else (returned none, c)
on_badcookie _ a c = (returned none, c)

unfoldable pub add_server_cookie_on_badcookie : Arrival → Context → Outcome × Context
unfolding on_badcookie
add_server_cookie_on_badcookie a c = on_badcookie a.response a c
