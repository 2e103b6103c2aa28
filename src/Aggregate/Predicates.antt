-- ===== src/Aggregate/Predicates.antt =====
-- dnsviz/query.py: the predicates of DNSQuery on all its responses.
pub mod Unions
use dnsviz.Base.{
  ℕ, List, [], ◌∷◌, Option, none, some, Bool, true, false, not, ◌&&◌, ◌||◌, if◌then◌else◌, is_some,
}
use dnsviz.Dns.Message.{DomainName}
use dnsviz.Dns.Names.{NameApi}
use dnsviz.Response.Classify.{
  DnsResponse, FindRrset, is_answer, is_authoritative, is_complete_response, is_delegation,
  is_nxdomain, is_referral, is_valid_response, usable,
}
use dnsviz.Aggregate.Table.{Address, Entries, entries, get}
use dnsviz.Aggregate.Queries.{DnsQuery, Owned}

abbrev pub is_usable : DnsResponse → Bool
is_usable r = is_valid_response r && is_complete_response r

-- The loop of the `_all` predicates, with their `val`; false at the first usable response that does
-- not have the property.
unfoldable pub all_loop : (DnsResponse → Bool) → Option Bool → Entries Owned → Bool
unfolding is_valid_response is_complete_response
all_loop p val [] = elim val [ none ↦ false | some b ↦ b ]
all_loop p val ((s, (c, o)) ∷ es) =
    let skipped = all_loop p val es in
    let counted = all_loop p (some true) es in
    if not (is_usable o.response) then skipped else if p o.response then counted else false

-- The loop of the `_any` predicates.
unfoldable pub any_loop : (DnsResponse → Bool) → Entries Owned → Bool
unfolding is_valid_response is_complete_response
any_loop p [] = false
any_loop p ((s, (c, o)) ∷ es) =
    let rest = any_loop p es in
    if not (is_usable o.response) then rest else if p o.response then true else rest

-- `not_delegation`; a usable response has a message.
abbrev pub not_delegation : FindRrset → DomainName → DnsResponse → Bool
not_delegation find qname r = elim (r.message) [
  | none ↦ false
  | some m ↦ not (is_delegation find qname m)
]

-- The servers and clients whose response satisfies the test.
unfoldable pub pairs_with :
    (Address → DnsResponse → Bool) → Entries Owned → List (Address × Address)
pairs_with p [] = []
pairs_with p ((s, (c, o)) ∷ es) =
    let rest = pairs_with p es in if p s o.response then (s, c) ∷ rest else rest

unfoldable pub is_valid_complete_response_any : DnsQuery → Bool
unfolding any_loop
is_valid_complete_response_any q = any_loop (λ r. true) (entries q.responses)

unfoldable pub is_valid_complete_authoritative_response_any : DnsQuery → Bool
unfolding any_loop is_authoritative
is_valid_complete_authoritative_response_any q = any_loop is_authoritative (entries q.responses)

unfoldable pub is_not_delegation_all : FindRrset → DnsQuery → Bool
unfolding all_loop is_delegation
is_not_delegation_all find q = all_loop (not_delegation find q.qname) none (entries q.responses)

module _ (names : NameApi) where
  -- `include_cname` is true unless it is given.
  unfoldable pub is_authoritative_answer_all : DnsQuery → Bool
  unfolding all_loop is_authoritative is_answer
  is_authoritative_answer_all q =
      all_loop (λ r. is_authoritative r && is_answer names q.qname q.rdtype true r) none
        (entries q.responses)

  unfoldable pub is_answer_any : DnsQuery → Bool
  unfolding any_loop is_answer
  is_answer_any q = any_loop (is_answer names q.qname q.rdtype true) (entries q.responses)

  unfoldable pub is_nxdomain_all : DnsQuery → Bool
  unfolding all_loop is_nxdomain
  is_nxdomain_all q = all_loop (is_nxdomain names q.qname q.rdtype) none (entries q.responses)

  unfoldable pub is_nxdomain_any : DnsQuery → Bool
  unfolding any_loop is_nxdomain
  is_nxdomain_any q = any_loop (is_nxdomain names q.qname q.rdtype) (entries q.responses)

  -- `bailiwick_map.get(server, default_bailiwick)` is a function of the server here.
  unfoldable pub servers_with_valid_complete_response :
      FindRrset → (bailiwick : Address → Option DomainName) → DnsQuery → List (Address × Address)
  unfolding pairs_with is_valid_response is_complete_response is_referral
  servers_with_valid_complete_response find bailiwick q =
      pairs_with
        (λ s r.
          is_usable r
          && not (is_referral names find q.qname q.rdtype q.rdclass (bailiwick s) false r))
        (entries q.responses)
