-- ===== src/Aggregate/Queries.antt =====
-- dnsviz/query.py: DNSQuery, a query with its responses: add_response, copy, join and project. The
-- attribute `query` of a response is the number of the query object that it belongs to. The arguments
-- about bailiwicks are only passed on, and add_response does not use them.
pub mod Clones
pub mod Joined
pub mod Projected
use dnsviz.Base.{
  ℕ, List, [], ◌∷◌, ◌++◌, Option, none, some, Bool, true, false, not, ◌&&◌, ◌||◌, ◌==◌,
  if◌then◌else◌, any, lookup, is_some, bytes_eq,
}
use dnsviz.Dns.Message.{Bytes, DomainName, EdnsOption}
use dnsviz.Response.Classify.{DnsResponse}
use dnsviz.Aggregate.Table.{Address, Table, Entries, get, add, entries, of_server}

pub record Owned : Type 0 where
  pub query : Option ℕ
  pub response : DnsResponse

pub record DnsQuery : Type 0 where
  pub ident : ℕ
  pub qname : DomainName
  pub rdtype : ℕ
  pub rdclass : ℕ
  pub flags : ℕ
  pub edns : Option ℕ
  pub edns_max_udp_payload : Option ℕ
  pub edns_flags : Option ℕ
  pub edns_options : List EdnsOption
  pub tcp : Bool
  pub responses : Table Owned

-- The ValueErrors that are raised.
pub data QueryError : Type 0 where
  parameters_differ not_queried already_associated already_exists : QueryError

pub data Outcome : Type 0 where
  ok : DnsQuery → Outcome
  raised : QueryError → Outcome

abbrev pub same_number : Option ℕ → Option ℕ → Bool
same_number none none = true
same_number (some a) (some b) = a == b
same_number _ _ = false

abbrev pub same_bool : Bool → Bool → Bool
same_bool true b = b
same_bool false b = not b

abbrev pub same_options : List EdnsOption → List EdnsOption → Bool
same_options [] [] = true
same_options (o ∷ os) (p ∷ ps) =
    (o.otype == p.otype && bytes_eq o.payload p.payload) && same_options os ps
same_options _ _ = false

unfoldable pub add_response : Address → Address → Owned → DnsQuery → Outcome
unfolding add
add_response server client o q =
    if is_some o.query && not (same_number o.query (some q.ident))
    then raised already_associated
    else elim (add server client (record o { query = some q.ident }) q.responses) [
      | none ↦ raised already_exists
      | some responses ↦ ok (record q { responses = responses })
    ]

-- The loops of copy, join and project: a copy of each response is set to belong to the clone, and is
-- added to it.
unfoldable pub add_clones : Entries Owned → DnsQuery → Outcome
unfolding add_response
add_clones [] q = ok q
add_clones ((s, (c, o)) ∷ es) q = elim (add_response s c (record o { query = some q.ident }) q) [
  | raised e ↦ raised e
  | ok q' ↦ add_clones es q'
]

-- `DNSQuery(...)` with the same settings, a new object
abbrev pub without_responses : ℕ → DnsQuery → DnsQuery
without_responses fresh q = record q { ident = fresh; responses = [] }

unfoldable pub copy : ℕ → Bool → DnsQuery → Outcome
unfolding add_clones
copy fresh with_responses q =
    if with_responses
    then add_clones (entries q.responses) (without_responses fresh q)
    else ok (without_responses fresh q)

-- `to_text` is that of names.
unfoldable pub same_parameters : (to_text : DomainName → Bytes) → DnsQuery → DnsQuery → Bool
same_parameters to_text a b =
    (bytes_eq (to_text a.qname) (to_text b.qname)
      && (a.rdtype == b.rdtype && (a.rdclass == b.rdclass && a.flags == b.flags)))
    && (same_number a.edns b.edns
        && (same_number a.edns_max_udp_payload b.edns_max_udp_payload
            && (same_number a.edns_flags b.edns_flags
                && (same_options a.edns_options b.edns_options && same_bool a.tcp b.tcp))))

unfoldable pub join : (to_text : DomainName → Bytes) → ℕ → DnsQuery → DnsQuery → Outcome
unfolding same_parameters copy add_clones
join to_text fresh a b =
    if not (same_parameters to_text a b)
    then raised parameters_differ
    else elim (copy fresh true a) [
      | raised e ↦ raised e
      | ok clone ↦ add_clones (entries b.responses) clone
    ]

-- The responses from some servers, which have all been queried.
abbrev pub of_servers : List Address → Table Owned → Entries Owned
of_servers [] t = []
of_servers (s ∷ ss) t =
    (elim (lookup s t) [ none ↦ [] | some cs ↦ of_server s cs ]) ++ of_servers ss t

unfoldable pub project : ℕ → List Address → DnsQuery → Outcome
unfolding copy add_clones
project fresh servers q =
    if any (λ s. not (is_some (lookup s q.responses))) servers
    then raised not_queried
    else elim (copy fresh false q) [
      | raised e ↦ raised e
      | ok clone ↦ add_clones (of_servers servers q.responses) clone
    ]
