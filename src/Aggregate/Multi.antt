-- ===== src/Aggregate/Multi.antt =====
-- dnsviz/query.py: MultiQuery, the queries for a name and type by their parameters.
pub mod Merged
use dnsviz.Base.{
  ℕ, ◌/◌, ◌%◌, List, [], ◌∷◌, ◌++◌, Option, none, some, Bool, true, false, not, ◌&&◌, ◌==◌,
  if◌then◌else◌, all, any, bytes_eq, is_some,
}
use dnsviz.Dns.Message.{Bytes, DomainName, EdnsOption}
use dnsviz.Dns.Names.{NameApi, same_name}
use dnsviz.Aggregate.Table.{Address}
use dnsviz.Aggregate.Queries.{
  DnsQuery, QueryError, join, ok, project, raised, same_bool, same_number,
}
use dnsviz.Aggregate.Predicates.{is_nxdomain_all, is_valid_complete_authoritative_response_any}

-- The tuple `params`, the key of the dictionary.
pub record QueryParams : Type 0 where
  pub qname_text : Bytes
  pub flags : ℕ
  pub edns : Option ℕ
  pub edns_max_udp_payload : Option ℕ
  pub edns_flags : Option ℕ
  pub edns_options_str : Bytes
  pub tcp : Bool

-- `struct.pack(b'!H', o.otype) + s.getvalue()` for each option
unfoldable pub pack_options : List EdnsOption → Bytes
pack_options [] = []
pack_options (o ∷ os) = (o.otype / 256 ∷ o.otype % 256 ∷ o.payload) ++ pack_options os

unfoldable pub params_of : (to_text : DomainName → Bytes) → DnsQuery → QueryParams
unfolding pack_options
params_of to_text q = record {
  qname_text = to_text q.qname;
  flags = q.flags;
  edns = q.edns;
  edns_max_udp_payload = q.edns_max_udp_payload;
  edns_flags = q.edns_flags;
  edns_options_str = pack_options q.edns_options;
  tcp = q.tcp;
}

abbrev pub same_params : QueryParams → QueryParams → Bool
same_params p q =
    (bytes_eq p.qname_text q.qname_text && (p.flags == q.flags && same_number p.edns q.edns))
    && ((same_number p.edns_max_udp_payload q.edns_max_udp_payload
          && same_number p.edns_flags q.edns_flags)
        && (bytes_eq p.edns_options_str q.edns_options_str && same_bool p.tcp q.tcp))

pub record MultiQuery : Type 0 where
  pub qname : DomainName
  pub rdtype : ℕ
  pub rdclass : ℕ
  pub queries : List (QueryParams × DnsQuery)

-- A ValueError, of the query added or of a joining; or a TypeError.
pub data MultiError : Type 0 where
  other_query type_error : MultiError
  of_query : QueryError → MultiError

pub data MultiOutcome : Type 0 where
  added : MultiQuery → MultiOutcome
  refused : MultiError → MultiOutcome

abbrev pub find_query : QueryParams → List (QueryParams × DnsQuery) → Option DnsQuery
find_query k [] = none
find_query k ((j, q) ∷ qs) = if same_params k j then some q else find_query k qs

-- `self.queries[params] = query`
abbrev pub set_query :
    QueryParams → DnsQuery → List (QueryParams × DnsQuery) → List (QueryParams × DnsQuery)
set_query k q [] = (k, q) ∷ []
set_query k q ((j, r) ∷ qs) = if same_params k j then (j, q) ∷ qs else (j, r) ∷ set_query k q qs

unfoldable pub add_query :
    NameApi → (to_text : DomainName → Bytes) → ℕ → DnsQuery → MultiQuery → MultiOutcome
unfolding params_of join
add_query names to_text fresh q m =
    let k = params_of to_text q in
    if not (same_name names m.qname q.qname && (m.rdtype == q.rdtype && m.rdclass == q.rdclass))
    then refused other_query
    else elim (find_query k m.queries) [
      | none ↦ added (record m { queries = set_query k q m.queries })
      | some old ↦ elim (join to_text fresh old q) [
        | raised e ↦ refused (of_query e)
        | ok joined ↦ added (record m { queries = set_query k joined m.queries })
      ]
    ]

-- The call of `add_query` lacks two arguments, so that the first query raises a TypeError.
unfoldable pub project_all : ℕ → List Address → MultiQuery → MultiOutcome
unfolding project
project_all fresh servers m = elim (m.queries) [
  | [] ↦ added (record m { queries = [] })
  | entry ∷ qs ↦ elim (project fresh servers entry.1) [
    | raised e ↦ refused (of_query e)
    | ok part ↦ refused type_error
  ]
]

unfoldable pub is_nxdomain_every : NameApi → MultiQuery → Bool
unfolding is_nxdomain_all
is_nxdomain_every names m =
    all (λ (e : QueryParams × DnsQuery). is_nxdomain_all names e.1) m.queries

unfoldable pub is_valid_complete_authoritative_response_some : MultiQuery → Bool
unfolding is_valid_complete_authoritative_response_any
is_valid_complete_authoritative_response_some m =
    any (λ (e : QueryParams × DnsQuery). is_valid_complete_authoritative_response_any e.1) m.queries
