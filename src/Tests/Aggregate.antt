-- ===== src/Tests/Aggregate.antt =====
-- Tests of queries that are put together, and of the text that an RRSIG signs.
use dnsviz.Base.{ℕ, List, [], ◌∷◌, none, some, false, not, ◌&&◌, ◌||◌, ◌≡◌, refl, arith, inl, inr}
use mathlib.Core.List.{Permᴰ}
use dnsviz.Dns.Message.{Bytes, DomainName}
use dnsviz.Response.History.{no_cookie}
use dnsviz.Response.Classify.{DnsResponse, is_authoritative}
use dnsviz.Aggregate.Table.{Address, add, entries}
use dnsviz.Aggregate.Queries.{
  DnsQuery, add_clones, add_response, copy, join, ok, project, same_parameters,
}
use dnsviz.Aggregate.Queries.Clones.{IsWell}
use dnsviz.Aggregate.Queries.Joined.{IsJoined, join-IsJoined}
use dnsviz.Aggregate.Queries.Projected.{IsProjected, project-IsProjected}
use dnsviz.Aggregate.Predicates.{all_loop, any_loop, is_valid_complete_response_any}
use dnsviz.Aggregate.Predicates.Unions.{join-all_loop}
use dnsviz.Aggregate.Multi.{
  MultiQuery, add_query, added, pack_options, params_of, project_all, refused, type_error,
}
use dnsviz.Aggregate.Multi.Merged.{Merges, add_query-Merges}
use dnsviz.Aggregate.Rrsets.{Rrsig, SignedSet, message_for_rrsig}
use dnsviz.Aggregate.Rrsets.Canonical.{message_for_rrsig-expanded}
use dnsviz.Tests.{by_length, empty_message}

-- A response with an empty message.
abbrev pub a_response : DnsResponse
a_response = record {
  message = some empty_message;
  history = [];
  response_time = 20;
  effective = record {
    flags = 0x100;
    edns = none;
    edns_max_udp_payload = none;
    edns_flags = 0;
    edns_options = [];
    tcp = false;
    server_cookie_status = no_cookie;
  };
}

-- A query of the server, from client 7.
abbrev asked : ℕ → Address → DnsQuery
asked ident server = record {
  ident = ident;
  qname = (122 ∷ []) ∷ [] ∷ [];
  rdtype = 1;
  rdclass = 1;
  flags = 0x100;
  edns = none;
  edns_max_udp_payload = some 0;
  edns_flags = some 0;
  edns_options = [];
  tcp = false;
  responses = (server, (7, record { query = some ident; response = a_response }) ∷ []) ∷ [];
}

asked-IsWell : (ident server : ℕ) → IsWell (asked ident server)
asked-IsWell ident server = record { keyed = refl; owning = λ s c o g. ground (arith, g) }

-- A text of names for the tests: their first label.
abbrev first_label : DomainName → Bytes
first_label [] = []
first_label (l ∷ ls) = l

join-IsJoined_example :
    IsJoined
      (same_parameters first_label (asked 0 1) (asked 1 2))
      (asked 0 1)
      (asked 1 2)
      (join first_label 2 (asked 0 1) (asked 1 2))
join-IsJoined_example =
    join-IsJoined first_label 2 (asked 0 1) (asked 1 2) (asked-IsWell 0 1) (asked-IsWell 1 2)

project-IsProjected_example : IsProjected (1 ∷ []) (asked 0 1) (project 1 (1 ∷ []) (asked 0 1))
project-IsProjected_example = project-IsProjected 1 (1 ∷ []) (asked 0 1) (asked-IsWell 0 1) refl

-- The responses of two servers.
abbrev both : DnsQuery
both = record (asked 2 1) {
  responses =
      (1, (7, record { query = some 2; response = a_response }) ∷ [])
      ∷ (2, (7, record { query = some 2; response = a_response }) ∷ [])
      ∷ [];
}

joined_both : join first_label 2 (asked 0 1) (asked 1 2) ≡ ok both
unfolding join same_parameters copy add_clones add_response add
joined_both = refl

join-all_loop_example :
    (any_loop is_authoritative (entries both.responses) ≡ (
      any_loop is_authoritative (entries (asked 0 1).responses)
      || any_loop is_authoritative (entries (asked 1 2).responses)))
    × (all_loop is_authoritative none (entries both.responses) ≡ (
        (is_valid_complete_response_any (asked 0 1) || is_valid_complete_response_any (asked 1 2))
        && ((all_loop is_authoritative none (entries (asked 0 1).responses)
              || not (is_valid_complete_response_any (asked 0 1)))
            && (all_loop is_authoritative none (entries (asked 1 2).responses)
                || not (is_valid_complete_response_any (asked 1 2))))))
join-all_loop_example =
    join-all_loop is_authoritative first_label 2 (asked 0 1) (asked 1 2) both (asked-IsWell 0 1)
      (asked-IsWell 1 2) joined_both

abbrev no_queries : MultiQuery
no_queries = record { qname = (122 ∷ []) ∷ [] ∷ []; rdtype = 1; rdclass = 1; queries = [] }

abbrev one_query : MultiQuery
one_query = record no_queries { queries = (params_of first_label (asked 0 1), asked 0 1) ∷ [] }

abbrev merged : MultiQuery
merged = record no_queries { queries = (params_of first_label (asked 0 1), both) ∷ [] }

is_added : add_query by_length first_label 2 (asked 1 2) one_query ≡ added merged
unfolding add_query params_of pack_options join same_parameters copy add_clones add_response add
is_added = refl

add_query-Merges_example : Merges first_label one_query merged (asked 1 2)
add_query-Merges_example =
    add_query-Merges first_label by_length 2 (asked 1 2) one_query merged
      ((asked-IsWell 0 1, refl), tt) (asked-IsWell 1 2) is_added

-- A projection of queries with a query in it raises a TypeError.
projects_nothing : project_all 3 (1 ∷ []) one_query ≡ refused type_error
unfolding project_all project copy add_clones add_response add
projects_nothing = refl

abbrev zone : DomainName
zone = (122 ∷ []) ∷ [] ∷ []

abbrev a_signature : Rrsig
a_signature = record {
  type_covered = 1;
  algorithm = 8;
  labels = 1;
  original_ttl = 300;
  expiration = 2000;
  inception = 1000;
  key_tag = 5;
  signer = zone;
}

abbrev addresses : DomainName → List Bytes → SignedSet
addresses name records = record {
  name = name;
  rdtype = 1;
  rdclass = 1;
  ttl = 300;
  records = records;
}

message_for_rrsig-expanded_example :
    message_for_rrsig first_label
      (addresses ((97 ∷ []) ∷ zone) ((1 ∷ []) ∷ (2 ∷ []) ∷ []))
      a_signature
    ≡ message_for_rrsig first_label
        (addresses ((42 ∷ []) ∷ zone) ((2 ∷ []) ∷ (1 ∷ []) ∷ []))
        a_signature
message_for_rrsig-expanded_example =
    message_for_rrsig-expanded first_label zone
      (addresses ((97 ∷ []) ∷ zone) ((1 ∷ []) ∷ (2 ∷ []) ∷ []))
      (addresses ((42 ∷ []) ∷ zone) ((2 ∷ []) ∷ (1 ∷ []) ∷ [])) a_signature refl
      (inr (97 ∷ [], [], refl, refl)) (inl refl) refl refl (Permᴰ.swap refl refl)
