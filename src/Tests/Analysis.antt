-- ===== src/Tests/Analysis.antt =====
-- Tests of the assessment of delegations and responses.
use dnsviz.Base.{
  Bool, ◌↔◌, arith, All, [], ◌∷◌, none, some, true, false, ◌≡◌, refl, any, is_nonempty,
}
use dnsviz.Dns.Message.{EdnsOption, Message}
use dnsviz.Response.History.{client_cookie_only, no_cookie}
use dnsviz.Response.Classify.{DnsResponse}
use dnsviz.Status.Ds.{
  DigestValidator, check_digest, check_digest_type, check_revoked, check_sha1, digest_valid,
  ds_status, ignore_sha1, mark, warn_digest_type,
}
use dnsviz.Analysis.Delegation.{
  Dnskey, DsInfo, Zone, algs_validating_sep, delegation_status, ds_status_of, info_is_secure, note,
  note_infos, note_keys, note_rrsig, note_rrsigs, secure, unanchored,
}
use dnsviz.Analysis.Delegation.Secure.{info_is_secure-is_anchor, is_anchor}
use dnsviz.Query.Types.{rcode, change_edns_version}
use dnsviz.Analysis.Responsiveness.{Hindered, action_error, with_edns_version}
use dnsviz.Analysis.Edns.{edns_errors}
use dnsviz.Analysis.Cookies.{CookieCase, cookie_errors, cookie_errors-none}
use dnsviz.Analysis.Responses.{foreign_class_warnings}
use dnsviz.Status.Issue.{gratuitous_opt, foreign_class_data_additional, server_invalid_response_udp}
use dnsviz.Analysis.Servers.{ServerError, ServerSets, server_errors}
use dnsviz.Analysis.Servers.Faults.{faults, issues_of, server_errors-faults}
use dnsviz.Analysis.Cnames.{CnameTargets, cname_status, detect_cname_loop}
use dnsviz.Analysis.Cnames.Loops.{Loops, detect_cname_loop-Loops}
use dnsviz.Tests.{empty_message}
use dnsviz.Tests.Aggregate.{a_response}

-- Every digest is that of its key.
abbrev always : DigestValidator
always t d m = some true

abbrev a_key : Dnskey
a_key = record {
  ident = 0;
  key = record { flags = 0x101; key_tag = 7; message_for_ds = [] };
  key_tag_no_revoke = 7;
  algorithm = 8;
}

abbrev a_ds : DsInfo
a_ds = record {
  is_own = true;
  records =
      (record { ds = record { key_tag = 7; digest_type = 2; digest = [] }; algorithm = 8 }) ∷ [];
}

-- A zone whose key is signed by itself, as responder 5 shows.
abbrev a_zone : Zone
a_zone = record {
  ds_rrset_answer_info = a_ds ∷ [];
  dnskey_answer_info =
      (record {
        is_own = true;
        keys = a_key ∷ [];
        rrsig_info =
            (record {
              algorithm = 8;
              key_tag = 7;
              responders = 5 ∷ [];
              is_valid_by = (0, true) ∷ [];
            })
            ∷ [];
      })
      ∷ [];
  dnskey_server_client_responses = 5 ∷ [];
  supported_algs = 8 ∷ [];
  supported_digest_algs = 2 ∷ [];
  parent_is_signed = true;
  has_valid_denial = false;
  has_auth_or_designated = true;
  has_responsive = true;
  has_valid_servers = true;
  is_authoritative_analysis = true;
  has_auth_servers_clients = true;
}

info_is_secure-is_anchor_example :
    info_is_secure always a_zone a_ds
    ≡ any (is_anchor always a_zone a_ds) a_zone.dnskey_server_client_responses
info_is_secure-is_anchor_example = info_is_secure-is_anchor always a_zone a_ds refl refl

-- The delegation is secure.
zone_is_secure : delegation_status always a_zone ≡ secure
unfolding delegation_status info_is_secure algs_validating_sep note_infos note_keys note_rrsigs
    note_rrsig note ds_status_of ds_status digest_valid check_digest_type warn_digest_type
    check_revoked check_digest check_sha1 ignore_sha1 mark unanchored
zone_is_secure = refl

-- A message with an OPT record, for a request without.
gratuitous : edns_errors 0 a_response ≡ gratuitous_opt ∷ []
unfolding edns_errors
gratuitous = refl

-- A client cookie, and the same with one of the server.
abbrev client_cookie : EdnsOption
client_cookie = record { otype = 10; payload = 1 ∷ 2 ∷ 3 ∷ 4 ∷ 5 ∷ 6 ∷ 7 ∷ 8 ∷ [] }

abbrev full_cookie : EdnsOption
full_cookie = record {
  otype = 10;
  payload = 1 ∷ 2 ∷ 3 ∷ 4 ∷ 5 ∷ 6 ∷ 7 ∷ 8 ∷ 9 ∷ 9 ∷ 9 ∷ 9 ∷ 9 ∷ 9 ∷ 9 ∷ 9 ∷ [];
}

abbrev cookie_message : Message
cookie_message = record empty_message { options = full_cookie ∷ [] }

abbrev cookie_response : DnsResponse
cookie_response = record a_response {
  message = some cookie_message;
  effective = record a_response.effective {
    edns = some 0;
    edns_options = client_cookie ∷ [];
    server_cookie_status = client_cookie_only;
  };
}

abbrev cookie_case : CookieCase
cookie_case = record {
  query_edns = some 0;
  server_cookie_status = client_cookie_only;
  responsive_cause = none;
  supports_cookies = true;
  strict_cookies = false;
}

cookie_errors-none_example : cookie_errors cookie_case cookie_response ≡ []
cookie_errors-none_example =
    cookie_errors-none cookie_case cookie_response cookie_message client_cookie full_cookie refl
      refl refl refl refl refl refl refl

-- A server that answered BADVERS, and then a query with version 0.
abbrev bad_version : Hindered
bad_version = record {
  retry = record {
    response_time = 20;
    cause = rcode;
    cause_arg = some 16;
    action = change_edns_version (some 0);
  };
  responsive_cause_index = 0;
  responsive_cause_index_tcp = false;
  msg_size = none;
  query_edns = some 1;
  server_cookie_status = no_cookie;
  zone_is_signed = some false;
}

version_is_reported : action_error bad_version ≡ some (with_edns_version (some 1) (some 0))
unfolding action_error
version_is_reported = refl

-- Server 1 answers one client over UDP, but not in a valid way; server 9 is not designated.
abbrev bad_server : ServerSets
bad_server = record {
  is_zone = true;
  has_parent = true;
  designated_servers = 1 ∷ 2 ∷ [];
  queried_udp = (1, 7) ∷ (2, 7) ∷ (9, 7) ∷ [];
  queried_tcp = [];
  responsive_udp = (1, 7) ∷ (2, 7) ∷ [];
  responsive_tcp = [];
  valid_udp = (2, 7) ∷ [];
  valid_tcp = [];
  auth = (2, 7) ∷ [];
  is_authoritative_analysis = true;
}

is_named : server_errors bad_server ≡ (server_invalid_response_udp, (1, 7) ∷ []) ∷ []
unfolding server_errors
is_named = refl

server_errors-faults_example :
    (issues_of (1, 7) (server_errors bad_server) ≡ faults bad_server (1, 7))
    × All (λ (e : ServerError). is_nonempty e.1 ≡ true) (server_errors bad_server)
server_errors-faults_example = server_errors-faults bad_server (1, 7)

-- Name 1 of analysis 1 leads to name 2, and name 2 back to name 1.
abbrev in_a_circle : CnameTargets
in_a_circle = ((1, 1), (3, none) ∷ (2, some 2) ∷ []) ∷ ((2, 2), (1, some 1) ∷ []) ∷ []

is_raised : detect_cname_loop 4 in_a_circle 1 1 [] ≡ some true
unfolding detect_cname_loop
is_raised = refl

is_not_raised : detect_cname_loop 4 in_a_circle 2 3 [] ≡ some false
unfolding detect_cname_loop
is_not_raised = refl

detect_cname_loop-Loops_example :
    (raised : Bool) × (detect_cname_loop 4 in_a_circle 1 1 [] ≡ some raised)
    × ((raised ≡ true) ↔ Loops in_a_circle 1 1 [])
detect_cname_loop-Loops_example = detect_cname_loop-Loops in_a_circle 4 1 1 (ground arith)

circle_status :
    cname_status 4 in_a_circle 1 ((1, 5) ∷ (1, 16) ∷ []) 1 5
    ≡ some (record { with_other_data = true; in_loop = true })
unfolding cname_status detect_cname_loop
circle_status = refl

class_is_reported :
    foreign_class_warnings 1 (
      some (record empty_message {
        additional =
            (record { name = []; rdtype = 24; rdclass = 255; ttl = 0; rdatas = [] })
            ∷ (record { name = []; rdtype = 1; rdclass = 3; ttl = 0; rdatas = [] })
            ∷ [];
      }))
    ≡ foreign_class_data_additional 3 ∷ []
unfolding foreign_class_warnings
class_is_reported = refl
