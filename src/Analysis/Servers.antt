-- ===== src/Analysis/Servers.antt =====
-- dnsviz/analysis/offline.py: OfflineDomainNameAnalysis._populate_server_status, the errors of a zone
-- about its servers.
pub mod Faults
use dnsviz.Base.{
  ℕ, List, [], ◌∷◌, ◌++◌, Bool, not, ◌&&◌, ◌==◌, if◌then◌else◌, any, elem, select, is_nonempty,
}
use dnsviz.Status.Issue.{
  Issue, server_invalid_response_tcp, server_invalid_response_udp, server_not_authoritative,
  server_unresponsive_tcp, server_unresponsive_udp,
}

-- A pair of server and client, by their numbers.
abbrev pub Pair : Type 0
Pair = ℕ × ℕ

abbrev pub has_pair : Pair → List Pair → Bool
has_pair p = any (λ q. p.0 == q.0 && p.1 == q.1)

-- The sets that the analysis collected, and the tests of the name and of the type of the analysis.
pub record ServerSets : Type 0 where
  pub is_zone : Bool
  pub has_parent : Bool
  pub designated_servers : List ℕ
  pub queried_udp : List Pair
  pub queried_tcp : List Pair
  pub responsive_udp : List Pair
  pub responsive_tcp : List Pair
  pub valid_udp : List Pair
  pub valid_tcp : List Pair
  pub auth : List Pair
  pub is_authoritative_analysis : Bool

abbrev pub union : List Pair → List Pair → List Pair
union xs ys = xs ++ select (λ y. not (has_pair y xs)) ys

abbrev pub difference : List Pair → List Pair → List Pair
difference xs ys = select (λ x. not (has_pair x ys)) xs

abbrev pub intersection : List Pair → List Pair → List Pair
intersection xs ys = select (λ x. has_pair x ys) xs

-- An error, with the servers and clients that were added to it.
abbrev pub ServerError : Type 0
ServerError = Issue × List Pair

abbrev pub report : List Pair → Issue → List ServerError
report xs i = if is_nonempty xs then (i, xs) ∷ [] else []

-- The errors that are appended to those of the zone.
unfoldable pub server_errors : ServerSets → List ServerError
server_errors s =
    let designated = select (λ (p : Pair). elem p.0 s.designated_servers) in
    let udp = designated s.queried_udp in
    let tcp = designated s.queried_tcp in
    let queried = union udp tcp in
    if not s.is_zone
    then []
    else if not s.has_parent
    then []
    else report (difference udp s.responsive_udp) server_unresponsive_udp
      ++ report (difference tcp s.responsive_tcp) server_unresponsive_tcp
      ++ report (difference (intersection queried s.responsive_udp) s.valid_udp)
          server_invalid_response_udp
      ++ report (difference (intersection queried s.responsive_tcp) s.valid_tcp)
          server_invalid_response_tcp
      ++ (if s.is_authoritative_analysis
          then report (difference (intersection queried (union s.valid_udp s.valid_tcp)) s.auth)
              server_not_authoritative
          else [])
