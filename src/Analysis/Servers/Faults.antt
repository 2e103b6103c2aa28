-- ===== src/Analysis/Servers/Faults.antt =====
-- What each error of a zone about its servers, of OfflineDomainNameAnalysis._populate_server_status of
-- dnsviz/analysis/offline.py, says of a server and a client.
use dnsviz.Base.{
  All, ℕ, List, [], ◌∷◌, ◌++◌, Bool, true, false, not, ◌&&◌, ◌||◌, ◌==◌, ◌≡◌, inl, inr, refl, ◌∙◌,
  sym, ap, if◌then◌else◌, elem, select, map, is_nonempty, arith, Bool-cases,
}
use dnsviz.Status.Issue.{
  Issue, server_invalid_response_tcp, server_invalid_response_udp, server_not_authoritative,
  server_unresponsive_tcp, server_unresponsive_udp,
}
use dnsviz.Analysis.Servers.{
  Pair, ServerError, ServerSets, difference, has_pair, intersection, report, server_errors, union,
}

same_pair : (p q : Pair) → (p.0 == q.0 && p.1 == q.1) ≡ true → p ≡ q
same_pair (a, b) (c, d) h =
    let l : a ≡ c = ground (arith, h) in let r : b ≡ d = ground (arith, h) in rw (l, r) refl

has_pair-append :
    (p : Pair) (xs ys : List Pair) → has_pair p (xs ++ ys) ≡ (has_pair p xs || has_pair p ys)
has_pair-append p [] ys = refl
has_pair-append p (x ∷ xs) ys = ground (arith, has_pair-append p xs ys)

has_pair-select :
    (p : Pair) (q : Pair → Bool) (xs : List Pair)
    → has_pair p (select q xs) ≡ (has_pair p xs && q p)
has_pair-select p q [] = refl
has_pair-select p q (x ∷ xs) = elim (Bool-cases (p.0 == x.0 && p.1 == x.1)) [
  | inl h ↦
      let e : q x ≡ q p = ap q (sym (same_pair p x h)) in
      ground (arith, e, h, has_pair-select p q xs)
  | inr h ↦ ground (arith, h, has_pair-select p q xs)
]

has_pair-union :
    (p : Pair) (xs ys : List Pair) → has_pair p (union xs ys) ≡ (has_pair p xs || has_pair p ys)
has_pair-union p xs ys =
    has_pair-append p xs (select (λ y. not (has_pair y xs)) ys)
    ∙ ground (arith, has_pair-select p (λ y. not (has_pair y xs)) ys)

-- The errors that name the pair.
abbrev pub issues_of : Pair → List ServerError → List Issue
issues_of p es = map (λ (e : ServerError). e.0) (select (λ (e : ServerError). has_pair p e.1) es)

abbrev pub when : Bool → Issue → List Issue
when b i = if b then i ∷ [] else []

-- What a designated server's answers to a client, and those that it owes it, amount to.
abbrev pub faults : ServerSets → Pair → List Issue
faults s p =
    let udp = elem p.0 s.designated_servers && has_pair p s.queried_udp in
    let tcp = elem p.0 s.designated_servers && has_pair p s.queried_tcp in
    let answers_udp = (udp || tcp) && has_pair p s.responsive_udp in
    let answers_tcp = (udp || tcp) && has_pair p s.responsive_tcp in
    let valid = (udp || tcp) && (has_pair p s.valid_udp || has_pair p s.valid_tcp) in
    when (udp && not (has_pair p s.responsive_udp)) server_unresponsive_udp
    ++ when (tcp && not (has_pair p s.responsive_tcp)) server_unresponsive_tcp
    ++ when (answers_udp && not (has_pair p s.valid_udp)) server_invalid_response_udp
    ++ when (answers_tcp && not (has_pair p s.valid_tcp)) server_invalid_response_tcp
    ++ when (s.is_authoritative_analysis && valid && not (has_pair p s.auth))
        server_not_authoritative

issues_of-report :
    (p : Pair) (xs : List Pair) (i : Issue) (b : Bool)
    → has_pair p xs ≡ b
    → issues_of p (report xs i) ≡ when b i
issues_of-report p [] i b h = ground (arith, h)
issues_of-report p (x ∷ xs) i true h = rw h refl
issues_of-report p (x ∷ xs) i false h = rw h refl

issues_of-append :
    (p : Pair) (ds es : List ServerError)
    → issues_of p (ds ++ es) ≡ issues_of p ds ++ issues_of p es
issues_of-append p [] es = refl
issues_of-append p (d ∷ ds) es = elim (Bool-cases (has_pair p d.1)) [
  | inl q ↦ rw (q, issues_of-append p ds es) refl
  | inr q ↦ rw q (issues_of-append p ds es)
]

has_pair-difference :
    (p : Pair) (xs ys : List Pair)
    → has_pair p (difference xs ys) ≡ (has_pair p xs && not (has_pair p ys))
has_pair-difference p xs ys = has_pair-select p (λ x. not (has_pair x ys)) xs

has_pair-intersection :
    (p : Pair) (xs ys : List Pair)
    → has_pair p (intersection xs ys) ≡ (has_pair p xs && has_pair p ys)
has_pair-intersection p xs ys = has_pair-select p (λ x. has_pair x ys) xs

IsFaithful : Pair → List ServerError → List Issue → Type 0
IsFaithful p es is = (issues_of p es ≡ is) × All (λ (e : ServerError). is_nonempty e.1 ≡ true) es

report-IsFaithful :
    (p : Pair) (xs : List Pair) (i : Issue) (b : Bool)
    → has_pair p xs ≡ b
    → IsFaithful p (report xs i) (when b i)
unfolding IsFaithful
report-IsFaithful p [] i b h = (issues_of-report p [] i b h, tt)
report-IsFaithful p (x ∷ xs) i b h = (issues_of-report p (x ∷ xs) i b h, (refl, tt))

All-append :
    (ds es : List ServerError)
    → All (λ (e : ServerError). is_nonempty e.1 ≡ true) ds
    → All (λ (e : ServerError). is_nonempty e.1 ≡ true) es
    → All (λ (e : ServerError). is_nonempty e.1 ≡ true) (ds ++ es)
All-append [] es h k = k
All-append (d ∷ ds) es h k = (h.0, All-append ds es h.1 k)

IsFaithful-append :
    (p : Pair) (ds es : List ServerError) (is js : List Issue)
    → IsFaithful p ds is
    → IsFaithful p es js
    → IsFaithful p (ds ++ es) (is ++ js)
unfolding IsFaithful
IsFaithful-append p ds es is js h k =
    (issues_of-append p ds es ∙ rw (h.0, k.0) refl, All-append ds es h.1 k.1)

module _ (s : ServerSets) (p : Pair) (udp tcp : List Pair) (u t : Bool)
    (in_udp : has_pair p udp ≡ u) (in_tcp : has_pair p tcp ≡ t) where
  queried_lem :
      (xs ys : List Pair)
      → has_pair p (difference (intersection (union udp tcp) xs) ys)
        ≡ (((u || t) && has_pair p xs) && not (has_pair p ys))
  queried_lem xs ys =
      has_pair-difference p (intersection (union udp tcp) xs) ys
      ∙ rw (has_pair-intersection p (union udp tcp) xs, has_pair-union p udp tcp, in_udp, in_tcp)
          refl

  last-IsFaithful :
      (b : Bool)
      → IsFaithful p
          (if b
            then report
                (difference (intersection (union udp tcp) (union s.valid_udp s.valid_tcp)) s.auth)
                server_not_authoritative
            else [])
          (when
            (b
              && ((u || t) && (has_pair p s.valid_udp || has_pair p s.valid_tcp))
              && not (has_pair p s.auth))
            server_not_authoritative)
  unfolding IsFaithful
  last-IsFaithful true = report-IsFaithful p _ _ _ (
      queried_lem (union s.valid_udp s.valid_tcp) s.auth
      ∙ rw (has_pair-union p s.valid_udp s.valid_tcp) refl)
  last-IsFaithful false = (refl, tt)

  errors-IsFaithful :
      IsFaithful p
        (report (difference udp s.responsive_udp) server_unresponsive_udp
          ++ report (difference tcp s.responsive_tcp) server_unresponsive_tcp
          ++ report
              (difference (intersection (union udp tcp) s.responsive_udp) s.valid_udp)
              server_invalid_response_udp
          ++ report
              (difference (intersection (union udp tcp) s.responsive_tcp) s.valid_tcp)
              server_invalid_response_tcp
          ++ (if s.is_authoritative_analysis
              then report
                  (difference (intersection (union udp tcp) (union s.valid_udp s.valid_tcp)) s.auth)
                  server_not_authoritative
              else []))
        (when (u && not (has_pair p s.responsive_udp)) server_unresponsive_udp
          ++ when (t && not (has_pair p s.responsive_tcp)) server_unresponsive_tcp
          ++ when
              (((u || t) && has_pair p s.responsive_udp) && not (has_pair p s.valid_udp))
              server_invalid_response_udp
          ++ when
              (((u || t) && has_pair p s.responsive_tcp) && not (has_pair p s.valid_tcp))
              server_invalid_response_tcp
          ++ when
              (s.is_authoritative_analysis
                && ((u || t) && (has_pair p s.valid_udp || has_pair p s.valid_tcp))
                && not (has_pair p s.auth))
              server_not_authoritative)
  errors-IsFaithful =
      IsFaithful-append p _ _ _ _
        (IsFaithful-append p _ _ _ _
          (IsFaithful-append p _ _ _ _
            (IsFaithful-append p _ _ _ _
              (report-IsFaithful p _ server_unresponsive_udp _
                (has_pair-difference p udp s.responsive_udp ∙ rw in_udp refl))
              (report-IsFaithful p _ server_unresponsive_tcp _
                (has_pair-difference p tcp s.responsive_tcp ∙ rw in_tcp refl)))
            (report-IsFaithful p _ server_invalid_response_udp _
              (queried_lem s.responsive_udp s.valid_udp)))
          (report-IsFaithful p _ server_invalid_response_tcp _
            (queried_lem s.responsive_tcp s.valid_tcp)))
        (last-IsFaithful s.is_authoritative_analysis)

in_designated :
    (p : Pair) (ds : List ℕ) (xs : List Pair)
    → has_pair p (select (λ (q : Pair). elem q.0 ds) xs) ≡ (elem p.0 ds && has_pair p xs)
in_designated p ds xs = has_pair-select p (λ q. elem q.0 ds) xs ∙ ground arith

-- An error of a zone with a parent names a server and a client exactly when the server is designated,
-- was queried, and owes the client what the error says: any response, a valid one, or, in an
-- authoritative analysis, an authoritative one among the valid. The errors of the pair are in the order
-- of the source, there is none for another name, and none names no pair.
pub server_errors-faults :
    (s : ServerSets) (p : Pair)
    → (issues_of p (server_errors s) ≡ (if s.is_zone && s.has_parent then faults s p else []))
      × All (λ (e : ServerError). is_nonempty e.1 ≡ true) (server_errors s)
unfolding server_errors IsFaithful
server_errors-faults s p = elim (Bool-cases s.is_zone) [
  | inr q ↦ rw q (refl, tt)
  | inl q ↦ elim (Bool-cases s.has_parent) [
    | inr r ↦ rw (q, r) (refl, tt)
    | inl r ↦
        rw (q, r)
          (errors-IsFaithful s p _ _ _ _ (in_designated p s.designated_servers s.queried_udp)
            (in_designated p s.designated_servers s.queried_tcp))
  ]
]
