-- ===== src/Response/Classify/Exclusive.antt =====
-- How the classifications of a response (dnsviz/response.py) exclude and imply one another.
use dnsviz.Base.{
  All, ℕ, List, [], ◌∷◌, Option, some, Bool, true, false, ◌&&◌, ◌==◌, ◌≡◌, ◌≢◌, inl, inr, refl,
  arith, elem, any, Option-cases,
}
use dnsviz.Dns.Message.{DomainName, RRset, Message}
use dnsviz.Dns.Names.{NameApi, IsNameApi, same_name}
use dnsviz.Response.Classify.{
  DnsResponse, FindRrset, usable, is_answer, is_nxdomain, is_referral, is_referral_in, has_types,
  refers, refers_properly,
}

module _ (names : NameApi) (qname : DomainName) (rdtype : ℕ) where
  fewer_types :
      (xs : List RRset)
      → has_types names qname (rdtype ∷ 5 ∷ []) xs ≡ false
      → has_types names qname (rdtype ∷ []) xs ≡ false
  fewer_types [] h = refl
  fewer_types (x ∷ xs) h = ground (arith, fewer_types xs)

  -- With all RRsets of the class, the answer section is empty of the name and its types.
  of_class :
      (rdclass : ℕ) (xs : List RRset)
      → All (λ x. x.rdclass ≡ rdclass) xs
      → any
          (λ x.
            same_name names x.name qname
            && (elem x.rdtype (rdtype ∷ 5 ∷ []) && x.rdclass == rdclass))
          xs
        ≡ false
      → has_types names qname (rdtype ∷ 5 ∷ []) xs ≡ false
  of_class rdclass [] k h = refl
  of_class rdclass (x ∷ xs) k h = ground (arith, of_class rdclass xs k.1)

  -- An NS RRset of the name itself is one of an ancestor-or-self, other than the bailiwick.
  improper :
      (laws : IsNameApi names) (rdclass : ℕ) (bailiwick : DomainName) (xs : List RRset)
      → same_name names qname bailiwick ≡ false
      → any (refers_properly names qname rdclass) xs ≡ true
      → any (refers names qname rdclass bailiwick) xs ≡ true
  improper laws rdclass bailiwick [] n h = cc
  improper laws rdclass bailiwick (x ∷ xs) n h = ground (
    arith,
    improper laws rdclass bailiwick xs n,
    laws.subdomain_refl qname x.name,
    laws.swapped bailiwick qname,
    laws.swapped bailiwick x.name,
    laws.swapped x.name bailiwick,
    laws.trans_same qname x.name bailiwick,
  )

-- Except for queries of type ANY, no response is both an answer and a denial of the name.
pub is_nxdomain-is_answer :
    (names : NameApi) (qname : DomainName) (rdtype : ℕ) (include_cname : Bool) (r : DnsResponse)
    → rdtype ≢ 255
    → is_nxdomain names qname rdtype r ≡ true
    → is_answer names qname rdtype include_cname r ≡ false
unfolding is_answer is_nxdomain
is_nxdomain-is_answer names qname rdtype include_cname r not_any h =
    elim (Option-cases (usable r)) [
      | inl q ↦ ground arith
      | inr (m, q) ↦ ground (arith, fewer_types names qname rdtype m.answer)
    ]

-- A referral of a response whose answers are of the class asked for is no answer, but for ANY.
pub is_referral-is_answer :
    (names : NameApi) (find : FindRrset) (qname : DomainName) (rdtype rdclass : ℕ)
    (bailiwick : Option DomainName) (proper include_cname : Bool) (r : DnsResponse)
    → rdtype ≢ 255
    → ((m : Message) → r.message ≡ some m → All (λ x. x.rdclass ≡ rdclass) m.answer)
    → is_referral names find qname rdtype rdclass bailiwick proper r ≡ true
    → is_answer names qname rdtype include_cname r ≡ false
unfolding is_answer is_referral is_referral_in usable
is_referral-is_answer names find qname rdtype rdclass bailiwick proper include_cname r not_any k h =
    elim (Option-cases r.message) [
      | inl q ↦ ground arith
      | inr (m, q) ↦ ground (
        arith,
        fewer_types names qname rdtype m.answer,
        of_class names qname rdtype rdclass m.answer (k m q),
      )
    ]

-- A proper referral is a referral.
pub is_referral_proper :
    (names : NameApi) (find : FindRrset) (qname : DomainName) (rdtype rdclass : ℕ)
    (bailiwick : Option DomainName) (r : DnsResponse)
    → IsNameApi names
    → is_referral names find qname rdtype rdclass bailiwick true r ≡ true
    → is_referral names find qname rdtype rdclass bailiwick false r ≡ true
unfolding is_referral is_referral_in
is_referral_proper names find qname rdtype rdclass bailiwick r laws h =
    elim (Option-cases (usable r)) [
      | inl q ↦ ground arith
      | inr (m, q) ↦ elim (Option-cases bailiwick) [
        | inl b ↦ ground arith
        | inr (b, e) ↦ ground (arith, improper names qname rdtype laws rdclass b m.authority)
      ]
    ]
