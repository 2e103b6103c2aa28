-- ===== src/Response/Classify.antt =====
-- dnsviz/response.py: the predicates of DNSResponse that classify a message, and what it reads from
-- the options of the message.
pub mod Exclusive
use dnsviz.Base.{
  ℕ, ◌+◌, List, [], ◌∷◌, ◌++◌, Option, none, some, Bool, true, false, not, ◌&&◌, ◌||◌, ◌==◌,
  if◌then◌else◌, elem, any, first, is_some, is_nonempty, length, drop, bit_and, leb, ltb,
}
use dnsviz.Dns.Message.{Bytes, DomainName, EdnsOption, RRset, Message}
use dnsviz.Dns.Names.{NameApi, same_name}
use dnsviz.Query.Types.{Retry}
use dnsviz.Response.History.{Options}

-- The fields of a DNSResponse after the review of its history.
pub record DnsResponse : Type 0 where
  pub message : Option Message
  pub history : List Retry
  pub response_time : ℕ
  pub effective : Options

-- `find_rrset(section, name, rdclass, rdtype)` of dnspython; none is its KeyError, and the None that
-- `get_rrset` returns.
abbrev pub FindRrset : Type 0
FindRrset = (section : List RRset) (name : DomainName) (rdclass rdtype : ℕ) → Option RRset

-- NOERROR is 0 and NXDOMAIN is 3.
abbrev pub has_valid_rcode : Message → Bool
has_valid_rcode m = elem m.rcode (0 ∷ 3 ∷ [])

-- The TC bit is 0x200, AA is 0x400, RD is 0x100, RA is 0x80; DO is 0x8000 of the EDNS flags.
abbrev pub is_complete : Message → Bool
is_complete m = bit_and m.flags 0x200 == 0

unfoldable pub is_valid_response : DnsResponse → Bool
is_valid_response r = elim (r.message) [ none ↦ false | some m ↦ has_valid_rcode m ]

unfoldable pub is_complete_response : DnsResponse → Bool
is_complete_response r = elim (r.message) [ none ↦ false | some m ↦ is_complete m ]

unfoldable pub is_authoritative : DnsResponse → Bool
is_authoritative r = elim (r.message) [ none ↦ false | some m ↦ not (bit_and m.flags 0x400 == 0) ]

-- The message, if it is valid and complete.
unfoldable pub usable : DnsResponse → Option Message
unfolding is_valid_response is_complete_response
usable r = if is_valid_response r && is_complete_response r then r.message else none

unfoldable pub recursion_desired : DnsResponse → Bool
recursion_desired r = is_some (usable r) && not (bit_and r.effective.flags 0x100 == 0)

unfoldable pub recursion_available : DnsResponse → Bool
recursion_available r = elim (usable r) [ none ↦ false | some m ↦ not (bit_and m.flags 0x80 == 0) ]

unfoldable pub recursion_desired_and_available : DnsResponse → Bool
recursion_desired_and_available r = elim (usable r) [
  | none ↦ false
  | some m ↦ not (bit_and r.effective.flags 0x100 == 0) && not (bit_and m.flags 0x80 == 0)
]

unfoldable pub dnssec_requested : DnsResponse → Bool
dnssec_requested r = is_some r.effective.edns && not (bit_and r.effective.edns_flags 0x8000 == 0)

module _ (names : NameApi) where
  -- Some RRset of the section has the name and one of the types.
  abbrev pub has_types : DomainName → List ℕ → List RRset → Bool
  has_types qname types = any (λ x. same_name names x.name qname && elem x.rdtype types)

  -- ANY is 255 and CNAME is 5.
  unfoldable pub is_answer : DomainName → ℕ → Bool → DnsResponse → Bool
  is_answer qname rdtype include_cname r = elim (usable r) [
    | none ↦ false
    | some m ↦
        if rdtype == 255 && any (λ x. same_name names x.name qname) m.answer
        then true
        else has_types qname (if include_cname then rdtype ∷ 5 ∷ [] else rdtype ∷ []) m.answer
  ]

  unfoldable pub is_nxdomain : DomainName → ℕ → DnsResponse → Bool
  is_nxdomain qname rdtype r = elim (usable r) [
    | none ↦ false
    | some m ↦ if has_types qname (rdtype ∷ 5 ∷ []) m.answer then false else m.rcode == 3
  ]

  abbrev pub is_proper_subdomain : DomainName → DomainName → Bool
  is_proper_subdomain qname bailiwick =
      not (same_name names qname bailiwick) && names.is_subdomain qname bailiwick

  -- NS is 2.
  abbrev pub refers_properly : DomainName → ℕ → RRset → Bool
  refers_properly qname rdclass x =
      same_name names qname x.name && (x.rdtype == 2 && x.rdclass == rdclass)

  abbrev pub refers : DomainName → ℕ → DomainName → RRset → Bool
  refers qname rdclass bailiwick x =
      names.is_subdomain qname x.name
      && (not (same_name names bailiwick x.name) && (x.rdtype == 2 && x.rdclass == rdclass))

  -- The body of is_referral for a usable message; SOA is 6.
  unfoldable pub is_referral_in :
      FindRrset → DomainName → ℕ → ℕ → DomainName → Bool → Message → Bool
  is_referral_in find qname rdtype rdclass bailiwick proper m =
      if not (is_proper_subdomain qname bailiwick)
      then false
      else if any
          (λ x.
            same_name names x.name qname
            && (elem x.rdtype (rdtype ∷ 5 ∷ []) && x.rdclass == rdclass))
          m.answer
      then false
      else if is_some (find m.authority qname rdclass 6)
      then false
      else if proper
      then any (refers_properly qname rdclass) m.authority
      else any (refers qname rdclass bailiwick) m.authority

  unfoldable pub is_referral :
      FindRrset → DomainName → ℕ → ℕ → Option DomainName → Bool → DnsResponse → Bool
  unfolding is_referral_in
  is_referral find qname rdtype rdclass bailiwick proper r = elim (usable r) [
    | none ↦ false
    | some m ↦ elim bailiwick [
      | none ↦ false
      | some b ↦ is_referral_in find qname rdtype rdclass b proper m
    ]
  ]

  unfoldable pub is_upward_referral : DomainName → DnsResponse → Bool
  unfolding is_authoritative
  is_upward_referral qname r = elim (usable r) [
    | none ↦ false
    | some m ↦
        not (is_authoritative r)
        && any (λ x. not (same_name names x.name qname) && names.is_subdomain qname x.name)
            m.authority
  ]

-- is_delegation, for a response with a message; IN is class 1.
unfoldable pub is_delegation : FindRrset → DomainName → Message → Bool
is_delegation find qname m =
    is_some (find m.answer qname 1 2)
    || (is_some (find m.authority qname 1 2) || is_some (find m.authority qname 1 6))
