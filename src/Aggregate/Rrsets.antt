-- ===== src/Aggregate/Rrsets.antt =====
-- dnsviz/response.py: RRsetInfo and RdataWrapper, the text that an RRSIG signs; cname_from_dname, and
-- dnsviz/analysis/status.py: CNAMEFromDNAMEStatus. A record is its digestable form (a canonical wire
-- format), of which the program uses nothing else here.
pub mod Order
pub mod Canonical
use dnsviz.Base.{
  ℕ, ◌+◌, ◌-◌, ◌/◌, ◌%◌, ◌^◌, List, [], ◌∷◌, ◌++◌, Option, none, some, Bool, true, false, not, ◌&&◌,
  ◌==◌, if◌then◌else◌, length, drop, take, ltb, bytes_eq,
}
use dnsviz.Dns.Message.{Bytes, DomainName, RRset}
use dnsviz.Dns.Names.{NameApi, same_name}
use dnsviz.Status.Issue.{
  Issue, dname_no_cname, dname_target_mismatch, dname_ttl_mismatch, dname_ttl_zero,
}

pub record SignedSet : Type 0 where
  pub name : DomainName
  pub rdtype : ℕ
  pub rdclass : ℕ
  pub ttl : ℕ
  pub records : List Bytes

pub record Rrsig : Type 0 where
  pub type_covered : ℕ
  pub algorithm : ℕ
  pub labels : ℕ
  pub original_ttl : ℕ
  pub expiration : ℕ
  pub inception : ℕ
  pub key_tag : ℕ
  pub signer : DomainName

-- `<=` of byte strings. (RdataWrapper defines `<`, which the sorting asks.)
unfoldable pub leb_bytes : Bytes → Bytes → Bool
leb_bytes [] y = true
leb_bytes (a ∷ x) [] = false
leb_bytes (a ∷ x) (b ∷ y) = if ltb a b then true else a == b && leb_bytes x y

-- `rdata_list.sort()`
unfoldable pub insert_record : Bytes → List Bytes → List Bytes
unfolding leb_bytes
insert_record r [] = r ∷ []
insert_record r (s ∷ ss) = if leb_bytes r s then r ∷ s ∷ ss else s ∷ insert_record r ss

unfoldable pub sort_records : List Bytes → List Bytes
unfolding insert_record
sort_records [] = []
sort_records (r ∷ rs) = insert_record r (sort_records rs)

-- `struct.pack` of `H` and `I`, in network order
abbrev pub pack16 : ℕ → Bytes
pack16 n = n / 256 % 256 ∷ n % 256 ∷ []

abbrev pub pack32 : ℕ → Bytes
pack32 n = pack16 (n / 65536) ++ pack16 n

-- RRsetInfo.is_wildcard; `*` is the byte 42. (A name has a label.)
unfoldable pub is_wildcard : DomainName → Rrsig → Bool
is_wildcard [] rrsig = false
is_wildcard (l ∷ ls) rrsig =
    if bytes_eq l (42 ∷ []) then false else ltb rrsig.labels (length (l ∷ ls) - 1)

-- RRsetInfo.reduce_wildcard: `*` and the last `labels + 1` labels
unfoldable pub reduce_wildcard : DomainName → Rrsig → DomainName
unfolding is_wildcard
reduce_wildcard name rrsig =
    if is_wildcard name rrsig
    then (42 ∷ []) ∷ drop (length name - (rrsig.labels + 1)) name
    else name

-- The loop of rrset_canonicalized_to_wire, for the wire format of the name.
unfoldable pub records_to_wire : (name_wire : Bytes) (rdtype rdclass ttl : ℕ) → List Bytes → Bytes
records_to_wire name_wire rdtype rdclass ttl [] = []
records_to_wire name_wire rdtype rdclass ttl (r ∷ rs) =
    (name_wire ++ (pack16 rdtype ++ pack16 rdclass ++ pack32 ttl ++ pack16 (length r)) ++ r)
    ++ records_to_wire name_wire rdtype rdclass ttl rs

-- `to_wire` is `name.canonicalize().to_wire()`, of which the model's names are arguments.
unfoldable pub rrset_canonicalized_to_wire :
    (to_wire : DomainName → Bytes) → SignedSet → DomainName → ℕ → Bytes
unfolding records_to_wire sort_records
rrset_canonicalized_to_wire to_wire s name ttl =
    records_to_wire (to_wire name) s.rdtype s.rdclass ttl (sort_records s.records)

-- RRsetInfo.message_for_rrsig
unfoldable pub message_for_rrsig : (to_wire : DomainName → Bytes) → SignedSet → Rrsig → Bytes
unfolding rrset_canonicalized_to_wire reduce_wildcard
message_for_rrsig to_wire s g =
    (pack16 g.type_covered
      ++ (g.algorithm ∷ g.labels ∷ [])
      ++ pack32 g.original_ttl
      ++ pack32 g.expiration
      ++ pack32 g.inception
      ++ pack16 g.key_tag
      ++ to_wire g.signer)
    ++ rrset_canonicalized_to_wire to_wire s (reduce_wildcard s.name g) g.original_ttl

-- cname_from_dname: the name of the CNAME's target
unfoldable pub cname_target : (name dname target : DomainName) → DomainName
cname_target name dname target = take (length name - length dname) name ++ target

-- DNAME_STATUS_*
pub data DnameStatus : Type 0 where
  valid indeterminate invalid_target invalid : DnameStatus

-- A CNAME RRset, by the target of its record.
pub record Cname : Type 0 where
  pub target : DomainName
  pub ttl : ℕ

pub record DnameJudged : Type 0 where
  pub validation_status : DnameStatus
  pub errors : List Issue
  pub warnings : List Issue

-- CNAMEFromDNAMEStatus.__init__
unfoldable pub cname_status :
    NameApi → (synthesized : Cname) (included : Option Cname) → DnameJudged
cname_status names synthesized included = elim included [
  | none ↦ record { validation_status = invalid; errors = dname_no_cname ∷ []; warnings = [] }
  | some c ↦
      let same = same_name names c.target synthesized.target in
      record {
        validation_status = if same then valid else invalid_target;
        errors = if same then [] else dname_target_mismatch c.target synthesized.target ∷ [];
        warnings =
            if c.ttl == synthesized.ttl
            then []
            else if c.ttl == 0
            then dname_ttl_zero ∷ []
            else dname_ttl_mismatch c.ttl synthesized.ttl ∷ [];
      }
]
