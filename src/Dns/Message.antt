-- ===== src/Dns/Message.antt =====
-- The attributes of dnspython's messages, RRsets and options that dnsviz reads. A name is its tuple
-- of labels (`Name.labels`), the root's empty label last; the operations on names are parameters.
use dnsviz.Base.{ℕ, List, Option}
use dnsviz.Base.Int.{ℤ}

abbrev pub Bytes : Type 0
Bytes = List ℕ

abbrev pub DomainName : Type 0
DomainName = List Bytes

-- `dns.edns.GenericOption`
pub record EdnsOption : Type 0 where
  pub otype : ℕ
  pub payload : Bytes

-- A record's data, as far as dnsviz looks into it.
pub data Rdata : Type 0 where
  target : DomainName → Rdata
  address : Bytes → Rdata
  opaque : Bytes → Rdata

pub record RRset : Type 0 where
  pub name : DomainName
  pub rdtype : ℕ
  pub rdclass : ℕ
  pub ttl : ℕ
  pub rdatas : List Rdata

-- A response message. `rcode` is what `message.rcode()` returns; `edns` is `none` where the
-- attribute is negative (no OPT record).
pub record Message : Type 0 where
  pub flags : ℕ
  pub rcode : ℕ
  pub edns : Option ℕ
  pub options : List EdnsOption
  pub answer : List RRset
  pub authority : List RRset
  pub additional : List RRset

-- A query message. `edns` is `none` where the attribute is negative (EDNS is off).
pub record Request : Type 0 where
  pub flags : ℕ
  pub edns : Option ℕ
  pub ednsflags : ℕ
  pub payload : ℤ
  pub options : List EdnsOption
