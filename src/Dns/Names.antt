-- ===== src/Dns/Names.antt =====
-- The operations of dnspython on names that dnsviz calls, as parameters, with the documented laws
-- that the theorems rely on.
use dnsviz.Base.{Bool, true, false, ◌≡◌, ◌≢◌}
use dnsviz.Dns.Message.{Bytes, DomainName}
use Prim.Native.Nat.{Ordering}

-- `fullcompare`'s order, behind `==`, `<`, `<=`, `>` and `>=`; `is_subdomain`; and
-- `dns.name.from_text(text, origin)`.
pub record NameApi : Type 0 where
  pub order : DomainName → DomainName → Ordering
  pub is_subdomain : DomainName → DomainName → Bool
  pub from_text : Bytes → DomainName → DomainName

abbrev pub flip : Ordering → Ordering
flip Ordering.lt = Ordering.gt
flip Ordering.eq = Ordering.eq
flip Ordering.gt = Ordering.lt

-- The canonical order is total.
pub record IsNameApi (names : NameApi) : Type 0 where
  pub swapped : (a b : DomainName) → names.order b a ≡ flip (names.order a b)
  pub trans_before :
      (a b c : DomainName)
      → names.order a b ≡ Ordering.lt
      → names.order b c ≢ Ordering.gt
      → names.order a c ≡ Ordering.lt
  pub trans_same :
      (a b c : DomainName) → names.order a b ≡ Ordering.eq → names.order a c ≡ names.order b c
  pub subdomain_refl :
      (a b : DomainName) → names.order a b ≡ Ordering.eq → names.is_subdomain a b ≡ true

-- `a == b`, `a < b` and `a <= b`
abbrev pub same_name : NameApi → DomainName → DomainName → Bool
same_name names a b = elim (names.order a b) [ Ordering.eq ↦ true | _ ↦ false ]

abbrev pub before : NameApi → DomainName → DomainName → Bool
before names a b = elim (names.order a b) [ Ordering.lt ↦ true | _ ↦ false ]

abbrev pub not_after : NameApi → DomainName → DomainName → Bool
not_after names a b = elim (names.order a b) [ Ordering.gt ↦ false | _ ↦ true ]
