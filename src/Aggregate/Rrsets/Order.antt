-- ===== src/Aggregate/Rrsets/Order.antt =====
-- The sorting of records of dnsviz/response.py (RdataWrapper) does not depend on their order.
use dnsviz.Base.{List, [], ◌∷◌, true, false, ◌≡◌, refl, arith}
use dnsviz.Dns.Message.{Bytes}
use dnsviz.Aggregate.Rrsets.{insert_record, leb_bytes}

leb_total : (x y : Bytes) → leb_bytes x y ≡ false → leb_bytes y x ≡ true
unfolding leb_bytes
leb_total [] y h = ground (arith, h)
leb_total (a ∷ x) [] h = refl
leb_total (a ∷ x) (b ∷ y) h = ground (arith, h, leb_total x y)

leb_trans : (x y z : Bytes) → leb_bytes x y ≡ true → leb_bytes y z ≡ true → leb_bytes x z ≡ true
unfolding leb_bytes
leb_trans [] y z h k = refl
leb_trans (a ∷ x) [] z h k = ground (arith, h)
leb_trans (a ∷ x) (b ∷ y) [] h k = ground (arith, k)
leb_trans (a ∷ x) (b ∷ y) (c ∷ z) h k = ground (arith, h, k, leb_trans x y z)

leb_antisym : (x y : Bytes) → leb_bytes x y ≡ true → leb_bytes y x ≡ true → x ≡ y
unfolding leb_bytes
leb_antisym [] [] h k = refl
leb_antisym [] (b ∷ y) h k = ground (arith, k)
leb_antisym (a ∷ x) [] h k = ground (arith, h)
leb_antisym (a ∷ x) (b ∷ y) h k = ground (arith, h, k, leb_antisym x y)

-- Two insertions commute.
pub insert_swap :
    (r s : Bytes) (l : List Bytes)
    → insert_record r (insert_record s l) ≡ insert_record s (insert_record r l)
unfolding insert_record
insert_swap r s [] = ground (arith, leb_total r s, leb_antisym r s)
insert_swap r s (t ∷ l) = ground (
  arith,
  leb_total r s,
  leb_antisym r s,
  leb_trans r s t,
  leb_trans s r t,
  leb_total r t,
  leb_total s t,
  leb_trans r t s,
  leb_trans s t r,
  insert_swap r s l,
)
