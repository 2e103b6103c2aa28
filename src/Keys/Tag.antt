-- ===== src/Keys/Tag.antt =====
-- The key tag of a DNSKEY (dnsviz/response.py) with and without its REVOKE flag.
use dnsviz.Base.{ℕ, ◌+◌, ◌-◌, ◌%◌, ◌≤◌, ◌++◌, true, false, ◌≡◌, ◌≢◌, arith, bit_and}
use dnsviz.Keys.{DnskeyRdata, checksum, fold_carry, calc_key_tag, rdata_header}

carry_apart : (a : ℕ) → fold_carry (a + 128) ≢ fold_carry a
unfolding fold_carry
carry_apart a h = omega arith

-- Clearing REVOKE takes 128 from the sum.
sum_apart :
    (flags : ℕ) (r : DnskeyRdata)
    → 128 ≤ flags % 256
    → checksum false (rdata_header flags r ++ r.key)
      ≡ checksum false (rdata_header (flags - 128) r ++ r.key) + 128
unfolding checksum
sum_apart flags r h = omega arith

-- For a key with the REVOKE flag, of any algorithm but 1, the key tag is another one than before the
-- revocation.
pub calc_key_tag-revoked :
    (r : DnskeyRdata)
    → r.algorithm ≢ 1
    → bit_and r.flags 0x80 ≡ 128
    → 128 ≤ r.flags % 256
    → calc_key_tag r false ≢ calc_key_tag r true
unfolding calc_key_tag
calc_key_tag-revoked r alg revoked low h = ground (
  arith,
  carry_apart (checksum false (rdata_header (r.flags - 128) r ++ r.key)),
  sum_apart r.flags r low,
)
