-- ===== src/Keys.antt =====
-- DNSKEY records: DNSKEYMeta of dnsviz/response.py (key tag, key length, the text that a DS digests)
-- and the parsing of RSA keys of dnsviz/crypto.py. A byte is a number below 256.
pub mod Tag
pub mod Rsa
use dnsviz.Base.{
  ℕ, ◌+◌, ◌-◌, ◌*◌, ◌/◌, ◌%◌, List, [], ◌∷◌, ◌++◌, reverse, Option, none, some, Bool, true, false,
  not, ◌==◌, if◌then◌else◌, elem, get_elem?, length, drop, take, leb, ltb, bit_and,
}
use dnsviz.Dns.Message.{Bytes}
use dnsviz.Query.Handlers.{clear_bits}

-- The rdata of a DNSKEY.
pub record DnskeyRdata : Type 0 where
  pub flags : ℕ
  pub protocol : ℕ
  pub algorithm : ℕ
  pub key : Bytes

-- `(b1 << 8) | b2`
abbrev pub word : ℕ → ℕ → ℕ
word b1 b2 = b1 * 256 + b2

-- The REVOKE flag is 0x80.
abbrev pub effective_flags : Bool → DnskeyRdata → ℕ
effective_flags clear_revoke r = if clear_revoke then clear_bits r.flags 0x80 else r.flags

-- `struct.pack(b'!HBB', flags, protocol, algorithm)`
abbrev pub rdata_header : ℕ → DnskeyRdata → Bytes
rdata_header flags r = flags / 256 ∷ flags % 256 ∷ r.protocol ∷ r.algorithm ∷ []

-- The loop of calc_key_tag: the bytes at even places count 256 times.
unfoldable pub checksum : (odd : Bool) → Bytes → ℕ
checksum odd [] = 0
checksum true (b ∷ bs) = b + checksum false bs
checksum false (b ∷ bs) = b * 256 + checksum true bs

-- `ac += (ac >> 16) & 0xffff` and `ac & 0xffff`
unfoldable pub fold_carry : ℕ → ℕ
fold_carry ac = (ac + ac / 65536 % 65536) % 65536

-- DNSKEYMeta.calc_key_tag; none is the IndexError of a short key of algorithm 1.
unfoldable pub calc_key_tag : DnskeyRdata → Bool → Option ℕ
unfolding checksum fold_carry
calc_key_tag r clear_revoke =
    if r.algorithm == 1
    then elim (get_elem? (reverse r.key) 2) [
      | none ↦ none
      | some b1 ↦ elim (get_elem? (reverse r.key) 1) [ none ↦ none | some b2 ↦ some (word b1 b2) ]
    ]
    else some
        (fold_carry (checksum false (rdata_header (effective_flags clear_revoke r) r ++ r.key)))

-- The end of the RSA case of calc_key_len: the modulus is what follows the exponent.
unfoldable pub modulus_bits : (key rest : Bytes) → ℕ
modulus_bits key rest = if leb (length rest) 0 then length key * 8 else length rest * 8

-- The RSA case, from the first byte on; none is an IndexError.
unfoldable pub rsa_key_len : Bytes → Option ℕ
unfolding modulus_bits
rsa_key_len [] = some 0
rsa_key_len (e_len ∷ rest) =
    if e_len == 0
    then elim (get_elem? rest 0) [
      | none ↦ none
      | some b1 ↦ elim (get_elem? rest 1) [
        | none ↦ none
        | some b2 ↦ some (modulus_bits (e_len ∷ rest) (drop (word b1 b2) (drop 2 rest)))
      ]
    ]
    else some (modulus_bits (e_len ∷ rest) (drop e_len rest))

-- DNSKEYMeta.calc_key_len, in bits
unfoldable pub calc_key_len : DnskeyRdata → Option ℕ
unfolding rsa_key_len
calc_key_len r =
    if elem r.algorithm (1 ∷ 5 ∷ 7 ∷ 8 ∷ 10 ∷ [])
    then rsa_key_len r.key
    else if elem r.algorithm (3 ∷ 6 ∷ [])
    then elim (get_elem? r.key 0) [ none ↦ none | some t ↦ some ((64 + t * 8) * 8) ]
    else some (length r.key * 8)

-- DNSKEYMeta.message_for_ds, after the name's wire form
unfoldable pub message_for_ds : (name_wire : Bytes) → DnskeyRdata → Bool → Bytes
message_for_ds name_wire r clear_revoke =
    name_wire ++ rdata_header (effective_flags clear_revoke r) r ++ r.key

-- What `_dnskey_to_rsa` makes of a key: nothing, a struct.error, or the exponent and the modulus.
pub data RsaKey : Type 0 where
  no_key struct_error : RsaKey
  rsa_key : (e n : Bytes) → RsaKey

-- From the exponent's offset on, once its length is known.
unfoldable pub rsa_parts : (e_len : ℕ) → Bytes → RsaKey
rsa_parts e_len rest =
    if ltb (length rest) e_len
    then no_key
    else if leb (length rest) e_len
    then no_key
    else rsa_key (take e_len rest) (drop e_len rest)

-- crypto._dnskey_to_rsa
unfoldable pub dnskey_to_rsa : Bytes → RsaKey
unfolding rsa_parts
dnskey_to_rsa [] = no_key
dnskey_to_rsa (e_len ∷ rest) =
    if e_len == 0
    then elim (get_elem? rest 0) [
      | none ↦ struct_error
      | some b1 ↦ elim (get_elem? rest 1) [
        | none ↦ struct_error
        | some b2 ↦ rsa_parts (word b1 b2) (drop 2 rest)
      ]
    ]
    else rsa_parts e_len rest
