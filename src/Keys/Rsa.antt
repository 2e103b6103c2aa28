-- ===== src/Keys/Rsa.antt =====
-- RSA keys in DNSKEY records (RFC 3110): the parser of dnsviz/crypto.py and the key length of
-- dnsviz/response.py, on a key that an encoder makes.
use dnsviz.Base.{
  ◌+◌, ◌*◌, ◌/◌, ◌%◌, ◌<◌, [], ◌∷◌, ◌++◌, some, true, ◌≡◌, arith, ltb, if◌then◌else◌, length,
  length-append, take, drop, refl, ap, elem, Bool-cases, inl, inr,
}
use dnsviz.Dns.Message.{Bytes}
use dnsviz.Keys.{
  DnskeyRdata, rsa_key, rsa_parts, dnskey_to_rsa, calc_key_len, rsa_key_len, modulus_bits,
}

-- The encoding of RFC 3110: the exponent's length in one byte, or in two after a zero.
abbrev pub encode : (e n : Bytes) → Bytes
encode e n =
    if ltb (length e) 256
    then length e ∷ (e ++ n)
    else 0 ∷ length e / 256 ∷ length e % 256 ∷ (e ++ n)

take_front : (e n : Bytes) → take (length e) (e ++ n) ≡ e
take_front [] n = refl
take_front (b ∷ e) n = ap (λ (x : Bytes). b ∷ x) (take_front e n)

drop_front : (e n : Bytes) → drop (length e) (e ++ n) ≡ n
drop_front [] n = refl
drop_front (b ∷ e) n = drop_front e n

parts_of : (e n : Bytes) → 0 < length n → rsa_parts (length e) (e ++ n) ≡ rsa_key e n
unfolding rsa_parts
parts_of e n h = rw (take_front e n, drop_front e n) (ground (arith, length-append e n))

-- A key with an exponent of 1 to 65535 bytes and a modulus that is not empty is parsed into the two.
pub dnskey_to_rsa-encode :
    (e n : Bytes)
    → 0 < length e
    → length e < 65536
    → 0 < length n
    → dnskey_to_rsa (encode e n) ≡ rsa_key e n
unfolding dnskey_to_rsa
dnskey_to_rsa-encode e n long short some_n = elim (Bool-cases (ltb (length e) 256)) [
  | inl q ↦ ground (arith, parts_of e n some_n)
  | inr q ↦
      let word_length : length e / 256 * 256 + length e % 256 ≡ length e = omega arith in
      ground (arith, parts_of e n some_n, word_length)
]

bits_of :
    (key e n : Bytes) → 0 < length n → modulus_bits key (drop (length e) (e ++ n)) ≡ length n * 8
unfolding modulus_bits
bits_of key e n h = rw (drop_front e n) (ground arith)

rsa_key_len-encode :
    (e n : Bytes)
    → 0 < length e
    → length e < 65536
    → 0 < length n
    → rsa_key_len (encode e n) ≡ some (length n * 8)
unfolding rsa_key_len
rsa_key_len-encode e n long short h = elim (Bool-cases (ltb (length e) 256)) [
  | inl q ↦ ground (arith, bits_of (length e ∷ (e ++ n)) e n h)
  | inr q ↦
      let word_length : length e / 256 * 256 + length e % 256 ≡ length e = omega arith in
      ground (arith, bits_of (0 ∷ length e / 256 ∷ length e % 256 ∷ (e ++ n)) e n h, word_length)
]

-- Its length, for the RSA algorithms, is that of the modulus, in bits.
pub calc_key_len-encode :
    (r : DnskeyRdata) (e n : Bytes)
    → elem r.algorithm (1 ∷ 5 ∷ 7 ∷ 8 ∷ 10 ∷ []) ≡ true
    → r.key ≡ encode e n
    → 0 < length e
    → length e < 65536
    → 0 < length n
    → calc_key_len r ≡ some (length n * 8)
unfolding calc_key_len
calc_key_len-encode r e n rsa key long short h = rw (rsa, key) (rsa_key_len-encode e n long short h)
