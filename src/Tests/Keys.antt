-- ===== src/Tests/Keys.antt =====
-- Tests of keys.
use dnsviz.Base.{[], ◌∷◌, true, false, ◌≡◌, ◌≢◌, refl, arith}
use dnsviz.Dns.Message.{Bytes}
use dnsviz.Keys.{DnskeyRdata, dnskey_to_rsa, rsa_key, calc_key_tag}
use dnsviz.Keys.Rsa.{encode, dnskey_to_rsa-encode}
use dnsviz.Keys.Tag.{calc_key_tag-revoked}

-- The exponent 65537 and a short modulus.
abbrev exponent : Bytes
exponent = 1 ∷ 0 ∷ 1 ∷ []

abbrev modulus : Bytes
modulus = 200 ∷ 13 ∷ 7 ∷ 1 ∷ []

abbrev revoked_key : DnskeyRdata
revoked_key = record { flags = 385; protocol = 3; algorithm = 8; key = encode exponent modulus }

dnskey_to_rsa-encode_example : dnskey_to_rsa (encode exponent modulus) ≡ rsa_key exponent modulus
dnskey_to_rsa-encode_example =
    dnskey_to_rsa-encode exponent modulus (omega arith) (omega arith) (omega arith)

other_algorithm : revoked_key.algorithm ≢ 1
other_algorithm h = ground arith

calc_key_tag-revoked_example : calc_key_tag revoked_key false ≢ calc_key_tag revoked_key true
calc_key_tag-revoked_example = calc_key_tag-revoked revoked_key other_algorithm refl (omega arith)
