-- ===== src/Base32.antt =====
-- dnsviz/base32.py: b32encode, with the extended hex alphabet. Masks of low bits are remainders and
-- shifts are quotients or products.
pub mod Label
use dnsviz.Base.{
  ℕ, zero, suc, ◌+◌, ◌-◌, ◌*◌, ◌/◌, ◌%◌, List, [], ◌∷◌, ◌++◌, ltb, ◌==◌, if◌then◌else◌, length,
  take,
}
use dnsviz.Dns.Message.{Bytes}

-- `_b32tab`: the digits, then the letters from A
unfoldable pub b32tab : ℕ → ℕ
b32tab n = if ltb n 10 then 48 + n else 55 + n

-- The eight characters of one quantum of five bytes.
unfoldable pub quantum : (b0 b1 b2 b3 b4 : ℕ) → Bytes
unfolding b32tab
quantum b0 b1 b2 b3 b4 =
    let c1 = b0 * 256 + b1 in
    let c2 = b2 * 256 + b3 + c1 % 2 * 65536 in
    let c3 = b4 + c2 % 4 * 256 in
    b32tab (c1 / 2048)
    ∷ b32tab (c1 / 64 % 32)
    ∷ b32tab (c1 / 2 % 32)
    ∷ b32tab (c2 / 4096)
    ∷ b32tab (c2 / 128 % 32)
    ∷ b32tab (c2 / 4 % 32)
    ∷ b32tab (c3 / 32)
    ∷ b32tab (c3 % 32)
    ∷ []

-- The loop over the quanta; the padded length is a multiple of five.
unfoldable pub quanta : Bytes → Bytes
unfolding quantum
quanta (b0 ∷ b1 ∷ b2 ∷ b3 ∷ b4 ∷ s) = quantum b0 b1 b2 b3 b4 ++ quanta s
quanta _ = []

abbrev pub replicate : ℕ → ℕ → Bytes
replicate zero b = []
replicate (suc n) b = b ∷ replicate n b

-- `encoded[:-n] + b'=' * n`
unfoldable pub adjust : ℕ → Bytes → Bytes
adjust n encoded = take (length encoded - n) encoded ++ replicate n 61

unfoldable pub b32encode : Bytes → Bytes
unfolding quanta adjust
b32encode s =
    let leftover = length s % 5 in
    if leftover == 0
    then quanta s
    else let encoded = quanta (s ++ replicate (5 - leftover) 0) in
      if leftover == 1
      then adjust 6 encoded
      else if leftover == 2
      then adjust 4 encoded
      else if leftover == 3
      then adjust 3 encoded
      else adjust 1 encoded
