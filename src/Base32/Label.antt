-- ===== src/Base32/Label.antt =====
-- The owner label that dnsviz/base32.py makes of an NSEC3 hash.
use dnsviz.Base.{
  ℕ, zero, suc, ◌+◌, ◌*◌, ◌/◌, ◌%◌, ◌<◌, ◌≤◌, [], ◌∷◌, ◌++◌, length, ◌≡◌, refl, arith, All, ◌⊎◌,
  length-append,
}
use dnsviz.Dns.Message.{Bytes}
use dnsviz.Base32.{b32tab, quantum, quanta, b32encode}

-- A character of the alphabet: a digit, or a letter from A to V.
abbrev pub IsDigit : ℕ → Type 0
IsDigit c = ((48 ≤ c) × (c < 58)) ⊎ ((65 ≤ c) × (c < 87))

abbrev pub IsByte : ℕ → Type 0
IsByte b = b < 256

tab-IsDigit : (n : ℕ) → n < 32 → IsDigit (b32tab n)
unfolding b32tab
tab-IsDigit n h = ground arith

All-append : (P : ℕ → Type 0) (xs ys : Bytes) → All P xs → All P ys → All P (xs ++ ys)
All-append P [] ys h k = k
All-append P (x ∷ xs) ys h k = (h.0, All-append P xs ys h.1 k)

quantum_digits :
    (b0 b1 b2 b3 b4 : ℕ)
    → IsByte b0
    → IsByte b1
    → IsByte b2
    → IsByte b3
    → IsByte b4
    → All IsDigit (quantum b0 b1 b2 b3 b4)
unfolding quantum
quantum_digits b0 b1 b2 b3 b4 h0 h1 h2 h3 h4 =
    let c1 = b0 * 256 + b1 in
    let c2 = b2 * 256 + b3 + c1 % 2 * 65536 in
    let c3 = b4 + c2 % 4 * 256 in
    (
      tab-IsDigit (c1 / 2048) (omega arith),
      (
        tab-IsDigit (c1 / 64 % 32) (omega arith),
        (
          tab-IsDigit (c1 / 2 % 32) (omega arith),
          (
            tab-IsDigit (c2 / 4096) (omega arith),
            (
              tab-IsDigit (c2 / 128 % 32) (omega arith),
              (
                tab-IsDigit (c2 / 4 % 32) (omega arith),
                (tab-IsDigit (c3 / 32) (omega arith), (tab-IsDigit (c3 % 32) (omega arith), tt)),
              ),
            ),
          ),
        ),
      ),
    )

quanta_digits : (s : Bytes) → All IsByte s → All IsDigit (quanta s)
unfolding quanta
quanta_digits (b0 ∷ b1 ∷ b2 ∷ b3 ∷ b4 ∷ s) (h0, (h1, (h2, (h3, (h4, h))))) =
    All-append IsDigit (quantum b0 b1 b2 b3 b4) (quanta s)
      (quantum_digits b0 b1 b2 b3 b4 h0 h1 h2 h3 h4) (quanta_digits s h)
quanta_digits _ h = tt

length-quanta : (k : ℕ) (s : Bytes) → length s ≡ 5 * k → length (quanta s) ≡ 8 * k
unfolding quanta quantum
length-quanta zero [] h = refl
length-quanta zero (b ∷ s) h = omega arith
length-quanta (suc k) (b0 ∷ b1 ∷ b2 ∷ b3 ∷ b4 ∷ s) h =
    omega
      (arith, length-quanta k s (omega arith), length-append (quantum b0 b1 b2 b3 b4) (quanta s))
length-quanta (suc k) _ h = omega arith

-- A byte string of 5 k bytes is encoded without padding, in 8 k characters of the alphabet. (A SHA-1
-- hash, k = 4, gives a label of 32.)
pub b32encode-IsDigit :
    (k : ℕ) (s : Bytes)
    → All IsByte s
    → length s ≡ 5 * k
    → (length (b32encode s) ≡ 8 * k) × All IsDigit (b32encode s)
unfolding b32encode
b32encode-IsDigit k s bytes h = ground (arith, length-quanta k s h, quanta_digits s bytes)
