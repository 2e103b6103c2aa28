-- ===== src/Base/Bits.antt =====
-- The lowest bits of native numbers: what clearing bits does to them.
use Prim.Native.Nat.{
  ℕ, zero, suc, ◌+◌, ◌*◌, ◌-◌, ◌^◌, ◌/◌, ◌%◌, ◌≤◌, min, bit_and, digits, bit_and-bitwise,
}
use mathlib.Core.Path.{◌≡◌, refl, ◌∙◌, ap, sym}
use native.Mathlib.Omega.{arith}

-- The k lowest bits are the same.
abbrev pub AreSameLow : (k a b : ℕ) → Type 0
AreSameLow zero a b = Unit
AreSameLow (suc k) a b = (a % 2 ≡ b % 2) × AreSameLow k (a / 2) (b / 2)

pub AreSameLow-refl : (k a : ℕ) → AreSameLow k a a
AreSameLow-refl zero a = tt
AreSameLow-refl (suc k) a = (refl, AreSameLow-refl k (a / 2))

pub AreSameLow-trans : (k a b c : ℕ) → AreSameLow k a b → AreSameLow k b c → AreSameLow k a c
AreSameLow-trans zero a b c h j = tt
AreSameLow-trans (suc k) a b c h j = (h.0 ∙ j.0, AreSameLow-trans k (a / 2) (b / 2) (c / 2) h.1 j.1)

double : (k x : ℕ) → x * 2 ^ suc k ≡ 2 * (x * 2 ^ k)
double k x = grind arith

-- What stands above the k lowest bits does not matter.
pub AreSameLow-shift : (k a x y : ℕ) → AreSameLow k (a + x * 2 ^ k) (a + y * 2 ^ k)
AreSameLow-shift zero a x y = tt
AreSameLow-shift (suc k) a x y =
    let half : (z : ℕ) → (a + z * 2 ^ suc k) / 2 ≡ a / 2 + z * 2 ^ k =
      λ z. omega (arith, double k z) in
    (omega (arith, double k x, double k y), rw (half x, half y) (AreSameLow-shift k (a / 2) x y))

-- `bit_and` reads the digits of its first argument, with that argument as the bound on them.
abbrev common : (bound a m : ℕ) → ℕ
common = digits (λ d. zero) min

common_beyond : (bound k a m : ℕ) → a ≤ bound → common (bound + k) a m ≡ common bound a m
common_beyond zero k (suc a) m h = absurd (omega arith)
common_beyond zero zero zero m h = refl
common_beyond zero (suc k) zero m h = let z : zero + suc k ≡ suc k = omega arith in rw z refl
common_beyond (suc bound) k zero m h =
    let z : suc bound + k ≡ suc (bound + k) = omega arith in rw z refl
common_beyond (suc bound) k (suc a) m h =
    let z : suc bound + k ≡ suc (bound + k) = omega arith in
    let rest = common_beyond bound k (suc a / 2) (m / 2) (omega arith) in rw z (omega (arith, rest))

common_half : (a m : ℕ) → common a (suc a / 2) (m / 2) ≡ bit_and (suc a / 2) (m / 2)
common_half a m =
    let bound : suc a / 2 + (a - suc a / 2) ≡ a = omega arith in
    ap (λ n. common n (suc a / 2) (m / 2)) (sym bound)
    ∙ common_beyond (suc a / 2) (a - suc a / 2) (suc a / 2) (m / 2) (omega arith)
    ∙ sym (bit_and-bitwise (suc a / 2) (m / 2))

-- Its half, and its lowest digit.
lowest :
    (a m : ℕ)
    → (bit_and a m / 2 ≡ bit_and (a / 2) (m / 2)) × (bit_and a m % 2 ≡ min (a % 2) (m % 2))
lowest zero m = (
  omega (arith, bit_and-bitwise 0 m, bit_and-bitwise 0 (m / 2)),
  omega (arith, bit_and-bitwise 0 m),
)
lowest (suc a) m =
    let e = bit_and-bitwise (suc a) m in (omega (arith, e, common_half a m), omega (arith, e))

within : (bound a m : ℕ) → a ≤ bound → bit_and a m ≤ a
within bound zero m h = omega (arith, bit_and-bitwise 0 m)
within zero (suc a) m h = absurd (omega arith)
within (suc bound) (suc a) m h =
    let rest = within bound (suc a / 2) (m / 2) (omega arith) in
    omega (arith, lowest (suc a) m, rest)

cleared :
    (a m : ℕ)
    → ((a - bit_and a m) / 2 ≡ a / 2 - bit_and (a / 2) (m / 2))
      × ((a - bit_and a m) % 2 ≡ a % 2 - min (a % 2) (m % 2))
cleared a m =
    let halves = within (a / 2) (a / 2) (m / 2) (omega arith) in
    (omega (arith, lowest a m, halves), omega (arith, lowest a m, halves))

-- Clearing the same bits.
pub AreSameLow-bit_and :
    (k a b m : ℕ) → AreSameLow k a b → AreSameLow k (a - bit_and a m) (b - bit_and b m)
AreSameLow-bit_and zero a b m h = tt
AreSameLow-bit_and (suc k) a b m h = (
  omega (arith, h.0, cleared a m, cleared b m),
  rw ((cleared a m).0, (cleared b m).0) (AreSameLow-bit_and k (a / 2) (b / 2) (m / 2) h.1),
)
