-- ===== src/Common/Bits.antt =====
-- Bitwise operations of machine words.
use Prim.Native.Nat.{ℕ, zero, suc, ◌+◌, ◌-◌, ◌*◌, ◌/◌, ◌%◌, ◌^◌, ◌≤◌, ◌<◌}
use mathlib.Core.Path.{◌≡◌, refl, sym, ap, ◌∙◌}
use native.Mathlib.Nat.{mod-lt, mod-eq_of_lt, mul-add-mod_self_left, div-add-mod, mul_assoc}
use mathlib.Core.Bool.{Bool, true, ◌&&◌, not}
use native.Mathlib.Omega.{arith}
use somewm.Common.Tests.{◌==◌, if◌then◌else◌, bool_eq}

-- The operation on each of the lowest `n` bits.
pub bitwise : (Bool → Bool → Bool) → ℕ → ℕ → ℕ → ℕ
bitwise op zero a b = 0
bitwise op (suc n) a b =
    (if op (a % 2 == 1) (b % 2 == 1) then 1 else 0) + 2 * bitwise op n (a / 2) (b / 2)

-- `a & b` and `a ^ b` of 64 bits.
pub bit_and : ℕ → ℕ → ℕ
unfolding bitwise
bit_and = bitwise (λ x y. x && y) 64

pub bit_xor : ℕ → ℕ → ℕ
unfolding bitwise
bit_xor = bitwise (λ x y. not (bool_eq x y)) 64

mod_double : (m a : ℕ) → 0 < m → a % 2 + 2 * (a / 2 % m) ≡ a % (2 * m)
mod_double m a p = sym (
    ap (λ x. x % (2 * m)) split
    ∙ mul-add-mod_self_left (2 * m) (a / 2 / m) (a % 2 + 2 * (a / 2 % m))
    ∙ mod-eq_of_lt (omega (arith, mod-lt (a / 2) p)))
  where
    split : a ≡ 2 * m * (a / 2 / m) + (a % 2 + 2 * (a / 2 % m))
    split = omega (arith, div-add-mod (a / 2) m, mul_assoc 2 m (a / 2 / m))

pub pow_pos : (j : ℕ) → 0 < 2 ^ j
pow_pos zero = omega arith
pow_pos (suc j) = omega (arith, pow_pos j)

none_set : (n a : ℕ) → bitwise (λ x y. x && y) n a 0 ≡ 0
unfolding bitwise
none_set zero a = refl
none_set (suc n) a = ground (arith, none_set n (a / 2))

-- Bits under a mask of the lowest `j` are the remainder by 2 ^ j.
bitwise_mask : (j n a : ℕ) → j ≤ n → bitwise (λ x y. x && y) n a (2 ^ j - 1) ≡ a % 2 ^ j
unfolding bitwise
bitwise_mask zero n a l = none_set n a ∙ omega arith
bitwise_mask (suc j) zero a l = absurd (omega arith)
bitwise_mask (suc j) (suc n) a l =
    rw (odd, half, bitwise_mask j n (a / 2) (omega arith))
      (low ∙ mod_double (2 ^ j) a (pow_pos j) ∙ ap (λ m. a % m) (omega arith))
  where
    odd : (2 ^ suc j - 1) % 2 ≡ 1
    odd = omega (arith, pow_pos j)

    half : (2 ^ suc j - 1) / 2 ≡ 2 ^ j - 1
    half = omega (arith, pow_pos j)

    low :
        (if (a % 2 == 1) && true then 1 else 0) + 2 * (a / 2 % 2 ^ j) ≡ a % 2 + 2 * (a / 2 % 2 ^ j)
    low = ap (λ b. b + 2 * (a / 2 % 2 ^ j)) (ground arith)

-- `a & (2 ^ j - 1)` in 64 bits.
pub bit_and-mask : (j a : ℕ) → j ≤ 64 → bit_and a (2 ^ j - 1) ≡ a % 2 ^ j
unfolding bit_and
bit_and-mask j a l = bitwise_mask j 64 a l
