-- ===== src/Render/Index/Capacity.antt =====
-- The sizes that rmap_rebuild() gives the map.
use somewm.Common.{
  ℕ, zero, suc, ◌+◌, ◌*◌, ◌%◌, ◌^◌, ◌≤◌, ◌<◌, ◌≡◌, refl, sym, ap, subst, ◌∙◌, inl, inr, ◌==◌, ltb,
  ==_iff, ltb→lt, Bool-cases, arith,
}
use native.Mathlib.Nat.{mod-lt, mod-eq_of_lt, mod_self, mul_assoc, pow-succ'}
use somewm.Common.Bits.{bit_and-mask, pow_pos}
use somewm.Render.{need_from}
use somewm.Render.Index.{IsRing}

-- A power of two that a size_t holds.
abbrev pub IsCapacity : ℕ → Type 0
IsCapacity cap = (j : ℕ) × (j ≤ 62) × (cap ≡ 2 ^ j)

pub IsCapacity-IsRing : (cap : ℕ) → IsCapacity cap → IsRing cap
IsCapacity-IsRing cap (j, l, e) = subst IsRing (sym e) (record {
  positive = pow_pos j;
  below = λ a. rw (bit_and-mask j a (omega arith)) (mod-lt a (pow_pos j));
  steps = λ s h. bit_and-mask j (s + 1) (omega arith) ∙ mod-eq_of_lt h;
  wraps =
      λ s h. bit_and-mask j (s + 1) (omega arith) ∙ ap (λ (a : ℕ). a % 2 ^ j) h ∙ mod_self (2 ^ j);
})

-- Doubling while it is too small, for fewer than 2 ^ 60 nodes, makes no number that is too large.
pub need_from-IsCapacity :
    (k len j : ℕ) → len < 1152921504606846976 → j ≤ 62 → IsCapacity (need_from k len (2 ^ j))
unfolding need_from
need_from-IsCapacity zero len j h l = (j, l, refl)
need_from-IsCapacity (suc k) len j h l = elim (Bool-cases (ltb (2 ^ j) (len * 2))) [
  | inr e ↦ rw e (j, l, refl)
  | inl e ↦ rw e (
      subst (λ (n : ℕ). IsCapacity (need_from k len n)) (omega arith)
        (need_from-IsCapacity k len (suc j) h (elim (Bool-cases (j == 62)) [
          | inr y ↦ ground arith
          | inl y ↦ small ((==_iff j 62).0 y) (ltb→lt _ _ e)
        ])))
]
  where
    small : j ≡ 62 → 2 ^ j < len * 2 → suc j ≤ 62
    small y e = absurd (omega (arith, subst (λ (i : ℕ). 2 ^ i < len * 2) y e))

-- So many rounds are enough for a size that is twice the number of nodes.
pub need_from-le : (k len need : ℕ) → len * 2 ≤ need * 2 ^ k → len * 2 ≤ need_from k len need
unfolding need_from
need_from-le zero len need h = omega arith
need_from-le (suc k) len need h = elim (Bool-cases (ltb need (len * 2))) [
  | inr e ↦ rw e (ground arith)
  | inl e ↦ rw e (
      need_from-le k len (need * 2)
        (omega (arith, mul_assoc need 2 (2 ^ k), ap (λ (a : ℕ). need * a) (pow-succ' 2 k))))
]

pub need_from-ge : (k len need : ℕ) → need ≤ need_from k len need
unfolding need_from
need_from-ge zero len need = omega arith
need_from-ge (suc k) len need = elim (Bool-cases (ltb need (len * 2))) [
  | inr e ↦ rw e (omega arith)
  | inl e ↦ rw e (omega (arith, need_from-ge k len (need * 2)))
]

pub double-le-pow : (n : ℕ) → n * 2 ≤ 16 * 2 ^ n
double-le-pow zero = omega arith
double-le-pow (suc n) = omega (arith, double-le-pow n, pow_pos n)
