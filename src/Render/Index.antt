-- ===== src/Render/Index.antt =====
-- The searches of the hash index, in a map of `cap` slots.
pub mod Found
pub mod Built
pub mod Capacity
pub mod Lookup
use somewm.Common.{
  ℕ, zero, suc, ◌+◌, ◌-◌, ◌≤◌, ◌<◌, ◌≡◌, ◌≢◌, ◌⊎◌, refl, sym, ap, subst, ◌∙◌, inl, inr, Bool, true,
  false, Option, none, some, List, [], ◌∷◌, ◌==◌, ltb, ==_iff, Bool-cases, Option-cases, some_eq,
  if◌then◌else◌, update, has, arith,
}
use somewm.Common.Bits.{bit_and}
use somewm.Render.{Slot, free_slot, find_slot}

-- The places of a map, one after the other and round.
pub record IsRing (cap : ℕ) : Type 0 where
  pub positive : 0 < cap
  pub below : (a : ℕ) → bit_and a (cap - 1) < cap
  pub steps : (s : ℕ) → s + 1 < cap → bit_and (s + 1) (cap - 1) ≡ s + 1
  pub wraps : (s : ℕ) → s + 1 ≡ cap → bit_and (s + 1) (cap - 1) ≡ 0

abbrev pub is_used : Option Slot → Bool
is_used none = false
is_used (some e) = true

-- How many of the first slots are used.
abbrev pub used_count : (ℕ → Option Slot) → ℕ → ℕ
used_count map zero = 0
used_count map (suc k) = (if is_used (map k) then 1 else 0) + used_count map k

used_count_full :
    (map : ℕ → Option Slot) (k : ℕ)
    → ((q : ℕ) → q < k → is_used (map q) ≡ true)
    → used_count map k ≡ k
used_count_full map zero h = refl
used_count_full map (suc k) h =
    rw (h k (omega arith), used_count_full map k (λ q l. h q (omega arith))) (omega arith)

pub used_count-update_above :
    (map : ℕ → Option Slot) (p : ℕ) (e : Slot) (k : ℕ)
    → k ≤ p
    → used_count (update map p (some e)) k ≡ used_count map k
used_count-update_above map p e zero l = refl
used_count-update_above map p e (suc k) l =
    ground (arith, used_count-update_above map p e k (omega arith))

pub used_count-update :
    (map : ℕ → Option Slot) (p : ℕ) (e : Slot) (k : ℕ)
    → map p ≡ none
    → p < k
    → used_count (update map p (some e)) k ≡ suc (used_count map k)
used_count-update map p e zero h l = absurd (omega arith)
used_count-update map p e (suc k) h l = elim (Bool-cases (k == p)) [
  | inl y ↦
      rw (y, ap map ((==_iff k p).0 y) ∙ h, used_count-update_above map p e k (ground arith))
        (omega arith)
  | inr y ↦ rw (y, used_count-update map p e k h (ground arith)) (omega arith)
]

module _ (map : ℕ → Option Slot) (mask n s : ℕ) where
  pub free_slot_free : map s ≡ none → free_slot (suc n) map mask s ≡ some s
  unfolding free_slot
  free_slot_free f = rw (f, free_slot) refl

  pub free_slot_used :
      (e : Slot)
      → map s ≡ some e
      → free_slot (suc n) map mask s ≡ free_slot n map mask (bit_and (s + 1) mask)
  unfolding free_slot
  free_slot_used e f = rw (f, free_slot) refl

  pub find_slot_free : (key : ℕ) → map s ≡ none → find_slot (suc n) map mask key s ≡ some none
  unfolding find_slot
  find_slot_free key f = rw (f, find_slot) refl

  pub find_slot_here :
      (key : ℕ) (e : Slot)
      → map s ≡ some e
      → (e.key == key) ≡ true
      → find_slot (suc n) map mask key s ≡ some (some e.index)
  unfolding find_slot
  find_slot_here key e f g = rw (f, find_slot) (rw g refl)

  pub find_slot_other :
      (key : ℕ) (e : Slot)
      → map s ≡ some e
      → (e.key == key) ≡ false
      → find_slot (suc n) map mask key s ≡ find_slot n map mask key (bit_and (s + 1) mask)
  unfolding find_slot
  find_slot_other key e f g = rw (f, find_slot) (rw g refl)

module _ (cap : ℕ) (ring : IsRing cap) (map : ℕ → Option Slot) where
  -- A search that does not end has seen used slots only.
  unended :
      (n s : ℕ)
      → s < cap
      → free_slot n map (cap - 1) s ≡ none
      → (q : ℕ) → q < cap
      → (s ≤ q → q < s + n → is_used (map q) ≡ true)
        × (q < s → q + cap < s + n → is_used (map q) ≡ true)
  unfolding free_slot
  unended zero s l h q m = (λ a b. absurd (omega arith), λ a b. absurd (omega arith))
  unended (suc n) s l h q m = elim (Option-cases (map s)) [
    | inl e ↦ absurd (ground (arith, e))
    | inr (e, f) ↦
        let t = bit_and (s + 1) (cap - 1) in
        let (ahead, behind) = unended n t (ring.below (s + 1)) (later e f h) q m in
        elim (Bool-cases (s + 1 == cap)) [
          | inl y ↦
              let at = ring.wraps s (ground arith) in
              (
                λ a b. here e f q a (omega (arith, (==_iff (s + 1) cap).0 y)),
                λ a b. ahead (omega (arith, at)) (omega (arith, at, (==_iff (s + 1) cap).0 y)),
              )
          | inr y ↦
              let at = ring.steps s (ground arith) in
              (
                λ a b. elim (Bool-cases (q == s)) [
                  | inl g ↦ here e f q a (ground arith)
                  | inr g ↦ ahead (ground (arith, at)) (omega (arith, at))
                ],
                λ a b. behind (omega (arith, at)) (omega (arith, at)),
              )
        ]
  ]
    where
      later :
          (e : Slot)
          → map s ≡ some e
          → free_slot (suc n) map (cap - 1) s ≡ none
          → free_slot n map (cap - 1) (bit_and (s + 1) (cap - 1)) ≡ none
      later e f h = go (map s) f h
        where
          go :
              (o : Option Slot)
              → o ≡ some e
              → elim o [
                | none ↦ some s
                | some _ ↦ free_slot n map (cap - 1) (bit_and (s + 1) (cap - 1))
              ]
                ≡ none
              → free_slot n map (cap - 1) (bit_and (s + 1) (cap - 1)) ≡ none
          go none g k = absurd (ground arith)
          go (some x) g k = k

      here : (e : Slot) → map s ≡ some e → (q : ℕ) → s ≤ q → q ≤ s → is_used (map q) ≡ true
      here e f q a b = subst (λ (x : ℕ). is_used (map x) ≡ true) (omega arith) (ap is_used f)

  pub free_slot-ends :
      (s : ℕ)
      → s < cap
      → used_count map cap < cap
      → (p : ℕ) × (free_slot cap map (cap - 1) s ≡ some p)
  free_slot-ends s l f = elim (Option-cases (free_slot cap map (cap - 1) s)) [
    | inr x ↦ x
    | inl h ↦ absurd (omega (arith, used_count_full map cap (full h)))
  ]
    where
      full : free_slot cap map (cap - 1) s ≡ none → (q : ℕ) → q < cap → is_used (map q) ≡ true
      full h q m = elim (Bool-cases (ltb q s)) [
        | inl y ↦ (unended cap s l h q m).1 (ground arith) (ground arith)
        | inr y ↦ (unended cap s l h q m).0 (ground arith) (ground arith)
      ]

  pub free_slot-free :
      (n s p : ℕ) → s < cap → free_slot n map (cap - 1) s ≡ some p → (map p ≡ none) × (p < cap)
  unfolding free_slot
  free_slot-free zero s p l h = absurd (ground arith)
  free_slot-free (suc n) s p l h = elim (Option-cases (map s)) [
    | inl f ↦
        subst (λ (x : ℕ). (map x ≡ none) × (x < cap))
          (some_eq (sym (free_slot_free map (cap - 1) n s f) ∙ h)) (f, l)
    | inr (e, f) ↦
        free_slot-free n (bit_and (s + 1) (cap - 1)) p (ring.below (s + 1))
          (sym (free_slot_used map (cap - 1) n s e f) ∙ h)
  ]
