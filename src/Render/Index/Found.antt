-- ===== src/Render/Index/Found.antt =====
-- What rmap_get() finds when a free slot is used for a new key.
use somewm.Common.{
  ℕ, zero, suc, ◌+◌, ◌-◌, ◌≡◌, ◌≢◌, refl, sym, ap, ◌∙◌, inl, inr, false, Option, none, some, ◌==◌,
  ==_iff, Bool-cases, Option-cases, some_eq, update, arith,
}
use somewm.Common.Bits.{bit_and}
use somewm.Render.{Slot, free_slot, find_slot}
use somewm.Render.Index.{
  IsRing, free_slot_free, free_slot_used, find_slot_free, find_slot_here, find_slot_other,
}

module _ (cap : ℕ) (ring : IsRing cap) (map : ℕ → Option Slot) where
  -- A search for a key that does not end is one for a free slot that does not end.
  pub find_slot-none :
      (n key s : ℕ) → find_slot n map (cap - 1) key s ≡ none → free_slot n map (cap - 1) s ≡ none
  unfolding free_slot
  find_slot-none zero key s h = refl
  find_slot-none (suc n) key s h = elim (Option-cases (map s)) [
    | inl f ↦ absurd (apart (sym (find_slot_free map (cap - 1) n s key f) ∙ h))
    | inr (e, f) ↦ elim (Bool-cases (e.key == key)) [
      | inl g ↦ absurd (apart (sym (find_slot_here map (cap - 1) n s key e f g) ∙ h))
      | inr g ↦
          free_slot_used map (cap - 1) n s e f
          ∙ find_slot-none n key (bit_and (s + 1) (cap - 1))
              (sym (find_slot_other map (cap - 1) n s key e f g) ∙ h)
    ]
  ]
    where
      apart : {o : Option ℕ} → some o ≢ none
      apart h = ground arith

  -- A key that no slot has.
  pub find_slot-absent :
      (n key s : ℕ)
      → ((q : ℕ) (e : Slot) → map q ≡ some e → (e.key == key) ≡ false)
      → find_slot n map (cap - 1) key s ≢ none
      → find_slot n map (cap - 1) key s ≡ some none
  unfolding find_slot
  find_slot-absent zero key s h d = absurd (d refl)
  find_slot-absent (suc n) key s h d = elim (Option-cases (map s)) [
    | inl f ↦ find_slot_free map (cap - 1) n s key f
    | inr (e, f) ↦
        let go = find_slot_other map (cap - 1) n s key e f (h s e f) in
        go ∙ find_slot-absent n key (bit_and (s + 1) (cap - 1)) h (λ x. d (go ∙ x))
  ]

  update_used :
      (p : ℕ) (new : Slot) (s : ℕ) (e : Slot)
      → map p ≡ none
      → map s ≡ some e
      → update map p (some new) s ≡ some e
  update_used p new s e f g = elim (Bool-cases (s == p)) [
    | inl y ↦ absurd (ground (arith, sym g ∙ ap map ((==_iff s p).0 y) ∙ f))
    | inr y ↦ rw y g
  ]

  -- What is found stays found when a free slot is used.
  pub find_slot-update :
      (p : ℕ) (new : Slot) (n key s i : ℕ)
      → map p ≡ none
      → find_slot n map (cap - 1) key s ≡ some (some i)
      → find_slot n (update map p (some new)) (cap - 1) key s ≡ some (some i)
  unfolding find_slot
  find_slot-update p new zero key s i f h = absurd (ground arith)
  find_slot-update p new (suc n) key s i f h = elim (Option-cases (map s)) [
    | inl g ↦ absurd (apart (sym (find_slot_free map (cap - 1) n s key g) ∙ h))
    | inr (e, g) ↦
        let same = update_used p new s e f g in
        elim (Bool-cases (e.key == key)) [
          | inl k ↦
              find_slot_here (update map p (some new)) (cap - 1) n s key e same k
              ∙ sym (find_slot_here map (cap - 1) n s key e g k)
              ∙ h
          | inr k ↦
              find_slot_other (update map p (some new)) (cap - 1) n s key e same k
              ∙ find_slot-update p new n key (bit_and (s + 1) (cap - 1)) i f
                  (sym (find_slot_other map (cap - 1) n s key e g k) ∙ h)
        ]
  ]
    where
      apart : some none ≢ some (some i)
      apart h = ground arith

  -- A new key is found in the slot that was the first free one.
  pub find_slot_new :
      (p : ℕ) (new : Slot) (n s : ℕ)
      → ((q : ℕ) (e : Slot) → map q ≡ some e → (e.key == new.key) ≡ false)
      → map p ≡ none
      → free_slot n map (cap - 1) s ≡ some p
      → find_slot n (update map p (some new)) (cap - 1) new.key s ≡ some (some new.index)
  unfolding find_slot free_slot
  find_slot_new p new zero s h k f = absurd (ground arith)
  find_slot_new p new (suc n) s h k f = elim (Option-cases (map s)) [
    | inl g ↦
        find_slot_here (update map p (some new)) (cap - 1) n s new.key new (put g)
          ((==_iff new.key new.key).1 refl)
    | inr (e, g) ↦
        let rest = sym (free_slot_used map (cap - 1) n s e g) ∙ f in
        find_slot_other (update map p (some new)) (cap - 1) n s new.key e
          (update_used p new s e k g) (h s e g)
        ∙ find_slot_new p new n (bit_and (s + 1) (cap - 1)) h k rest
  ]
    where
      put : map s ≡ none → update map p (some new) s ≡ some new
      put g = rw ((==_iff s p).1 (some_eq (sym (free_slot_free map (cap - 1) n s g) ∙ f))) refl
