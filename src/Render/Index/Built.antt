-- ===== src/Render/Index/Built.antt =====
-- rmap_rebuild() makes a map in which rmap_get() finds what a search of the nodes finds.
use somewm.Common.{
  ℕ, zero, suc, ◌+◌, ◌-◌, ◌<◌, ◌≡◌, ◌≢◌, refl, sym, ap, subst, ◌∙◌, inl, inr, true, false, ◌||◌,
  Option, none, some, List, [], ◌∷◌, ◌++◌, map, ◌==◌, ==_iff, Bool-cases, some_eq, if◌then◌else◌,
  update, has, has-append, length, length-append, arith,
}
use mathlib.Core.List.{append-nil, append_assoc}
use somewm.Common.Bits.{bit_and}
use somewm.Render.{Slot, Rnode, rmap_hash, free_slot, find_slot, index_nodes}
use somewm.Render.Index.{IsRing, used_count, used_count-update, free_slot-ends, free_slot-free}
use somewm.Render.Index.Found.{find_slot-none, find_slot-absent, find_slot-update, find_slot_new}

-- The first place of a key, counted from `i`.
abbrev pub index_from : ℕ → ℕ → List ℕ → Option ℕ
index_from i key [] = none
index_from i key (k ∷ ks) = if k == key then some i else index_from (suc i) key ks

abbrev pub keys : List Rnode → List ℕ
keys ns = map (λ (n : Rnode). n.key) ns

index_from-append :
    (i key k : ℕ) (ks : List ℕ)
    → has key ks ≡ true
    → index_from i key (ks ++ k ∷ []) ≡ index_from i key ks
index_from-append i key k [] h = absurd (ground arith)
index_from-append i key k (x ∷ ks) h = elim (Bool-cases (x == key)) [
  | inl e ↦ rw e refl
  | inr e ↦ rw e (index_from-append (suc i) key k ks (ground arith))
]

index_from_last :
    (i k : ℕ) (ks : List ℕ)
    → has k ks ≡ false
    → index_from i k (ks ++ k ∷ []) ≡ some (i + length ks)
index_from_last i k [] h = ground arith
index_from_last i k (x ∷ ks) h = elim (Bool-cases (x == k)) [
  | inl e ↦ absurd (ground arith)
  | inr e ↦ rw e (index_from_last (suc i) k ks (ground arith) ∙ ap some (omega arith))
]

pub index_from-has :
    (i key : ℕ) (ks : List ℕ) → has key ks ≡ true → (j : ℕ) × (index_from i key ks ≡ some j)
index_from-has i key [] h = absurd (ground arith)
index_from-has i key (x ∷ ks) h = elim (Bool-cases (x == key)) [
  | inl e ↦ (i, rw e refl)
  | inr e ↦ let (j, f) = index_from-has (suc i) key ks (ground arith) in (j, rw e f)
]

index_from-none : (i key : ℕ) (ks : List ℕ) → has key ks ≡ false → index_from i key ks ≡ none
index_from-none i key [] h = refl
index_from-none i key (x ∷ ks) h = ground (arith, index_from-none (suc i) key ks)

-- The slots is an index of the keys.
pub record IsIndexed (cap : ℕ) (slots : ℕ → Option Slot) (ks : List ℕ) : Type 0 where
  pub held : (q : ℕ) (e : Slot) → slots q ≡ some e → has e.key ks ≡ true
  pub found :
      (key : ℕ)
      → has key ks ≡ true
      → find_slot cap slots (cap - 1) key (bit_and (rmap_hash key) (cap - 1))
        ≡ some (index_from 0 key ks)
  pub count : used_count slots cap ≡ length ks

module _ (cap : ℕ) (ring : IsRing cap) where
  step-IsIndexed :
      (slots : ℕ → Option Slot) (ks : List ℕ) (k i p : ℕ)
      → i ≡ length ks
      → IsIndexed cap slots ks
      → free_slot cap slots (cap - 1) (bit_and (rmap_hash k) (cap - 1)) ≡ some p
      → IsIndexed cap (update slots p (some (record { key = k; index = i }))) (ks ++ k ∷ [])
  step-IsIndexed slots ks k i p w x f = record {
    held = holds;
    found = finds;
    count =
        used_count-update slots p new cap free.0 free.1
        ∙ ap suc x.count
        ∙ sym (length-append ks (k ∷ []) ∙ omega arith);
  }
    where
      new : Slot
      new = record { key = k; index = i }

      free : (slots p ≡ none) × (p < cap)
      free =
          free_slot-free cap ring slots cap (bit_and (rmap_hash k) (cap - 1)) p
            (ring.below (rmap_hash k)) f

      put : (q : ℕ) → (q == p) ≡ true → update slots p (some new) q ≡ some new
      put q y = rw y refl

      kept : (q : ℕ) → (q == p) ≡ false → update slots p (some new) q ≡ slots q
      kept q y = rw y refl

      holds :
          (q : ℕ) (e : Slot)
          → update slots p (some new) q ≡ some e
          → has e.key (ks ++ k ∷ []) ≡ true
      holds q e h = elim (Bool-cases (q == p)) [
        | inl y ↦
            let same = ap (λ (s : Slot). s.key) (some_eq (sym (put q y) ∙ h)) in
            subst (λ (a : ℕ). has a (ks ++ k ∷ []) ≡ true) same
              (has-append k ks (k ∷ []) ∙ ground arith)
        | inr y ↦ has-append e.key ks (k ∷ []) ∙ ground (arith, x.held q e (sym (kept q y) ∙ h))
      ]

      last : (key : ℕ) → (has key ks || has key (k ∷ [])) ≡ true → has key ks ≡ false → k ≡ key
      last key h y = ground arith

      absent : has k ks ≡ false → (q : ℕ) (e : Slot) → slots q ≡ some e → (e.key == k) ≡ false
      absent y q e g = elim (Bool-cases (e.key == k)) [
        | inr z ↦ z
        | inl z ↦ absurd (
            ground
              (arith, y, subst (λ (a : ℕ). has a ks ≡ true) ((==_iff e.key k).0 z) (x.held q e g)))
      ]

      finds :
          (key : ℕ)
          → has key (ks ++ k ∷ []) ≡ true
          → find_slot cap
              (update slots p (some new))
              (cap - 1)
              key
              (bit_and (rmap_hash key) (cap - 1))
            ≡ some (index_from 0 key (ks ++ k ∷ []))
      finds key h = elim (Bool-cases (has key ks)) [
        | inl y ↦
            let (j, g) = index_from-has 0 key ks y in
            find_slot-update cap ring slots p new cap key _ j free.0 (x.found key y ∙ ap some g)
            ∙ ap some (sym (index_from-append 0 key k ks y ∙ g))
        | inr y ↦
            let same = last key (sym (has-append key ks (k ∷ [])) ∙ h) y in
            subst
              (λ (a : ℕ).
                find_slot cap (update slots p (some new)) (cap - 1) a
                  (bit_and (rmap_hash a) (cap - 1))
                ≡ some (index_from 0 a (ks ++ k ∷ [])))
              same
              (find_slot_new cap ring slots p new cap _ (absent (rw same y)) free.0 f
                ∙ ap some (sym (index_from_last 0 k ks (rw same y) ∙ ap some (omega arith))))
      ]

  pub index_nodes-IsIndexed :
      (ns : List Rnode) (slots : ℕ → Option Slot) (ks : List ℕ) (i : ℕ)
      → i ≡ length ks
      → IsIndexed cap slots ks
      → length ks + length ns < cap
      → (slots' : ℕ → Option Slot) × (index_nodes cap slots i ns ≡ some slots')
        × IsIndexed cap slots' (ks ++ keys ns)
  unfolding index_nodes
  index_nodes-IsIndexed [] slots ks i w x l =
      (slots, refl, subst (IsIndexed cap slots) (sym (append-nil ks)) x)
  index_nodes-IsIndexed (n ∷ ns) slots ks i w x l =
      let home = bit_and (rmap_hash n.key) (cap - 1) in
      let (p, f) =
        free_slot-ends cap ring slots home (ring.below (rmap_hash n.key))
          (omega (arith, x.count)) in
      let slots1 = update slots p (some (record { key = n.key; index = i })) in
      let (slots', g, y) =
        index_nodes-IsIndexed ns slots1 (ks ++ n.key ∷ []) (suc i)
          (omega (arith, length-append ks (n.key ∷ []))) (step-IsIndexed slots ks n.key i p w x f)
          (omega (arith, length-append ks (n.key ∷ []))) in
      (
        slots',
        rw (f, index_nodes) g,
        subst (IsIndexed cap slots') (append_assoc ks (n.key ∷ []) (keys ns)) y,
      )

  -- With no key, every search is at its end at once.
  pub IsIndexed-none : IsIndexed cap (λ s. none) []
  IsIndexed-none = record {
    held = λ q e h. absurd (ground arith);
    found = λ key h. absurd (ground arith);
    count = none_used cap;
  }
    where
      none_used : (k : ℕ) → used_count (λ s. none) k ≡ 0
      none_used zero = refl
      none_used (suc k) = omega (arith, none_used k)

  pub find_slot-index :
      (slots : ℕ → Option Slot) (ks : List ℕ) (key : ℕ)
      → IsIndexed cap slots ks
      → length ks < cap
      → find_slot cap slots (cap - 1) key (bit_and (rmap_hash key) (cap - 1))
        ≡ some (index_from 0 key ks)
  find_slot-index slots ks key x l = elim (Bool-cases (has key ks)) [
    | inl y ↦ x.found key y
    | inr y ↦
        find_slot-absent cap ring slots cap key _ (absent y)
          (λ h. never (find_slot-none cap ring slots cap key _ h))
        ∙ ap some (sym (index_from-none 0 key ks y))
  ]
    where
      absent : has key ks ≡ false → (q : ℕ) (e : Slot) → slots q ≡ some e → (e.key == key) ≡ false
      absent y q e g = elim (Bool-cases (e.key == key)) [
        | inr z ↦ z
        | inl z ↦ absurd (
            ground (
              arith,
              y,
              subst (λ (a : ℕ). has a ks ≡ true) ((==_iff e.key key).0 z) (x.held q e g),
            ))
      ]

      never : free_slot cap slots (cap - 1) (bit_and (rmap_hash key) (cap - 1)) ≢ none
      never h = absurd (
          let (p, f) =
            free_slot-ends cap ring slots _ (ring.below (rmap_hash key)) (omega (arith, x.count)) in
          ground (arith, sym f ∙ h))
