-- ===== src/Stack/Chain.antt =====
-- What `stack_rides` decides: whether the chain of parents leads, within the stack, to a client that
-- is no transient of a stacked one.
use somewm.Common.{
  ℕ, zero, suc, ◌<◌, ◌≡◌, ◌≢◌, ap, ◌∙◌, ◌⊎◌, inl, inr, true, false, Option, some, List, arith,
  Bool-cases, Option-cases, has, length,
}
use somewm.Stack.{rides_loop, stack_rides}

module _ (up : ℕ → Option ℕ) (old : List ℕ) where
  -- The parent of `x`, if it is stacked.
  pub data Parent (x : ℕ) (p : ℕ) : Type 0 where
    parent_of : up x ≡ some p → has p old ≡ true → Parent x p

  pub record IsTop (x : ℕ) : Type 0 where
    pub top : (q : ℕ) → up x ≡ some q → has q old ≡ false

  -- After `k` parents the chain of `x` is at its top.
  pub data Leads : ℕ → ℕ → Type 0 where
    here : {x : ℕ} → IsTop x → Leads zero x
    next : {k x p : ℕ} → Parent x p → Leads k p → Leads (suc k) x

  IsTop-or_Parent : (x : ℕ) → IsTop x ⊎ ((p : ℕ) × Parent x p)
  IsTop-or_Parent x = elim (Option-cases (up x)) [
    | inl e ↦ inl (record { top = λ q h. cc })
    | inr (q, e) ↦ elim (Bool-cases (has q old)) [
      | inl h ↦ inr (q, parent_of e h)
      | inr h ↦ inl (record { top = λ r e'. ground arith })
    ]
  ]

  rides_loop-Leads : (n c p : ℕ) → rides_loop up old n c p ≡ true → (k : ℕ) × (k < n) × Leads k p
  unfolding rides_loop
  rides_loop-Leads zero c p h = absurd (ground arith)
  rides_loop-Leads (suc n) c p h = elim (IsTop-or_Parent p) [
    | inl t ↦ (0, omega arith, here t)
    | inr (q, parent_of e s) ↦
        let (k, lt, l) = rides_loop-Leads n c q (ground arith) in
        (suc k, omega arith, next (parent_of e s) l)
  ]

  top-not-Parent : {x p q : ℕ} → IsTop x → Parent p q → x ≢ p
  top-not-Parent {x} {p} {q} t (parent_of e s) same =
      let h : has q old ≡ false = t.top q (ap up same ∙ e) in ground arith

  -- From a client below the top, the loop runs up to the top and answers yes.
  rides_loop-true :
      (n k c p q : ℕ) → Parent c q → Leads k p → k < n → rides_loop up old n c p ≡ true
  unfolding rides_loop
  rides_loop-true zero k c p q below l lt = absurd (omega arith)
  rides_loop-true (suc n) zero c p q below (here t) lt = elim (Option-cases (up p)) [
    | inl e ↦ ground (arith, top-not-Parent t below)
    | inr (r, e) ↦ ground (arith, top-not-Parent t below, t.top r e)
  ]
  rides_loop-true (suc n) (suc k) c p q below (next {p = r} (parent_of e s) l) lt =
      ground (arith, rides_loop-true n k c r q below l)

  pub stack_rides-Leads :
      (x : ℕ) → stack_rides up old x ≡ true → (k : ℕ) × (k < length old) × Leads k x
  unfolding stack_rides
  stack_rides-Leads x h = rides_loop-Leads (length old) x x h

  -- A client that rides has a stacked parent.
  pub stack_rides-Parent : (x : ℕ) → stack_rides up old x ≡ true → (p : ℕ) × Parent x p
  unfolding stack_rides rides_loop
  stack_rides-Parent x h = elim (IsTop-or_Parent x) [
    | inl t ↦ absurd (top_rides (length old) t h)
    | inr found ↦ found
  ]
    where
      top_rides : (n : ℕ) → IsTop x → rides_loop up old n x x ≡ true → ⊥
      top_rides zero t h = ground arith
      top_rides (suc n) t h = elim (Option-cases (up x)) [
        | inl e ↦ ground arith
        | inr (r, e) ↦ ground (arith, t.top r e)
      ]

  -- And every client below a top that is fewer parents away than the stack is long rides.
  pub Leads-stack_rides :
      (k x q : ℕ) → Parent x q → Leads k x → k < length old → stack_rides up old x ≡ true
  unfolding stack_rides
  Leads-stack_rides k x q below l lt = rides_loop-true (length old) k x x q below l lt
