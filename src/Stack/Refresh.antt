-- ===== src/Stack/Refresh.antt =====
-- `stack_refresh`: the new order has the old clients, each once, and every transient above its parent.
use somewm.Common.{
  ℕ, zero, suc, ◌+◌, ◌≤◌, ◌<◌, ◌≡◌, ◌↔◌, refl, sym, subst, ◌∙◌, inl, inr, Bool, true, false, Option,
  some, List, [], ◌∷◌, ◌++◌, arith, ◌==◌, if◌then◌else◌, Bool-cases, has, count, Nodup, has-append,
  append-Nodup, count_once, count_none, length,
}
use somewm.World.{World, parent}
use somewm.Stack.{stack_rides, stack_place, place_roots, restack, stack_refresh}
use somewm.Stack.Chain.{
  Parent, parent_of, Leads, here, next, stack_rides-Leads, stack_rides-Parent, Leads-stack_rides,
}
use somewm.Stack.Place.{
  missing, missing-Keeps, IsRider, IsDue, root, behind, Built, empty, place, Grows, Grows-refl,
  Grows-trans, Within, stack_place-Grows,
}

-- `p` occurs in the list, and `x` occurs behind the first `p` and not before it.
abbrev pub below : ℕ → ℕ → List ℕ → Bool
below p x [] = false
below p x (y ∷ ys) = if y == p then has x ys else if y == x then false else below p x ys

below-append : (p x z : ℕ) (xs : List ℕ) → below p x xs ≡ true → below p x (xs ++ z ∷ []) ≡ true
below-append p x z [] h = absurd (ground arith)
below-append p x z (y ∷ ys) h = ground (arith, below-append p x z ys, has-append x ys (z ∷ []))

below-append_last :
    (p x : ℕ) (xs : List ℕ) → has p xs ≡ true → has x xs ≡ false → below p x (xs ++ x ∷ []) ≡ true
below-append_last p x [] h n = absurd (ground arith)
below-append_last p x (y ∷ ys) h n =
    ground (arith, below-append_last p x ys, has-append x ys (x ∷ []))

module _ (up : ℕ → Option ℕ) (old : List ℕ) where
  Built-Nodup : {out : List ℕ} → Built up old out → Nodup out
  Built-Nodup empty = tt
  Built-Nodup (place {out} x b h n d e) = rw e (append-Nodup x out (Built-Nodup b) n)

  Built-stacked : {out : List ℕ} (a : ℕ) → Built up old out → has a out ≡ true → has a old ≡ true
  Built-stacked a empty h = absurd (ground arith)
  Built-stacked a (place {out} x b s n d e) h =
      ground (arith, Built-stacked a b, has-append a out (x ∷ []))

  due_below :
      {out : List ℕ} (x a : ℕ)
      → IsRider up old x a
      → has x out ≡ false
      → IsDue up old out x
      → below a x (out ++ x ∷ []) ≡ true
  due_below x a r n (root still) = absurd (ground (arith, r.rides))
  due_below {out} x a r n (behind p e h) = below-append_last a x out (ground (arith, r.parent)) n

  due_below_as :
      {out : List ℕ} (x y a : ℕ)
      → x ≡ y
      → IsRider up old x a
      → has x out ≡ false
      → IsDue up old out y
      → below a x (out ++ y ∷ []) ≡ true
  due_below_as x y a same r n d =
      rw (← same) (due_below x a r n (subst (IsDue up old _) (sym same) d))

  Built-below :
      {out : List ℕ} (x a : ℕ)
      → IsRider up old x a
      → Built up old out
      → has x out ≡ true
      → below a x out ≡ true
  Built-below x a r empty h = absurd (ground arith)
  Built-below x a r (place {out} y b s n d e) h = elim (Bool-cases (has x out)) [
    | inl before ↦ rw e (below-append a x y out (Built-below x a r b before))
    | inr now ↦
        let h' : has x (out ++ y ∷ []) ≡ true = rw (← e) h in
        rw e (due_below_as x y a (ground (arith, has-append x out (y ∷ []))) r now d)
  ]

  place_roots-Grows :
      (xs out : List ℕ)
      → Within up old xs
      → missing old out ≤ length old
      → Built up old out
      → Grows up old out (place_roots up old (length old) xs out)
        × ((y : ℕ)
            → has y xs ≡ true
            → stack_rides up old y ≡ false
            → has y (place_roots up old (length old) xs out) ≡ true)
  unfolding place_roots
  place_roots-Grows [] out w m b = (Grows-refl up old b, λ y h r. ground arith)
  place_roots-Grows (x ∷ xs) out w m b = elim (Bool-cases (stack_rides up old x)) [
    | inl rider ↦
        let (g, placed) = place_roots-Grows xs out (λ a h. w a (ground arith)) m b in
        rw rider (g, λ y h r. placed y (ground arith) r)
    | inr free ↦
        let (g, self) =
          stack_place-Grows up old (length old) x out m (w x (ground arith)) (root free) b in
        let (g', placed) =
          place_roots-Grows xs (stack_place up old (length old) x out) (λ a h. w a (ground arith))
            (omega (arith, missing-Keeps old out _ g.keeps)) g.built in
        rw free (
          Grows-trans up old g g',
          λ y h r. elim (Bool-cases (x == y)) [
            | inl same ↦ ground (arith, g'.keeps y, self)
            | inr other ↦ placed y (ground arith) r
          ],
        )
  ]

  missing-le : (xs out : List ℕ) → missing xs out ≤ length xs
  missing-le [] out = omega arith
  missing-le (x ∷ xs) out = ground (arith, missing-le xs out)

  restack-Grows :
      Grows up old [] (restack up old)
      × ((y : ℕ) → has y old ≡ true → stack_rides up old y ≡ false → has y (restack up old) ≡ true)
  unfolding restack
  restack-Grows = place_roots-Grows old [] (λ a h. h) (missing-le old []) empty

  top_has_none : (x p : ℕ) → Leads up old zero x → Parent up old x p → ⊥
  top_has_none x p (here t) (parent_of e s) = ground (arith, t.top p e)

  -- By the way up to the top: whoever leads there is placed.
  Leads-placed :
      (k x : ℕ)
      → k < length old
      → has x old ≡ true
      → Leads up old k x
      → has x (restack up old) ≡ true
  Leads-placed zero x lt h l = elim (Bool-cases (stack_rides up old x)) [
    | inl r ↦ let (p, q) = stack_rides-Parent up old x r in absurd (top_has_none x p l q)
    | inr r ↦ restack-Grows.1 x h r
  ]
  Leads-placed (suc k) x lt h (next {p} (parent_of e s) l) =
      restack-Grows.0.closed p x (Leads-placed k p (omega arith) s l) refl (record {
        stacked = h;
        rides = Leads-stack_rides up old (suc k) x p (parent_of e s) (next (parent_of e s) l) lt;
        parent = e;
      })

  restack-placed : (x : ℕ) → has x old ≡ true → has x (restack up old) ≡ true
  restack-placed x h = elim (Bool-cases (stack_rides up old x)) [
    | inl r ↦ let (k, lt, l) = stack_rides-Leads up old x r in Leads-placed k x lt h l
    | inr r ↦ restack-Grows.1 x h r
  ]

  restack-count : (x : ℕ) → Nodup old → count x (restack up old) ≡ count x old
  restack-count x n = elim (Bool-cases (has x old)) [
    | inl h ↦
        count_once x _ (Built-Nodup restack-Grows.0.built) (restack-placed x h)
        ∙ sym (count_once x old n h)
    | inr h ↦
        count_none x _ (ground (arith, Built-stacked x restack-Grows.0.built))
        ∙ sym (count_none x old h)
  ]

  restack-below :
      (x a : ℕ)
      → has x old ≡ true
      → stack_rides up old x ≡ true
      → up x ≡ some a
      → below a x (restack up old) ≡ true
  restack-below x a h r e =
      Built-below x a (record { stacked = h; rides = r; parent = e }) restack-Grows.0.built
        (restack-placed x h)

-- `stack_refresh` reorders and nothing else: in a stack with no client twice, every client is there
-- as often as before, whatever the parent pointers are, cycles included.
pub stack_refresh-count :
    (w : World) (x : ℕ)
    → Nodup w.stack
    → (count x (stack_refresh w).stack ≡ count x w.stack)
      × ((stack_refresh w).need_stack_refresh ≡ false)
unfolding stack_refresh
stack_refresh-count w x n = elim (Bool-cases w.need_stack_refresh) [
  | inl h ↦ rw h (restack-count (parent w) w.stack x n, refl)
  | inr h ↦ rw h (refl, refl)
]

-- After a refresh that was due, every stacked client whose chain of parents ends within the stack
-- stands above its parent.
pub stack_refresh-below :
    (w : World) (x p : ℕ)
    → w.need_stack_refresh ≡ true
    → has x w.stack ≡ true
    → stack_rides (parent w) w.stack x ≡ true
    → parent w x ≡ some p
    → below p x (stack_refresh w).stack ≡ true
unfolding stack_refresh
stack_refresh-below w x p due h r e = rw due (restack-below (parent w) w.stack x p h r e)

module _ (up : ℕ → Option ℕ) (old : List ℕ) where
  rides_parts :
      (x k : ℕ)
      → stack_rides up old x ≡ true
      → k < length old
      → Leads up old k x
      → (p : ℕ) × (d : ℕ) × Parent up old x p × Leads up old d p × (d + 1 < length old)
  rides_parts x zero r lt l =
      let (p, q) = stack_rides-Parent up old x r in absurd (top_has_none up old x p l q)
  rides_parts x (suc k) r lt (next {p} q l) = (p, k, q, l, omega arith)

  -- A client rides exactly if it has a stacked parent from which fewer parents than the stack is
  -- long lead to a client whose own parent is not stacked: a client on a cycle never rides.
  pub stack_rides_iff :
      (x : ℕ)
      → (stack_rides up old x ≡ true)
        ↔ ((p : ℕ) × (d : ℕ) × Parent up old x p × Leads up old d p × (d + 1 < length old))
  stack_rides_iff x = (
    λ r. let (k, lt, l) = stack_rides-Leads up old x r in rides_parts x k r lt l,
    λ (p, d, q, l, lt). Leads-stack_rides up old (suc d) x p q (next q l) (omega arith),
  )
