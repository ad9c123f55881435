-- ===== src/Stack/Place.antt =====
-- `stack_place` is a depth-first walk: whatever it appends, it appends once and behind its parent, and
-- it leaves no client that rides a placed one unplaced.
use somewm.Common.{
  ℕ, zero, suc, ◌+◌, ◌≤◌, ◌<◌, ◌≡◌, refl, inl, inr, true, false, ◌&&◌, Option, none, some, List, [],
  ◌∷◌, ◌++◌, arith, ◌==◌, if◌then◌else◌, Bool-cases, ptr_eq, has, has-append, ==_iff,
}
use somewm.Stack.{stack_rides, place_riders, stack_place}

-- The clients of the old stack that are not placed yet.
abbrev pub missing : List ℕ → List ℕ → ℕ
missing [] out = 0
missing (x ∷ xs) out = (if has x out then 0 else 1) + missing xs out

abbrev pub Keeps : List ℕ → List ℕ → Type 0
Keeps out out' = (a : ℕ) → has a out ≡ true → has a out' ≡ true

pub missing-Keeps : (xs out out' : List ℕ) → Keeps out out' → missing xs out' ≤ missing xs out
missing-Keeps [] out out' k = omega arith
missing-Keeps (x ∷ xs) out out' k = ground (arith, missing-Keeps xs out out' k, k x)

Keeps-append : (c : ℕ) (out : List ℕ) → Keeps out (out ++ c ∷ [])
Keeps-append c out a h = ground (arith, has-append a out (c ∷ []))

has-append_self : (c : ℕ) (out : List ℕ) → has c (out ++ c ∷ []) ≡ true
has-append_self c out = ground (arith, has-append c out (c ∷ []))

missing-append :
    (c : ℕ) (xs out : List ℕ)
    → has c xs ≡ true
    → has c out ≡ false
    → missing xs (out ++ c ∷ []) < missing xs out
missing-append c [] out h n = absurd (ground arith)
missing-append c (x ∷ xs) out h n = ground (
  arith,
  missing-append c xs out,
  missing-Keeps xs out (out ++ c ∷ []) (Keeps-append c out),
  has-append x out (c ∷ []),
)

module _ (up : ℕ → Option ℕ) (old : List ℕ) where
  -- `y` is a stacked client that rides, and its parent is `a`.
  pub record IsRider (y a : ℕ) : Type 0 where
    pub stacked : has y old ≡ true
    pub rides : stack_rides up old y ≡ true
    pub parent : up y ≡ some a

  -- Where `x` may go behind `out`: at the root, or behind its parent.
  pub data IsDue (out : List ℕ) (x : ℕ) : Type 0 where
    root : stack_rides up old x ≡ false → IsDue out x
    behind : (p : ℕ) → up x ≡ some p → has p out ≡ true → IsDue out x

  -- The stacks that are built by appending old clients that are new to them and due.
  pub data Built : List ℕ → Type 0 where
    empty : Built []
    place :
        {out out' : List ℕ} (x : ℕ)
        → Built out
        → has x old ≡ true
        → has x out ≡ false
        → IsDue out x
        → out' ≡ out ++ x ∷ []
        → Built out'

  -- What a step from `out` to `out'` does: it keeps what is placed, and whatever it places has all
  -- its riders placed.
  pub record Grows (out out' : List ℕ) : Type 0 where
    pub built : Built out'
    pub keeps : Keeps out out'
    pub closed : (a y : ℕ) → has a out' ≡ true → has a out ≡ false → IsRider y a → has y out' ≡ true

  pub Grows-refl : {out : List ℕ} → Built out → Grows out out
  Grows-refl b = record { built = b; keeps = λ a h. h; closed = λ a y h n r. ground arith }

  pub Grows-trans : {out mid out' : List ℕ} → Grows out mid → Grows mid out' → Grows out out'
  Grows-trans {mid} g g' = record {
    built = g'.built;
    keeps = λ a h. g'.keeps a (g.keeps a h);
    closed = λ a y h n r. elim (Bool-cases (has a mid)) [
      | inl m ↦ g'.keeps y (g.closed a y m n r)
      | inr m ↦ g'.closed a y h m r
    ];
  }

  -- A placement with the fuel `k`.
  abbrev Places : (ℕ → List ℕ → List ℕ) → ℕ → Type 0
  Places f k =
      (c : ℕ) (out : List ℕ)
      → missing old out ≤ k
      → has c old ≡ true
      → IsDue out c
      → Built out
      → Grows out (f c out) × (has c (f c out) ≡ true)

  -- `xs` is part of the old stack.
  abbrev pub Within : List ℕ → Type 0
  Within xs = (a : ℕ) → has a xs ≡ true → has a old ≡ true

  Within-tail : (x : ℕ) (xs : List ℕ) → Within (x ∷ xs) → Within xs
  Within-tail x xs w a h = w a (ground arith)

  Within-head : (x : ℕ) (xs : List ℕ) → Within (x ∷ xs) → has x old ≡ true
  Within-head x xs w = w x (ground arith)

  place_riders-Grows :
      (f : ℕ → List ℕ → List ℕ) (k c : ℕ) (xs out : List ℕ)
      → Places f k
      → Within xs
      → missing old out ≤ k
      → has c out ≡ true
      → Built out
      → Grows out (place_riders up old f c xs out)
        × ((y : ℕ) → has y xs ≡ true → IsRider y c → has y (place_riders up old f c xs out) ≡ true)
  unfolding place_riders
  place_riders-Grows f k c [] out p w m here b = (Grows-refl b, λ y h r. ground arith)
  place_riders-Grows f k c (x ∷ xs) out p w m here b =
      elim (Bool-cases (stack_rides up old x && ptr_eq (up x) (some c))) [
        | inl rider ↦
            let (g, placed) =
              p x out m (Within-head x xs w) (behind c (up_eq (up x) rider) here) b in
            let (g', riders) =
              place_riders-Grows f k c xs (f x out) p (Within-tail x xs w)
                (omega (arith, missing-Keeps old out (f x out) g.keeps)) (g.keeps c here) g.built in
            rw rider (
              Grows-trans g g',
              λ y h r. elim (Bool-cases (x == y)) [
                | inl same ↦ ground (arith, g'.keeps y, placed)
                | inr other ↦ riders y (ground arith) r
              ],
            )
        | inr other ↦
            let (g, riders) = place_riders-Grows f k c xs out p (Within-tail x xs w) m here b in
            rw other (
              g,
              λ y h r. elim (Bool-cases (x == y)) [
                | inl same ↦ ground (arith, not_rider y r.rides r.parent)
                | inr differs ↦ riders y (ground arith) r
              ],
            )
      ]
    where
      up_eq : (o : Option ℕ) → (stack_rides up old x && ptr_eq o (some c)) ≡ true → o ≡ some c
      up_eq none h = ground arith
      up_eq (some q) h = ground arith

      not_rider :
          (y : ℕ)
          → stack_rides up old y ≡ true
          → up y ≡ some c
          → (stack_rides up old y && ptr_eq (up y) (some c)) ≡ true
      not_rider y r e = rw (r, e) (ground arith)

  -- With a round left for each client that is still missing, `stack_place` places its client, and
  -- closes under riders all that it appends.
  pub stack_place-Grows :
      (k c : ℕ) (out : List ℕ)
      → missing old out ≤ k
      → has c old ≡ true
      → IsDue out c
      → Built out
      → Grows out (stack_place up old k c out) × (has c (stack_place up old k c out) ≡ true)
  unfolding stack_place
  stack_place-Grows zero c out m h d b = (Grows-refl b, none_missing old m h)
    where
      none_missing : (xs : List ℕ) → missing xs out ≤ 0 → has c xs ≡ true → has c out ≡ true
      none_missing [] m h = absurd (ground arith)
      none_missing (x ∷ xs) m h = ground (arith, none_missing xs)
  stack_place-Grows (suc k) c out m h d b = elim (Bool-cases (has c out)) [
    | inl old_one ↦ rw old_one (Grows-refl b, old_one)
    | inr fresh ↦
        let (g, riders) =
          place_riders-Grows (stack_place up old k) k c old (out ++ c ∷ []) (stack_place-Grows k)
            (λ a i. i) (omega (arith, missing-append c old out h fresh)) (has-append_self c out)
            (place c b h fresh d refl) in
        rw fresh (
          record {
            built = g.built;
            keeps = λ a i. g.keeps a (Keeps-append c out a i);
            closed = λ a y i n r. elim (Bool-cases (c == a)) [
              | inl same ↦ riders y r.stacked (rw ((==_iff c a).0 same) r)
              | inr other ↦ g.closed a y i (ground (arith, has-append a out (c ∷ []))) r
            ];
          },
          g.keeps c (has-append_self c out),
        )
  ]
