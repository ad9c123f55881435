-- ===== src/Render/Restack/Placed.antt =====
-- The siblings under a move of one node.
use somewm.Common.{
  ℕ, ◌≡◌, ◌≢◌, refl, sym, ap, subst, ◌∙◌, inl, inr, Bool, true, false, Option, none, some, List, [],
  ◌∷◌, ◌++◌, ◌==◌, ==_iff, Bool-cases, some_eq, if◌then◌else◌, ptr_eq, has, has-append, erase,
  Nodup, has-erase_self, has-erase_ne, arith,
}
use somewm.Render.Restack.{placed_below}

-- The siblings that are not kept dark.
abbrev pub visible : (ℕ → Bool) → List ℕ → List ℕ
visible dark [] = []
visible dark (x ∷ xs) = if dark x then visible dark xs else x ∷ visible dark xs

-- The nodes of the commands that realized one.
abbrev pub realized : List (Option ℕ) → List ℕ
realized [] = []
realized (none ∷ ns) = realized ns
realized (some n ∷ ns) = n ∷ realized ns

abbrev pub insert_above : ℕ → ℕ → List ℕ → List ℕ
insert_above n b [] = []
insert_above n b (x ∷ xs) = if x == b then x ∷ n ∷ xs else x ∷ insert_above n b xs

-- wlr_scene_node_place_above() puts the node right above the other, and
-- wlr_scene_node_lower_to_bottom() below all.
pub record IsMoving (place_above : ℕ → ℕ → List ℕ → List ℕ) (lower_to_bottom : ℕ → List ℕ → List ℕ)
    : Type 0 where
  pub above : (n b : ℕ) (xs : List ℕ) → place_above n b xs ≡ insert_above n b (erase n xs)
  pub bottom : (n : ℕ) (xs : List ℕ) → lower_to_bottom n xs ≡ n ∷ erase n xs

-- What is under a node in a list.
abbrev pub pred : ℕ → Option ℕ → List ℕ → Option ℕ
pred n under [] = under
pred n under (x ∷ xs) = if x == n then under else pred n (some x) xs

module _ (dark : ℕ → Bool) where
  pub placed_below-pred :
      (n : ℕ) (under : Option ℕ) (xs : List ℕ)
      → dark n ≡ false
      → placed_below dark n under xs ≡ pred n under (visible dark xs)
  unfolding placed_below
  placed_below-pred n under [] h = refl
  placed_below-pred n under (x ∷ xs) h = elim (Bool-cases (x == n)) [
    | inl e ↦ rw (e, ap dark ((==_iff x n).0 e) ∙ h) (rw e refl)
    | inr e ↦ elim (Bool-cases (dark x)) [
      | inl d ↦ rw (e, d) (placed_below-pred n under xs h)
      | inr d ↦ rw (e, d) (rw e (placed_below-pred n (some x) xs h))
    ]
  ]

  pub visible-erase :
      (n : ℕ) (xs : List ℕ) → dark n ≡ false → visible dark (erase n xs) ≡ erase n (visible dark xs)
  visible-erase n [] h = refl
  visible-erase n (x ∷ xs) h = elim (Bool-cases (x == n)) [
    | inl e ↦ rw (e, ap dark ((==_iff x n).0 e) ∙ h) (rw e refl)
    | inr e ↦ elim (Bool-cases (dark x)) [
      | inl d ↦ rw (e, d) (visible-erase n xs h)
      | inr d ↦ rw (e, d) (rw e (ap (λ (l : List ℕ). x ∷ l) (visible-erase n xs h)))
    ]
  ]

  pub visible-insert_above :
      (n b : ℕ) (xs : List ℕ)
      → dark n ≡ false
      → dark b ≡ false
      → visible dark (insert_above n b xs) ≡ insert_above n b (visible dark xs)
  visible-insert_above n b [] h g = refl
  visible-insert_above n b (x ∷ xs) h g = elim (Bool-cases (x == b)) [
    | inl e ↦ rw (e, ap dark ((==_iff x b).0 e) ∙ g) (rw (h, e) refl)
    | inr e ↦ elim (Bool-cases (dark x)) [
      | inl d ↦ rw (e, d) (visible-insert_above n b xs h g)
      | inr d ↦ rw (e, d) (rw e (ap (λ (l : List ℕ). x ∷ l) (visible-insert_above n b xs h g)))
    ]
  ]

pred-has : (n : ℕ) (x b : ℕ) (xs : List ℕ) → pred n (some x) xs ≡ some b → has b (x ∷ xs) ≡ true
pred-has n x b [] h = ground (arith, some_eq h)
pred-has n x b (y ∷ xs) h = elim (Bool-cases (y == n)) [
  | inl e ↦ ground (arith, some_eq (sym (stop e) ∙ h))
  | inr e ↦ ground (arith, pred-has n y b xs (sym (go e) ∙ h))
]
  where
    stop : (y == n) ≡ true → pred n (some x) (y ∷ xs) ≡ some x
    stop e = rw e refl

    go : (y == n) ≡ false → pred n (some x) (y ∷ xs) ≡ pred n (some y) xs
    go e = rw e refl

pub pred-skip :
    (n b : ℕ) (under : Option ℕ) (done r : List ℕ)
    → has n (done ++ b ∷ []) ≡ false
    → pred n under (done ++ b ∷ r) ≡ pred n (some b) r
pred-skip n b under [] r h = rw (ne) refl
  where
    ne : (b == n) ≡ false
    ne = ground arith
pred-skip n b under (x ∷ done) r h = rw (ne) (pred-skip n b (some x) done r (ground arith))
  where
    ne : (x == n) ≡ false
    ne = ground arith

pub insert_above-skip :
    (n b : ℕ) (done r : List ℕ)
    → has b done ≡ false
    → insert_above n b (done ++ b ∷ r) ≡ done ++ b ∷ n ∷ r
insert_above-skip n b [] r h = rw ((==_iff b b).1 refl) refl
insert_above-skip n b (x ∷ done) r h =
    rw (ne) (ap (λ (l : List ℕ). x ∷ l) (insert_above-skip n b done r (ground arith)))
  where
    ne : (x == b) ≡ false
    ne = ground arith

pub erase-skip :
    (n b : ℕ) (done r : List ℕ)
    → has n (done ++ b ∷ []) ≡ false
    → erase n (done ++ b ∷ r) ≡ done ++ b ∷ erase n r
erase-skip n b [] r h = rw (ne) refl
  where
    ne : (b == n) ≡ false
    ne = ground arith
erase-skip n b (x ∷ done) r h =
    rw (ne) (ap (λ (l : List ℕ). x ∷ l) (erase-skip n b done r (ground arith)))
  where
    ne : (x == n) ≡ false
    ne = ground arith

pred-some : (n x : ℕ) (r : List ℕ) → pred n (some x) r ≢ none
pred-some n x [] h = ground arith
pred-some n x (y ∷ r) h = elim (Bool-cases (y == n)) [
  | inl e ↦ absurd (apart (sym (stop e) ∙ h))
  | inr e ↦ pred-some n y r (sym (go e) ∙ h)
]
  where
    apart : some x ≢ none
    apart h = ground arith

    stop : (y == n) ≡ true → pred n (some x) (y ∷ r) ≡ some x
    stop e = rw e refl

    go : (y == n) ≡ false → pred n (some x) (y ∷ r) ≡ pred n (some y) r
    go e = rw e refl

pub ptr_eq-eq : (o p : Option ℕ) → ptr_eq o p ≡ true → o ≡ p
ptr_eq-eq none none h = refl
ptr_eq-eq (some a) (some b) h = ap some ((==_iff a b).0 h)
ptr_eq-eq none (some b) h = absurd (ground arith)
ptr_eq-eq (some a) none h = absurd (ground arith)

pub Nodup-last : (a : ℕ) (xs : List ℕ) → Nodup (xs ++ a ∷ []) → has a xs ≡ false
Nodup-last a [] n = refl
Nodup-last a (x ∷ xs) n = ground (arith, Nodup-last a xs n.1, sym (has-append x xs (a ∷ [])) ∙ n.0)

pub head_of : (n : ℕ) (r : List ℕ) → pred n none r ≡ none → has n r ≡ true → r ≡ n ∷ erase n r
head_of n [] h k = absurd (ground arith)
head_of n (x ∷ r) h k = elim (Bool-cases (x == n)) [
  | inl e ↦ rw e (ap (λ (y : ℕ). y ∷ r) ((==_iff x n).0 e))
  | inr e ↦ absurd (pred-some n x r (sym (go e) ∙ h))
]
  where
    go : (x == n) ≡ false → pred n none (x ∷ r) ≡ pred n (some x) r
    go e = rw e refl

pub head_after :
    (n b : ℕ) (r : List ℕ)
    → pred n (some b) r ≡ some b
    → has n r ≡ true
    → has b r ≡ false
    → r ≡ n ∷ erase n r
head_after n b [] h k l = absurd (ground arith)
head_after n b (x ∷ r) h k l = elim (Bool-cases (x == n)) [
  | inl e ↦ rw e (ap (λ (y : ℕ). y ∷ r) ((==_iff x n).0 e))
  | inr e ↦ absurd (ground (arith, l, pred-has n x b r (sym (go e) ∙ h)))
]
  where
    go : (x == n) ≡ false → pred n (some b) (x ∷ r) ≡ pred n (some x) r
    go e = rw e refl

pub all_absent : (r : List ℕ) → ((x : ℕ) → has x r ≡ false) → r ≡ []
all_absent [] h = refl
all_absent (x ∷ r) h = absurd (ground (arith, h x, (==_iff x x).1 refl))

pub last_apart :
    (b : ℕ) (done r : List ℕ)
    → ((x : ℕ) → has x r ≡ true → has x (done ++ b ∷ []) ≡ false)
    → has b r ≡ false
last_apart b done r h = elim (Bool-cases (has b r)) [
  | inr e ↦ e
  | inl e ↦ absurd (ground (arith, sym (has-append b done (b ∷ [])) ∙ h b e, (==_iff b b).1 refl))
]

pub apart-erase :
    (n : ℕ) (placed r : List ℕ)
    → ((x : ℕ) → has x r ≡ true → has x placed ≡ false)
    → Nodup r
    → (x : ℕ) → has x (erase n r) ≡ true
    → has x (placed ++ n ∷ []) ≡ false
apart-erase n placed r h k x e = elim (Bool-cases (n == x)) [
  | inl y ↦ absurd (
      ground (
        arith,
        has-erase_self n r k,
        subst (λ (a : ℕ). has a (erase n r) ≡ true) (sym ((==_iff n x).0 y)) e,
      ))
  | inr y ↦
      has-append x placed (n ∷ [])
      ∙ ground (arith, y, h x (sym (has-erase_ne n x r (λ q. absurd (ground arith))) ∙ e))
]

pub same-erase :
    (n : ℕ) (r ns : List ℕ)
    → ((x : ℕ) → has x r ≡ has x (n ∷ ns))
    → Nodup r
    → Nodup (n ∷ ns)
    → (x : ℕ) → has x (erase n r) ≡ has x ns
same-erase n r ns h k l x = elim (Bool-cases (n == x)) [
  | inl y ↦
      subst (λ (a : ℕ). has a (erase n r) ≡ has a ns) ((==_iff n x).0 y)
        (has-erase_self n r k ∙ sym l.0)
  | inr y ↦ has-erase_ne n x r (λ q. absurd (ground arith)) ∙ h x ∙ rw y refl
]
