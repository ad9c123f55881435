-- ===== src/Common/Ids.antt =====
-- Lists of identifiers (the pointers of the source), and stores addressed by them.
use Prim.Native.Nat.{ℕ, zero, suc, ◌+◌}
use mathlib.Core.Path.{◌≡◌, refl}
use mathlib.Core.Logic.{◌≢◌}
use mathlib.Core.Bool.{Bool, true, false, ◌||◌}
use mathlib.Core.List.{List, [], ◌∷◌, ◌++◌}
use native.Mathlib.Omega.{arith}
use somewm.Common.Lists.{take, drop}
use somewm.Common.Tests.{◌==◌, if◌then◌else◌}

-- Membership of a pointer in an array.
abbrev pub has : ℕ → List ℕ → Bool
has a [] = false
has a (x ∷ xs) = (x == a) || has a xs

-- How often it occurs.
abbrev pub count : ℕ → List ℕ → ℕ
count a [] = 0
count a (x ∷ xs) = (if x == a then 1 else 0) + count a xs

-- `foreach (e, arr) if (*e == c) { array_remove(&arr, e); break; }`: the first occurrence goes.
abbrev pub erase : ℕ → List ℕ → List ℕ
erase a [] = []
erase a (x ∷ xs) = if x == a then xs else x ∷ erase a xs

abbrev pub Nodup : List ℕ → Type 0
Nodup [] = Unit {0}
Nodup (x ∷ xs) = (has x xs ≡ false) × Nodup xs

pub has-append : (a : ℕ) (xs ys : List ℕ) → has a (xs ++ ys) ≡ (has a xs || has a ys)
has-append a [] ys = refl
has-append a (x ∷ xs) ys = ground (arith, has-append a xs ys)

pub has-take : (a n : ℕ) (xs : List ℕ) → has a xs ≡ false → has a (take n xs) ≡ false
has-take a zero xs h = refl
has-take a (suc n) [] h = refl
has-take a (suc n) (x ∷ xs) h = ground (arith, has-take a n xs)

pub has-drop : (a n : ℕ) (xs : List ℕ) → has a xs ≡ false → has a (drop n xs) ≡ false
has-drop a zero xs h = h
has-drop a (suc n) [] h = h
has-drop a (suc n) (x ∷ xs) h = has-drop a n xs (ground arith)

pub count-append : (a : ℕ) (xs ys : List ℕ) → count a (xs ++ ys) ≡ count a xs + count a ys
count-append a [] ys = omega arith
count-append a (x ∷ xs) ys = ground (arith, count-append a xs ys)

pub count_none : (a : ℕ) (xs : List ℕ) → has a xs ≡ false → count a xs ≡ 0
count_none a [] h = refl
count_none a (x ∷ xs) h = ground (arith, count_none a xs)

pub count_once : (a : ℕ) (xs : List ℕ) → Nodup xs → has a xs ≡ true → count a xs ≡ 1
count_once a [] n h = absurd (ground arith)
count_once a (x ∷ xs) n h = ground (arith, count_once a xs n.1, count_none a xs)

pub has-erase_self : (a : ℕ) (xs : List ℕ) → Nodup xs → has a (erase a xs) ≡ false
has-erase_self a [] n = refl
has-erase_self a (x ∷ xs) n = ground (arith, has-erase_self a xs n.1)

pub has-erase_ne : (a b : ℕ) (xs : List ℕ) → a ≢ b → has b (erase a xs) ≡ has b xs
has-erase_ne a b [] h = refl
has-erase_ne a b (x ∷ xs) h = ground (arith, has-erase_ne a b xs h)

pub has-erase_le : (a b : ℕ) (xs : List ℕ) → has b xs ≡ false → has b (erase a xs) ≡ false
has-erase_le a b [] h = refl
has-erase_le a b (x ∷ xs) h = ground (arith, has-erase_le a b xs)

pub erase-none : (a : ℕ) (xs : List ℕ) → has a xs ≡ false → erase a xs ≡ xs
erase-none a [] h = refl
erase-none a (x ∷ xs) h = ground (arith, erase-none a xs)

pub erase-append_self : (c : ℕ) (xs : List ℕ) → has c xs ≡ false → erase c (xs ++ c ∷ []) ≡ xs
erase-append_self c [] h = ground arith
erase-append_self c (x ∷ xs) h = ground (arith, erase-append_self c xs)

pub erase-Nodup : (a : ℕ) (xs : List ℕ) → Nodup xs → Nodup (erase a xs)
erase-Nodup a [] n = tt
erase-Nodup a (x ∷ xs) n = ground (arith, erase-Nodup a xs n.1, has-erase_le a x xs n.0)

pub append-Nodup : (a : ℕ) (xs : List ℕ) → Nodup xs → has a xs ≡ false → Nodup (xs ++ a ∷ [])
append-Nodup a [] n h = (refl, tt)
append-Nodup a (x ∷ xs) n h =
    (ground (arith, has-append x xs (a ∷ [])), append-Nodup a xs n.1 (ground arith))

-- A store with one address changed.
abbrev pub update {ℓ} : {A : Type ℓ} → (ℕ → A) → ℕ → A → ℕ → A
update f k v i = if i == k then v else f i
