-- ===== src/Manage/Swap.antt =====
-- Swapping two clients exchanges them.
use somewm.Common.{
  ℕ, suc, ◌+◌, ◌≡◌, ◌≢◌, refl, sym, ap, ◌∙◌, subst, inl, inr, true, false, none, some, List, [],
  ◌∷◌, ◌++◌, map, ◌==◌, ==_iff, Bool-cases, if◌then◌else◌, has, Nodup, set_elem, arith,
}
use somewm.World.{World, global_signal, signal, list, swapped}
use somewm.Manage.{find_both, swap_places, client_swap}

-- Each of the two becomes the other.
abbrev pub exchanged : ℕ → ℕ → ℕ → ℕ
exchanged c swap x = if x == c then swap else if x == swap then c else x

-- The first place, or the length.
abbrev place : ℕ → List ℕ → ℕ
place a [] = 0
place a (x ∷ xs) = if x == a then 0 else suc (place a xs)

find_both-c :
    (c swap i k : ℕ) (xs : List ℕ)
    → has c xs ≡ false
    → has swap xs ≡ true
    → find_both c swap k (some i) none xs ≡ (some i, some (k + place swap xs))
unfolding find_both
find_both-c c swap i k [] h g = absurd (ground arith)
find_both-c c swap i k (x ∷ xs) h g = elim (Bool-cases (x == c)) [
  | inl e ↦ absurd (ground arith)
  | inr e ↦ elim (Bool-cases (x == swap)) [
    | inl f ↦ rw (e, f) (ground arith)
    | inr f ↦
        rw (e, f) (find_both-c c swap i (suc k) xs (ground arith) (ground arith) ∙ ground arith)
  ]
]

find_both-swap :
    (c swap j k : ℕ) (xs : List ℕ)
    → has swap xs ≡ false
    → has c xs ≡ true
    → find_both c swap k none (some j) xs ≡ (some (k + place c xs), some j)
unfolding find_both
find_both-swap c swap j k [] h g = absurd (ground arith)
find_both-swap c swap j k (x ∷ xs) h g = elim (Bool-cases (x == c)) [
  | inl e ↦ rw e (ground arith)
  | inr e ↦ elim (Bool-cases (x == swap)) [
    | inl f ↦ absurd (ground arith)
    | inr f ↦
        rw (e, f) (find_both-swap c swap j (suc k) xs (ground arith) (ground arith) ∙ ground arith)
  ]
]

exchanged_none :
    (c swap : ℕ) (xs : List ℕ)
    → has c xs ≡ false
    → has swap xs ≡ false
    → map (exchanged c swap) xs ≡ xs
exchanged_none c swap [] h g = refl
exchanged_none c swap (x ∷ xs) h g = ground (arith, exchanged_none c swap xs)

-- The first of a list with no doubles is not in the rest.
gone : (x a : ℕ) (xs : List ℕ) → Nodup (x ∷ xs) → (x == a) ≡ true → has a xs ≡ false
gone x a xs n e = subst (λ (y : ℕ). has y xs ≡ false) ((==_iff x a).0 e) n.0

find_both-place :
    (c swap k : ℕ) (xs : List ℕ)
    → c ≢ swap
    → Nodup xs
    → has c xs ≡ true
    → has swap xs ≡ true
    → find_both c swap k none none xs ≡ (some (k + place c xs), some (k + place swap xs))
unfolding find_both
find_both-place c swap k [] d n h g = absurd (ground arith)
find_both-place c swap k (x ∷ xs) d n h g = elim (Bool-cases (x == c)) [
  | inl e ↦
      rw (e, other x e)
        (find_both-c c swap k (suc k) xs (gone x c xs n e) (later x e g) ∙ ground arith)
  | inr e ↦ elim (Bool-cases (x == swap)) [
    | inl f ↦
        rw (e, f)
          (find_both-swap c swap k (suc k) xs (gone x swap xs n f) (ground arith) ∙ ground arith)
    | inr f ↦
        rw (e, f)
          (find_both-place c swap (suc k) xs d n.1 (ground arith) (ground arith) ∙ ground arith)
  ]
]
  where
    other : (x : ℕ) → (x == c) ≡ true → (x == swap) ≡ false
    other x e = elim (Bool-cases (x == swap)) [
      | inl f ↦ absurd (d (sym ((==_iff x c).0 e) ∙ (==_iff x swap).0 f))
      | inr f ↦ f
    ]

    later : (x : ℕ) → (x == c) ≡ true → has swap (x ∷ xs) ≡ true → has swap xs ≡ true
    later x e g = ground (arith, other x e)

set_place_swap :
    (c swap : ℕ) (xs : List ℕ)
    → Nodup xs
    → has c xs ≡ false
    → set_elem (place swap xs) c xs ≡ map (exchanged c swap) xs
set_place_swap c swap [] n h = refl
set_place_swap c swap (x ∷ xs) n h = elim (Bool-cases (x == c)) [
  | inl e ↦ absurd (ground arith)
  | inr e ↦ elim (Bool-cases (x == swap)) [
    | inl f ↦
        rw (e, f)
          (ap (λ (l : List ℕ). c ∷ l)
            (sym (exchanged_none c swap xs (ground arith) (gone x swap xs n f))))
    | inr f ↦ rw (e, f) (ap (λ (l : List ℕ). x ∷ l) (set_place_swap c swap xs n.1 (ground arith)))
  ]
]

set_place_c :
    (c swap : ℕ) (xs : List ℕ)
    → Nodup xs
    → has swap xs ≡ false
    → set_elem (place c xs) swap xs ≡ map (exchanged c swap) xs
set_place_c c swap [] n h = refl
set_place_c c swap (x ∷ xs) n h = elim (Bool-cases (x == c)) [
  | inl e ↦ rw e (
      ap (λ (l : List ℕ). swap ∷ l)
        (sym (exchanged_none c swap xs (gone x c xs n e) (ground arith))))
  | inr e ↦ elim (Bool-cases (x == swap)) [
    | inl f ↦ absurd (ground arith)
    | inr f ↦ rw (e, f) (ap (λ (l : List ℕ). x ∷ l) (set_place_c c swap xs n.1 (ground arith)))
  ]
]

set_both :
    (c swap : ℕ) (xs : List ℕ)
    → c ≢ swap
    → Nodup xs
    → set_elem (place swap xs) c (set_elem (place c xs) swap xs) ≡ map (exchanged c swap) xs
set_both c swap [] d n = refl
set_both c swap (x ∷ xs) d n = elim (Bool-cases (x == c)) [
  | inl e ↦ elim (Bool-cases (x == swap)) [
    | inl f ↦ absurd (d (sym ((==_iff x c).0 e) ∙ (==_iff x swap).0 f))
    | inr f ↦
        rw (e, f) (ap (λ (l : List ℕ). swap ∷ l) (set_place_swap c swap xs n.1 (gone x c xs n e)))
  ]
  | inr e ↦ elim (Bool-cases (x == swap)) [
    | inl f ↦
        rw (e, f) (ap (λ (l : List ℕ). c ∷ l) (set_place_c c swap xs n.1 (gone x swap xs n f)))
    | inr f ↦ rw (e, f) (ap (λ (l : List ℕ). x ∷ l) (set_both c swap xs d n.1))
  ]
]

-- In a list of clients that has none twice, swapping two different clients of it makes each the
-- other and leaves every place else as it is; the change of the list is queued, and then that the
-- one and the other were swapped.
pub client_swap-exchanged :
    (c swap : ℕ) (w : World)
    → c ≢ swap
    → Nodup w.clients
    → has c w.clients ≡ true
    → has swap w.clients ≡ true
    → client_swap c swap w
      ≡ some (record w {
        clients = map (exchanged c swap) w.clients;
        queued = w.queued ++ global_signal list ∷ signal c swapped ∷ signal swap swapped ∷ [];
      })
unfolding client_swap swap_places
client_swap-exchanged c swap w d n h g = rw (apart, found, set_both c swap w.clients d n) refl
  where
    apart : (c == swap) ≡ false
    apart = ground arith

    found :
        find_both c swap 0 none none w.clients
        ≡ (some (place c w.clients), some (place swap w.clients))
    found = find_both-place c swap 0 w.clients d n h g ∙ ground arith
