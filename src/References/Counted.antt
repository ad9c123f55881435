-- ===== src/References/Counted.antt =====
-- The table keeps exactly the objects that have references.
use somewm.Common.{
  ℕ, ◌+◌, ◌-◌, ◌%◌, ◌<◌, ◌≡◌, refl, ap, inl, inr, true, false, some, List, [], ◌∷◌, arith,
  Bool-cases, if◌then◌else◌, ◌==◌, ==_iff, ltb, leb, length, update,
}
use somewm.Common.Int.{int_word, int_end}
use somewm.References.{Store, object_incref, object_decref}

-- A reference that is taken, or given back.
pub data Step : Type 0 where
  take_ref give_ref : ℕ → Step

abbrev perform : Step → Store → Store
perform (take_ref p) s = (object_incref (some p) s).1
perform (give_ref p) s = object_decref (some p) s

abbrev pub perform_all : List Step → Store → Store
perform_all [] s = s
perform_all (c ∷ cs) s = perform_all cs (perform c s)

-- How many references to `p` there are after the steps, from `n`: one that is given back too often is
-- ignored.
abbrev pub held : ℕ → List Step → ℕ → ℕ
held p [] n = n
held p (take_ref q ∷ cs) n = held p cs (if q == p then n + 1 else n)
held p (give_ref q ∷ cs) n = held p cs (if q == p then n - 1 else n)

-- Every object is in the table exactly if it has references.
abbrev pub IsCounted : Store → Type 0
IsCounted s = (p : ℕ) → s.table p ≡ ltb 0 (s.count p)

-- What the two calls do while the count is an int.
take_small :
    (q : ℕ) (s : Store)
    → s.count q + 1 < int_end
    → (object_incref (some q) s).1
      ≡ record { table = update s.table q true; count = update s.count q (s.count q + 1) }
unfolding object_incref
take_small q s b =
    ap (λ (n : ℕ). record { table = update s.table q true; count = update s.count q n })
      (omega (arith, b))

give_small :
    (q : ℕ) (s : Store)
    → s.count q < int_end
    → object_decref (some q) s ≡ (
        if s.count q == 0 then s else record {
          table = if s.count q - 1 == 0 then update s.table q false else s.table;
          count = update s.count q (s.count q - 1);
        })
unfolding object_decref
give_small q s b = elim (Bool-cases (s.count q == 0)) [
  | inl e ↦
      let past : leb int_end ((s.count q + (int_word - 1)) % int_word) ≡ true = ground arith in
      rw (e, past) refl
  | inr e ↦
      let less : (s.count q + (int_word - 1)) % int_word ≡ s.count q - 1 = ground arith in
      let fits : leb int_end (s.count q - 1) ≡ false = ground arith in rw (e, less, fits) refl
]

take-IsCounted :
    (q : ℕ) (s : Store)
    → s.count q + 1 < int_end
    → IsCounted s
    → IsCounted (object_incref (some q) s).1
      × ((p : ℕ)
          → (object_incref (some q) s).1.count p ≡ (if q == p then s.count p + 1 else s.count p))
take-IsCounted q s b c = rw (take_small q s b) (λ p. ground (arith, c p), λ p. counts p)
  where
    counts :
        (p : ℕ)
        → (if p == q then s.count q + 1 else s.count p)
          ≡ (if q == p then s.count p + 1 else s.count p)
    counts p = elim (Bool-cases (p == q)) [
      | inl e ↦ rw ((==_iff p q).0 e) (ground arith)
      | inr e ↦ ground arith
    ]

give-IsCounted :
    (q : ℕ) (s : Store)
    → s.count q < int_end
    → IsCounted s
    → IsCounted (object_decref (some q) s)
      × ((p : ℕ)
          → (object_decref (some q) s).count p ≡ (if q == p then s.count p - 1 else s.count p))
give-IsCounted q s b c = rw (give_small q s b) (elim (Bool-cases (s.count q == 0)) [
  | inl none_left ↦ rw none_left (c, λ p. idle p none_left)
  | inr some_left ↦ rw some_left (λ p. kept p some_left, λ p. counts p)
])
  where
    idle :
        (p : ℕ)
        → (s.count q == 0) ≡ true
        → s.count p ≡ (if q == p then s.count p - 1 else s.count p)
    idle p h = elim (Bool-cases (q == p)) [
      | inl e ↦ rw (← (==_iff q p).0 e) (ground arith)
      | inr e ↦ rw e refl
    ]

    counts :
        (p : ℕ)
        → (if p == q then s.count q - 1 else s.count p)
          ≡ (if q == p then s.count p - 1 else s.count p)
    counts p = elim (Bool-cases (p == q)) [
      | inl e ↦ rw ((==_iff p q).0 e) (ground arith)
      | inr e ↦ ground arith
    ]

    kept :
        (p : ℕ)
        → (s.count q == 0) ≡ false
        → (if s.count q - 1 == 0 then (λ (r : ℕ). if r == q then false else s.table r) else s.table)
            p
          ≡ ltb 0 (if p == q then s.count q - 1 else s.count p)
    kept p h = elim (Bool-cases (p == q)) [
      | inl e ↦ rw ((==_iff p q).0 e) (ground (arith, c q))
      | inr e ↦ ground (arith, c p)
    ]

-- However references are taken and given back, while there can be no more of them than an int counts:
-- an object is in the store table exactly if it has references, and it has as many as were taken and
-- not given back, where giving back one that does not exist has no effect.
pub perform_all-held :
    (cs : List Step) (s : Store) (p : ℕ)
    → IsCounted s
    → ((q : ℕ) → s.count q + length cs < int_end)
    → ((perform_all cs s).table p ≡ ltb 0 (held p cs (s.count p)))
      × ((perform_all cs s).count p ≡ held p cs (s.count p))
perform_all-held [] s p c b = (c p, refl)
perform_all-held (take_ref q ∷ cs) s p c b =
    let (k, n) = take-IsCounted q s (let h = b q in omega arith) c in
    rw (← n p) (
      perform_all-held cs (object_incref (some q) s).1 p k
        (λ r. let h = b r in ground (arith, n r)))
perform_all-held (give_ref q ∷ cs) s p c b =
    let (k, n) = give-IsCounted q s (let h = b q in omega arith) c in
    rw (← n p)
      (perform_all-held cs (object_decref (some q) s) p k (λ r. let h = b r in ground (arith, n r)))
