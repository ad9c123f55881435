-- ===== src/Signals/Connect.antt =====
-- signal_connect() and signal_disconnect(): which functions a signal has after them.
use somewm.Common.{
  ℕ, zero, suc, ◌+◌, ◌<◌, ◌≡◌, refl, sym, ap, ◌∙◌, inl, inr, Bool, true, false, none, some, List,
  [], ◌∷◌, ◌++◌, arith, Bool-cases, Option-cases, if◌then◌else◌, ◌==◌, ==_iff, length, take, drop,
  All, has, erase, erase-none,
}
use somewm.Signals.{
  SignalEntry, array_splice, signal_array_lookup, funcs_at, set_funcs, signal_connect,
  disconnect_at, signal_disconnect,
}
use somewm.Signals.Search.{
  IsOrdered, has_id, insert_ordered, signal_array_insert-ordered, insert_ordered-IsOrdered,
}

-- The functions that are connected to a signal, in order.
abbrev pub funcs : ℕ → List SignalEntry → List ℕ
funcs k [] = []
funcs k (e ∷ arr) = if e.id == k then e.sigfuncs else funcs k arr

-- What a lookup answers.
lookup-none :
    (k : ℕ) (arr : List SignalEntry)
    → signal_array_lookup k arr ≡ none
    → (has_id k arr ≡ false) × (funcs k arr ≡ [])
unfolding signal_array_lookup
lookup-none k [] h = (refl, refl)
lookup-none k (e ∷ arr) h = elim (Option-cases (signal_array_lookup k arr)) [
  | inl r ↦ ground (arith, lookup-none k arr r)
  | inr (i, r) ↦ absurd (ground arith)
]

funcs-insert :
    (e : SignalEntry) (arr : List SignalEntry) (k : ℕ)
    → has_id e.id arr ≡ false
    → funcs k (insert_ordered e arr) ≡ (if e.id == k then e.sigfuncs else funcs k arr)
funcs-insert e [] k h = refl
funcs-insert e (f ∷ arr) k h = ground (arith, funcs-insert e arr k)

-- The index of a lookup is that of the entry with the key.
data At (k : ℕ) : List SignalEntry → ℕ → Type 0 where
  here : {e : SignalEntry} {arr : List SignalEntry} → e.id ≡ k → At k (e ∷ arr) zero
  next :
      {e : SignalEntry} {arr : List SignalEntry} {i : ℕ}
      → (e.id == k) ≡ false
      → At k arr i
      → At k (e ∷ arr) (suc i)

At-zero :
    (k i : ℕ) (e : SignalEntry) (arr : List SignalEntry)
    → (e.id == k) ≡ true
    → i ≡ 0
    → At k (e ∷ arr) i
At-zero k i e arr h z = rw z (here ((==_iff e.id k).0 h))

At-suc :
    (k i j : ℕ) (e : SignalEntry) (arr : List SignalEntry)
    → (e.id == k) ≡ false
    → At k arr j
    → i ≡ suc j
    → At k (e ∷ arr) i
At-suc k i j e arr h a z = rw z (next h a)

lookup-At :
    (k : ℕ) (arr : List SignalEntry) (i : ℕ) → signal_array_lookup k arr ≡ some i → At k arr i
unfolding signal_array_lookup
lookup-At k [] i h = absurd (ground arith)
lookup-At k (e ∷ arr) i h = elim (Bool-cases (e.id == k)) [
  | inl same ↦ At-zero k i e arr same (ground arith)
  | inr other ↦ elim (Option-cases (signal_array_lookup k arr)) [
    | inl r ↦ absurd (ground arith)
    | inr (j, r) ↦ At-suc k i j e arr other (lookup-At k arr j r) (ground arith)
  ]
]

funcs_at-At : (k : ℕ) {arr : List SignalEntry} {i : ℕ} → At k arr i → funcs_at arr i ≡ funcs k arr
funcs_at-At k (here h) = ground arith
funcs_at-At k (next h a) = ground (arith, funcs_at-At k a)

-- The functions of one signal are replaced.
set_funcs-funcs :
    (k j : ℕ) (fs : List ℕ) {arr : List SignalEntry} {i : ℕ}
    → At k arr i
    → funcs j (set_funcs arr i fs) ≡ (if k == j then fs else funcs j arr)
set_funcs-funcs k j fs (here h) = ground arith
set_funcs-funcs k j fs (next h a) = ground (arith, set_funcs-funcs k j fs a)

set_funcs-All :
    (n : ℕ) (fs : List ℕ) (arr : List SignalEntry) (i : ℕ)
    → All (λ f. n < f.id) arr
    → All (λ f. n < f.id) (set_funcs arr i fs)
set_funcs-All n fs [] i h = tt
set_funcs-All n fs (e ∷ arr) zero h = h
set_funcs-All n fs (e ∷ arr) (suc i) h = (h.0, set_funcs-All n fs arr i h.1)

set_funcs-IsOrdered :
    (fs : List ℕ) (arr : List SignalEntry) (i : ℕ) → IsOrdered arr → IsOrdered (set_funcs arr i fs)
set_funcs-IsOrdered fs [] i o = tt
set_funcs-IsOrdered fs (e ∷ arr) zero o = o
set_funcs-IsOrdered fs (e ∷ arr) (suc i) o =
    (set_funcs-All e.id fs arr i o.0, set_funcs-IsOrdered fs arr i o.1)

-- The array without the entry at an index.
abbrev without_at : List SignalEntry → ℕ → List SignalEntry
without_at arr i = take i arr ++ drop (suc i) arr

splice-without_at : (arr : List SignalEntry) (i : ℕ) → array_splice arr i 1 [] ≡ without_at arr i
splice-without_at arr i =
    let same : i + 1 ≡ suc i = omega arith in ap (λ (n : ℕ). take i arr ++ drop n arr) same

funcs-All : (k : ℕ) (arr : List SignalEntry) → All (λ f. k < f.id) arr → funcs k arr ≡ []
funcs-All k [] h = refl
funcs-All k (e ∷ arr) h = ground (arith, funcs-All k arr h.1, h.0)

without_at-funcs :
    (k j : ℕ) {arr : List SignalEntry} {i : ℕ}
    → IsOrdered arr
    → At k arr i
    → funcs j (without_at arr i) ≡ (if k == j then [] else funcs j arr)
without_at-funcs k j o (here {e} {arr} h) = ground (arith, funcs-All e.id arr o.0)
without_at-funcs k j o (next h a) = ground (arith, without_at-funcs k j o.1 a)

without_at-All :
    (n : ℕ) (arr : List SignalEntry) (i : ℕ)
    → All (λ f. n < f.id) arr
    → All (λ f. n < f.id) (without_at arr i)
without_at-All n [] zero h = tt
without_at-All n [] (suc i) h = tt
without_at-All n (e ∷ arr) zero h = h.1
without_at-All n (e ∷ arr) (suc i) h = (h.0, without_at-All n arr i h.1)

without_at-IsOrdered :
    (arr : List SignalEntry) (i : ℕ) → IsOrdered arr → IsOrdered (without_at arr i)
without_at-IsOrdered [] zero o = tt
without_at-IsOrdered [] (suc i) o = tt
without_at-IsOrdered (e ∷ arr) zero o = o.1
without_at-IsOrdered (e ∷ arr) (suc i) o =
    (without_at-All e.id arr i o.0, without_at-IsOrdered arr i o.1)

-- On an ordered array, signal_connect() puts the function behind those that the signal has, changes no
-- other signal's, and leaves the array ordered.
pub signal_connect-funcs :
    (tok ref : ℕ) (arr : List SignalEntry) (k : ℕ)
    → IsOrdered arr
    → (funcs k (signal_connect tok ref arr)
        ≡ (if tok == k then funcs k arr ++ ref ∷ [] else funcs k arr))
      × IsOrdered (signal_connect tok ref arr)
unfolding signal_connect
signal_connect-funcs tok ref arr k o = elim (Option-cases (signal_array_lookup tok arr)) [
  | inl e ↦
      let new : SignalEntry = record { id = tok; sigfuncs = ref ∷ [] } in
      let (lacks, none_yet) = lookup-none tok arr e in
      rw (e, signal_connect)
        (rw (signal_array_insert-ordered new arr o lacks)
          (funcs-insert new arr k lacks ∙ first none_yet, insert_ordered-IsOrdered new arr o lacks))
  | inr (i, e) ↦
      let at = lookup-At tok arr i e in
      rw (e, signal_connect)
        (
          set_funcs-funcs tok k (funcs_at arr i ++ ref ∷ []) at ∙ rw (funcs_at-At tok at) more,
          set_funcs-IsOrdered (funcs_at arr i ++ ref ∷ []) arr i o,
        )
]
  where
    first :
        funcs tok arr ≡ []
        → (if tok == k then ref ∷ [] else funcs k arr)
          ≡ (if tok == k then funcs k arr ++ ref ∷ [] else funcs k arr)
    first h = elim (Bool-cases (tok == k)) [
      | inl same ↦ rw (same, ← (==_iff tok k).0 same, h) refl
      | inr other ↦ rw other refl
    ]

    more :
        (if tok == k then funcs tok arr ++ ref ∷ [] else funcs k arr)
        ≡ (if tok == k then funcs k arr ++ ref ∷ [] else funcs k arr)
    more = elim (Bool-cases (tok == k)) [
      | inl same ↦ rw (same, (==_iff tok k).0 same) refl
      | inr other ↦ rw other refl
    ]

-- What a disconnection leaves, as an answer and an array.
pub record Disconnected (tok ref : ℕ) (arr : List SignalEntry) (r : Bool × List SignalEntry)
    : Type 0 where
  pub answer : r.0 ≡ has ref (funcs tok arr)
  pub left : (k : ℕ) → funcs k r.1 ≡ (if tok == k then erase ref (funcs k arr) else funcs k arr)
  pub ordered : IsOrdered r.1

module _ (tok ref : ℕ) (arr : List SignalEntry) where
  -- The functions of the signal become `fs`.
  becomes :
      (k : ℕ) (fs : List ℕ)
      → fs ≡ erase ref (funcs tok arr)
      → (if tok == k then fs else funcs k arr)
        ≡ (if tok == k then erase ref (funcs k arr) else funcs k arr)
  becomes k fs h = elim (Bool-cases (tok == k)) [
    | inl same ↦ rw (same, ← (==_iff tok k).0 same) h
    | inr other ↦ rw other refl
  ]

  unchanged :
      has ref (funcs tok arr) ≡ false
      → (k : ℕ) → funcs k arr ≡ (if tok == k then erase ref (funcs k arr) else funcs k arr)
  unchanged h k = elim (Bool-cases (tok == k)) [
    | inl same ↦ rw (same, ← (==_iff tok k).0 same) (sym (erase-none ref (funcs tok arr) h))
    | inr other ↦ rw other refl
  ]

  empty_of : (xs : List ℕ) → (length xs == 0) ≡ true → xs ≡ []
  empty_of [] h = refl
  empty_of (x ∷ xs) h = absurd (ground arith)

  disconnect_at-Disconnected :
      (i : ℕ) → IsOrdered arr → At tok arr i → Disconnected tok ref arr (disconnect_at i ref arr)
  unfolding disconnect_at
  disconnect_at-Disconnected i o at =
      let same = funcs_at-At tok at in
      let rest = erase ref (funcs_at arr i) in
      let left : rest ≡ erase ref (funcs tok arr) = ap (erase ref) same in
      elim (Bool-cases (has ref (funcs_at arr i))) [
        | inr lacks ↦
            let lacks' = ap (has ref) (sym same) ∙ lacks in
            rw lacks (record { answer = sym lacks'; left = unchanged lacks'; ordered = o })
        | inl holds ↦
            let holds' = ap (has ref) (sym same) ∙ holds in
            elim (Bool-cases (length rest == 0)) [
              | inl last ↦
                  rw (holds, last, splice-without_at arr i)
                    (record {
                      answer = sym holds';
                      left = λ k.
                          without_at-funcs tok k o at
                          ∙ becomes k [] (sym (empty_of rest last) ∙ left);
                      ordered = without_at-IsOrdered arr i o;
                    })
              | inr more ↦
                  rw (holds, more)
                    (record {
                      answer = sym holds';
                      left = λ k. set_funcs-funcs tok k rest at ∙ becomes k rest left;
                      ordered = set_funcs-IsOrdered rest arr i o;
                    })
            ]
      ]

  -- On an ordered array, signal_disconnect() answers whether the signal has the function; it takes the
  -- first one away, changes no other signal's functions and no other function, and leaves the array
  -- ordered.
  pub signal_disconnect-Disconnected :
      IsOrdered arr → Disconnected tok ref arr (signal_disconnect tok ref arr)
  unfolding signal_disconnect
  signal_disconnect-Disconnected o = elim (Option-cases (signal_array_lookup tok arr)) [
    | inl e ↦
        let (a, b) = lookup-none tok arr e in
        let lacks : has ref (funcs tok arr) ≡ false = ap (has ref) b in
        rw (e, signal_disconnect)
          (record { answer = sym lacks; left = unchanged lacks; ordered = o })
    | inr (i, e) ↦
        rw (e, signal_disconnect) (disconnect_at-Disconnected i o (lookup-At tok arr i e))
  ]
