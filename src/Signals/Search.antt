-- ===== src/Signals/Search.antt =====
-- The binary search of the insertion: on an ordered array it finds the place of the key.
use somewm.Common.{
  ℕ, zero, suc, ◌+◌, ◌/◌, ◌≤◌, ◌<◌, ◌≡◌, refl, ap, ◌∙◌, inl, inr, Bool, true, false, some, List, [],
  ◌∷◌, ◌++◌, arith, Bool-cases, Option-cases, if◌then◌else◌, ◌==◌, ltb, length, get_elem?, take,
  drop, All, All-map,
}
use somewm.Signals.{SignalEntry, array_splice, insert_search, signal_array_insert}

-- The keys ascend.
abbrev pub IsOrdered : List SignalEntry → Type 0
IsOrdered [] = Unit
IsOrdered (e ∷ arr) = All (λ f. e.id < f.id) arr × IsOrdered arr

-- Some entry has the key.
abbrev pub has_id : ℕ → List SignalEntry → Bool
has_id k [] = false
has_id k (e ∷ arr) = if e.id == k then true else has_id k arr

-- How many entries come before the key.
abbrev rank : ℕ → List SignalEntry → ℕ
rank k [] = 0
rank k (e ∷ arr) = if ltb e.id k then suc (rank k arr) else 0

-- The entry where it belongs.
abbrev pub insert_ordered : SignalEntry → List SignalEntry → List SignalEntry
insert_ordered e [] = e ∷ []
insert_ordered e (f ∷ arr) = if ltb f.id e.id then f ∷ insert_ordered e arr else e ∷ f ∷ arr

rank-le : (k : ℕ) (arr : List SignalEntry) → rank k arr ≤ length arr
rank-le k [] = omega arith
rank-le k (e ∷ arr) = ground (arith, rank-le k arr)

above-All :
    (k i : ℕ) (arr : List SignalEntry) (f : SignalEntry)
    → All (λ e. k < e.id) arr
    → get_elem? arr i ≡ some f
    → k < f.id
above-All k i [] f h g = absurd (ground arith)
above-All k zero (e ∷ arr) f h g = ground arith
above-All k (suc i) (e ∷ arr) f h g = above-All k i arr f h.1 g

-- An entry before the key is counted, and one behind it is not.
rank-before :
    (k i : ℕ) (arr : List SignalEntry) (f : SignalEntry)
    → IsOrdered arr
    → get_elem? arr i ≡ some f
    → f.id < k
    → i < rank k arr
rank-before k i [] f o g h = absurd (ground arith)
rank-before k zero (e ∷ arr) f o g h = ground arith
rank-before k (suc i) (e ∷ arr) f o g h =
    let r = rank-before k i arr f o.1 g h in let a = above-All e.id i arr f o.0 g in ground arith

rank-behind :
    (k i : ℕ) (arr : List SignalEntry) (f : SignalEntry)
    → get_elem? arr i ≡ some f
    → k < f.id
    → rank k arr ≤ i
rank-behind k i [] f g h = absurd (ground arith)
rank-behind k zero (e ∷ arr) f g h = ground arith
rank-behind k (suc i) (e ∷ arr) f g h = let r = rank-behind k i arr f g h in ground arith

has_id-at :
    (k i : ℕ) (arr : List SignalEntry) (f : SignalEntry)
    → get_elem? arr i ≡ some f
    → f.id ≡ k
    → has_id k arr ≡ true
has_id-at k i [] f g h = absurd (ground arith)
has_id-at k zero (e ∷ arr) f g h = ground arith
has_id-at k (suc i) (e ∷ arr) f g h = let r = has_id-at k i arr f g h in ground arith

within :
    (i : ℕ) (arr : List SignalEntry)
    → i < length arr
    → (f : SignalEntry) × (get_elem? arr i ≡ some f)
within i [] h = absurd (omega arith)
within zero (e ∷ arr) h = (e, refl)
within (suc i) (e ∷ arr) h = within i arr (omega arith)

-- With a round for each entry between the bounds, and the place between them, the search finds it.
insert_search-rank :
    (n k : ℕ) (arr : List SignalEntry) (l r : ℕ)
    → IsOrdered arr
    → has_id k arr ≡ false
    → r ≤ n + l
    → l ≤ rank k arr
    → rank k arr ≤ r
    → r ≤ length arr
    → insert_search n k arr l r ≡ some (rank k arr)
unfolding insert_search
insert_search-rank zero k arr l r o h n a b c = ap some (omega arith)
insert_search-rank (suc n) k arr l r o h m a b c = elim (Bool-cases (ltb l r)) [
  | inr done ↦ elim (Option-cases (get_elem? arr ((r + l) / 2))) [
    | inl e ↦ rw (e, insert_search) (ap some (ground arith))
    | inr (f, e) ↦ rw (e, insert_search) (rw done (ap some (ground arith)))
  ]
  | inl more ↦
      let i = (r + l) / 2 in
      let (f, e) = within i arr (ground arith) in
      rw (e, insert_search)
        (rw more (elim (Bool-cases (k == f.id)) [
          | inl same ↦ let found = has_id-at k i arr f e (ground arith) in absurd (ground arith)
          | inr other ↦ elim (Bool-cases (ltb k f.id)) [
            | inl left ↦
                let b' = rank-behind k i arr f e (ground arith) in
                rw (other, left)
                  (insert_search-rank n k arr l i o h (ground arith) a b' (ground arith))
            | inr right ↦
                let a' = rank-before k i arr f o e (ground arith) in
                rw (other, right)
                  (insert_search-rank n k arr (i + 1) r o h (ground arith) (omega arith) b c)
          ]
        ]))
]

take-rank :
    (e : SignalEntry) (arr : List SignalEntry)
    → take (rank e.id arr) arr ++ e ∷ drop (rank e.id arr) arr ≡ insert_ordered e arr
take-rank e [] = refl
take-rank e (f ∷ arr) = elim (Bool-cases (ltb f.id e.id)) [
  | inl before ↦ rw before (ap (◌∷◌ f) (take-rank e arr))
  | inr behind ↦ rw behind refl
]

splice-rank :
    (e : SignalEntry) (arr : List SignalEntry)
    → array_splice arr (rank e.id arr) 0 (e ∷ []) ≡ insert_ordered e arr
splice-rank e arr =
    let r = rank e.id arr in
    let same : r + 0 ≡ r = omega arith in
    ap (λ (n : ℕ). take r arr ++ e ∷ drop n arr) same ∙ take-rank e arr

-- An insertion into an ordered array that lacks the key puts the entry where it belongs, with as many
-- rounds of the search as the array has entries.
pub signal_array_insert-ordered :
    (e : SignalEntry) (arr : List SignalEntry)
    → IsOrdered arr
    → has_id e.id arr ≡ false
    → signal_array_insert e arr ≡ insert_ordered e arr
unfolding signal_array_insert
signal_array_insert-ordered e arr o h =
    rw
      (
        signal_array_insert,
        insert_search-rank (length arr) e.id arr 0 (length arr) o h (omega arith) (omega arith)
            (rank-le e.id arr) (omega arith),
      )
      (splice-rank e arr)

All-insert_ordered :
    (P : SignalEntry → Type 0) (e : SignalEntry) (arr : List SignalEntry)
    → P e
    → All P arr
    → All P (insert_ordered e arr)
All-insert_ordered P e [] p h = (p, tt)
All-insert_ordered P e (f ∷ arr) p h = elim (Bool-cases (ltb f.id e.id)) [
  | inl before ↦ rw before (h.0, All-insert_ordered P e arr p h.1)
  | inr behind ↦ rw behind (p, h)
]

pub insert_ordered-IsOrdered :
    (e : SignalEntry) (arr : List SignalEntry)
    → IsOrdered arr
    → has_id e.id arr ≡ false
    → IsOrdered (insert_ordered e arr)
insert_ordered-IsOrdered e [] o h = (tt, tt)
insert_ordered-IsOrdered e (f ∷ arr) o h = elim (Bool-cases (ltb f.id e.id)) [
  | inl before ↦ rw before (
    All-insert_ordered (λ g. f.id < g.id) e arr (ground arith) o.0,
    insert_ordered-IsOrdered e arr o.1 (ground arith),
  )
  | inr behind ↦ rw behind (
    (ground arith, All-map (λ g. f.id < g.id) (λ g. e.id < g.id) arr (λ g q. ground arith) o.0),
    o,
  )
]
