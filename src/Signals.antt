-- ===== src/Signals.antt =====
-- common/signal.h and the ordered arrays of common/array.h that it stands on: which functions are
-- connected to which signal. A signal is known by the hash of its name. bsearch() is the C library's:
-- on an ordered array it finds the entry with the key, if there is one.
pub mod Search
pub mod Connect
use somewm.Common.{
  ℕ, zero, suc, ◌+◌, ◌/◌, Bool, true, false, Option, none, some, List, [], ◌∷◌, ◌++◌, ◌==◌, ltb,
  if◌then◌else◌, length, get_elem?, take, drop, has, erase,
}

-- `signal_t`.
pub record SignalEntry : Type 0 where
  pub id : ℕ
  pub sigfuncs : List ℕ

-- The splice of an array: `len` elements from `pos` are replaced. The source asserts that they are
-- there.
abbrev pub array_splice {ℓ} : {A : Type ℓ} → List A → ℕ → ℕ → List A → List A
array_splice arr pos len items = take pos arr ++ (items ++ drop (pos + len) arr)

-- The search of the insertion in `l` to `r`: `none` if the key is there already, else where it goes.
-- Out of fuel it answers like the source does when the bounds meet.
pub insert_search : ℕ → ℕ → List SignalEntry → ℕ → ℕ → Option ℕ
insert_search zero k arr l r = some r
insert_search (suc n) k arr l r =
    let i = (r + l) / 2 in
    elim (get_elem? arr i) [
      | none ↦ some r
      | some e ↦
          let rest =
            insert_search n k arr (if ltb k e.id then l else i + 1) (if ltb k e.id then i else r) in
          if ltb l r then (if k == e.id then none else rest) else some r
    ]

pub signal_array_insert : SignalEntry → List SignalEntry → List SignalEntry
unfolding insert_search
signal_array_insert e arr = elim (insert_search (length arr) e.id arr 0 (length arr)) [
  | none ↦ arr
  | some r ↦ array_splice arr r 0 (e ∷ [])
]

pub signal_array_lookup : ℕ → List SignalEntry → Option ℕ
signal_array_lookup k [] = none
signal_array_lookup k (e ∷ arr) =
    let rest = signal_array_lookup k arr in
    if e.id == k then some 0 else elim rest [ none ↦ none | some i ↦ some (suc i) ]

-- `sigfound->sigfuncs` of the entry at an index.
abbrev pub funcs_at : List SignalEntry → ℕ → List ℕ
funcs_at arr i = elim (get_elem? arr i) [ none ↦ [] | some e ↦ e.sigfuncs ]

abbrev pub set_funcs : List SignalEntry → ℕ → List ℕ → List SignalEntry
set_funcs [] i fs = []
set_funcs (e ∷ arr) zero fs = record e { sigfuncs = fs } ∷ arr
set_funcs (e ∷ arr) (suc i) fs = e ∷ set_funcs arr i fs

pub signal_connect : ℕ → ℕ → List SignalEntry → List SignalEntry
unfolding signal_array_lookup signal_array_insert
signal_connect tok ref arr = elim (signal_array_lookup tok arr) [
  | some i ↦ set_funcs arr i (funcs_at arr i ++ ref ∷ [])
  | none ↦ signal_array_insert (record { id = tok; sigfuncs = ref ∷ [] }) arr
]

-- The removal from the entry at `i`, which goes when it has no function left.
pub disconnect_at : ℕ → ℕ → List SignalEntry → Bool × List SignalEntry
disconnect_at i ref arr =
    let rest = erase ref (funcs_at arr i) in
    if has ref (funcs_at arr i)
    then (true, if length rest == 0 then array_splice arr i 1 [] else set_funcs arr i rest)
    else (false, arr)

pub signal_disconnect : ℕ → ℕ → List SignalEntry → Bool × List SignalEntry
unfolding signal_array_lookup disconnect_at
signal_disconnect tok ref arr = elim (signal_array_lookup tok arr) [
  | some i ↦ disconnect_at i ref arr
  | none ↦ (false, arr)
]
