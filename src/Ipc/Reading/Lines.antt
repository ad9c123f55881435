-- ===== src/Ipc/Reading/Lines.antt =====
-- The lines of a stream of bytes, and how strchr() finds the end of the first.
use somewm.Common.{
  ℕ, suc, ◌+◌, ◌<◌, ◌≤◌, ◌≡◌, refl, ap, ◌∙◌, false, none, some, List, [], ◌∷◌, ◌++◌, ◌==◌,
  if◌then◌else◌, has, has-append, Bool-cases, Option-cases, inl, inr, subst, length, take, drop,
  length-append, arith,
}
use mathlib.Core.List.{append_assoc, append-nil}
use somewm.Common.Text.{newline}
use somewm.Ipc.Reading.{strchr}

-- The complete lines of a stream that goes on behind `acc`, and what is left behind the last of them.
abbrev pub split : List ℕ → List ℕ → List (List ℕ) × List ℕ
split acc [] = ([], acc)
split acc (c ∷ cs) =
    let next = split [] cs in
    let more = split (acc ++ c ∷ []) cs in if c == newline then (acc ∷ next.0, next.1) else more

-- The commands among the lines: an empty line is none.
abbrev pub commands : List (List ℕ) → List (List ℕ)
commands [] = []
commands ([] ∷ ls) = commands ls
commands ((c ∷ cs) ∷ ls) = (c ∷ cs) ∷ commands ls

pub commands-append : (xs ys : List (List ℕ)) → commands (xs ++ ys) ≡ commands xs ++ commands ys
commands-append [] ys = refl
commands-append ([] ∷ xs) ys = commands-append xs ys
commands-append ((c ∷ cs) ∷ xs) ys = ap (λ l. (c ∷ cs) ∷ l) (commands-append xs ys)

-- A stream in two pieces.
pub split-append :
    (acc xs ys : List ℕ)
    → split acc (xs ++ ys)
      ≡ ((split acc xs).0 ++ (split (split acc xs).1 ys).0, (split (split acc xs).1 ys).1)
split-append acc [] ys = refl
split-append acc (c ∷ xs) ys =
    ground (arith, split-append [] xs ys, split-append (acc ++ c ∷ []) xs ys)

pub split-none : (acc xs : List ℕ) → has newline xs ≡ false → split acc xs ≡ ([], acc ++ xs)
split-none acc [] h = rw (append-nil acc)
split-none acc (c ∷ xs) h =
    ground (arith, split-none (acc ++ c ∷ []) xs, append_assoc acc (c ∷ []) xs)

-- What is left behind the last line has only bytes of the stream, and is no longer than it.
pub rest-has :
    (a : ℕ) (acc xs : List ℕ)
    → has a acc ≡ false
    → has a xs ≡ false
    → has a (split acc xs).1 ≡ false
rest-has a acc [] h k = h
rest-has a acc (c ∷ xs) h k =
    ground (arith, rest-has a [] xs, rest-has a (acc ++ c ∷ []) xs, has-append a acc (c ∷ []))

pub rest_unfinished :
    (acc xs : List ℕ) → has newline acc ≡ false → has newline (split acc xs).1 ≡ false
rest_unfinished acc [] h = h
rest_unfinished acc (c ∷ xs) h = ground (
  arith,
  rest_unfinished [] xs,
  rest_unfinished (acc ++ c ∷ []) xs,
  has-append newline acc (c ∷ []),
)

-- A stream that stops and goes on: what was left is taken up again.
pub split-resume :
    (xs ys : List ℕ)
    → split [] (xs ++ ys) ≡ (
      (split [] xs).0 ++ (split [] ((split [] xs).1 ++ ys)).0,
      (split [] ((split [] xs).1 ++ ys)).1,
    )
split-resume xs ys =
    let b = (split [] xs).1 in
    let again : split [] (b ++ ys) ≡ split b ys =
      split-append [] b ys ∙ rw (split-none [] b (rest_unfinished [] xs refl)) refl in
    rw again (split-append [] xs ys)

pub rest-le : (acc xs : List ℕ) → length (split acc xs).1 ≤ length acc + length xs
rest-le acc [] = omega arith
rest-le acc (c ∷ xs) =
    ground (arith, rest-le [] xs, rest-le (acc ++ c ∷ []) xs, length-append acc (c ∷ []))

-- Where strchr() finds the line feed, the first line ends.
strchr-split-acc :
    (acc b : List ℕ) (n : ℕ)
    → strchr newline b ≡ some n
    → (n < length b)
      × (split acc b
          ≡ ((acc ++ take n b) ∷ (split [] (drop (suc n) b)).0, (split [] (drop (suc n) b)).1))
unfolding strchr
strchr-split-acc acc [] n h = absurd (ground arith)
strchr-split-acc acc (c ∷ cs) n h = elim (Bool-cases (c == newline)) [
  | inl e ↦
      let z : 0 ≡ n = ground arith in
      subst
        (λ (n : ℕ).
          (n < length (c ∷ cs))
          × (split acc (c ∷ cs) ≡ (
            (acc ++ take n (c ∷ cs)) ∷ (split [] (drop (suc n) (c ∷ cs))).0,
            (split [] (drop (suc n) (c ∷ cs))).1,
          )))
        z (omega arith, rw (e, append-nil acc))
  | inr o ↦ elim (Option-cases (strchr newline cs)) [
    | inl none_there ↦ absurd (ground arith)
    | inr (m, found) ↦
        let z : suc m ≡ n = ground arith in
        let (lt, eq) = strchr-split-acc (acc ++ c ∷ []) cs m found in
        subst
          (λ (n : ℕ).
            (n < length (c ∷ cs))
            × (split acc (c ∷ cs) ≡ (
              (acc ++ take n (c ∷ cs)) ∷ (split [] (drop (suc n) (c ∷ cs))).0,
              (split [] (drop (suc n) (c ∷ cs))).1,
            )))
          z (omega arith, rw o (eq ∙ rw (append_assoc acc (c ∷ []) (take m cs)) refl))
  ]
]

pub strchr-split :
    (b : List ℕ) (n : ℕ)
    → strchr newline b ≡ some n
    → (n < length b)
      × (split [] b ≡ (take n b ∷ (split [] (drop (suc n) b)).0, (split [] (drop (suc n) b)).1))
strchr-split b n h = strchr-split-acc [] b n h

pub strchr-none : (b : List ℕ) → has 0 b ≡ false → strchr newline b ≡ none → has newline b ≡ false
unfolding strchr
strchr-none [] z h = refl
strchr-none (c ∷ cs) z h = elim (Option-cases (strchr newline cs)) [
  | inl miss ↦ ground (arith, strchr-none cs)
  | inr (m, found) ↦ absurd (ground arith)
]
