-- ===== src/Client/Raise.antt =====
-- client_raise() of objects/client.h.
pub mod Top
use somewm.Common.{
  ℕ, zero, suc, ◌+◌, ◌≡◌, ◌≢◌, refl, sym, ap, ◌∙◌, inl, inr, Bool, true, false, ◌||◌, Option, none,
  some, List, [], ◌∷◌, ◌++◌, arith, Bool-cases, Option-cases, if◌then◌else◌, ◌==◌, ==_iff, has,
  erase, Nodup, has-append, append-Nodup, erase-Nodup, has-erase_ne, has-erase_self,
}
use mathlib.Core.List.{append-nil, append_assoc}
use somewm.World.{World, Signal, parent, raised}
use somewm.Stack.{stack_client_append}
use somewm.Stack.Layer.{Ends, stop, step}
use somewm.Stack.Order.{stack_client_append-stack}
use somewm.Client.{Host, emit}

-- `for (counter = 0; tc->transient_for; counter++)`. `none`: out of fuel.
pub transient_depth : ℕ → World → ℕ → Option ℕ
transient_depth zero w c = none
transient_depth (suc k) w c = elim (parent w c) [
  | none ↦ some 0
  | some p ↦ elim (transient_depth k w p) [ none ↦ none | some n ↦ some (suc n) ]
]

-- `for (int i = 0; i < counter; i++) tc = tc->transient_for;`. `none`: a null pointer.
pub climb : ℕ → (ℕ → Option ℕ) → ℕ → Option ℕ
climb zero up c = some c
climb (suc k) up c = elim (up c) [ none ↦ none | some p ↦ climb k up p ]

-- The loop that counts down and appends.
pub raise_loop : ℕ → ℕ → World → Option World
raise_loop zero c w = some w
raise_loop (suc k) c w = elim (climb (suc k) (parent w) c) [
  | none ↦ none
  | some tc ↦ raise_loop k c (stack_client_append w tc)
]

module _ (host : Host) where
  pub client_raise : ℕ → ℕ → World → Option World
  unfolding transient_depth raise_loop emit
  client_raise fuel c w = elim (transient_depth fuel w c) [
    | none ↦ none
    | some n ↦ elim (raise_loop n c w) [
      | none ↦ none
      | some w' ↦ some (emit host c raised (stack_client_append w' c))
    ]
  ]
