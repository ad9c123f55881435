-- ===== src/Stack/Layer.antt =====
-- The layer that a client draws in (stack_client_layer and stack_client_effective_layer of stack.c).
use somewm.Common.{ℕ, zero, suc, ◌≡◌, ◌≢◌, refl, ◌∙◌, ◌⊎◌, inl, inr, Option, some, none, arith}
use somewm.World.{World, parent}
use somewm.Stack.{
  WindowLayer, ignore, type_layer, stack_client_layer, effective_loop, stack_client_effective_layer,
}

-- From `x`, `n` parents lead to a client that has none.
pub data Ends (up : ℕ → Option ℕ) : ℕ → ℕ → Type 0 where
  stop : {x : ℕ} → up x ≡ none → Ends up zero x
  step : {n x p : ℕ} → up x ≡ some p → Ends up n p → Ends up (suc n) x

-- The layer of the nearest client, from `c` up its parents, that has one of its own.
pub data Inherits (w : World) : ℕ → WindowLayer → Type 0 where
  own : {c : ℕ} {l : WindowLayer} → stack_client_layer w (some c) ≡ l → l ≢ ignore → Inherits w c l
  from_parent :
      {c p : ℕ} {l : WindowLayer}
      → stack_client_layer w (some c) ≡ ignore
      → parent w c ≡ some p
      → Inherits w p l
      → Inherits w c l

ignore_or_not : (l : WindowLayer) → (l ≡ ignore) ⊎ (l ≢ ignore)
ignore_or_not ignore = inl refl
ignore_or_not _ = inr (λ e. cc)

-- Only a transient is ignored.
ignore-parent : (w : World) (c : ℕ) → stack_client_layer w (some c) ≡ ignore → parent w c ≢ none
unfolding stack_client_layer type_layer
ignore-parent w c h e = ground arith

loop_own :
    (k : ℕ) (w : World) (c : ℕ)
    → stack_client_layer w (some c) ≢ ignore
    → effective_loop (suc k) w c ≡ some (stack_client_layer w (some c))
unfolding effective_loop
loop_own k w c h = ground arith

loop_up :
    (k : ℕ) (w : World) (c p : ℕ)
    → stack_client_layer w (some c) ≡ ignore
    → parent w c ≡ some p
    → effective_loop (suc k) w c ≡ effective_loop k w p
unfolding effective_loop
loop_up k w c p h e = ground arith

loop-Inherits :
    (w : World) {n c : ℕ}
    → Ends (parent w) n c
    → (l : WindowLayer) × (effective_loop (suc n) w c ≡ some l) × Inherits w c l
loop-Inherits w {n} {c} (stop e) = elim (ignore_or_not (stack_client_layer w (some c))) [
  | inl h ↦ absurd (ignore-parent w c h e)
  | inr h ↦ (stack_client_layer w (some c), loop_own zero w c h, own refl h)
]
loop-Inherits w {c} (step {n} {p} e r) = elim (ignore_or_not (stack_client_layer w (some c))) [
  | inl h ↦
      let (l, f, i) = loop-Inherits w r in (l, loop_up (suc n) w c p h e ∙ f, from_parent h e i)
  | inr h ↦ (stack_client_layer w (some c), loop_own (suc n) w c h, own refl h)
]

-- On a chain of `n` parents that ends, `n + 1` rounds are enough, and the layer found is that of the
-- nearest client up the chain that has one of its own.
pub effective_layer-Inherits :
    (w : World) (n c : ℕ)
    → Ends (parent w) n c
    → (l : WindowLayer) × (stack_client_effective_layer (suc n) w c ≡ some l) × Inherits w c l
unfolding stack_client_effective_layer
effective_layer-Inherits w n c e = loop-Inherits w e
