-- ===== src/Client/Setters/Transient.antt =====
-- client_set_transient_for() and client_find_transient_for() of objects/client.c: the parents of the
-- clients never come to form a cycle, so the loops that walk up the parents end.
use somewm.Common.{
  ℕ, zero, suc, ◌+◌, ◌≡◌, refl, ◌∙◌, ap, inl, inr, true, Option, some, none, arith, Bool-cases,
  Option-cases, if◌then◌else◌, ◌==◌, ==_iff, ptr_eq, length,
}
use somewm.World.{World, Signal, Name, signal, parent, set_client, property_transient_for}
use somewm.Stack.{stack_windows}
use somewm.Stack.Layer.{Ends, stop, step}
use somewm.Client.{Host, emit}
use somewm.Client.Setters.{no_loop, client_set_transient_for, client_find_transient_for}

abbrev pub IsAcyclic : (ℕ → Option ℕ) → Type 0
IsAcyclic up = (x : ℕ) → (n : ℕ) × Ends up n x

-- The parents with that of `c` replaced.
abbrev retarget : (ℕ → Option ℕ) → ℕ → Option ℕ → ℕ → Option ℕ
retarget up c p x = if x == c then p else up x

Ends-ext : {up up' : ℕ → Option ℕ} {n x : ℕ} → ((y : ℕ) → up' y ≡ up y) → Ends up n x → Ends up' n x
Ends-ext e (stop {x} h) = stop (e x ∙ h)
Ends-ext e (step {x} h r) = step (e x ∙ h) (Ends-ext e r)

module _ (up : ℕ → Option ℕ) (c : ℕ) (p : Option ℕ) where
  -- If the chain of `c` ends under the new parents, so does each that ended under the old.
  Ends-retarget :
      {n x : ℕ}
      → ((m : ℕ) × Ends (retarget up c p) m c)
      → Ends up n x
      → (m : ℕ) × Ends (retarget up c p) m x
  Ends-retarget {x} (m, e) (stop h) = elim (Bool-cases (x == c)) [
    | inl same ↦ rw ((==_iff x c).0 same) (m, e)
    | inr other ↦ (0, stop (ground arith))
  ]
  Ends-retarget {x} (m, e) (step h r) = elim (Bool-cases (x == c)) [
    | inl same ↦ rw ((==_iff x c).0 same) (m, e)
    | inr other ↦ let (k, f) = Ends-retarget (m, e) r in (suc k, step (ground arith) f)
  ]

  -- Where the loop of client_find_transient_for answers yes, the chain from `t` misses `c` and ends.
  no_loop-Ends : (k t : ℕ) → no_loop up c k (some t) ≡ true → (m : ℕ) × Ends (retarget up c p) m t
  unfolding no_loop
  no_loop-Ends zero t h = absurd (ground arith)
  no_loop-Ends (suc k) t h = elim (Option-cases (up t)) [
    | inl e ↦ (0, stop (ground arith))
    | inr (q, e) ↦ let (m, r) = no_loop-Ends k q (ground arith) in (suc m, step (ground arith) r)
  ]

-- The Lua handlers leave the parents of the clients alone.
pub record KeepsParents (host : Host) : Type 0 where
  pub lua : (s : Signal) (w : World) (x : ℕ) → parent (host.lua s w) x ≡ parent w x

module _ (host : Host) (keeps : KeepsParents host) where
  emit-parent : (c : ℕ) (n : Name) (w : World) (x : ℕ) → parent (emit host c n w) x ≡ parent w x
  unfolding emit
  emit-parent c n w x = keeps.lua (signal c n) _ x

  eq_of_ptr_eq : (a b : Option ℕ) → ptr_eq a b ≡ true → a ≡ b
  eq_of_ptr_eq none none h = refl
  eq_of_ptr_eq none (some b) h = ground arith
  eq_of_ptr_eq (some a) none h = ground arith
  eq_of_ptr_eq (some a) (some b) h = ground arith

  set_transient_for-parent :
      (c : ℕ) (p : Option ℕ) (w : World) (x : ℕ)
      → parent (client_set_transient_for host c p w) x ≡ retarget (parent w) c p x
  unfolding client_set_transient_for stack_windows
  set_transient_for-parent c p w x = elim (Bool-cases (ptr_eq (w.client c).transient_for p)) [
    | inl e ↦ rw e (elim (Bool-cases (x == c)) [
      | inl same ↦
          ground (arith, eq_of_ptr_eq (parent w c) p e, ap (parent w) ((==_iff x c).0 same))
      | inr other ↦ ground arith
    ])
    | inr e ↦ rw e (
        emit-parent c property_transient_for
          (stack_windows (set_client w c (record (w.client c) { transient_for = p }))) x
        ∙ ground arith)
  ]

  -- With Lua handlers that leave the parents alone: if no chain of parents is a cycle, none is
  -- after client_find_transient_for, whatever client `tc` the window system names as the parent and
  -- however short the stack is.
  pub find_transient_for-IsAcyclic :
      (c : ℕ) (tc : Option ℕ) (w : World)
      → IsAcyclic (parent w)
      → IsAcyclic (parent (client_find_transient_for host c tc w))
  unfolding client_find_transient_for
  find_transient_for-IsAcyclic c tc w old x =
      let up = parent w in
      elim (Bool-cases (no_loop up c (length w.stack + 1) tc)) [
        | inl e ↦ rw e (set_parent tc (found tc e))
        | inr e ↦ rw e (set_parent none (0, stop (ground arith)))
      ]
    where
      found :
          (t : Option ℕ)
          → no_loop (parent w) c (length w.stack + 1) t ≡ true
          → (m : ℕ) × Ends (retarget (parent w) c t) m c
      found none e = (0, stop (ground arith))
      found (some t) e =
          let (m, r) = no_loop-Ends (parent w) c (some t) (length w.stack + 1) t e in
          (suc m, step (ground arith) r)

      set_parent :
          (t : Option ℕ)
          → (m : ℕ) × Ends (retarget (parent w) c t) m c
          → (m : ℕ) × Ends (parent (client_set_transient_for host c t w)) m x
      set_parent t b =
          let (n, e) = old x in
          let (m, r) = Ends-retarget (parent w) c t b e in
          (m, Ends-ext (set_transient_for-parent c t w) r)
