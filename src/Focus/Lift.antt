-- ===== src/Focus/Lift.antt =====
-- The `lift` of focusclient(), and what focustop() finds.
use somewm.Common.{
  ℕ, ◌≡◌, refl, ap, inl, inr, Bool, true, false, ◌&&◌, not, ◌∙◌, if◌then◌else◌, Option, none, some,
  List, [], ◌∷◌, ◌++◌, Bool-cases, ptr_eq, erase, Nodup, has-erase_self, erase-append_self, All,
}
use somewm.World.{World, Signal, parent}
use somewm.Stack.{stack_windows, stack_client_append, restack}
use somewm.Stack.Order.{stack_client_append_eq, stack_refresh_due}
use somewm.Client.Frame.{client_set_urgent-stack}
use somewm.Client.{Host, client_set_urgent, enqueue, client_on_selected_tags}
use somewm.Focus.{
  Seat, client_set_border_color, focus_stack, old_keeps, tell_unfocus, unfocus_old, focus_new,
  focusclient, top_loop, focustop,
}

module _ (host : Host) (seat : Seat) where
  -- The Lua handlers and the pointer motion leave the stack alone.
  pub record IsSteady : Type 0 where
    pub lua : (s : Signal) (w : World) → (host.lua s w).stack ≡ w.stack
    pub motion : (w : World) → (seat.motion w).stack ≡ w.stack

  lift-focus_stack :
      (c : ℕ) (w : World)
      → Nodup w.stack
      → seat.unmanaged c ≡ false
      → focus_stack host seat c (stack_client_append w c)
        ≡ focus_stack host seat c (stack_windows w)
  unfolding focus_stack stack_windows
  lift-focus_stack c w n u =
      rw
        (
          u,
          stack_client_append_eq w c,
          erase-append_self c (erase c w.stack) (has-erase_self c w.stack n),
        )
        refl

  border-stack : (c k : ℕ) (w : World) → (client_set_border_color host seat c k w).stack ≡ w.stack
  unfolding client_set_border_color enqueue
  border-stack c k w = refl

  unfocus_old-stack :
      (c : ℕ) (o : Option ℕ) (w : World) → (unfocus_old host seat c o w).stack ≡ w.stack
  unfolding unfocus_old tell_unfocus enqueue
  unfocus_old-stack c none w = refl
  unfocus_old-stack c (some f) w =
      elim (Bool-cases (not (ptr_eq (some f) (some c)) && not (seat.unmanaged f))) [
        | inl e ↦ rw e (border-stack f seat.border_color w)
        | inr e ↦ rw e refl
      ]

  module _ (steady : IsSteady) where
    focus_stack-front :
        (c : ℕ) (w : World)
        → seat.unmanaged c ≡ false
        → (focus_stack host seat c w).stack ≡ c ∷ erase c w.stack
    unfolding focus_stack
    focus_stack-front c w u =
        let w1 = record w { stack = c ∷ erase c w.stack; selmon = (w.client c).mon } in
        let w2 = client_set_urgent host c false w1 in
        elim (Bool-cases (ptr_eq seat.exclusive_focus none && not seat.drag)) [
          | inl e ↦
              rw (u, e)
                (border-stack c seat.focus_color w2
                  ∙ client_set_urgent-stack host steady.lua c false w1)
          | inr e ↦ rw (u, e) (client_set_urgent-stack host steady.lua c false w1)
        ]

    focus_new-stack :
        (c : ℕ) (w : World)
        → let w' = focus_new host seat c w in w'.stack ≡ restack (parent w') w.stack
    unfolding focus_new stack_windows enqueue
    focus_new-stack c w = elim (Bool-cases (seat.unmanaged c)) [
      | inl e ↦ rw e (stack_refresh_due _ refl ∙ ap (restack _) (steady.motion w))
      | inr e ↦ rw e (stack_refresh_due _ refl ∙ ap (restack _) (steady.motion w))
    ]

    -- In an unlocked session, for a managed client whose surface does not have the keyboard yet and a
    -- stack with no client twice, with Lua handlers and a pointer motion that leave the stack alone:
    -- focusclient() with `lift` does just what it does without on a stack that is marked for a refresh;
    -- either way the client is not raised but goes to the front of the stack, the others in their
    -- order, and the refresh, if the surface that has the keyboard does not keep it, starts from that.
    pub focusclient_lift :
        (c : ℕ) (w : World)
        → seat.locked ≡ false
        → ptr_eq (seat.surface c) seat.old ≡ false
        → seat.unmanaged c ≡ false
        → Nodup w.stack
        → (focusclient host seat (some c) true w
            ≡ focusclient host seat (some c) false (stack_windows w))
          × (let w' = focusclient host seat (some c) false w in
              w'.stack ≡ (
                if old_keeps host seat
                then c ∷ erase c w.stack
                else restack (parent w') (c ∷ erase c w.stack)))
    unfolding focusclient
    focusclient_lift c w l s u n = (rw (l, s, lift-focus_stack c w n u) refl, front)
      where
        front :
            let w' = focusclient host seat (some c) false w in
            w'.stack ≡ (
              if old_keeps host seat
              then c ∷ erase c w.stack
              else restack (parent w') (c ∷ erase c w.stack))
        front =
            let w2 = focus_stack host seat c w in
            let w3 = unfocus_old host seat c w2.focus_client w2 in
            elim (Bool-cases (old_keeps host seat)) [
              | inl e ↦ rw (l, s, e) (focus_stack-front c w u)
              | inr e ↦
                  rw (l, s, e)
                    (focus_new-stack c w3
                      ∙ ap (restack (parent (focus_new host seat c w3)))
                          (unfocus_old-stack c w2.focus_client w2 ∙ focus_stack-front c w u))
            ]

  -- A client that focustop() may return.
  abbrev pub IsCandidate : World → Option ℕ → ℕ → Bool → Type 0
  IsCandidate w m c b = (client_on_selected_tags host w c && ptr_eq (w.client c).mon m) ≡ b

  -- What a search of `cs` finds: the first candidate, or that there is none.
  pub data Finds (w : World) (m : Option ℕ) (cs : List ℕ) : Option ℕ → Type 0 where
    first :
        (before after : List ℕ) (c : ℕ)
        → cs ≡ before ++ c ∷ after
        → All (λ b. IsCandidate w m b false) before
        → IsCandidate w m c true
        → Finds w m cs (some c)
    nothing : All (λ b. IsCandidate w m b false) cs → Finds w m cs none

  Finds-cons :
      (w : World) (m : Option ℕ) (c : ℕ) {cs : List ℕ} {r : Option ℕ}
      → IsCandidate w m c false
      → Finds w m cs r
      → Finds w m (c ∷ cs) r
  Finds-cons w m c n (first before after d e h k) =
      first (c ∷ before) after d (ap (◌∷◌ c) e) (n, h) k
  Finds-cons w m c n (nothing h) = nothing (n, h)

  top_loop-Finds :
      (w : World) (m : Option ℕ) (cs : List ℕ) → Finds w m cs (top_loop host seat w m cs)
  unfolding top_loop
  top_loop-Finds w m [] = nothing tt
  top_loop-Finds w m (c ∷ cs) =
      elim (Bool-cases (client_on_selected_tags host w c && ptr_eq (w.client c).mon m)) [
        | inl e ↦ rw e (first [] cs c refl tt e)
        | inr e ↦ rw e (Finds-cons w m c e (top_loop-Finds w m cs))
      ]

  -- focustop() returns the first client of the stack, from the bottom, that is on a selected tag and on
  -- the monitor, and a null pointer exactly if there is none.
  pub focustop-Finds : (w : World) (m : Option ℕ) → Finds w m w.stack (focustop host seat w m)
  unfolding focustop
  focustop-Finds w m = top_loop-Finds w m w.stack
