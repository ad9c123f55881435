-- ===== src/Focus/Told.antt =====
-- focusclient(): whom it gives the focus, and what Lua is told of it.
use somewm.Common.{
  ℕ, ◌≡◌, refl, sym, ap, ◌∙◌, inl, inr, Bool, true, false, ◌&&◌, not, Option, none, some, [], ◌∷◌,
  ◌++◌, arith, Bool-cases, if◌then◌else◌, ptr_eq, ◌==◌, erase,
}
use somewm.World.{
  World, global_signal, set_client, focus, unfocus, property_active, property_inactive,
  property_border_color, client_focused, client_unfocused,
}
use somewm.Stack.{stack_windows, stack_client_append}
use somewm.Stack.Order.{stack_client_append-stack, stack_refresh-SameBut}
use somewm.Client.{Host, enqueue, client_set_urgent}
use somewm.Client.Focusing.Told.{told, told-append, Told, IsSilent, enqueue-told, set_urgent-told}
use somewm.Focus.{
  Seat, client_set_border_color, focus_stack, old_keeps, tell_unfocus, unfocus_old, focus_new,
  focusclient,
}

-- The pointer motion that follows neither queues signals nor moves the focus.
pub record IsStill (motion : World → World) : Type 0 where
  pub queued : (w : World) → (motion w).queued ≡ w.queued
  pub focus_client : (w : World) → (motion w).focus_client ≡ w.focus_client

module _ (host : Host) (silent : IsSilent host.lua) (seat : Seat) (x : ℕ) (start : Bool) where
  -- A step that tells Lua nothing of `x` and does not move the focus.
  record Mute (w w' : World) : Type 0 where
    said : told x start w'.queued ≡ told x start w.queued
    focus_client : w'.focus_client ≡ w.focus_client

  border-Mute : (c color : ℕ) (w : World) → Mute w (client_set_border_color host seat c color w)
  unfolding client_set_border_color
  border-Mute c color w =
      let (t, f) =
        enqueue-told host silent x start c property_border_color
          (set_client w c (record (w.client c) { border_rgba = some color })) in
      record { said = t; focus_client = f }

  focus_stack-Mute : (c : ℕ) (w : World) → Mute w (focus_stack host seat c w)
  unfolding focus_stack
  focus_stack-Mute c w =
      let w1 = record w { stack = c ∷ erase c w.stack; selmon = (w.client c).mon } in
      let w2 = client_set_urgent host c false w1 in
      let (q, f) = set_urgent-told host silent x start c false w1 in
      let m = border-Mute c seat.focus_color w2 in
      elim (Bool-cases (seat.unmanaged c)) [
        | inl u ↦ rw u (record { said = refl; focus_client = refl })
        | inr u ↦ elim (Bool-cases (ptr_eq seat.exclusive_focus none && not seat.drag)) [
          | inl e ↦
              rw (u, e)
                (record { said = m.said ∙ ap (told x start) q; focus_client = m.focus_client ∙ f })
          | inr e ↦ rw (u, e) (record { said = ap (told x start) q; focus_client = f })
        ]
      ]

  tell_unfocus-told :
      (f : ℕ) (w : World)
      → told x start (tell_unfocus host seat f w).queued
        ≡ (if f == x then false else told x start w.queued)
  unfolding tell_unfocus
  tell_unfocus-told f w =
      let w1 = client_set_border_color host seat f seat.border_color w in
      let w2 = enqueue host f property_inactive w1 in
      let w3 = enqueue host f unfocus w2 in
      told-append x start w3.queued (global_signal client_unfocused ∷ [])
      ∙ (enqueue-told host silent x start f unfocus w2).0
      ∙ ap (λ (b : Bool). if f == x then false else b)
          ((enqueue-told host silent x start f property_inactive w1).0
            ∙ (border-Mute f seat.border_color w).said)

  -- After the old client is told, Lua takes none but perhaps `c` for focused.
  unfocus_old-told :
      (c : ℕ) (f : Option ℕ) (w : World)
      → w.focus_client ≡ f
      → ((g : ℕ) → f ≡ some g → seat.unmanaged g ≡ false)
      → Told x start w
      → (c == x) ≡ false
      → told x start (unfocus_old host seat c f w).queued ≡ false
  unfolding unfocus_old
  unfocus_old-told c none w e m t o = t ∙ rw e refl
  unfocus_old-told c (some f) w e m t o = elim (Bool-cases (f == c)) [
    | inl same ↦ rw same (t ∙ rw e (ground arith))
    | inr other ↦ rw (other, m f refl) (tell_unfocus-told f w ∙ rw t (rw e (ground arith)))
  ]

  focus_new-told :
      (c : ℕ) (w : World)
      → IsStill seat.motion
      → seat.unmanaged c ≡ false
      → (told x start (focus_new host seat c w).queued
          ≡ (if c == x then true else told x start w.queued))
        × ((focus_new host seat c w).focus_client ≡ some c)
  unfolding focus_new stack_windows
  focus_new-told c w still u =
      let w1 = seat.motion w in
      let w2 = stack_windows (record w1 { focus_client = some c; focus_need_update = true }) in
      let w3 = enqueue host c property_active w2 in
      let w4 = enqueue host c focus w3 in
      let w5 = record w4 { queued = w4.queued ++ global_signal client_focused ∷ [] } in
      let s = stack_refresh-SameBut w5 in
      rw u (
        ap (told x start) s.queued
            ∙ told-append x start w4.queued (global_signal client_focused ∷ [])
            ∙ (enqueue-told host silent x start c focus w3).0
            ∙ ap (λ (b : Bool). if c == x then true else b)
                ((enqueue-told host silent x start c property_active w2).0
                  ∙ ap (told x start) (still.queued w)),
        s.focus_client
            ∙ (enqueue-told host silent x start c focus w3).1
            ∙ (enqueue-told host silent x start c property_active w2).1,
      )

  lifted-Mute :
      (c : ℕ) (lift : Bool) (w : World) → Mute w (if lift then stack_client_append w c else w)
  lifted-Mute c true w =
      let s = (stack_client_append-stack w c).1 in
      record { said = ap (told x start) s.queued; focus_client = s.focus_client }
  lifted-Mute c false w = record { said = refl; focus_client = refl }

  Mute-Told : {w w' : World} → Mute w w' → Told x start w → Told x start w'
  Mute-Told m t = m.said ∙ t ∙ ap (λ (f : Option ℕ). ptr_eq f (some x)) (sym m.focus_client)

  -- The last part of focusclient().
  handover-Told :
      (c : ℕ) (w : World)
      → IsStill seat.motion
      → ((g : ℕ) → w.focus_client ≡ some g → seat.unmanaged g ≡ false)
      → seat.unmanaged c ≡ false
      → Told x start w
      → Told x start (focus_new host seat c (unfocus_old host seat c w.focus_client w))
  handover-Told c w still m u t =
      let (n, f) = focus_new-told c (unfocus_old host seat c w.focus_client w) still u in
      elim (Bool-cases (c == x)) [
        | inl here ↦ n ∙ rw (f, here) refl
        | inr other ↦ n ∙ rw (f, other) (unfocus_old-told c w.focus_client w refl m t other)
      ]

  -- With handlers and a pointer motion that neither queue signals nor move the focus, and with
  -- managed clients only: if after the queue Lua will be right about whether `x` has the focus, it
  -- will be after focusclient() on any client, whatever the seat does with it.
  pub focusclient-Told :
      (c : ℕ) (lift : Bool) (w : World)
      → IsStill seat.motion
      → ((g : ℕ) → w.focus_client ≡ some g → seat.unmanaged g ≡ false)
      → seat.unmanaged c ≡ false
      → Told x start w
      → Told x start (focusclient host seat (some c) lift w)
  unfolding focusclient
  focusclient-Told c lift w still m u t =
      let w1 = if lift then stack_client_append w c else w in
      let m1 = lifted-Mute c lift w in
      let w2 = focus_stack host seat c w1 in
      let m2 = focus_stack-Mute c w1 in
      let t2 = Mute-Told m2 (Mute-Told m1 t) in
      elim (Bool-cases seat.locked) [
        | inl l ↦ rw l t
        | inr l ↦ elim (Bool-cases (ptr_eq (seat.surface c) seat.old)) [
          | inl s ↦ rw (l, s) (Mute-Told m1 t)
          | inr s ↦ elim (Bool-cases (old_keeps host seat)) [
            | inl k ↦ rw (l, s, k) t2
            | inr k ↦
                rw (l, s, k)
                  (handover-Told c w2 still
                    (λ g e. m g (sym (m2.focus_client ∙ m1.focus_client) ∙ e)) u t2)
          ]
        ]
      ]

  -- In an unlocked session where the surface that has the keyboard does not keep it, focusclient() on a
  -- null pointer takes the focus from the client that has it, and Lua is not told: it goes on to take
  -- that client for focused.
  pub focusclient-none-told :
      (lift : Bool) (w : World)
      → seat.locked ≡ false
      → old_keeps host seat ≡ false
      → w.focus_client ≡ some x
      → Told x start w
      → ((focusclient host seat none lift w).focus_client ≡ none)
        × (told x start (focusclient host seat none lift w).queued ≡ true)
  unfolding focusclient stack_windows
  focusclient-none-told lift w l k f t = rw (l, k) (refl, t ∙ rw f (ground arith))
