-- ===== src/Focus.antt =====
-- focus.c: focusclient(), focustop() and focus_restore(). What the seat, the surfaces and the monitors
-- are is wlroots' and X11's: a parameter.
pub mod Told
pub mod Lift
pub mod Restore
use somewm.Common.{
  ℕ, Bool, true, false, ◌&&◌, ◌||◌, not, Option, none, some, List, [], ◌∷◌, ◌++◌, if◌then◌else◌,
  ptr_eq, erase,
}
use somewm.World.{
  World, Client, Signal, Name, signal, global_signal, set_client, property_active,
  property_inactive, property_border_color, focus, unfocus, client_focused, client_unfocused,
  request_focus_restore,
}
use somewm.Stack.{stack_windows, stack_client_append, stack_refresh}
use somewm.Client.{Host, client_set_urgent, client_on_selected_tags, enqueue, emit}

-- What focusclient() asks of the seat and of the surfaces. `old` is the surface that has the keyboard,
-- `old_client` the toplevel that it belongs to, `old_on_top` whether it is a mapped layer surface in
-- the top layer or above.
pub record Seat : Type 0 where
  pub locked : Bool
  pub old : Option ℕ
  pub surface : ℕ → Option ℕ
  pub old_client : Option ℕ
  pub old_on_top : Bool
  pub unmanaged : ℕ → Bool
  pub exclusive_focus : Option ℕ
  pub wants_focus : ℕ → Bool
  pub drag : Bool
  pub focus_color : ℕ
  pub border_color : ℕ
  pub motion : World → World

module _ (host : Host) (seat : Seat) where
  pub client_set_border_color : ℕ → ℕ → World → World
  client_set_border_color c color w =
      enqueue host c property_border_color
        (set_client w c (record (w.client c) { border_rgba = some color }))

  -- The client goes to the front of the stack, and is the one that matters on its monitor.
  pub focus_stack : ℕ → World → World
  unfolding client_set_border_color
  focus_stack c w =
      if seat.unmanaged c
      then w
      else let w1 = record w { stack = c ∷ erase c w.stack; selmon = (w.client c).mon } in
        let w2 = client_set_urgent host c false w1 in
        if ptr_eq seat.exclusive_focus none && not seat.drag
        then client_set_border_color c seat.focus_color w2
        else w2

  -- Whether the surface that has the keyboard keeps it.
  unfoldable pub old_keeps : Bool
  old_keeps = elim seat.old [
    | none ↦ false
    | some _ ↦ seat.old_on_top || elim seat.old_client [
      | none ↦ false
      | some o ↦ ptr_eq (some o) seat.exclusive_focus && seat.wants_focus o
    ]
  ]

  pub tell_unfocus : ℕ → World → World
  unfolding client_set_border_color
  tell_unfocus f w =
      let w1 = client_set_border_color f seat.border_color w in
      let w2 = enqueue host f unfocus (enqueue host f property_inactive w1) in
      record w2 { queued = w2.queued ++ global_signal client_unfocused ∷ [] }

  -- The client that had the focus is told, if it is another one and managed.
  pub unfocus_old : ℕ → Option ℕ → World → World
  unfolding tell_unfocus
  unfocus_old c none w = w
  unfocus_old c (some f) w =
      if not (ptr_eq (some f) (some c)) && not (seat.unmanaged f) then tell_unfocus f w else w

  pub focus_new : ℕ → World → World
  focus_new c w =
      let w1 = seat.motion w in
      let w2 = stack_windows (record w1 { focus_client = some c; focus_need_update = true }) in
      let w3 =
        if seat.unmanaged c then w2 else enqueue host c focus (enqueue host c property_active w2) in
      stack_refresh (record w3 { queued = w3.queued ++ global_signal client_focused ∷ [] })

  pub focusclient : Option ℕ → Bool → World → World
  unfolding focus_stack old_keeps unfocus_old focus_new
  focusclient none lift w =
      if seat.locked
      then w
      else if old_keeps
      then w
      else stack_windows (record w { focus_client = none; focus_need_update = true })
  focusclient (some c) lift w =
      if seat.locked
      then w
      else let w1 = if lift then stack_client_append w c else w in
        if ptr_eq (seat.surface c) seat.old
        then w1
        else let w2 = focus_stack c w1 in
          if old_keeps then w2 else focus_new c (unfocus_old c w2.focus_client w2)

  unfoldable pub top_loop : World → Option ℕ → List ℕ → Option ℕ
  top_loop w m [] = none
  top_loop w m (c ∷ cs) =
      if client_on_selected_tags host w c && ptr_eq (w.client c).mon m
      then some c
      else top_loop w m cs

  unfoldable pub focustop : World → Option ℕ → Option ℕ
  unfolding top_loop
  focustop w m = top_loop w m w.stack

  pub screen_of : Option ℕ → Option ℕ
  screen_of none = none
  screen_of (some m) = host.monitor_screen m

  -- Lua is asked on the screen `s`; if it focuses no client, the fallback does.
  pub ask_lua : Option ℕ → (World → World) → World → World
  ask_lua none fallback w = fallback w
  ask_lua (some s) fallback w =
      let w1 = emit host s request_focus_restore w in
      if ptr_eq w1.focus_client none then fallback w1 else w1

  -- The monitor is the one that is given, else `selmon`; `lua` is false without a Lua state.
  pub focus_restore : Bool → Option ℕ → World → World
  focus_restore lua given w =
      let m = if ptr_eq given none then w.selmon else given in
      if seat.locked
      then w
      else ask_lua (if lua then screen_of m else none) (λ v. focusclient (focustop v m) true v) w
