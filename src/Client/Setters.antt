-- ===== src/Client/Setters.antt =====
-- The setters of objects/client.c that restack: the layer attributes, maximization, modality, and the
-- parent of a transient.
pub mod Layers
pub mod Transient
pub mod Maximize
use somewm.Common.{
  ℕ, zero, suc, ◌+◌, Bool, true, false, Option, none, some, ◌==◌, if◌then◌else◌, bool_eq, ptr_eq,
  length,
}
use somewm.World.{
  World, set_client, parent, property_ontop, property_above, property_below, property_fullscreen,
  property_modal, property_transient_for, request_geometry,
}
use somewm.Stack.{stack_windows}
use somewm.Client.{Host, emit}

-- The loop of client_find_transient_for from `tmp`, with the rounds that are left before the counter
-- passes the length of the stack: whether it ends at a null pointer.
pub no_loop : (ℕ → Option ℕ) → ℕ → ℕ → Option ℕ → Bool
no_loop up c zero tmp = false
no_loop up c (suc k) none = true
no_loop up c (suc k) (some t) = let rest = no_loop up c k (up t) in if t == c then false else rest

module _ (host : Host) where
  pub client_set_modal : ℕ → Bool → World → World
  client_set_modal c s w =
      if bool_eq (w.client c).modal s
      then w
      else emit host c property_modal
          (stack_windows (set_client w c (record (w.client c) { modal = s })))

  pub client_set_transient_for : ℕ → Option ℕ → World → World
  client_set_transient_for c p w =
      if ptr_eq (w.client c).transient_for p
      then w
      else emit host c property_transient_for
          (stack_windows (set_client w c (record (w.client c) { transient_for = p })))

  -- `tc` is client_getbywin(c->transient_for_window).
  pub client_find_transient_for : ℕ → Option ℕ → World → World
  unfolding no_loop
  client_find_transient_for c tc w =
      client_set_transient_for c (if no_loop (parent w) c (length w.stack + 1) tc then tc else none)
        w

  -- The layer attributes. Each setter clears the other three first when it sets its own; a call that
  -- clears makes no further call, so `others` is what a call that sets makes.
  above_with : (World → World) → ℕ → Bool → World → World
  above_with others c s w =
      if bool_eq (w.client c).above s
      then w
      else let w' = if s then others w else w in
        emit host c property_above
          (stack_windows (set_client w' c (record (w'.client c) { above = s })))

  below_with : (World → World) → ℕ → Bool → World → World
  below_with others c s w =
      if bool_eq (w.client c).below s
      then w
      else let w' = if s then others w else w in
        emit host c property_below
          (stack_windows (set_client w' c (record (w'.client c) { below = s })))

  ontop_with : (World → World) → ℕ → Bool → World → World
  ontop_with others c s w =
      if bool_eq (w.client c).ontop s
      then w
      else let w' = if s then others w else w in
        emit host c property_ontop
          (stack_windows (set_client w' c (record (w'.client c) { ontop = s })))

  -- The saved geometry `c->prev` is not part of the model, nor is the foreign-toplevel handle.
  fullscreen_with : (World → World) → ℕ → Bool → World → World
  fullscreen_with others c s w =
      if bool_eq (w.client c).fullscreen s
      then w
      else let w' = if s then others w else w in
        let set = set_client w' c (record (w'.client c) { fullscreen = s }) in
        stack_windows
          (host.resize_do c (emit host c property_fullscreen (emit host c request_geometry set)))

  pub client_set_above : ℕ → Bool → World → World
  unfolding above_with below_with ontop_with fullscreen_with
  client_set_above c =
      above_with
        (λ w.
          fullscreen_with (λ v. v) c false
            (ontop_with (λ v. v) c false (below_with (λ v. v) c false w)))
        c

  pub client_set_below : ℕ → Bool → World → World
  unfolding above_with below_with ontop_with fullscreen_with
  client_set_below c =
      below_with
        (λ w.
          fullscreen_with (λ v. v) c false
            (ontop_with (λ v. v) c false (above_with (λ v. v) c false w)))
        c

  pub client_set_ontop : ℕ → Bool → World → World
  unfolding above_with below_with ontop_with fullscreen_with
  client_set_ontop c =
      ontop_with
        (λ w.
          fullscreen_with (λ v. v) c false
            (below_with (λ v. v) c false (above_with (λ v. v) c false w)))
        c

  pub client_set_fullscreen : ℕ → Bool → World → World
  unfolding above_with below_with ontop_with fullscreen_with
  client_set_fullscreen c =
      fullscreen_with
        (λ w.
          ontop_with (λ v. v) c false (above_with (λ v. v) c false (below_with (λ v. v) c false w)))
        c
