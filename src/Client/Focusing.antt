-- ===== src/Client/Focusing.antt =====
-- The focus as objects/client.c keeps it: client_focus_update(), client_focus() and
-- client_focus_refresh(). The seat is wlroots': setting its focus is a parameter.
pub mod Told
pub mod First
use somewm.Common.{
  ℕ, Bool, true, false, ◌&&◌, not, Option, none, some, List, [], ◌∷◌, if◌then◌else◌, ptr_eq,
}
use somewm.World.{World, property_active, focus}
use somewm.Client.{Host, enqueue, client_unfocus_internal, client_set_urgent}

module _ (host : Host) where
  -- The focus is taken from who has it, if that is another client.
  pub take_focus : ℕ → Option ℕ → World → World
  take_focus c none w = w
  take_focus c (some f) w =
      if ptr_eq (some f) (some c) then w else client_unfocus_internal host f false w

  pub client_focus_update : ℕ → World → Bool × World
  unfolding take_focus
  client_focus_update c w =
      let w1 = take_focus c w.focus_client w in
      let focused_new = not (ptr_eq w1.focus_client (some c)) in
      let w2 = client_set_urgent host c false (record w1 { focus_client = some c }) in
      (
        focused_new,
        if focused_new then enqueue host c focus (enqueue host c property_active w2) else w2,
      )

  focus_on : (ℕ → Bool → World → World) → ℕ → World → World
  unfolding client_focus_update
  focus_on seat_focus c w =
      let (changed, w1) = client_focus_update c w in
      seat_focus c changed (if changed then record w1 { focus_need_update = true } else w1)

  -- With no client at all the null pointer reaches Lua, which raises an error: `none`.
  focus_first : (ℕ → Bool → World → World) → List ℕ → World → Option World
  unfolding focus_on
  focus_first seat_focus [] w = none
  focus_first seat_focus (c ∷ _) w = some (focus_on seat_focus c w)

  -- For a null pointer the first client.
  pub client_focus : (ℕ → Bool → World → World) → Option ℕ → World → Option World
  unfolding focus_on focus_first
  client_focus seat_focus (some c) w = some (focus_on seat_focus c w)
  client_focus seat_focus none w = focus_first seat_focus w.clients w

-- The keyboard focus of the seat is cleared if no client has the focus and no layer surface holds it
-- for itself.
pub client_focus_refresh : Bool → (World → World) → World → World
client_focus_refresh exclusive clear w =
    if not w.focus_need_update
    then w
    else let w1 = if ptr_eq w.focus_client none && not exclusive then clear w else w in
      record w1 { focus_need_update = false }
