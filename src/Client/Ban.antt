-- ===== src/Client/Ban.antt =====
-- client_ban() and client_unban() of objects/client.c, and the two passes of banning_refresh() in
-- banning.c.
pub mod Steady
pub mod Refresh
use somewm.Common.{ℕ, true, false, ◌&&◌, not, some, List, [], ◌∷◌, if◌then◌else◌, ptr_eq}
use somewm.World.{World, set_client}
use somewm.Client.{
  Host, client_isvisible, client_ban_unfocus, client_set_minimized, client_set_hidden,
}

module _ (host : Host) where
  -- A client without a scene yet is left alone.
  pub client_ban : ℕ → World → World
  unfolding client_ban_unfocus
  client_ban c w =
      if not (w.client c).isbanned && (w.client c).scene
      then client_ban_unfocus host c (set_client w c (record (w.client c) { isbanned = true }))
      else w

  refocus : ℕ → World → World
  refocus c w = if ptr_eq w.focus_client (some c) then record w { focus_need_update = true } else w

  pub client_unban : ℕ → World → World
  unfolding refocus
  client_unban c w =
      if (w.client c).isbanned && (w.client c).scene
      then refocus c (
          client_set_hidden host c false (
            client_set_minimized host c false
              (set_client w c (record (w.client c) { isbanned = false }))))
      else w

  pub unban_visible : List ℕ → World → World
  unban_visible [] w = w
  unban_visible (c ∷ cs) w =
      unban_visible cs (if client_isvisible host w c then client_unban c w else w)

  pub ban_invisible : List ℕ → World → World
  ban_invisible [] w = w
  ban_invisible (c ∷ cs) w =
      ban_invisible cs (if not (client_isvisible host w c) then client_ban c w else w)

  pub banning_refresh : World → World
  banning_refresh w =
      if not w.need_lazy_banning
      then w
      else let w' = unban_visible w.clients (record w { need_lazy_banning = false }) in
        ban_invisible w'.clients w'
