-- ===== src/Client/Ban/Refresh.antt =====
-- banning_refresh() of banning.c: after it, a client is banned exactly if it is not visible.
use somewm.Common.{
  ℕ, ◌≡◌, refl, sym, subst, ◌∙◌, ap, inl, inr, true, false, ◌&&◌, not, List, [], ◌∷◌, arith,
  Bool-cases, if◌then◌else◌, has,
}
use somewm.World.{World}
use somewm.Client.{Host, client_isvisible}
use somewm.Client.Ban.{client_ban, client_unban, unban_visible, ban_invisible, banning_refresh}
use somewm.Client.Ban.Steady.{
  Steady, Steady-refl, Steady-trans, client_ban-Steady, client_ban-banned, client_unban-Steady,
  client_unban-banned, Steady-isvisible,
}

module _ (host : Host) where
  -- The first pass.
  unban_visible-Steady : (cs : List ℕ) (w : World) → Steady w (unban_visible host cs w)
  unfolding unban_visible
  unban_visible-Steady [] w = Steady-refl w
  unban_visible-Steady (c ∷ cs) w = elim (Bool-cases (client_isvisible host w c)) [
    | inl v ↦ rw v (
        Steady-trans w (client_unban host c w) _ (client_unban-Steady host c w v)
          (unban_visible-Steady cs (client_unban host c w)))
    | inr v ↦ rw v (unban_visible-Steady cs w)
  ]

  unban_visible-banned :
      (cs : List ℕ) (w : World) (a : ℕ)
      → ((unban_visible host cs w).client a).isbanned ≡ (
          if has a cs && client_isvisible host w a && (w.client a).scene
          then false
          else (w.client a).isbanned)
  unfolding unban_visible
  unban_visible-banned [] w a = refl
  unban_visible-banned (c ∷ cs) w a = elim (Bool-cases (client_isvisible host w c)) [
    | inl v ↦
        let s = client_unban-Steady host c w v in
        rw (v, unban_visible)
          (ground (
            arith,
            unban_visible-banned cs (client_unban host c w) a,
            client_unban-banned host c a w v,
            Steady-isvisible host w (client_unban host c w) a s,
            s.scene a,
          ))
    | inr v ↦ rw (v, unban_visible) (ground (arith, unban_visible-banned cs w a))
  ]

  -- The second pass.
  ban_invisible-Steady : (cs : List ℕ) (w : World) → Steady w (ban_invisible host cs w)
  unfolding ban_invisible
  ban_invisible-Steady [] w = Steady-refl w
  ban_invisible-Steady (c ∷ cs) w = elim (Bool-cases (client_isvisible host w c)) [
    | inl v ↦ rw v (ban_invisible-Steady cs w)
    | inr v ↦ rw v (
        Steady-trans w (client_ban host c w) _ (client_ban-Steady host c w)
          (ban_invisible-Steady cs (client_ban host c w)))
  ]

  ban_invisible-banned :
      (cs : List ℕ) (w : World) (a : ℕ)
      → ((ban_invisible host cs w).client a).isbanned ≡ (
          if has a cs && not (client_isvisible host w a) && (w.client a).scene
          then true
          else (w.client a).isbanned)
  unfolding ban_invisible
  ban_invisible-banned [] w a = refl
  ban_invisible-banned (c ∷ cs) w a = elim (Bool-cases (client_isvisible host w c)) [
    | inl v ↦ rw (v, ban_invisible) (ground (arith, ban_invisible-banned cs w a))
    | inr v ↦
        let s = client_ban-Steady host c w in
        rw (v, ban_invisible)
          (ground (
            arith,
            ban_invisible-banned cs (client_ban host c w) a,
            client_ban-banned host c a w,
            Steady-isvisible host w (client_ban host c w) a s,
            s.scene a,
          ))
  ]

  start-Steady : (w : World) → Steady w (record w { need_lazy_banning = false })
  start-Steady w = record {
    clients = refl;
    view = λ c. record {
      tag = refl;
      tags = refl;
      hidden = refl;
      minimized = refl;
      sticky = refl;
      screen = refl;
      mon = refl;
    };
    scene = λ c. refl;
  }

  passes : World → World
  passes w = let w' = unban_visible host w.clients w in ban_invisible host w'.clients w'

  passes-Steady : (w : World) → Steady w (passes w)
  unfolding passes
  passes-Steady w =
      Steady-trans w (unban_visible host w.clients w) _ (unban_visible-Steady w.clients w)
        (ban_invisible-Steady _ _)

  passes-banned :
      (w : World) (c : ℕ)
      → has c w.clients ≡ true
      → (w.client c).scene ≡ true
      → ((passes w).client c).isbanned ≡ not (client_isvisible host w c)
  unfolding passes
  passes-banned w c managed mapped =
      let mid = unban_visible host w.clients w in
      let s = unban_visible-Steady w.clients w in
      ground (
        arith,
        unban_visible-banned w.clients w c,
        ban_invisible-banned mid.clients mid c,
        Steady-isvisible host w mid c s,
        ap (has c) s.clients,
        s.scene c,
      )

  refresh_due :
      (w : World)
      → w.need_lazy_banning ≡ true
      → banning_refresh host w ≡ passes (record w { need_lazy_banning = false })
  unfolding banning_refresh passes
  refresh_due w due = ground arith

  -- When a refresh is due, it leaves each client that is managed and mapped banned exactly if it is
  -- not visible, and as visible as it was.
  pub banning_refresh-banned :
      (w : World) (c : ℕ)
      → w.need_lazy_banning ≡ true
      → has c w.clients ≡ true
      → (w.client c).scene ≡ true
      → (((banning_refresh host w).client c).isbanned ≡ not (client_isvisible host w c))
        × (client_isvisible host (banning_refresh host w) c ≡ client_isvisible host w c)
  banning_refresh-banned w c due managed mapped =
      let start = record w { need_lazy_banning = false } in
      let v = Steady-isvisible host w start c (start-Steady w) in
      subst
        (λ (r : World).
          ((r.client c).isbanned ≡ not (client_isvisible host w c))
          × (client_isvisible host r c ≡ client_isvisible host w c))
        (sym (refresh_due w due))
        (
          passes-banned start c managed mapped ∙ ap not v,
          Steady-isvisible host start _ c (passes-Steady start) ∙ v,
        )
