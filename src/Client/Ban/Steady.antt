-- ===== src/Client/Ban/Steady.antt =====
-- Banning and unbanning one client: what changes, and that nothing that visibility reads does.
use somewm.Common.{
  ℕ, ◌≡◌, refl, ◌∙◌, inl, inr, true, false, ◌&&◌, some, arith, Bool-cases, if◌then◌else◌, ◌==◌,
  bool_eq, ptr_eq,
}
use somewm.World.{World, set_client}
use somewm.Client.{Host, client_isvisible, client_set_minimized, client_set_hidden}
use somewm.Client.Visible.{SameView, SameView-isvisible}
use somewm.Client.Ban.{client_ban, client_unban}

-- A pass changes neither the list of clients nor what visibility reads, nor who has a scene.
pub record Steady (w w' : World) : Type 0 where
  pub clients : w'.clients ≡ w.clients
  pub view : (c : ℕ) → SameView w w' c
  pub scene : (c : ℕ) → (w'.client c).scene ≡ (w.client c).scene

pub Steady-refl : (w : World) → Steady w w
Steady-refl w = record {
  clients = refl;
  view = λ c. record {
    tag = refl;
    tags = refl;
    hidden = refl;
    minimized = refl;
    sticky = refl;
    screen = refl;
    mon = refl;
  };
  scene = λ c. refl;
}

pub Steady-trans : (u v w : World) → Steady u v → Steady v w → Steady u w
Steady-trans u v w s t = record {
  clients = t.clients ∙ s.clients;
  view = λ c.
      let p = s.view c in
      let q = t.view c in
      record {
        tag = q.tag ∙ p.tag;
        tags = q.tags ∙ p.tags;
        hidden = q.hidden ∙ p.hidden;
        minimized = q.minimized ∙ p.minimized;
        sticky = q.sticky ∙ p.sticky;
        screen = q.screen ∙ p.screen;
        mon = q.mon ∙ p.mon;
      };
  scene = λ c. t.scene c ∙ s.scene c;
}

module _ (host : Host) where
  pub client_ban-Steady : (c : ℕ) (w : World) → Steady w (client_ban host c w)
  unfolding client_ban
  client_ban-Steady c w = record {
    clients = ground arith;
    view = λ a. record {
      tag = ground arith;
      tags = ground arith;
      hidden = ground arith;
      minimized = ground arith;
      sticky = ground arith;
      screen = ground arith;
      mon = ground arith;
    };
    scene = λ a. ground arith;
  }

  pub client_ban-banned :
      (c a : ℕ) (w : World)
      → ((client_ban host c w).client a).isbanned
        ≡ (if (c == a) && (w.client a).scene then true else (w.client a).isbanned)
  unfolding client_ban
  client_ban-banned c a w = ground arith

  visible_shown :
      (c : ℕ) (w : World)
      → client_isvisible host w c ≡ true
      → ((w.client c).hidden ≡ false) × ((w.client c).minimized ≡ false)
  unfolding client_isvisible
  visible_shown c w h = (ground arith, ground arith)

  -- A visible client is neither minimized nor hidden, so unbanning it runs neither setter.
  unbanned : ℕ → World → World
  unbanned c w =
      let w' = set_client w c (record (w.client c) { isbanned = false }) in
      if ptr_eq w.focus_client (some c) then record w' { focus_need_update = true } else w'

  set_minimized_same :
      (c : ℕ) (w : World) → (w.client c).minimized ≡ false → client_set_minimized host c false w ≡ w
  unfolding client_set_minimized
  set_minimized_same c w h = rw (h, bool_eq)

  set_hidden_same :
      (c : ℕ) (w : World) → (w.client c).hidden ≡ false → client_set_hidden host c false w ≡ w
  unfolding client_set_hidden
  set_hidden_same c w h = rw (h, bool_eq)

  client_unban_plain :
      (c : ℕ) (w : World)
      → (w.client c).hidden ≡ false
      → (w.client c).minimized ≡ false
      → client_unban host c w
        ≡ (if (w.client c).isbanned && (w.client c).scene then unbanned c w else w)
  unfolding client_unban unbanned
  client_unban_plain c w h m =
      let w' = set_client w c (record (w.client c) { isbanned = false }) in
      rw (set_minimized_same c w' (ground arith), set_hidden_same c w' (ground arith)) refl

  unbanned-Steady : (c : ℕ) (w : World) → Steady w (unbanned c w)
  unfolding unbanned
  unbanned-Steady c w = record {
    clients = ground arith;
    view = λ a. record {
      tag = ground arith;
      tags = ground arith;
      hidden = ground arith;
      minimized = ground arith;
      sticky = ground arith;
      screen = ground arith;
      mon = ground arith;
    };
    scene = λ a. ground arith;
  }

  unbanned-banned :
      (c a : ℕ) (w : World)
      → ((unbanned c w).client a).isbanned ≡ (if c == a then false else (w.client a).isbanned)
  unfolding unbanned
  unbanned-banned c a w = ground arith

  pub client_unban-Steady :
      (c : ℕ) (w : World) → client_isvisible host w c ≡ true → Steady w (client_unban host c w)
  client_unban-Steady c w v =
      let (h, m) = visible_shown c w v in
      rw (client_unban_plain c w h m)
        (elim (Bool-cases ((w.client c).isbanned && (w.client c).scene)) [
          | inl e ↦ rw e (unbanned-Steady c w)
          | inr e ↦ rw e (Steady-refl w)
        ])

  pub client_unban-banned :
      (c a : ℕ) (w : World)
      → client_isvisible host w c ≡ true
      → ((client_unban host c w).client a).isbanned
        ≡ (if (c == a) && (w.client a).scene then false else (w.client a).isbanned)
  client_unban-banned c a w v =
      let (h, m) = visible_shown c w v in
      rw (client_unban_plain c w h m) (ground (arith, unbanned-banned c a w))

  pub Steady-isvisible :
      (w w' : World) (c : ℕ) → Steady w w' → client_isvisible host w' c ≡ client_isvisible host w c
  Steady-isvisible w w' c s = SameView-isvisible host w w' c (s.view c)
