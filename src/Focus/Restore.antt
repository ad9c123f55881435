-- ===== src/Focus/Restore.antt =====
-- focus_restore(): who decides on the focus when something closed.
use somewm.Common.{
  ℕ, ◌≡◌, ◌⊎◌, refl, sym, ap, inl, inr, Bool, true, false, Option, none, some, Option-cases, ptr_eq,
  if◌then◌else◌,
}
use somewm.World.{World, request_focus_restore}
use somewm.Client.{Host, emit}
use somewm.Focus.{Seat, focusclient, focustop, screen_of, ask_lua, focus_restore}
use somewm.Focus.Lift.{Finds, focustop-Finds}

module _ (host : Host) (seat : Seat) where
  -- The monitor that is meant: the one that is given, else the selected one.
  abbrev pub meant : Option ℕ → World → Option ℕ
  meant none w = w.selmon
  meant (some m) w = some m

  -- `s` is the screen of the monitor.
  abbrev pub IsScreen : Option ℕ → Option ℕ → Type 0
  IsScreen none s = s ≡ none
  IsScreen (some m) s = host.monitor_screen m ≡ s

  -- What is to become of the focus: nothing in a locked session; what the handlers on the screen
  -- did, if they focused a client; else the focus is given to what a search of the stack finds.
  pub data Restores (lua : Bool) (given : Option ℕ) (w : World) : World → Type 0 where
    locked_out : seat.locked ≡ true → Restores lua given w w
    chosen :
        (s f : ℕ)
        → seat.locked ≡ false
        → lua ≡ true
        → IsScreen (meant given w) (some s)
        → (emit host s request_focus_restore w).focus_client ≡ some f
        → Restores lua given w (emit host s request_focus_restore w)
    searched_after :
        (s : ℕ) (r : Option ℕ)
        → seat.locked ≡ false
        → lua ≡ true
        → IsScreen (meant given w) (some s)
        → (emit host s request_focus_restore w).focus_client ≡ none
        → Finds host seat
            (emit host s request_focus_restore w)
            (meant given w)
            (emit host s request_focus_restore w).stack
            r
        → Restores lua given w (focusclient host seat r true (emit host s request_focus_restore w))
    searched :
        (r : Option ℕ)
        → seat.locked ≡ false
        → (lua ≡ false) ⊎ IsScreen (meant given w) none
        → Finds host seat w (meant given w) w.stack r
        → Restores lua given w (focusclient host seat r true w)

  meant_eq :
      (given : Option ℕ) (w : World)
      → (if ptr_eq given none then w.selmon else given) ≡ meant given w
  meant_eq none w = refl
  meant_eq (some m) w = refl

  screen_of-IsScreen : (m s : Option ℕ) → screen_of host seat m ≡ s → IsScreen m s
  unfolding screen_of
  screen_of-IsScreen none s e = sym e
  screen_of-IsScreen (some m) s e = e

  unfocused :
      (v : World) (o : Option ℕ) → v.focus_client ≡ o → ptr_eq v.focus_client none ≡ ptr_eq o none
  unfocused v o e = ap (λ (f : Option ℕ). ptr_eq f none) e

  asked-Restores :
      (lua : Bool) (given : Option ℕ) (w : World) (s : ℕ)
      → seat.locked ≡ false
      → lua ≡ true
      → IsScreen (meant given w) (some s)
      → Restores lua given w (
          ask_lua host seat
            (some s)
            (λ v. focusclient host seat (focustop host seat v (meant given w)) true v)
            w)
  unfolding ask_lua
  asked-Restores lua given w s l on i =
      let v = emit host s request_focus_restore w in
      elim (Option-cases v.focus_client) [
        | inl e ↦
            rw (unfocused v none e)
              (searched_after s _ l on i e (focustop-Finds host seat v (meant given w)))
        | inr (f, e) ↦ rw (unfocused v (some f) e) (chosen s f l on i e)
      ]

  unasked-Restores :
      (lua : Bool) (given : Option ℕ) (w : World)
      → seat.locked ≡ false
      → (lua ≡ false) ⊎ IsScreen (meant given w) none
      → Restores lua given w (
          ask_lua host seat none
            (λ v. focusclient host seat (focustop host seat v (meant given w)) true v)
            w)
  unfolding ask_lua
  unasked-Restores lua given w l i = searched _ l i (focustop-Finds host seat w (meant given w))

  -- focus_restore() does nothing in a locked session. Else, if there is a Lua state and the monitor
  -- that is given, or else the selected one, has a screen, Lua is asked on it, and if a client has
  -- the focus then, nothing more is done. In every other case focusclient() with `lift` is called for
  -- the first client of the stack, from the bottom, that is on a selected tag and on that monitor,
  -- or for none if there is none.
  pub focus_restore-Restores :
      (lua : Bool) (given : Option ℕ) (w : World)
      → Restores lua given w (focus_restore host seat lua given w)
  unfolding focus_restore
  focus_restore-Restores lua given w = rw (meant_eq given w) (at seat.locked refl)
    where
      unlocked :
          (b : Bool)
          → seat.locked ≡ false
          → Restores b given w (
              ask_lua host seat
                (if b then screen_of host seat (meant given w) else none)
                (λ v. focusclient host seat (focustop host seat v (meant given w)) true v)
                w)
      unlocked false l = unasked-Restores false given w l (inl refl)
      unlocked true l = elim (Option-cases (screen_of host seat (meant given w))) [
        | inl e ↦ rw e (unasked-Restores true given w l (inr (screen_of-IsScreen _ _ e)))
        | inr (s, e) ↦ rw e (asked-Restores true given w s l refl (screen_of-IsScreen _ _ e))
      ]

      at :
          (b : Bool)
          → seat.locked ≡ b
          → Restores lua given w (
              if b
              then w
              else ask_lua host seat
                  (if lua then screen_of host seat (meant given w) else none)
                  (λ v. focusclient host seat (focustop host seat v (meant given w)) true v)
                  w)
      at true l = locked_out l
      at false l = unlocked lua l
