-- ===== src/Client/Focusing/First.antt =====
-- client_focus(): which client gets the focus, and what Lua is told of it.
use somewm.Common.{
  ℕ, ◌≡◌, refl, ◌∙◌, Bool, true, Option, none, some, List, [], ◌∷◌, arith, if◌then◌else◌,
}
use somewm.World.{World}
use somewm.Client.{Host}
use somewm.Client.Focusing.{client_focus_update, focus_on, focus_first, client_focus}
use somewm.Client.Focusing.Told.{Told, IsSilent, client_focus_update-Told}

-- The client that is given, else the first one.
abbrev pub target : Option ℕ → List ℕ → Option ℕ
target (some c) cs = some c
target none [] = none
target none (c ∷ cs) = some c

-- Setting the focus of the seat neither moves the focus nor queues signals.
pub record IsQuiet (seat_focus : ℕ → Bool → World → World) : Type 0 where
  pub queued : (c : ℕ) (b : Bool) (w : World) → (seat_focus c b w).queued ≡ w.queued
  pub focus_client :
      (c : ℕ) (b : Bool) (w : World) → (seat_focus c b w).focus_client ≡ w.focus_client

-- The client has the focus, and Lua will be right about the client `x`.
pub record Focused (x : ℕ) (start : Bool) (c : ℕ) (result : Option World) : Type 0 where
  pub after : World
  pub returned : result ≡ some after
  pub focused : after.focus_client ≡ some c
  pub right : Told x start after

-- Whom client_focus() focuses: nobody, with an error, if there is no client to focus.
abbrev pub Focuses : ℕ → Bool → Option ℕ → Option World → Type 0
Focuses x start none result = result ≡ none
Focuses x start (some c) result = Focused x start c result

module _ (host : Host) (silent : IsSilent host.lua) (x : ℕ) (start : Bool) where
  module _ (seat_focus : ℕ → Bool → World → World) (quiet : IsQuiet seat_focus) where
    marked : Bool → World → World
    marked changed w = if changed then record w { focus_need_update = true } else w

    marked-queued : (b : Bool) (w : World) → (marked b w).queued ≡ w.queued
    unfolding marked
    marked-queued b w = ground arith

    marked-focus_client : (b : Bool) (w : World) → (marked b w).focus_client ≡ w.focus_client
    unfolding marked
    marked-focus_client b w = ground arith

    seated :
        (c : ℕ) (b : Bool) (w : World)
        → Told x start w
        → w.focus_client ≡ some c
        → Focused x start c (some (seat_focus c b (marked b w)))
    seated c b w t f =
        let q = quiet.queued c b (marked b w) ∙ marked-queued b w in
        let g = quiet.focus_client c b (marked b w) ∙ marked-focus_client b w in
        record {
          after = seat_focus c b (marked b w);
          returned = refl;
          focused = g ∙ f;
          right = rw (q, g) t;
        }

    focus_some :
        (c : ℕ) (w : World)
        → Told x start w
        → Focused x start c (client_focus host seat_focus (some c) w)
    unfolding client_focus focus_on marked
    focus_some c w t =
        let (u, f, _) = client_focus_update-Told host silent x start c w t in
        seated c (client_focus_update host c w).0 (client_focus_update host c w).1 u f

    focus_first-Focuses :
        (cs : List ℕ) (w : World)
        → Told x start w
        → Focuses x start (target none cs) (focus_first host seat_focus cs w)
    unfolding focus_first client_focus
    focus_first-Focuses [] w t = refl
    focus_first-Focuses (c ∷ cs) w t = focus_some c w t

    -- If the handlers and the seat neither move the focus nor queue signals, and Lua will be right
    -- about a client before it: client_focus() gives the client that is given the focus, for the
    -- null pointer the first client, and Lua will be right about that client after it. It ends in
    -- an error exactly if there is nobody to focus.
    pub client_focus-Focuses :
        (o : Option ℕ) (w : World)
        → Told x start w
        → Focuses x start (target o w.clients) (client_focus host seat_focus o w)
    unfolding client_focus
    client_focus-Focuses (some c) w t = focus_some c w t
    client_focus-Focuses none w t = focus_first-Focuses w.clients w t
