-- ===== src/Client/Setters/Maximize.antt =====
-- client_set_maximized_common() of objects/client.c and the three setters that call it.
pub mod Bits
use somewm.Common.{ℕ, Bool, true, false, ◌&&◌, ◌||◌, not, if◌then◌else◌, bool_eq}
use somewm.World.{
  World, Client, Name, set_client, request_geometry, property_maximized,
  property_maximized_horizontal, property_maximized_vertical,
}
use somewm.Stack.{stack_windows}
use somewm.Client.{Host, emit}

-- client_maximized_t: the bits CLIENT_MAXIMIZED_H, CLIENT_MAXIMIZED_V and CLIENT_MAXIMIZED_BOTH.
pub record Maximized : Type 0 where
  pub h : Bool
  pub v : Bool
  pub both : Bool

-- The bit that a setter is about.
pub data Bit : Type 0 where
  bit_h bit_v bit_both : Bit

abbrev pub maximized_of : Client → Maximized
maximized_of c = record { h = c.maximized_horizontal; v = c.maximized_vertical; both = c.maximized }

-- `val | current` and `current & ~val`.
abbrev pub put : Bit → Bool → Maximized → Maximized
put bit_h s m = record m { h = s }
put bit_v s m = record m { v = s }
put bit_both s m = record m { both = s }

abbrev pub maximized_eq : Maximized → Maximized → Bool
maximized_eq m n = bool_eq m.h n.h && bool_eq m.v n.v && bool_eq m.both n.both

-- Horizontally and vertically together, while the main loop does not run yet, count as maximized.
pub next_maximized : Bool → Maximized → Maximized
next_maximized loop m =
    if (m.h && m.v && not m.both) && not loop
    then record { h = false; v = false; both = true }
    else m

module _ (host : Host) where
  -- A property is notified if it is not what it was before the handlers ran.
  notify : Bool → Bool → ℕ → Name → World → World
  notify before now c n w = if bool_eq before now then w else emit host c n w

  pub client_set_maximized_common : ℕ → Bool → Bit → World → World
  unfolding next_maximized notify
  client_set_maximized_common c s val w =
      let current = maximized_of (w.client c) in
      let next = next_maximized w.loop (put val s current) in
      let w1 = emit host c request_geometry (
        set_client w c (record (w.client c) {
          maximized_horizontal = next.h;
          maximized_vertical = next.v;
          maximized = next.both;
        })) in
      let w2 =
        notify current.h (w1.client c).maximized_horizontal c property_maximized_horizontal w1 in
      let w3 = notify current.v (w2.client c).maximized_vertical c property_maximized_vertical w2 in
      let w4 = notify current.both (w3.client c).maximized c property_maximized w3 in
      if maximized_eq current next then w else stack_windows w4

  pub client_set_maximized : ℕ → Bool → World → World
  unfolding client_set_maximized_common
  client_set_maximized c s w = client_set_maximized_common c s bit_both w

  pub client_set_maximized_horizontal : ℕ → Bool → World → World
  unfolding client_set_maximized_common
  client_set_maximized_horizontal c s w = client_set_maximized_common c s bit_h w

  pub client_set_maximized_vertical : ℕ → Bool → World → World
  unfolding client_set_maximized_common
  client_set_maximized_vertical c s w = client_set_maximized_common c s bit_v w
