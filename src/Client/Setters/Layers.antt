-- ===== src/Client/Setters/Layers.antt =====
-- The layer attributes: ontop, above, below and fullscreen exclude one another.
use somewm.Common.{
  ℕ, ◌≡◌, ◌⊎◌, refl, inl, inr, Bool, not, Bool-cases, true, false, arith, if◌then◌else◌, bool_eq,
  ◌==◌,
}
use somewm.World.{
  World, Signal, Name, signal, set_client, property_above, property_below, property_ontop,
  property_fullscreen, request_geometry,
}
use somewm.Client.{Host, emit}
use somewm.Stack.{stack_windows}
use somewm.Client.Setters.{
  above_with, below_with, ontop_with, fullscreen_with, client_set_above, client_set_below,
  client_set_ontop, client_set_fullscreen,
}

-- The four attributes of a client.
pub record Flags : Type 0 where
  pub ontop : Bool
  pub above : Bool
  pub below : Bool
  pub fullscreen : Bool

abbrev pub flags : World → ℕ → Flags
flags w c = record {
  ontop = (w.client c).ontop;
  above = (w.client c).above;
  below = (w.client c).below;
  fullscreen = (w.client c).fullscreen;
}

-- The Lua handlers and the resize leave the four attributes of every client alone.
pub record IsQuiet (host : Host) : Type 0 where
  pub lua : (s : Signal) (w : World) (c : ℕ) → flags (host.lua s w) c ≡ flags w c
  pub resize_do : (a : ℕ) (w : World) (c : ℕ) → flags (host.resize_do a w) c ≡ flags w c

-- The attributes by name, and the setter of each.
pub data Attribute : Type 0 where
  ontop_attribute above_attribute below_attribute fullscreen_attribute : Attribute

abbrev pub get : Attribute → Flags → Bool
get ontop_attribute f = f.ontop
get above_attribute f = f.above
get below_attribute f = f.below
get fullscreen_attribute f = f.fullscreen

abbrev pub clear : Attribute → Flags → Flags
clear ontop_attribute f = record f { ontop = false }
clear above_attribute f = record f { above = false }
clear below_attribute f = record f { below = false }
clear fullscreen_attribute f = record f { fullscreen = false }

abbrev no_flags : Flags
no_flags = record { ontop = false; above = false; below = false; fullscreen = false }

abbrev pub only : Attribute → Flags
only ontop_attribute = record no_flags { ontop = true }
only above_attribute = record no_flags { above = true }
only below_attribute = record no_flags { below = true }
only fullscreen_attribute = record no_flags { fullscreen = true }

abbrev pub client_set : Attribute → Host → ℕ → Bool → World → World
client_set ontop_attribute = client_set_ontop
client_set above_attribute = client_set_above
client_set below_attribute = client_set_below
client_set fullscreen_attribute = client_set_fullscreen

module _ (host : Host) (quiet : IsQuiet host) where
  emit-flags : (c : ℕ) (n : Name) (w : World) (a : ℕ) → flags (emit host c n w) a ≡ flags w a
  unfolding emit
  emit-flags c n w a = quiet.lua (signal c n) _ a

  -- What one setter does to the attributes, given the calls that it makes first.
  above_with-flags :
      (others : World → World) (c : ℕ) (s : Bool) (w : World) (a : ℕ)
      → flags (above_with host others c s w) a ≡ (
          if bool_eq (w.client c).above s
          then flags w a
          else let f = flags (if s then others w else w) a in
            if c == a then record f { above = s } else f)
  unfolding above_with stack_windows
  above_with-flags others c s w a =
      let w' = if s then others w else w in
      ground (
        arith,
        emit-flags c property_above
            (stack_windows (set_client w' c (record (w'.client c) { above = s }))) a,
      )

  below_with-flags :
      (others : World → World) (c : ℕ) (s : Bool) (w : World) (a : ℕ)
      → flags (below_with host others c s w) a ≡ (
          if bool_eq (w.client c).below s
          then flags w a
          else let f = flags (if s then others w else w) a in
            if c == a then record f { below = s } else f)
  unfolding below_with stack_windows
  below_with-flags others c s w a =
      let w' = if s then others w else w in
      ground (
        arith,
        emit-flags c property_below
            (stack_windows (set_client w' c (record (w'.client c) { below = s }))) a,
      )

  ontop_with-flags :
      (others : World → World) (c : ℕ) (s : Bool) (w : World) (a : ℕ)
      → flags (ontop_with host others c s w) a ≡ (
          if bool_eq (w.client c).ontop s
          then flags w a
          else let f = flags (if s then others w else w) a in
            if c == a then record f { ontop = s } else f)
  unfolding ontop_with stack_windows
  ontop_with-flags others c s w a =
      let w' = if s then others w else w in
      ground (
        arith,
        emit-flags c property_ontop
            (stack_windows (set_client w' c (record (w'.client c) { ontop = s }))) a,
      )

  fullscreen_with-flags :
      (others : World → World) (c : ℕ) (s : Bool) (w : World) (a : ℕ)
      → flags (fullscreen_with host others c s w) a ≡ (
          if bool_eq (w.client c).fullscreen s
          then flags w a
          else let f = flags (if s then others w else w) a in
            if c == a then record f { fullscreen = s } else f)
  unfolding fullscreen_with stack_windows
  fullscreen_with-flags others c s w a =
      let w' = if s then others w else w in
      let set = set_client w' c (record (w'.client c) { fullscreen = s }) in
      let asked = emit host c request_geometry set in
      let told = emit host c property_fullscreen asked in
      ground (
        arith,
        emit-flags c request_geometry set a,
        emit-flags c property_fullscreen asked a,
        quiet.resize_do c told a,
      )

  clear_above-flags :
      (c : ℕ) (w : World) (a : ℕ)
      → flags (above_with host (λ v. v) c false w) a
        ≡ (if c == a then record (flags w a) { above = false } else flags w a)
  clear_above-flags c w a = ground (arith, above_with-flags (λ v. v) c false w a)

  clear_below-flags :
      (c : ℕ) (w : World) (a : ℕ)
      → flags (below_with host (λ v. v) c false w) a
        ≡ (if c == a then record (flags w a) { below = false } else flags w a)
  clear_below-flags c w a = ground (arith, below_with-flags (λ v. v) c false w a)

  clear_ontop-flags :
      (c : ℕ) (w : World) (a : ℕ)
      → flags (ontop_with host (λ v. v) c false w) a
        ≡ (if c == a then record (flags w a) { ontop = false } else flags w a)
  clear_ontop-flags c w a = ground (arith, ontop_with-flags (λ v. v) c false w a)

  clear_fullscreen-flags :
      (c : ℕ) (w : World) (a : ℕ)
      → flags (fullscreen_with host (λ v. v) c false w) a
        ≡ (if c == a then record (flags w a) { fullscreen = false } else flags w a)
  clear_fullscreen-flags c w a = ground (arith, fullscreen_with-flags (λ v. v) c false w a)

  -- What a setter does to the attributes.
  set_gives :
      (k : Attribute) (c : ℕ) (s : Bool) (w : World) (a : ℕ)
      → flags (client_set k host c s w) a ≡ (
          if bool_eq (get k (flags w c)) s
          then flags w a
          else if c == a
          then (if s then only k else clear k (flags w a))
          else flags w a)
  unfolding client_set_above client_set_below client_set_ontop client_set_fullscreen
  set_gives ontop_attribute c s w a =
      let w1 = above_with host (λ u. u) c false w in
      let w2 = below_with host (λ u. u) c false w1 in
      ground (
        arith,
        ontop_with-flags
            (λ v.
              fullscreen_with host (λ u. u) c false
                (below_with host (λ u. u) c false (above_with host (λ u. u) c false v)))
            c s w a,
        clear_above-flags c w a,
        clear_below-flags c w1 a,
        clear_fullscreen-flags c w2 a,
      )
  set_gives above_attribute c s w a =
      let w1 = below_with host (λ u. u) c false w in
      let w2 = ontop_with host (λ u. u) c false w1 in
      ground (
        arith,
        above_with-flags
            (λ v.
              fullscreen_with host (λ u. u) c false
                (ontop_with host (λ u. u) c false (below_with host (λ u. u) c false v)))
            c s w a,
        clear_below-flags c w a,
        clear_ontop-flags c w1 a,
        clear_fullscreen-flags c w2 a,
      )
  set_gives below_attribute c s w a =
      let w1 = above_with host (λ u. u) c false w in
      let w2 = ontop_with host (λ u. u) c false w1 in
      ground (
        arith,
        below_with-flags
            (λ v.
              fullscreen_with host (λ u. u) c false
                (ontop_with host (λ u. u) c false (above_with host (λ u. u) c false v)))
            c s w a,
        clear_above-flags c w a,
        clear_ontop-flags c w1 a,
        clear_fullscreen-flags c w2 a,
      )
  set_gives fullscreen_attribute c s w a =
      let w1 = below_with host (λ u. u) c false w in
      let w2 = above_with host (λ u. u) c false w1 in
      ground (
        arith,
        fullscreen_with-flags
            (λ v.
              ontop_with host (λ u. u) c false
                (above_with host (λ u. u) c false (below_with host (λ u. u) c false v)))
            c s w a,
        clear_below-flags c w a,
        clear_above-flags c w1 a,
        clear_ontop-flags c w2 a,
      )

  set_same :
      (k : Attribute) (c : ℕ) (s : Bool) (w : World)
      → bool_eq (get k (flags w c)) s ≡ true
      → client_set k host c s w ≡ w
  unfolding client_set_above client_set_below client_set_ontop client_set_fullscreen above_with
      below_with ontop_with fullscreen_with
  set_same ontop_attribute c s w h = rw h refl
  set_same above_attribute c s w h = rw h refl
  set_same below_attribute c s w h = rw h refl
  set_same fullscreen_attribute c s w h = rw h refl

  -- With Lua handlers and a resize that leave the four attributes alone. A setter called with the
  -- value that the attribute has does nothing at all: the world stays the same. Called with the
  -- other value, it changes the attributes of its own client only: setting one leaves it the only
  -- one that is set, clearing one leaves the other three as they were.
  pub client_set-flags :
      (k : Attribute) (c : ℕ) (s : Bool) (w : World) (a : ℕ)
      → ((get k (flags w c) ≡ s) × (client_set k host c s w ≡ w))
        ⊎ ((get k (flags w c) ≡ not s)
            × (flags (client_set k host c s w) a
                ≡ (if c == a then (if s then only k else clear k (flags w a)) else flags w a)))
  client_set-flags k c s w a = elim (Bool-cases (bool_eq (get k (flags w c)) s)) [
    | inl e ↦ inl (ground arith, set_same k c s w e)
    | inr e ↦ let h = set_gives k c s w a in inr (ground arith, rw e at h)
  ]
