-- ===== src/Stack.antt =====
-- stack.c: the stacking order of the clients. `globalconf.stack` is a list of pointers, the bottom
-- of the stack first. The loops of `stack_rides` and `stack_place` recur on fuel: `stack_rides`
-- counts as the source does, and `stack_place` gets one round for each client of the old stack,
-- since each call that does not return at once appends one that was missing.
pub mod Layer
pub mod Chain
pub mod Place
pub mod Refresh
pub mod Order
use somewm.Common.{
  ℕ, zero, suc, Bool, true, false, ◌&&◌, not, Option, none, some, List, [], ◌∷◌, ◌++◌, ◌==◌,
  if◌then◌else◌, ptr_eq, has, erase, length,
}
use somewm.World.{World, Client, WindowType, desktop, parent}

-- stack.h, `window_layer_t`.
pub data WindowLayer : Type 0 where
  ignore desktop_layer below_layer normal_layer above_layer fullscreen_layer ontop_layer :
      WindowLayer

unfoldable pub stack_windows : World → World
stack_windows w = record w { need_stack_refresh = true }

unfoldable pub stack_client_remove : World → ℕ → World
unfolding stack_windows
stack_client_remove w c = stack_windows (record w { stack = erase c w.stack })

pub stack_client_push : World → ℕ → World
unfolding stack_client_remove
stack_client_push w c =
    let w' = stack_client_remove w c in stack_windows (record w' { stack = c ∷ w'.stack })

pub stack_client_append : World → ℕ → World
unfolding stack_client_remove
stack_client_append w c =
    let w' = stack_client_remove w c in stack_windows (record w' { stack = w'.stack ++ c ∷ [] })

-- A client may take the fullscreen layer if it has the focus, nothing has, or what has is elsewhere.
takes_fullscreen : World → ℕ → Option ℕ → Bool
takes_fullscreen w c none = true
takes_fullscreen w c (some f) =
    if f == c then true else not (ptr_eq (w.client f).screen (w.client c).screen)

type_layer : WindowType → WindowLayer
type_layer desktop = desktop_layer
type_layer _ = normal_layer

attribute_layer : Client → Bool → WindowLayer
unfolding type_layer
attribute_layer c full =
    if c.ontop
    then ontop_layer
    else if c.fullscreen && full
    then fullscreen_layer
    else if c.above
    then above_layer
    else if c.below
    then below_layer
    else elim c.transient_for [ some _ ↦ ignore | none ↦ type_layer c.type ]

-- The source takes a null pointer too, for which the layer is the normal one.
pub stack_client_layer : World → Option ℕ → WindowLayer
unfolding attribute_layer takes_fullscreen
stack_client_layer w none = normal_layer
stack_client_layer w (some c) = attribute_layer (w.client c) (takes_fullscreen w c w.focus_client)

-- `while (layer == IGNORE && c->transient_for) { c = c->transient_for; … }`. `none`: out of fuel,
-- which only a cycle of transients can use up.
pub effective_loop : ℕ → World → ℕ → Option WindowLayer
effective_loop zero w c = none
effective_loop (suc k) w c = elim (stack_client_layer w (some c)) [
  | ignore ↦ elim (parent w c) [ none ↦ some normal_layer | some p ↦ effective_loop k w p ]
  | layer ↦ some layer
]

pub stack_client_effective_layer : ℕ → World → ℕ → Option WindowLayer
unfolding effective_loop
stack_client_effective_layer fuel w c = effective_loop fuel w c

-- Section over the parent pointers and the stack that `rides[]` is read from.
module _ (up : ℕ → Option ℕ) (old : List ℕ) where
  -- `for (i = 0; i < len; i++)` from `p`; `c` is the client that is asked about.
  pub rides_loop : ℕ → ℕ → ℕ → Bool
  rides_loop zero c p = false
  rides_loop (suc k) c p = elim (up p) [
    | none ↦ not (p == c)
    | some q ↦ let next = rides_loop k c q in if has q old then next else not (p == c)
  ]

  pub stack_rides : ℕ → Bool
  unfolding rides_loop
  stack_rides c = rides_loop (length old) c c

  -- The loop of `stack_place` over the old stack: each client that rides `c` is placed by `place`.
  pub place_riders : (ℕ → List ℕ → List ℕ) → ℕ → List ℕ → List ℕ → List ℕ
  unfolding stack_rides
  place_riders place c [] out = out
  place_riders place c (x ∷ xs) out =
      place_riders place c xs (if stack_rides x && ptr_eq (up x) (some c) then place x out else out)

  pub stack_place : ℕ → ℕ → List ℕ → List ℕ
  unfolding place_riders
  stack_place zero c out = out
  stack_place (suc k) c out =
      let placed = place_riders (stack_place k) c old (out ++ c ∷ []) in
      if has c out then out else placed

  -- The loop of `stack_refresh`: the clients that ride none, each with what rides it.
  pub place_roots : ℕ → List ℕ → List ℕ → List ℕ
  unfolding stack_rides stack_place
  place_roots k [] out = out
  place_roots k (x ∷ xs) out =
      place_roots k xs (if not (stack_rides x) then stack_place k x out else out)

  pub restack : List ℕ
  unfolding place_roots
  restack = place_roots (length old) old []

-- The EWMH mirror that the source sends to XWayland is output only.
pub stack_refresh : World → World
unfolding restack
stack_refresh w = if not w.need_stack_refresh then w else record w {
  stack = restack (parent w) w.stack;
  all_dirty = true;
  need_stack_refresh = false;
}
