-- ===== src/Render/Restack.antt =====
-- render.c: the restacking of the scene nodes, bottom to top, by the order of a pass. The two calls
-- of wlroots that move a node among its siblings are arguments.
pub mod Placed
pub mod Ordered
use somewm.Common.{
  ℕ, Bool, true, false, not, Option, none, some, List, [], ◌∷◌, ◌++◌, ◌==◌, if◌then◌else◌, ptr_eq,
  ◌&&◌, ◌||◌,
}
use somewm.Render.{Rnode, RenderState}

-- A node of the pass that is kept dark.
pub is_dark : ℕ → List Rnode → Bool
is_dark node [] = false
is_dark node (n ∷ ns) =
    ((n.retained && ptr_eq n.node (some node)) && not n.enabled) || is_dark node ns

pub scene_node_retained : RenderState → ℕ → Bool
unfolding is_dark
scene_node_retained rs node = not (rs.retained == 0) && is_dark node rs.nodes

-- placed_below(): the sibling under the node, past those that are kept dark; `under` is the sibling
-- that was passed last, `none` for the bottom.
pub placed_below : (ℕ → Bool) → ℕ → Option ℕ → List ℕ → Option ℕ
placed_below dark node under [] = under
placed_below dark node under (s ∷ ss) =
    let rest = placed_below dark node (if dark s then under else some s) ss in
    if s == node then under else rest

module _ (dark : ℕ → Bool) (place_above : ℕ → ℕ → List ℕ → List ℕ)
    (lower_to_bottom : ℕ → List ℕ → List ℕ) where
  -- One node of the order: `below` is the one before it.
  pub restack_node : Option ℕ → ℕ → List ℕ → List ℕ
  unfolding placed_below
  restack_node below node children =
      if ptr_eq (placed_below dark node none children) below then children else elim below [
        | none ↦ lower_to_bottom node children
        | some b ↦ place_above node b children
      ]

  -- The loop over the order; `none` for a command that realized no node.
  pub restack : Option ℕ → List (Option ℕ) → List ℕ → List ℕ
  unfolding restack_node
  restack below [] children = children
  restack below (none ∷ ns) children = restack below ns children
  restack below (some n ∷ ns) children = restack (some n) ns (restack_node below n children)
