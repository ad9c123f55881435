-- ===== src/Render/Pass/Whole.antt =====
-- A pass of render_reconcile() as a whole.
use somewm.Common.{ℕ, ◌≡◌, true, some, List, has, get_elem?}
use somewm.Render.{Rnode, RenderState, rmap_get}
use somewm.Render.Index.Lookup.{IsLookup}

-- Each node is of the frame, the index finds what a search of the nodes finds, and it finds for
-- each command of the order a node of the frame.
pub record Reconciled (rs : RenderState) (order : List ℕ) : Type 0 where
  pub current : (j : ℕ) (n : Rnode) → get_elem? rs.nodes j ≡ some n → n.gen ≡ rs.gen
  pub lookup : IsLookup rs
  pub found :
      (key : ℕ)
      → has key order ≡ true
      → (i : ℕ) × (n : Rnode) × (rmap_get rs key ≡ some (some i))
        × (get_elem? rs.nodes i ≡ some n)
        × (n.key ≡ key)
        × (n.gen ≡ rs.gen)
