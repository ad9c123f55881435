-- ===== src/Render.antt =====
-- render.c: the nodes that an output keeps from frame to frame, the hash index from the key of a
-- command to its node, and what a pass does to both. What is drawn, and the scene of wlroots, are
-- not part of the model.
pub mod Index
pub mod Pass
pub mod Restack
use somewm.Common.{
  ℕ, zero, suc, ◌+◌, ◌-◌, ◌*◌, ◌/◌, ◌%◌, ◌^◌, Bool, true, false, Option, none, some, List, [], ◌∷◌,
  ◌++◌, ◌==◌, ltb, if◌then◌else◌, update, length,
}
use somewm.Common.Bits.{bit_and, bit_xor}

-- `struct rnode_slot`, where an unused slot is `none`.
pub record Slot : Type 0 where
  pub key : ℕ
  pub index : ℕ

-- The part of `struct rnode` that says which command a node is of and whether it lives on. `node` is
-- the scene node, `none` for a null pointer, and `enabled` is a flag of it.
pub record Rnode : Type 0 where
  pub key : ℕ
  pub gen : ℕ
  pub node : Option ℕ
  pub enabled : Bool
  pub borrowed : Bool
  pub retained : Bool

-- `struct fade_value`, without its pose.
pub record Fade : Type 0 where
  pub id : ℕ
  pub opened : Bool

-- The part of `struct render_state`; map_cap is the number of slots of the map.
pub record RenderState : Type 0 where
  pub nodes : List Rnode
  pub gen : ℕ
  pub map : ℕ → Option Slot
  pub map_cap : ℕ
  pub retained : ℕ
  pub swept : ℕ
  pub fades : List Fade
  pub fades_prepared : Bool

abbrev pub word : ℕ
word = 2 ^ 64

-- `key ^= key >> 33`.
pub fold_high : ℕ → ℕ
fold_high key = bit_xor key (key / 2 ^ 33)

pub rmap_hash : ℕ → ℕ
unfolding fold_high
rmap_hash key =
    let k1 = fold_high key * 18397679294719823053 % word in
    let k2 = fold_high k1 * 14181476777654086739 % word in fold_high k2

-- `while (need < len * 2) need *= 2`, in so many rounds.
pub need_from : ℕ → ℕ → ℕ → ℕ
need_from zero len need = need
need_from (suc k) len need =
    let rest = need_from k len (need * 2) in if ltb need (len * 2) then rest else need

-- `while (map[s].used) s = (s + 1) & mask`: the first slot that is free, `none` if there was none in so
-- many rounds.
pub free_slot : ℕ → (ℕ → Option Slot) → ℕ → ℕ → Option ℕ
free_slot zero map mask s = none
free_slot (suc k) map mask s =
    let rest = free_slot k map mask (bit_and (s + 1) mask) in
    elim (map s) [ none ↦ some s | some _ ↦ rest ]

-- The loop of rmap_rebuild() over the nodes, from the index `i`.
pub index_nodes : ℕ → (ℕ → Option Slot) → ℕ → List Rnode → Option (ℕ → Option Slot)
index_nodes cap map i [] = some map
index_nodes cap map i (n ∷ ns) =
    elim (free_slot cap map (cap - 1) (bit_and (rmap_hash n.key) (cap - 1))) [
      | none ↦ none
      | some s ↦
          index_nodes cap (update map s (some (record { key = n.key; index = i }))) (suc i) ns
    ]

-- The number of slots: the map never shrinks.
pub map_size : RenderState → ℕ
map_size rs =
    let need = need_from (length rs.nodes) (length rs.nodes) 16 in
    if ltb rs.map_cap need then need else rs.map_cap

-- `none` for a search of a free slot that does not end.
pub rmap_rebuild : RenderState → Option RenderState
rmap_rebuild rs = elim (index_nodes (map_size rs) (λ s. none) 0 rs.nodes) [
  | none ↦ none
  | some map ↦ some (record rs { map = map; map_cap = map_size rs })
]

-- The answer `some none` is SIZE_MAX; `none` is a search that does not end.
pub find_slot : ℕ → (ℕ → Option Slot) → ℕ → ℕ → ℕ → Option (Option ℕ)
find_slot zero map mask key s = none
find_slot (suc k) map mask key s =
    let rest = find_slot k map mask key (bit_and (s + 1) mask) in
    elim (map s) [ none ↦ some none | some e ↦ if e.key == key then some (some e.index) else rest ]

pub rmap_get : RenderState → ℕ → Option (Option ℕ)
rmap_get rs key =
    if rs.map_cap == 0
    then some none
    else find_slot rs.map_cap rs.map (rs.map_cap - 1) key (bit_and (rmap_hash key) (rs.map_cap - 1))
