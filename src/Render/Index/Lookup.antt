-- ===== src/Render/Index/Lookup.antt =====
-- rmap_get() after rmap_rebuild().
use somewm.Common.{
  ℕ, suc, ◌<◌, ◌≡◌, ◌⊎◌, refl, ap, inl, inr, false, Option, none, some, List, [], ◌∷◌, ◌==◌, ltb,
  Bool-cases, length, arith,
}
use somewm.Render.{Slot, Rnode, RenderState, need_from, map_size, rmap_rebuild, rmap_get}
use somewm.Render.Index.Built.{
  index_from, keys, IsIndexed-none, index_nodes-IsIndexed, find_slot-index,
}
use somewm.Render.Index.Capacity.{
  IsCapacity, IsCapacity-IsRing, need_from-IsCapacity, need_from-le, need_from-ge, double-le-pow,
}

-- The map of a state is none yet, or has a power of two of slots.
abbrev pub HasCapacity : RenderState → Type 0
HasCapacity rs = (rs.map_cap ≡ 0) ⊎ IsCapacity rs.map_cap

-- The map finds what a search of the nodes from the first finds.
pub record IsLookup (rs : RenderState) : Type 0 where
  pub capacity : IsCapacity rs.map_cap
  pub get : (key : ℕ) → rmap_get rs key ≡ some (index_from 0 key (keys rs.nodes))

pub length-keys : (ns : List Rnode) → length (keys ns) ≡ length ns
length-keys [] = refl
length-keys (n ∷ ns) = ap suc (length-keys ns)

map_size-IsCapacity :
    (rs : RenderState)
    → HasCapacity rs
    → length rs.nodes < 1152921504606846976
    → IsCapacity (map_size rs)
unfolding map_size
map_size-IsCapacity rs c h =
    let need = need_from-IsCapacity (length rs.nodes) (length rs.nodes) 4 h (omega arith) in
    elim (Bool-cases (ltb rs.map_cap (need_from (length rs.nodes) (length rs.nodes) 16))) [
      | inl e ↦ rw e need
      | inr e ↦ rw e (elim c [
        | inr x ↦ x
        | inl z ↦ absurd (ground (arith, need_from-ge (length rs.nodes) (length rs.nodes) 16))
      ])
    ]

map_size-lt : (rs : RenderState) → length rs.nodes < map_size rs
unfolding map_size
map_size-lt rs = ground (
  arith,
  need_from-ge (length rs.nodes) (length rs.nodes) 16,
  need_from-le (length rs.nodes) (length rs.nodes) 16 (double-le-pow (length rs.nodes)),
)

-- For fewer than 2 ^ 60 nodes, and a map that is none yet or has a power of two of slots:
-- rmap_rebuild() comes to an end and leaves the nodes and the rest of the state as they are, and
-- afterwards rmap_get() comes to an end for every key, and gives the place of the first node of
-- that key, or SIZE_MAX for a key that no node has.
pub rmap_rebuild-IsLookup :
    (rs : RenderState)
    → HasCapacity rs
    → length rs.nodes < 1152921504606846976
    → (slots : ℕ → Option Slot) × (cap : ℕ) × (rmap_rebuild rs
        ≡ some (record rs { map = slots; map_cap = cap }))
      × IsLookup (record rs { map = slots; map_cap = cap })
unfolding rmap_rebuild rmap_get
rmap_rebuild-IsLookup rs c h =
    let cap = map_size rs in
    let valid = map_size-IsCapacity rs c h in
    let ring = IsCapacity-IsRing cap valid in
    let (slots, f, x) =
      index_nodes-IsIndexed cap ring rs.nodes (λ s. none) [] 0 refl (IsIndexed-none cap ring)
        (omega (arith, map_size-lt rs)) in
    (
      slots,
      cap,
      rw (f, rmap_rebuild) refl,
      record {
        capacity = valid;
        get = λ key. rw (full ring.positive) (
            find_slot-index cap ring slots (keys rs.nodes) key x
              (rw (length-keys rs.nodes) (map_size-lt rs)));
      },
    )
  where
    full : 0 < map_size rs → (map_size rs == 0) ≡ false
    full p = ground arith
