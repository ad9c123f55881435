-- ===== src/Render/Pass.antt =====
-- render.c: a pass of render_reconcile() over the nodes. What a command draws is an argument: it gives
-- the scene node that the node then has.
pub mod Nodes
pub mod Sweep
pub mod Declared
pub mod Loop
pub mod Order
pub mod Whole
use somewm.Common.{
  ℕ, zero, suc, ◌+◌, ◌-◌, ◌*◌, ◌%◌, ◌^◌, Bool, true, false, not, ◌&&◌, ◌||◌, Option, none, some,
  List, [], ◌∷◌, ◌++◌, ◌==◌, ltb, leb, if◌then◌else◌, length, get_elem?, set_elem,
}
use somewm.Render.{Rnode, Fade, RenderState, word, rmap_rebuild, rmap_get}

-- What drawing a command leaves in its node.
pub record Realized : Type 0 where
  pub node : Option ℕ
  pub enabled : Bool
  pub borrowed : Bool

-- The type and the id of a `Clay_RenderCommand`.
pub record Command : Type 0 where
  pub type : ℕ
  pub id : ℕ

-- CLAY_RENDER_COMMAND_TYPE_RECTANGLE and CLAY_RENDER_COMMAND_TYPE_IMAGE.
abbrev pub rectangle : ℕ
rectangle = 1

abbrev pub image : ℕ
image = 4

-- CLAY_RENDER_COMMAND_TYPE_OVERLAY_COLOR_START, CLAY_RENDER_COMMAND_TYPE_OVERLAY_COLOR_END and
-- CLAY_RENDER_COMMAND_TYPE_CUSTOM, the last.
abbrev pub overlay_color_start : ℕ
overlay_color_start = 7

abbrev pub overlay_color_end : ℕ
overlay_color_end = 8

abbrev pub custom : ℕ
custom = 9

-- `(uint64_t)type << 32 | id`, for an id of 32 bits.
pub key_of : Command → ℕ
key_of c = c.type * 2 ^ 32 + c.id

-- The nodes and the order that a pass builds.
pub rnode_add : ℕ → RenderState → RenderState
rnode_add key rs = record rs {
  nodes =
      rs.nodes
      ++ record {
        key = key;
        gen = 0;
        node = none;
        enabled = false;
        borrowed = false;
        retained = false;
      }
        ∷ [];
}

-- backdrop[2], 0 for a command that was not seen, and build.
pub record Build : Type 0 where
  pub backdrop_rectangle : ℕ
  pub backdrop_image : ℕ
  pub build : List ℕ

pub add_build : ℕ → Command → Build → Build
unfolding key_of
add_build output_id c b =
    let output = not (output_id == 0) && (c.id == output_id) in
    if output && (c.type == rectangle)
    then record b { backdrop_rectangle = key_of c }
    else if output && (c.type == image)
    then record b { backdrop_image = key_of c }
    else record b { build = b.build ++ key_of c ∷ [] }

pub build_all : ℕ → List Command → Build → Build
build_all output_id [] b = b
build_all output_id (c ∷ cs) b = build_all output_id cs (add_build output_id c b)

-- The backdrop comes first.
pub order_of : Build → List ℕ
order_of b =
    (if b.backdrop_rectangle == 0 then [] else b.backdrop_rectangle ∷ [])
    ++ ((if b.backdrop_image == 0 then [] else b.backdrop_image ∷ []) ++ b.build)

-- `value->opened = b` for the value that fade_value() finds: the first of the id.
pub set_opened : ℕ → Bool → List Fade → List Fade
set_opened id b [] = []
set_opened id b (f ∷ fs) =
    if f.id == id then record f { opened = b } ∷ fs else f ∷ set_opened id b fs

-- fade_value() finds a value.
pub has_fade : ℕ → List Fade → Bool
has_fade id [] = false
has_fade id (f ∷ fs) = if f.id == id then true else has_fade id fs

-- It finds one that is open.
pub is_opened : ℕ → List Fade → Bool
is_opened id [] = false
is_opened id (f ∷ fs) = if f.id == id then f.opened else is_opened id fs

-- A fade that starts is open. A new one has its tint decoded, and `none` is the abort() for a tint
-- that is not supported.
pub open_fade : (Command → Bool) → Command → List Fade → Option (List Fade)
unfolding has_fade set_opened
open_fade supported c fades =
    if not (c.type == overlay_color_start)
    then some fades
    else if has_fade c.id fades
    then some (set_opened c.id true fades)
    else if supported c
    then some (fades ++ record { id = c.id; opened = true } ∷ [])
    else none

-- The cases of the switch that may abort: the end of a fade that is not open, and a type that no case
-- handles.
pub end_command : Command → List Fade → Option (List Fade)
unfolding is_opened set_opened
end_command c fades =
    if c.type == overlay_color_end
    then (if is_opened c.id fades then some (set_opened c.id false fades) else none)
    else if ltb 0 c.type && leb c.type custom
    then some fades
    else none

module _ (realize : Command → Rnode → Realized) where
  -- The node of a command is of this frame, and is drawn.
  pub mark : ℕ → Command → Rnode → Rnode
  mark gen c n =
      let r = realize c n in
      record n {
        gen = gen;
        retained = false;
        node = r.node;
        enabled = r.enabled;
        borrowed = r.borrowed;
      }

  mark_at : ℕ → Command → RenderState → Option RenderState
  unfolding mark
  mark_at i c rs = elim (get_elem? rs.nodes i) [
    | none ↦ none
    | some n ↦ some (record rs { nodes = set_elem i (mark rs.gen c n) rs.nodes })
  ]

  -- `none` for a search that does not end, and for an index that is out of bounds.
  pub declare_command : Command → RenderState → Option RenderState
  unfolding mark_at key_of rnode_add
  declare_command c rs = elim (rmap_get rs (key_of c)) [
    | none ↦ none
    | some none ↦ mark_at (length rs.nodes) c (rnode_add (key_of c) rs)
    | some (some i) ↦ mark_at i c rs
  ]

-- The loop over the commands: `some none` for a run that ends in abort(). `supported` is whether the
-- tint of a fade can be decoded.
module _ (supported : Command → Bool) (realize : Command → Rnode → Realized) where
  pub declare_all : List Command → RenderState → Option (Option RenderState)
  unfolding open_fade end_command declare_command
  declare_all [] rs = some (some rs)
  declare_all (c ∷ cs) rs = elim (open_fade supported c rs.fades) [
    | none ↦ some none
    | some fades ↦ elim (declare_command realize c (record rs { fades = fades })) [
      | none ↦ none
      | some rs1 ↦ elim (end_command c rs1.fades) [
        | none ↦ some none
        | some fades' ↦ declare_all cs (record rs1 { fades = fades' })
      ]
    ]
  ]

abbrev is_some : Option ℕ → Bool
is_some none = false
is_some (some n) = true

-- A node whose command vanished but whose element is declared is kept, dark.
pub keep : (ℕ → Bool) → ℕ → Rnode → Rnode
keep declared gen n =
    if not (n.gen == gen) && (not n.borrowed && (is_some n.node && declared (n.key % 2 ^ 32)))
    then record n {
      gen = gen;
      enabled = if not n.retained && n.enabled then false else n.enabled;
      retained = true;
    }
    else n

-- `*n = nodes[--len]`.
pub drop_last : List Rnode → List Rnode
drop_last [] = []
drop_last (n ∷ []) = []
drop_last (n ∷ m ∷ ns) = n ∷ drop_last (m ∷ ns)

pub swap_remove : ℕ → List Rnode → List Rnode
unfolding drop_last
swap_remove i ns = elim (get_elem? ns (length ns - 1)) [
  | none ↦ []
  | some l ↦ drop_last (set_elem i l ns)
]

-- The node of rnode_remove() is counted if its scene node is destroyed.
pub rnode_remove : ℕ → Rnode → RenderState → RenderState
unfolding swap_remove
rnode_remove i n rs = record rs {
  nodes = swap_remove i rs.nodes;
  swept = if n.borrowed then rs.swept else elim n.node [ none ↦ rs.swept | some _ ↦ suc rs.swept ];
}

module _ (declared : ℕ → Bool) where
  -- The sweep from the index `i`, in so many rounds, and whether a node was removed.
  pub sweep_from : ℕ → ℕ → Bool → RenderState → RenderState × Bool
  unfolding keep rnode_remove
  sweep_from zero i swept rs = (rs, swept)
  sweep_from (suc k) i swept rs = elim (get_elem? rs.nodes i) [
    | none ↦ (rs, swept)
    | some n ↦
        let n' = keep declared rs.gen n in
        let rs' = record rs { nodes = set_elem i n' rs.nodes } in
        let removed = sweep_from k i true (rnode_remove i n' rs') in
        let kept =
          sweep_from k (suc i) swept
            (record rs' { retained = (if n'.retained then 1 else 0) + rs.retained }) in
        if n'.gen == rs.gen then kept else removed
  ]

-- The index is built again if nodes came or went.
pub reindex : ℕ → Bool → RenderState → Option RenderState
reindex pre_len swept rs =
    if swept || not (length rs.nodes == pre_len) then rmap_rebuild rs else some rs

-- The sweep and what follows it.
pub settle : (ℕ → Bool) → ℕ → RenderState → Option RenderState
unfolding sweep_from reindex
settle declared pre_len rs =
    let (rs', swept) = sweep_from declared (length rs.nodes) 0 false (record rs { retained = 0 }) in
    reindex pre_len swept rs'

-- The resets before the loop; the fades stay if render_fades_begin() prepared them for the pass.
pub begin_pass : RenderState → RenderState
begin_pass rs = record rs {
  gen = (rs.gen + 1) % word;
  swept = 0;
  fades = if rs.fades_prepared then rs.fades else [];
  fades_prepared = false;
}

module _ (supported : Command → Bool) (realize : Command → Rnode → Realized)
    (declared : ℕ → Bool) where
  -- The nodes and the index after a pass, and the order; `some none` if the pass aborts.
  pub reconcile : ℕ → List Command → RenderState → Option (Option (RenderState × List ℕ))
  unfolding begin_pass declare_all settle order_of build_all
  reconcile output_id cs rs = elim (rmap_rebuild (begin_pass rs)) [
    | none ↦ none
    | some rs1 ↦ elim (declare_all supported realize cs rs1) [
      | none ↦ none
      | some none ↦ some none
      | some (some rs2) ↦ elim (settle declared (length rs1.nodes) rs2) [
        | none ↦ none
        | some rs3 ↦
            let b =
              build_all output_id cs
                (record { backdrop_rectangle = 0; backdrop_image = 0; build = [] }) in
            some (some (rs3, order_of b))
      ]
    ]
  ]
