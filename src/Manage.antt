-- ===== src/Manage.antt =====
-- objects/client.c: a client that leaves, the order of the clients, and the tags that Lua gives
-- one. The calls of the X server, the render handles and the stored widgets of the titlebars are
-- output, or belong to other components.
pub mod Apart
pub mod Untag
pub mod Titlebars
pub mod Gone
pub mod Exact
pub mod Swap
use somewm.Common.{
  ℕ, zero, suc, Bool, true, false, not, Option, none, some, List, [], ◌∷◌, ◌++◌, ◌==◌,
  if◌then◌else◌, ptr_eq, has, erase, get_elem?, ◌&&◌, ◌+◌, set_elem,
}
use somewm.World.{
  World, Client, ClientType, xdg_shell, layer_shell, x11, Context, user, reparented, destroyed,
  Under, under_none, under_client, under_drawin, Signal, Name, signal, global_signal, set_client,
  parent, mouse_leave, property_tags, list, swapped, request_unmanage,
}
use somewm.Stack.{stack_windows, stack_client_remove}
use somewm.Client.{Host, client_unfocus, is_client_tagged, emit, enqueue}
use somewm.Tags.{tag_client, untag_client}

-- `client_unmanage_t`.
pub data Reason : Type 0 where
  unmanage_destroyed unmanage_user unmanage_reparent unmanage_unmap unmanage_failed : Reason

pub context : Reason → Context
context unmanage_user = user
context unmanage_reparent = reparented
context unmanage_unmap = destroyed
context unmanage_failed = destroyed
context unmanage_destroyed = destroyed

pub is_unmap : Reason → Bool
is_unmap unmanage_unmap = true
is_unmap _ = false

-- Who was a transient of the client is none now.
pub orphan : ℕ → List ℕ → World → World
orphan c [] w = w
orphan c (t ∷ ts) w = orphan c ts (
    if ptr_eq (parent w t) (some c)
    then stack_windows (set_client w t (record (w.client t) { transient_for = none }))
    else w)

-- some_clear_pre_lock_client().
pub clear_pre_lock_client : ℕ → World → World
clear_pre_lock_client c w =
    if ptr_eq (some c) w.pre_lock_client then record w { pre_lock_client = none } else w

module _ (host : Host) where
  pub leave_mouse : ℕ → Under → World → World
  leave_mouse c under_none w = w
  leave_mouse c (under_drawin d) w = w
  leave_mouse c (under_client u) w =
      if u == c then record (enqueue host c mouse_leave w) { mouse_under = under_none } else w

  -- The loop over globalconf.tags, whose handlers may change the array: from the index `i`, in so many
  -- rounds.
  pub untag_from : ℕ → ℕ → ℕ → World → World
  untag_from zero c i w = w
  untag_from (suc k) c i w = elim (get_elem? w.tags i) [
    | none ↦ w
    | some t ↦ untag_from k c (suc i) (untag_client host c t w)
  ]

  -- event_drawable_under_mouse() with nil, for the drawable that the mouse is on.
  pub leave_drawable : ℕ → World → World
  leave_drawable d w =
      let w1 = enqueue host d mouse_leave w in
      if ptr_eq w.drawable_under_mouse (some d)
      then record w1 { drawable_under_mouse = none; unreferenced = w1.unreferenced ++ d ∷ [] }
      else w

  pub drop_titlebars : List (Option ℕ) → World → World
  drop_titlebars [] w = w
  drop_titlebars (none ∷ ds) w = drop_titlebars ds w
  drop_titlebars (some d ∷ ds) w =
      let w1 = leave_drawable d w in
      drop_titlebars ds (record w1 { unreferenced = w1.unreferenced ++ d ∷ [] })

  abbrev no_titlebars : List (Option ℕ) → List (Option ℕ)
  no_titlebars [] = []
  no_titlebars (d ∷ ds) = none ∷ no_titlebars ds

  -- The titlebars go, and the windows are destroyed later; the client has no surface and no window.
  pub invalidate : ℕ → World → World
  invalidate c w =
      let w1 = drop_titlebars (w.client c).titlebar w in
      let v = w1.client c in
      record w1 {
        destroy_later_windows =
            w1.destroy_later_windows
            ++ ((if v.nofocus_window == 0 then [] else v.nofocus_window ∷ [])
                ++ v.frame_window ∷ []);
        client =
            (set_client w1 c (record v {
              titlebar = no_titlebars v.titlebar;
              surface = elim v.client_type [ xdg_shell ↦ none | _ ↦ v.surface ];
              window = 0;
            })).client;
      }

  -- The transients, the focus, the client that had the focus before the lock, and the mouse.
  pub let_go : ℕ → World → World
  let_go c w =
      let w1 = orphan c w.clients w in
      let w2 = if ptr_eq w1.focus_client (some c) then client_unfocus host c true w1 else w1 in
      let w3 = clear_pre_lock_client c w2 in leave_mouse c w3.mouse_under w3

  -- `rounds` bounds the loop over the tags.
  pub client_unmanage : ℕ → ℕ → Reason → World → World
  client_unmanage rounds c reason w =
      let w4 = let_go c w in
      let w5 = stack_client_remove (record w4 { clients = erase c w4.clients }) c in
      let w6 = untag_from rounds c 0 w5 in
      let w7 = emit host c (request_unmanage (context reason)) w6 in
      let w8 = record w7 { queued = w7.queued ++ global_signal list ∷ []; all_dirty = true } in
      let w9 = invalidate c w8 in
      if is_unmap reason then w9 else record w9 { unreferenced = w9.unreferenced ++ c ∷ [] }

  -- luaA_client_tags() with a table, of the tags `ts` in the order of lua_next(): the tags that are not
  -- in the table.
  pub untag_others : ℕ → ℕ → List ℕ → ℕ → World → World
  untag_others zero c ts i w = w
  untag_others (suc k) c ts i w = elim (get_elem? w.tags i) [
    | none ↦ w
    | some t ↦ untag_others k c ts (suc i) (if has t ts then w else untag_client host c t w)
  ]

  pub tag_each : ℕ → List ℕ → World → World
  tag_each c [] w = w
  tag_each c (t ∷ ts) w = tag_each c ts (tag_client host c t w)

  pub client_tags : ℕ → ℕ → List ℕ → World → World
  client_tags rounds c ts w =
      emit host c property_tags (tag_each c ts (untag_others rounds c ts 0 w))

-- The loop of luaA_client_swap(): where the two clients are.
pub find_both : ℕ → ℕ → ℕ → Option ℕ → Option ℕ → List ℕ → Option ℕ × Option ℕ
find_both c swap i ref_c ref_swap [] = (ref_c, ref_swap)
find_both c swap i ref_c ref_swap (x ∷ xs) =
    let c' = if x == c then some i else ref_c in
    let swap' = if x == c then ref_swap else if x == swap then some i else ref_swap in
    let rest = find_both c swap (suc i) c' swap' xs in
    if not (ptr_eq c' none) && not (ptr_eq swap' none) then (c', swap') else rest

-- `none` for a write through a null pointer.
pub swap_places : ℕ → ℕ → Option ℕ → Option ℕ → List ℕ → Option (List ℕ)
swap_places c swap (some i) (some j) xs = some (set_elem j c (set_elem i swap xs))
swap_places c swap _ _ xs = none

pub client_swap : ℕ → ℕ → World → Option World
client_swap c swap w =
    if c == swap
    then some w
    else let refs = find_both c swap 0 none none w.clients in
      elim (swap_places c swap refs.0 refs.1 w.clients) [
        | none ↦ none
        | some xs ↦ some (record w {
          clients = xs;
          queued = w.queued ++ global_signal list ∷ signal c swapped ∷ signal swap swapped ∷ [];
        })
      ]
