-- ===== src/Client.antt =====
-- The operations of objects/client.c and banning.c on the attributes of a client: who is visible, who
-- keeps the focus, and the setters that change visibility. A setter takes the object where the source
-- takes its place on the Lua stack. Child modules: Setters (layers, maximization, transients), Ban
-- (banning), Focusing (the focus), and what is proved of each.
pub mod Setters
pub mod Ban
pub mod Frame
pub mod Spares
pub mod Focusing
pub mod Raise
pub mod Visible
use somewm.Common.{
  ℕ, Bool, true, false, ◌&&◌, ◌||◌, not, Option, none, some, List, [], ◌∷◌, ◌++◌, if◌then◌else◌,
  bool_eq, ptr_eq, has,
}
use somewm.World.{
  World, Signal, Name, signal, set_client, property_minimized, property_hidden, property_sticky,
  property_focusable, property_urgent, property_inactive, unfocus,
}

-- What the operations call and this library does not define. `lua` is what the Lua handlers of a
-- signal do to the world when it is emitted at once; `monitor_of` finds the screen of a monitor, for
-- a client that has none yet; `resize_do` is client_resize_do() at the client's own geometry;
-- `arrange` is some_monitor_arrange().
pub record Host : Type 0 where
  pub lua : Signal → World → World
  pub monitor_screen : ℕ → Option ℕ
  pub resize_do : ℕ → World → World
  pub arrange : ℕ → World → World

-- is_client_tagged(), for pointers that are not null.
pub is_client_tagged : World → ℕ → ℕ → Bool
is_client_tagged w c t = has c (w.tag t).clients

-- The loop of client_on_selected_tags over globalconf.tags.
pub some_tag_shows : World → ℕ → ℕ → List ℕ → Bool
unfolding is_client_tagged
some_tag_shows w c s [] = false
some_tag_shows w c s (t ∷ ts) =
    (ptr_eq (w.tag t).screen (some s) && (w.tag t).selected && is_client_tagged w c t)
    || some_tag_shows w c s ts

-- The loop of clients_share_tags: a tag that holds both.
pub shared_tag : World → ℕ → ℕ → List ℕ → Bool
unfolding is_client_tagged
shared_tag w a b [] = false
shared_tag w a b (t ∷ ts) =
    (is_client_tagged w a t && is_client_tagged w b t) || shared_tag w a b ts

pub clients_share_tags : World → ℕ → ℕ → Bool
unfolding shared_tag
clients_share_tags w a b = ((w.client a).sticky || (w.client b).sticky) || shared_tag w a b w.tags

module _ (host : Host) where
  -- luaA_object_emit_signal(): the handlers run at once.
  unfoldable pub emit : ℕ → Name → World → World
  emit c n w = host.lua (signal c n) (record w { emitted = signal c n ∷ w.emitted })

  -- some_event_queue_signal(): the handlers run at the next drain.
  unfoldable pub enqueue : ℕ → Name → World → World
  enqueue c n w = record w { queued = w.queued ++ signal c n ∷ [] }

  -- c->screen, else the screen of c->mon.
  client_screen : World → ℕ → Option ℕ
  client_screen w c = elim (w.client c).screen [
    | some s ↦ some s
    | none ↦ elim (w.client c).mon [ none ↦ none | some m ↦ host.monitor_screen m ]
  ]

  unfoldable pub client_on_selected_tags : World → ℕ → Bool
  unfolding client_screen some_tag_shows
  client_on_selected_tags w c =
      if (w.client c).sticky
      then true
      else elim (client_screen w c) [ none ↦ false | some s ↦ some_tag_shows w c s w.tags ]

  pub client_isvisible : World → ℕ → Bool
  unfolding client_on_selected_tags
  client_isvisible w c =
      not (w.client c).hidden && not (w.client c).minimized && client_on_selected_tags w c

  -- The focus. `sync`: the signals are emitted now.
  client_unfocus_internal : ℕ → Bool → World → World
  unfolding emit enqueue
  client_unfocus_internal c sync w =
      let w' = record w { focus_client = none } in
      if sync
      then emit c unfocus (emit c property_inactive w')
      else enqueue c unfocus (enqueue c property_inactive w')

  pub client_unfocus : ℕ → Bool → World → World
  unfolding client_unfocus_internal
  client_unfocus c sync w =
      let w' = client_unfocus_internal c sync w in record w' { focus_need_update = true }

  pub client_ban_unfocus : ℕ → World → World
  unfolding client_unfocus
  client_ban_unfocus c w =
      if ptr_eq w.focus_client (some c) && not w.mousegrabber then client_unfocus c false w else w

  -- banning_need_update(): who is about to vanish loses the focus now.
  pub unfocus_hidden : List ℕ → World → World
  unfolding client_isvisible client_ban_unfocus
  unfocus_hidden [] w = w
  unfocus_hidden (c ∷ cs) w =
      unfocus_hidden cs (if not (client_isvisible w c) then client_ban_unfocus c w else w)

  pub banning_need_update : World → World
  unfolding unfocus_hidden
  banning_need_update w = unfocus_hidden w.clients (record w { need_lazy_banning = true })

  pub client_set_urgent : ℕ → Bool → World → World
  unfolding emit
  client_set_urgent c s w =
      if bool_eq (w.client c).urgent s
      then w
      else emit c property_urgent (set_client w c (record (w.client c) { urgent = s }))

  -- The foreign-toplevel handle is told too, which is output only.
  pub client_set_minimized : ℕ → Bool → World → World
  unfolding emit banning_need_update
  client_set_minimized c s w =
      if bool_eq (w.client c).minimized s
      then w
      else emit c property_minimized
          (banning_need_update (set_client w c (record (w.client c) { minimized = s })))

  pub client_set_hidden : ℕ → Bool → World → World
  unfolding emit banning_need_update
  client_set_hidden c s w =
      if bool_eq (w.client c).hidden s
      then w
      else emit c property_hidden
          (banning_need_update (set_client w c (record (w.client c) { hidden = s })))

  -- ewmh_client_update_desktop() only writes an X property.
  pub client_set_sticky : ℕ → Bool → World → World
  unfolding emit banning_need_update
  client_set_sticky c s w =
      if bool_eq (w.client c).sticky s
      then w
      else emit c property_sticky
          (banning_need_update (set_client w c (record (w.client c) { sticky = s })))

  pub client_set_focusable : ℕ → Bool → World → World
  unfolding emit
  client_set_focusable c s w =
      if bool_eq (w.client c).focusable s && (w.client c).focusable_set
      then w
      else emit c property_focusable
          (set_client w c (record (w.client c) { focusable = s; focusable_set = true }))

  pub client_unset_focusable : ℕ → World → World
  unfolding emit
  client_unset_focusable c w =
      if (w.client c).focusable_set
      then emit c property_focusable
          (set_client w c (record (w.client c) { focusable_set = false }))
      else w
