-- ===== src/Tags.antt =====
-- objects/tag.c: tagging, viewing and activating. The reference counts of the Lua objects are not part
-- of the model; an operation takes the tag where the source takes its place on the Lua stack.
pub mod Members
pub mod Spares
pub mod Listed
pub mod Activated
pub mod View
use somewm.Common.{
  ℕ, Bool, true, false, Option, none, some, List, [], ◌∷◌, ◌++◌, if◌then◌else◌, bool_eq, has, erase,
  update,
}
use somewm.World.{World, Tag, Name, tagged, untagged, property_selected, property_activated}
use somewm.Client.{Host, is_client_tagged, banning_need_update, emit}

-- `*t = v` for a tag of the store.
abbrev pub set_tag : World → ℕ → Tag → World
set_tag w t v = record w { tag = update w.tag t v }

module _ (host : Host) where
  -- some_monitor_arrange(), if there is a monitor.
  pub arrange_if : Option ℕ → World → World
  arrange_if none w = w
  arrange_if (some m) w = host.arrange m w

  -- The signal goes out on the client, and then on the tag.
  pub tag_client_emit_signal : ℕ → ℕ → Name → World → World
  tag_client_emit_signal t c signame w = emit host t signame (emit host c signame w)

  pub tag_client : ℕ → ℕ → World → World
  unfolding arrange_if tag_client_emit_signal
  tag_client c t w =
      if is_client_tagged w c t
      then w
      else let w1 = set_tag w t (record (w.tag t) { clients = (w.tag t).clients ++ c ∷ [] }) in
        let w2 = banning_need_update host w1 in
        tag_client_emit_signal t c tagged (arrange_if (w2.client c).mon w2)

  pub untag_client : ℕ → ℕ → World → World
  unfolding arrange_if tag_client_emit_signal
  untag_client c t w =
      let w1 = set_tag w t (record (w.tag t) { clients = erase c (w.tag t).clients }) in
      let w2 = banning_need_update host w1 in
      if is_client_tagged w c t
      then tag_client_emit_signal t c untagged (arrange_if (w2.client c).mon w2)
      else w

  -- `monitor_of` is the monitor of a screen: its own, else the one that it overlaps.
  pub tag_view : (ℕ → Option ℕ) → ℕ → Bool → World → World
  unfolding arrange_if
  tag_view monitor_of t view w =
      let w1 = set_tag w t (record (w.tag t) { selected = view }) in
      let w2 = emit host t property_selected (banning_need_update host w1) in
      if bool_eq (w.tag t).selected view
      then w
      else arrange_if (elim (w2.tag t).screen [ none ↦ none | some s ↦ monitor_of s ]) w2

  -- The part for a tag that is deactivated: it leaves the list, and is no longer selected.
  deactivate : ℕ → World → World
  deactivate t w =
      let w1 = record w { tags = erase t w.tags } in
      let w2 = set_tag w1 t (record (w1.tag t) { selected = false }) in
      if (w1.tag t).selected
      then banning_need_update host (emit host t property_selected w2)
      else w1

  pub tag_set_activated : ℕ → Bool → World → World
  unfolding deactivate
  tag_set_activated t activated w =
      let w1 = set_tag w t (record (w.tag t) { activated = activated }) in
      if bool_eq activated (w.tag t).activated
      then w
      else emit host t property_activated
          (if activated then record w1 { tags = w1.tags ++ t ∷ [] } else deactivate t w1)
