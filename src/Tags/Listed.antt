-- ===== src/Tags/Listed.antt =====
-- Tagging and untagging leave the list of tags alone.
use somewm.Common.{
  ℕ, ◌≡◌, refl, ap, ◌∙◌, inl, inr, Option, none, some, [], ◌∷◌, ◌++◌, Bool-cases, erase,
}
use somewm.World.{World, Name, untagged, tagged}
use somewm.Client.{Host, is_client_tagged, banning_need_update, emit}
use somewm.Client.Frame.{emit_eq, need_update-SameObjects}
use somewm.Tags.{set_tag, arrange_if, tag_client_emit_signal, tag_client, untag_client}
use somewm.Tags.Members.{KeepsTags}

module _ (host : Host) (keeps : KeepsTags host) where
  arrange_if-tags : (m : Option ℕ) (w : World) → (arrange_if host m w).tags ≡ w.tags
  unfolding arrange_if
  arrange_if-tags none w = refl
  arrange_if-tags (some m) w = keeps.arrange_tags m w

  emit-tags : (o : ℕ) (n : Name) (w : World) → (emit host o n w).tags ≡ w.tags
  emit-tags o n w = ap (λ (v : World). v.tags) (emit_eq host o n w) ∙ keeps.lua_tags _ _

  signal-tags :
      (d t : ℕ) (n : Name) (w : World) → (tag_client_emit_signal host t d n w).tags ≡ w.tags
  unfolding tag_client_emit_signal
  signal-tags d t n w = emit-tags t n (emit host d n w) ∙ emit-tags d n w

  pub untag_client-tags : (d t : ℕ) (w : World) → (untag_client host d t w).tags ≡ w.tags
  unfolding untag_client
  untag_client-tags d t w =
      let w1 = set_tag w t (record (w.tag t) { clients = erase d (w.tag t).clients }) in
      let w2 = banning_need_update host w1 in
      let w3 = arrange_if host (w2.client d).mon w2 in
      elim (Bool-cases (is_client_tagged w d t)) [
        | inr e ↦ rw e refl
        | inl e ↦ rw e (
            signal-tags d t untagged w3
            ∙ arrange_if-tags (w2.client d).mon w2
            ∙ (need_update-SameObjects host w1).tags)
      ]

  pub tag_client-tags : (d t : ℕ) (w : World) → (tag_client host d t w).tags ≡ w.tags
  unfolding tag_client
  tag_client-tags d t w =
      let w1 = set_tag w t (record (w.tag t) { clients = (w.tag t).clients ++ d ∷ [] }) in
      let w2 = banning_need_update host w1 in
      let w3 = arrange_if host (w2.client d).mon w2 in
      elim (Bool-cases (is_client_tagged w d t)) [
        | inl e ↦ rw e refl
        | inr e ↦ rw e (
            signal-tags d t tagged w3
            ∙ arrange_if-tags (w2.client d).mon w2
            ∙ (need_update-SameObjects host w1).tags)
      ]
