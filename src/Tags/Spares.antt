-- ===== src/Tags/Spares.antt =====
-- What untagging a client does to what refers to it.
use somewm.Common.{ℕ, refl, inl, inr, Option, none, some, Bool-cases, erase}
use somewm.World.{World, untagged}
use somewm.Client.{Host, is_client_tagged, banning_need_update, emit}
use somewm.Client.Spares.{
  Spares, Spares-refl, Spares-trans, IsDiscreet, need_update-Spares, emit-Spares,
}
use somewm.Tags.{set_tag, arrange_if, tag_client_emit_signal, untag_client}

module _ (host : Host) (c : ℕ) (discreet : IsDiscreet host c) where
  arrange_if-Spares : (m : Option ℕ) (w : World) → Spares c w (arrange_if host m w)
  unfolding arrange_if
  arrange_if-Spares none w = Spares-refl c w
  arrange_if-Spares (some m) w = discreet.arrange m w

  signal-Spares : (d t : ℕ) (w : World) → Spares c w (tag_client_emit_signal host t d untagged w)
  unfolding tag_client_emit_signal
  signal-Spares d t w =
      Spares-trans c w (emit host d untagged w) _ (emit-Spares host c discreet d untagged w)
        (emit-Spares host c discreet t untagged (emit host d untagged w))

  pub untag_client-Spares : (d t : ℕ) (w : World) → Spares c w (untag_client host d t w)
  unfolding untag_client
  untag_client-Spares d t w =
      let w1 = set_tag w t (record (w.tag t) { clients = erase d (w.tag t).clients }) in
      let w2 = banning_need_update host w1 in
      let w3 = arrange_if host (w2.client d).mon w2 in
      elim (Bool-cases (is_client_tagged w d t)) [
        | inr e ↦ rw e (Spares-refl c w)
        | inl e ↦ rw e (
            Spares-trans c w w1 _ (tag_set w) (
              Spares-trans c w1 w2 _ (need_update-Spares host c w1) (
                Spares-trans c w2 w3 _ (arrange_if-Spares (w2.client d).mon w2)
                  (signal-Spares d t w3))))
      ]
    where
      tag_set :
          (w : World)
          → Spares c w (set_tag w t (record (w.tag t) { clients = erase d (w.tag t).clients }))
      tag_set w = record {
        clients = refl;
        once = λ h. h;
        stack = λ h. h;
        parents = λ d h. h;
        focus = λ h. h;
        pre_lock = λ h. h;
        mouse = λ h. h;
      }
