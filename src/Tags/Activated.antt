-- ===== src/Tags/Activated.antt =====
-- globalconf.tags: it lists the tags that are activated, each once.
use somewm.Common.{
  ℕ, ◌≡◌, refl, ap, ◌∙◌, inl, inr, Bool, true, false, [], ◌∷◌, ◌++◌, arith, Bool-cases,
  if◌then◌else◌, bool_eq, ◌==◌, ==_iff, has, erase, Nodup, has-append, has-erase_self, has-erase_ne,
  erase-Nodup, append-Nodup,
}
use somewm.World.{World, Name, Tag, signal, property_selected, property_activated}
use somewm.Client.{Host, emit}
use somewm.Client.Frame.{need_update-SameObjects, emit_eq}
use somewm.Tags.{set_tag, deactivate, tag_set_activated}
use somewm.Tags.Members.{KeepsTags, emit-tag}

-- The list has a tag exactly if it is activated.
pub record IsListed (w : World) : Type 0 where
  pub distinct : Nodup w.tags
  pub listed : (t : ℕ) → has t w.tags ≡ (w.tag t).activated

module _ (host : Host) (keeps : KeepsTags host) where
  emit-tags : (o : ℕ) (n : Name) (w : World) → (emit host o n w).tags ≡ w.tags
  emit-tags o n w = ap (λ (v : World). v.tags) (emit_eq host o n w) ∙ keeps.lua_tags (signal o n) _

  -- A deactivation takes the tag from the list and changes no `activated`.
  deactivate-tags :
      (t : ℕ) (w : World) (u : ℕ)
      → ((deactivate host t w).tags ≡ erase t w.tags)
        × (((deactivate host t w).tag u).activated ≡ (w.tag u).activated)
  unfolding deactivate
  deactivate-tags t w u =
      let w1 = record w { tags = erase t w.tags } in
      let w2 = set_tag w1 t (record (w1.tag t) { selected = false }) in
      let w3 = emit host t property_selected w2 in
      let s = need_update-SameObjects host w3 in
      elim (Bool-cases (w.tag t).selected) [
        | inl e ↦ rw e (
          s.tags ∙ emit-tags t property_selected w2,
          ap (λ (v : ℕ → Tag). (v u).activated) (s.tag ∙ emit-tag host keeps t property_selected w2)
              ∙ here,
        )
        | inr e ↦ rw e (refl, refl)
      ]
    where
      here :
          (if u == t then record (w.tag t) { selected = false } else w.tag u).activated
          ≡ (w.tag u).activated
      here = elim (Bool-cases (u == t)) [
        | inl e ↦ rw ((==_iff u t).0 e) (ground arith)
        | inr e ↦ rw e refl
      ]

  -- The list and the tags after the setter.
  set_activated-tags :
      (t : ℕ) (s : Bool) (w : World) (u : ℕ)
      → bool_eq s (w.tag t).activated ≡ false
      → ((tag_set_activated host t s w).tags ≡ (if s then w.tags ++ t ∷ [] else erase t w.tags))
        × (((tag_set_activated host t s w).tag u).activated
            ≡ (if u == t then s else (w.tag u).activated))
  unfolding tag_set_activated
  set_activated-tags t true w u e =
      let w1 = set_tag w t (record (w.tag t) { activated = true }) in
      let w2 = record w1 { tags = w1.tags ++ t ∷ [] } in
      rw e (
        emit-tags t property_activated w2,
        ap (λ (v : ℕ → Tag). (v u).activated) (emit-tag host keeps t property_activated w2)
            ∙ ground arith,
      )
  set_activated-tags t false w u e =
      let w1 = set_tag w t (record (w.tag t) { activated = false }) in
      let w2 = deactivate host t w1 in
      let (l, k) = deactivate-tags t w1 u in
      rw e (
        emit-tags t property_activated w2 ∙ l,
        ap (λ (v : ℕ → Tag). (v u).activated) (emit-tag host keeps t property_activated w2)
            ∙ k
            ∙ ground arith,
      )

  -- Setting what is set already changes nothing.
  set_activated_same :
      (t : ℕ) (s : Bool) (w : World)
      → bool_eq s (w.tag t).activated ≡ true
      → tag_set_activated host t s w ≡ w
  unfolding tag_set_activated
  set_activated_same t s w e = rw e refl

  activate-IsListed :
      (t : ℕ) (w : World)
      → IsListed w
      → bool_eq true (w.tag t).activated ≡ false
      → IsListed (tag_set_activated host t true w)
  activate-IsListed t w l e = record {
    distinct =
        rw ((set_activated-tags t true w t e).0)
          (append-Nodup t w.tags l.distinct (ground (arith, l.listed t)));
    listed =
        λ u. rw ((set_activated-tags t true w u e).0, (set_activated-tags t true w u e).1) (on u);
  }
    where
      on : (u : ℕ) → has u (w.tags ++ t ∷ []) ≡ (if u == t then true else (w.tag u).activated)
      on u = ground (arith, has-append u w.tags (t ∷ []), l.listed u)

  deactivate-IsListed :
      (t : ℕ) (w : World)
      → IsListed w
      → bool_eq false (w.tag t).activated ≡ false
      → IsListed (tag_set_activated host t false w)
  deactivate-IsListed t w l e = record {
    distinct = rw ((set_activated-tags t false w t e).0) (erase-Nodup t w.tags l.distinct);
    listed = λ u.
        rw ((set_activated-tags t false w u e).0, (set_activated-tags t false w u e).1) (off u);
  }
    where
      off : (u : ℕ) → has u (erase t w.tags) ≡ (if u == t then false else (w.tag u).activated)
      off u = elim (Bool-cases (u == t)) [
        | inl h ↦ rw (h, (==_iff u t).0 h) (has-erase_self t w.tags l.distinct)
        | inr h ↦ rw h (has-erase_ne t u w.tags (λ p. ground arith) ∙ l.listed u)
      ]

  -- With handlers that leave the tags alone: if globalconf.tags lists the activated tags, each once, it
  -- does so after the setter of `activated`, whichever tag it is called on and with whichever value.
  pub set_activated-IsListed :
      (t : ℕ) (s : Bool) (w : World) → IsListed w → IsListed (tag_set_activated host t s w)
  set_activated-IsListed t true w l = elim (Bool-cases (bool_eq true (w.tag t).activated)) [
    | inl e ↦ rw (set_activated_same t true w e) l
    | inr e ↦ activate-IsListed t w l e
  ]
  set_activated-IsListed t false w l = elim (Bool-cases (bool_eq false (w.tag t).activated)) [
    | inl e ↦ rw (set_activated_same t false w e) l
    | inr e ↦ deactivate-IsListed t w l e
  ]
