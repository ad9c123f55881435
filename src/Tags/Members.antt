-- ===== src/Tags/Members.antt =====
-- Which clients have a tag after tag_client() and untag_client().
use somewm.Common.{
  ℕ, ◌≡◌, refl, sym, ap, ◌∙◌, inl, inr, true, false, ◌&&◌, ◌||◌, not, Option, none, some, List, [],
  ◌∷◌, ◌++◌, arith, Bool-cases, if◌then◌else◌, ◌==◌, ==_iff, has, erase, Nodup, has-append,
  has-erase_self, has-erase_ne, erase-Nodup, append-Nodup, erase-none, erase-append_self,
}
use somewm.World.{World, Signal, Name, Tag, signal, tagged, untagged}
use somewm.Client.{Host, is_client_tagged, banning_need_update, emit}
use somewm.Client.Frame.{need_update-SameObjects, emit_eq, is_client_tagged-has}
use somewm.Tags.{set_tag, arrange_if, tag_client_emit_signal, tag_client, untag_client}

-- The Lua handlers and the layout leave the tags alone.
pub record KeepsTags (host : Host) : Type 0 where
  pub lua : (s : Signal) (w : World) → (host.lua s w).tag ≡ w.tag
  pub lua_tags : (s : Signal) (w : World) → (host.lua s w).tags ≡ w.tags
  pub arrange : (m : ℕ) (w : World) → (host.arrange m w).tag ≡ w.tag
  pub arrange_tags : (m : ℕ) (w : World) → (host.arrange m w).tags ≡ w.tags

-- The clients of a tag.
abbrev pub members : World → ℕ → List ℕ
members w t = (w.tag t).clients

module _ (host : Host) (keeps : KeepsTags host) where
  pub emit-tag : (o : ℕ) (n : Name) (w : World) → (emit host o n w).tag ≡ w.tag
  emit-tag o n w = ap (λ (v : World). v.tag) (emit_eq host o n w) ∙ keeps.lua (signal o n) _

  tag_client_emit_signal-tag :
      (t c : ℕ) (n : Name) (w : World) → (tag_client_emit_signal host t c n w).tag ≡ w.tag
  unfolding tag_client_emit_signal
  tag_client_emit_signal-tag t c n w = emit-tag t n (emit host c n w) ∙ emit-tag c n w

  pub arrange_if-tag : (m : Option ℕ) (w : World) → (arrange_if host m w).tag ≡ w.tag
  unfolding arrange_if
  arrange_if-tag none w = refl
  arrange_if-tag (some m) w = keeps.arrange m w

  -- The members of every tag after the two operations.
  tag_client-members :
      (c t : ℕ) (w : World) (u : ℕ)
      → members (tag_client host c t w) u
        ≡ (if (t == u) && not (has c (members w t)) then members w u ++ c ∷ [] else members w u)
  unfolding tag_client
  tag_client-members c t w u =
      let w1 = set_tag w t (record (w.tag t) { clients = (w.tag t).clients ++ c ∷ [] }) in
      let w2 = banning_need_update host w1 in
      let same =
        tag_client_emit_signal-tag t c tagged (arrange_if host (w2.client c).mon w2)
        ∙ arrange_if-tag (w2.client c).mon w2
        ∙ (need_update-SameObjects host w1).tag in
      elim (Bool-cases (has c (members w t))) [
        | inl h ↦ rw (is_client_tagged-has w c t, h) (ground arith)
        | inr h ↦
            rw (is_client_tagged-has w c t, h) (ap (λ (s : ℕ → Tag). (s u).clients) same ∙ here u)
      ]
    where
      here :
          (u : ℕ)
          → (if u == t
              then record (w.tag t) { clients = (w.tag t).clients ++ c ∷ [] }
              else w.tag u).clients
            ≡ (if (t == u) && true then members w u ++ c ∷ [] else members w u)
      here u = elim (Bool-cases (u == t)) [
        | inl e ↦ rw ((==_iff u t).0 e) (ground arith)
        | inr e ↦ ground arith
      ]

  pub untag_client-members :
      (c t : ℕ) (w : World) (u : ℕ)
      → members (untag_client host c t w) u
        ≡ (if t == u then erase c (members w u) else members w u)
  unfolding untag_client
  untag_client-members c t w u =
      let w1 = set_tag w t (record (w.tag t) { clients = erase c (w.tag t).clients }) in
      let w2 = banning_need_update host w1 in
      let same =
        tag_client_emit_signal-tag t c untagged (arrange_if host (w2.client c).mon w2)
        ∙ arrange_if-tag (w2.client c).mon w2
        ∙ (need_update-SameObjects host w1).tag in
      elim (Bool-cases (has c (members w t))) [
        | inl h ↦
            rw (is_client_tagged-has w c t, h) (ap (λ (s : ℕ → Tag). (s u).clients) same ∙ here u)
        | inr h ↦ rw (is_client_tagged-has w c t, h) (gone h)
      ]
    where
      here :
          (u : ℕ)
          → (if u == t
              then record (w.tag t) { clients = erase c (w.tag t).clients }
              else w.tag u).clients
            ≡ (if t == u then erase c (members w u) else members w u)
      here u = elim (Bool-cases (u == t)) [
        | inl e ↦ rw ((==_iff u t).0 e) (ground arith)
        | inr e ↦ ground arith
      ]

      gone :
          has c (members w t) ≡ false
          → members w u ≡ (if t == u then erase c (members w u) else members w u)
      gone h = elim (Bool-cases (t == u)) [
        | inl e ↦ rw (e) (sym (erase-none c (members w u) (rw (← (==_iff t u).0 e) h)))
        | inr e ↦ rw e refl
      ]

  -- With handlers and a layout that leave the tags alone, and tags that have no client twice: tagging
  -- gives the one tag the one client, untagging takes it away, and neither changes whether any other
  -- client has any other tag.
  pub tag_untag-is_client_tagged :
      (c t : ℕ) (w : World) (a u : ℕ)
      → Nodup (members w u)
      → (is_client_tagged (tag_client host c t w) a u
          ≡ (((t == u) && (c == a)) || is_client_tagged w a u))
        × (is_client_tagged (untag_client host c t w) a u
            ≡ (not ((t == u) && (c == a)) && is_client_tagged w a u))
  tag_untag-is_client_tagged c t w a u n = (tagging, untagging)
    where
      tagging :
          is_client_tagged (tag_client host c t w) a u
          ≡ (((t == u) && (c == a)) || is_client_tagged w a u)
      tagging =
          rw
            (
              is_client_tagged-has (tag_client host c t w) a u,
              is_client_tagged-has w a u,
              tag_client-members c t w u,
            )
            (elim (Bool-cases (t == u)) [
              | inl e ↦ rw ((==_iff t u).0 e) (ground (arith, has-append a (members w u) (c ∷ [])))
              | inr e ↦ rw e refl
            ])

      untagging :
          is_client_tagged (untag_client host c t w) a u
          ≡ (not ((t == u) && (c == a)) && is_client_tagged w a u)
      untagging =
          rw
            (
              is_client_tagged-has (untag_client host c t w) a u,
              is_client_tagged-has w a u,
              untag_client-members c t w u,
            )
            (elim (Bool-cases (t == u)) [
              | inl e ↦ elim (Bool-cases (c == a)) [
                | inl f ↦
                    rw (e, (==_iff c a).0 f) (ground (arith, has-erase_self a (members w u) n))
                | inr f ↦ rw (e, f) (ground (arith, has-erase_ne c a (members w u)))
              ]
              | inr e ↦ rw e refl
            ])

  -- With such handlers and layout, no tag comes to have a client twice by tagging or untagging.
  pub tag_untag-Nodup :
      (c t : ℕ) (w : World) (u : ℕ)
      → Nodup (members w u)
      → Nodup (members (tag_client host c t w) u) × Nodup (members (untag_client host c t w) u)
  tag_untag-Nodup c t w u n =
      (rw (tag_client-members c t w u) added, rw (untag_client-members c t w u) removed)
    where
      added :
          Nodup
            (if (t == u) && not (has c (members w t)) then members w u ++ c ∷ [] else members w u)
      added = elim (Bool-cases (t == u)) [
        | inr e ↦ rw e n
        | inl e ↦ elim (Bool-cases (has c (members w u))) [
          | inl h ↦ rw (e, (==_iff t u).0 e, h) n
          | inr h ↦ rw (e, (==_iff t u).0 e, h) (append-Nodup c (members w u) n h)
        ]
      ]

      removed : Nodup (if t == u then erase c (members w u) else members w u)
      removed = elim (Bool-cases (t == u)) [
        | inl e ↦ rw e (erase-Nodup c (members w u) n)
        | inr e ↦ rw e n
      ]

  -- With such handlers and layout, untagging a client that was just tagged gives every tag the clients
  -- that it had before, in order.
  pub untag_client-tag_client :
      (c t : ℕ) (w : World) (u : ℕ)
      → is_client_tagged w c t ≡ false
      → members (untag_client host c t (tag_client host c t w)) u ≡ members w u
  untag_client-tag_client c t w u h =
      untag_client-members c t (tag_client host c t w) u
      ∙ rw (tag_client-members c t w u) (both (sym (is_client_tagged-has w c t) ∙ h))
    where
      both :
          has c (members w t) ≡ false
          → (let now =
                if (t == u) && not (has c (members w t))
                then members w u ++ c ∷ []
                else members w u in
              if t == u then erase c now else now)
            ≡ members w u
      both f = elim (Bool-cases (t == u)) [
        | inl e ↦ rw (f, e) (erase-append_self c (members w u) (rw (← (==_iff t u).0 e) f))
        | inr e ↦ rw e refl
      ]
