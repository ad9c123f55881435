-- ===== src/Tags/View.antt =====
-- tag_view(): who is visible once a tag is viewed or no longer viewed.
use somewm.Common.{
  ℕ, ◌≡◌, ◌⊎◌, refl, ap, ◌∙◌, inl, inr, Bool, true, false, not, Option, none, some, ◌∷◌, arith,
  Bool-cases, bool_eq, ==_iff, has,
}
use somewm.World.{World, Client, Tag, Signal, signal, property_selected}
use somewm.Client.{Host, client_isvisible, banning_need_update}
use somewm.Client.Frame.{
  SameObjects, SameObjects-trans, need_update-SameObjects, need_update_due, emit_eq,
}
use somewm.Client.Ban.{banning_refresh}
use somewm.Client.Ban.Refresh.{banning_refresh-banned}
use somewm.Client.Visible.{SameView-isvisible}
use somewm.Tags.{set_tag, arrange_if, tag_view}
use somewm.Tags.Members.{KeepsTags}

-- The Lua handlers and the layout leave the list of tags and the attributes of the clients alone too.
pub record KeepsClients (host : Host) : Type 0 where
  pub lua : (s : Signal) (w : World) → (host.lua s w).client ≡ w.client
  pub arrange : (m : ℕ) (w : World) → (host.arrange m w).client ≡ w.client
  pub arrange_tags : (m : ℕ) (w : World) → (host.arrange m w).tags ≡ w.tags

-- They leave the list of clients, and a refresh of the banning that is due, alone too.
pub record KeepsDue (host : Host) : Type 0 where
  pub lua :
      (s : Signal) (w : World)
      → w.need_lazy_banning ≡ true
      → (host.lua s w).need_lazy_banning ≡ true
  pub arrange :
      (m : ℕ) (w : World) → w.need_lazy_banning ≡ true → (host.arrange m w).need_lazy_banning ≡ true
  pub lua_clients : (s : Signal) (w : World) → (host.lua s w).clients ≡ w.clients
  pub arrange_clients : (m : ℕ) (w : World) → (host.arrange m w).clients ≡ w.clients

bool_same : (a b : Bool) → bool_eq a b ≡ true → a ≡ b
bool_same a b h = ground arith

-- The tag with its flag set, and nothing else done.
abbrev pub viewed : ℕ → Bool → World → World
viewed t view w = set_tag w t (record (w.tag t) { selected = view })

module _ (host : Host) (tags : KeepsTags host) (clients : KeepsClients host)
    (due : KeepsDue host) where
  SameObjects-isvisible :
      (w w' : World) (c : ℕ)
      → SameObjects w w'
      → client_isvisible host w' c ≡ client_isvisible host w c
  SameObjects-isvisible w w' c s = SameView-isvisible host w w' c (record {
    tag = s.tag;
    tags = s.tags;
    hidden = ap (λ (v : ℕ → Client). (v c).hidden) s.client;
    minimized = ap (λ (v : ℕ → Client). (v c).minimized) s.client;
    sticky = ap (λ (v : ℕ → Client). (v c).sticky) s.client;
    screen = ap (λ (v : ℕ → Client). (v c).screen) s.client;
    mon = ap (λ (v : ℕ → Client). (v c).mon) s.client;
  })

  arrange_if-SameObjects : (m : Option ℕ) (w : World) → SameObjects w (arrange_if host m w)
  unfolding arrange_if
  arrange_if-SameObjects none w = record { client = refl; tag = refl; tags = refl }
  arrange_if-SameObjects (some m) w = record {
    client = clients.arrange m w;
    tag = tags.arrange m w;
    tags = clients.arrange_tags m w;
  }

  module _ (monitor_of : ℕ → Option ℕ) (t : ℕ) (view : Bool) (w : World) where
    -- The world that the handlers of the tag see, and the one that they leave.
    asked : World
    asked =
        let w2 = banning_need_update host (viewed t view w) in
        record w2 { emitted = signal t property_selected ∷ w2.emitted }

    told : World
    told = host.lua (signal t property_selected) asked

    screen_monitor : Option ℕ
    screen_monitor = elim (w.tag t).screen [ none ↦ none | some s ↦ monitor_of s ]

    told-SameObjects : SameObjects (viewed t view w) told
    unfolding told asked
    told-SameObjects =
        let s = need_update-SameObjects host (viewed t view w) in
        record {
          client = clients.lua _ _ ∙ s.client;
          tag = tags.lua _ _ ∙ s.tag;
          tags = tags.lua_tags _ _ ∙ s.tags;
        }

    asked_selected : (asked.tag t).selected ≡ view
    unfolding asked
    asked_selected =
        ap (λ (g : ℕ → Tag). (g t).selected) (need_update-SameObjects host (viewed t view w)).tag
        ∙ rw ((==_iff t t).1 refl) refl

    tag_view_same : bool_eq (w.tag t).selected view ≡ true → tag_view host monitor_of t view w ≡ w
    unfolding tag_view
    tag_view_same e = rw e refl

    told_due : (told.need_lazy_banning ≡ true) × (told.clients ≡ w.clients)
    unfolding told asked
    told_due =
        let (d, m) = need_update_due host (viewed t view w) in
        (due.lua _ _ d, due.lua_clients _ _ ∙ m)

    told_screen : (told.tag t).screen ≡ (w.tag t).screen
    told_screen =
        ap (λ (g : ℕ → Tag). (g t).screen) told-SameObjects.tag ∙ rw ((==_iff t t).1 refl) refl

    tag_view_changed :
        bool_eq (w.tag t).selected view ≡ false
        → tag_view host monitor_of t view w ≡ arrange_if host screen_monitor told
    unfolding tag_view screen_monitor told asked
    tag_view_changed e =
        rw (e, emit_eq host t property_selected (banning_need_update host (viewed t view w)))
          (ap
            (λ (o : Option ℕ).
              arrange_if host (elim o [ none ↦ none | some s ↦ monitor_of s ]) told)
            told_screen)

    arranged_due :
        (m : Option ℕ)
        → ((arrange_if host m told).need_lazy_banning ≡ true)
          × ((arrange_if host m told).clients ≡ w.clients)
    unfolding arrange_if
    arranged_due none = told_due
    arranged_due (some m) = (due.arrange m told told_due.0, due.arrange_clients m told ∙ told_due.1)

    refreshed :
        (v : World) (c : ℕ)
        → SameObjects (viewed t view w) v
        → (v.need_lazy_banning ≡ true) × (v.clients ≡ w.clients)
        → has c w.clients ≡ true
        → (w.client c).scene ≡ true
        → ((banning_refresh host v).client c).isbanned
          ≡ not (client_isvisible host (viewed t view w) c)
    refreshed v c s (d, l) managed mapped =
        (banning_refresh-banned host v c d (ap (has c) l ∙ managed)
          (ap (λ (g : ℕ → Client). (g c).scene) s.client ∙ mapped)).0
        ∙ ap not (SameObjects-isvisible (viewed t view w) v c s)

  -- With handlers and a layout that leave the tags, the attributes of the clients, their list and a
  -- refresh that is due alone, and a client that is managed and mapped. tag_view() called with the
  -- value that the tag has does nothing. Otherwise the tag's handlers are told, with the tag's flag
  -- set; the monitor of the tag's screen, if there is one, is laid out last; and the next refresh
  -- of the banning bans the client exactly if it is not visible once the tag's flag is changed and
  -- nothing else is.
  pub tag_view-isvisible :
      (monitor_of : ℕ → Option ℕ) (t : ℕ) (view : Bool) (w : World) (c : ℕ)
      → has c w.clients ≡ true
      → (w.client c).scene ≡ true
      → let w' = tag_view host monitor_of t view w in
        (((w.tag t).selected ≡ view) × (w' ≡ w))
        ⊎ (((w.tag t).selected ≡ not view)
            × (((banning_refresh host w').client c).isbanned
                ≡ not (client_isvisible host (viewed t view w) c))
            × ((v : World) × ((v.tag t).selected ≡ view)
                × (w'
                    ≡ arrange_if host
                        (elim (w.tag t).screen [ none ↦ none | some s ↦ monitor_of s ])
                        (host.lua (signal t property_selected) v))))
  unfolding screen_monitor told
  tag_view-isvisible monitor_of t view w c managed mapped =
      elim (Bool-cases (bool_eq (w.tag t).selected view)) [
        | inl e ↦ inl (bool_same _ _ e, tag_view_same monitor_of t view w e)
        | inr e ↦ let (banned, laid) = changed e in inr (ground arith, banned, laid)
      ]
    where
      changed :
          bool_eq (w.tag t).selected view ≡ false
          → (((banning_refresh host (tag_view host monitor_of t view w)).client c).isbanned
              ≡ not (client_isvisible host (viewed t view w) c))
            × ((v : World) × ((v.tag t).selected ≡ view)
                × (tag_view host monitor_of t view w
                    ≡ arrange_if host
                        (elim (w.tag t).screen [ none ↦ none | some s ↦ monitor_of s ])
                        (host.lua (signal t property_selected) v)))
      changed e =
          let m = screen_monitor monitor_of t view w in
          let v = told monitor_of t view w in
          let eq = tag_view_changed monitor_of t view w e in
          let s =
            SameObjects-trans _ v _ (told-SameObjects monitor_of t view w)
              (arrange_if-SameObjects m v) in
          (
            rw eq (
                refreshed monitor_of t view w (arrange_if host m v) c s
                  (arranged_due monitor_of t view w m) managed mapped),
            (asked monitor_of t view w, asked_selected monitor_of t view w, eq),
          )
