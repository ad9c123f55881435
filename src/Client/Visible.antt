-- ===== src/Client/Visible.antt =====
-- Visibility (client_isvisible and client_on_selected_tags of objects/client.c): what it decides, and
-- which parts of the world it depends on.
use somewm.Common.{
  ℕ, ◌≡◌, refl, ◌↔◌, ◌⊎◌, inl, inr, true, false, ◌&&◌, Option, none, some, List, [], ◌∷◌, arith,
  Bool-cases, Option-cases, ptr_eq, has, ==_iff, ◌==◌,
}
use somewm.World.{World}
use somewm.Client.{
  Host, is_client_tagged, client_screen, some_tag_shows, client_on_selected_tags, client_isvisible,
  shared_tag, clients_share_tags,
}

-- A selected tag of the screen `s` that holds the client.
pub record Shows (w : World) (c s t : ℕ) : Type 0 where
  pub listed : has t w.tags ≡ true
  pub on_screen : (w.tag t).screen ≡ some s
  pub selected : (w.tag t).selected ≡ true
  pub tagged : has c (w.tag t).clients ≡ true

ptr_eq_iff : (p : Option ℕ) (s : ℕ) → (ptr_eq p (some s) ≡ true) ↔ (p ≡ some s)
ptr_eq_iff none s = ground arith
ptr_eq_iff (some a) s = ground arith

some_tag_shows-found :
    (w : World) (c s : ℕ) (ts : List ℕ)
    → some_tag_shows w c s ts ≡ true
    → (t : ℕ) × (has t ts ≡ true)
      × ((w.tag t).screen ≡ some s)
      × ((w.tag t).selected ≡ true)
      × (has c (w.tag t).clients ≡ true)
unfolding some_tag_shows is_client_tagged
some_tag_shows-found w c s [] h = absurd (ground arith)
some_tag_shows-found w c s (t ∷ ts) h =
    elim (Bool-cases
      (ptr_eq (w.tag t).screen (some s) && (w.tag t).selected && has c (w.tag t).clients)) [
        | inl here ↦ (
          t,
          ground arith,
          (ptr_eq_iff (w.tag t).screen s).0 (ground arith),
          ground arith,
          ground arith,
        )
        | inr not_here ↦
            let (u, l, o, se, ta) = some_tag_shows-found w c s ts (ground arith) in
            (u, ground arith, o, se, ta)
      ]

some_tag_shows_complete :
    (w : World) (c s t : ℕ) (ts : List ℕ)
    → has t ts ≡ true
    → (w.tag t).screen ≡ some s
    → (w.tag t).selected ≡ true
    → has c (w.tag t).clients ≡ true
    → some_tag_shows w c s ts ≡ true
unfolding some_tag_shows is_client_tagged
some_tag_shows_complete w c s t [] l o se ta = absurd (ground arith)
some_tag_shows_complete w c s t (u ∷ ts) l o se ta = elim (Bool-cases (u == t)) [
  | inl same ↦ rw ((==_iff u t).0 same, o, se, ta) (ground arith)
  | inr other ↦ ground (arith, some_tag_shows_complete w c s t ts)
]

-- The screen that a client counts as being on: its own, else that of its monitor.
abbrev pub OnScreen : Host → World → ℕ → ℕ → Type 0
OnScreen host w c s =
    ((w.client c).screen ≡ some s)
    ⊎ (((w.client c).screen ≡ none)
        × ((m : ℕ) × ((w.client c).mon ≡ some m) × (host.monitor_screen m ≡ some s)))

module _ (host : Host) (w : World) (c : ℕ) where
  client_screen_iff : (s : ℕ) → (client_screen host w c ≡ some s) ↔ OnScreen host w c s
  unfolding client_screen
  client_screen_iff s = (λ h. found s h, λ h. back s h)
    where
      found : (s : ℕ) → client_screen host w c ≡ some s → OnScreen host w c s
      found s h = elim (Option-cases (w.client c).screen) [
        | inl e ↦ elim (Option-cases (w.client c).mon) [
          | inl f ↦ absurd (ground arith)
          | inr (m, f) ↦ inr (e, (m, f, ground arith))
        ]
        | inr (r, e) ↦ inl (ground arith)
      ]

      back : (s : ℕ) → OnScreen host w c s → client_screen host w c ≡ some s
      back s (inl e) = ground arith
      back s (inr (e, (m, f, g))) = ground arith

  on_selected_tags-found :
      client_on_selected_tags host w c ≡ true
      → ((w.client c).sticky ≡ true) ⊎ ((s : ℕ) × (t : ℕ) × OnScreen host w c s × Shows w c s t)
  unfolding client_on_selected_tags
  on_selected_tags-found h = elim (Bool-cases (w.client c).sticky) [
    | inl e ↦ inl e
    | inr e ↦ elim (Option-cases (client_screen host w c)) [
      | inl f ↦ absurd (ground arith)
      | inr (s, f) ↦
          let (t, l, o, se, ta) = some_tag_shows-found w c s w.tags (ground arith) in
          inr (
            s,
            t,
            (client_screen_iff s).0 f,
            record { listed = l; on_screen = o; selected = se; tagged = ta },
          )
    ]
  ]

  on_selected_tags_complete :
      (s t : ℕ) → OnScreen host w c s → Shows w c s t → client_on_selected_tags host w c ≡ true
  unfolding client_on_selected_tags
  on_selected_tags_complete s t o h = ground (
    arith,
    (client_screen_iff s).1 o,
    some_tag_shows_complete w c s t w.tags h.listed h.on_screen h.selected h.tagged,
  )

  on_selected_tags-sticky : (w.client c).sticky ≡ true → client_on_selected_tags host w c ≡ true
  unfolding client_on_selected_tags
  on_selected_tags-sticky h = ground arith

  -- A client is visible exactly if it is neither hidden nor minimized, and is sticky or on a
  -- selected tag of its screen, which is that of its monitor while it has none of its own.
  pub client_isvisible_iff : (client_isvisible host w c ≡ true) ↔ (
      ((w.client c).hidden ≡ false)
      × ((w.client c).minimized ≡ false)
      × (((w.client c).sticky ≡ true) ⊎ ((s : ℕ) × (t : ℕ) × OnScreen host w c s × Shows w c s t)))
  unfolding client_isvisible
  client_isvisible_iff = (
    λ h. (ground arith, ground arith, on_selected_tags-found (ground arith)),
    λ (h, m, r). rw (h, m) (on_tags r),
  )
    where
      on_tags :
          ((w.client c).sticky ≡ true) ⊎ ((s : ℕ) × (t : ℕ) × OnScreen host w c s × Shows w c s t)
          → client_on_selected_tags host w c ≡ true
      on_tags (inl e) = on_selected_tags-sticky e
      on_tags (inr (s, t, o, h)) = on_selected_tags_complete s t o h

-- What visibility reads of a client is the same in both worlds.
pub record SameView (w w' : World) (c : ℕ) : Type 0 where
  pub tag : w'.tag ≡ w.tag
  pub tags : w'.tags ≡ w.tags
  pub hidden : (w'.client c).hidden ≡ (w.client c).hidden
  pub minimized : (w'.client c).minimized ≡ (w.client c).minimized
  pub sticky : (w'.client c).sticky ≡ (w.client c).sticky
  pub screen : (w'.client c).screen ≡ (w.client c).screen
  pub mon : (w'.client c).mon ≡ (w.client c).mon

some_tag_shows-cong :
    (w w' : World) (c s : ℕ) (ts : List ℕ)
    → w'.tag ≡ w.tag
    → some_tag_shows w' c s ts ≡ some_tag_shows w c s ts
unfolding some_tag_shows
some_tag_shows-cong w w' c s [] e = refl
some_tag_shows-cong w w' c s (t ∷ ts) e = ground (arith, some_tag_shows-cong w w' c s ts e)

pub SameView-isvisible :
    (host : Host) (w w' : World) (c : ℕ)
    → SameView w w' c
    → client_isvisible host w' c ≡ client_isvisible host w c
unfolding client_isvisible
SameView-isvisible host w w' c v = elim (Option-cases (w.client c).screen) [
  | inl e ↦ elim (Option-cases (w.client c).mon) [
    | inl f ↦ ground arith
    | inr (m, f) ↦ elim (Option-cases (host.monitor_screen m)) [
      | inl g ↦ ground arith
      | inr (s, g) ↦ ground (arith, shows s)
    ]
  ]
  | inr (s, e) ↦ ground (arith, shows s)
]
  where
    shows : (s : ℕ) → some_tag_shows w' c s w'.tags ≡ some_tag_shows w c s w.tags
    shows s = rw v.tags (some_tag_shows-cong w w' c s w.tags v.tag)

-- A tag of the list that holds both clients.
abbrev pub Holds : World → ℕ → ℕ → List ℕ → Type 0
Holds w a b ts =
    (t : ℕ) × (has t ts ≡ true)
    × (has a (w.tag t).clients ≡ true)
    × (has b (w.tag t).clients ≡ true)

shared_tag-found : (w : World) (a b : ℕ) (ts : List ℕ) → shared_tag w a b ts ≡ true → Holds w a b ts
unfolding shared_tag
shared_tag-found w a b [] h = absurd (ground arith)
shared_tag-found w a b (t ∷ ts) h =
    elim (Bool-cases (has a (w.tag t).clients && has b (w.tag t).clients)) [
      | inl both ↦ (t, ground arith, ground arith, ground arith)
      | inr one ↦
          let (u, l, x, y) = shared_tag-found w a b ts (ground arith) in (u, ground arith, x, y)
    ]

shared_tag_complete :
    (w : World) (a b t : ℕ) (ts : List ℕ)
    → has t ts ≡ true
    → has a (w.tag t).clients ≡ true
    → has b (w.tag t).clients ≡ true
    → shared_tag w a b ts ≡ true
unfolding shared_tag
shared_tag_complete w a b t [] l x y = absurd (ground arith)
shared_tag_complete w a b t (u ∷ ts) l x y = elim (Bool-cases (u == t)) [
  | inl same ↦ rw ((==_iff u t).0 same, x, y) (ground arith)
  | inr other ↦ ground (arith, shared_tag_complete w a b t ts)
]

-- Two clients share a tag exactly if one of them is sticky or a tag of the compositor holds both.
pub clients_share_tags_iff :
    (w : World) (a b : ℕ)
    → (clients_share_tags w a b ≡ true)
      ↔ (((w.client a).sticky ≡ true) ⊎ ((w.client b).sticky ≡ true) ⊎ Holds w a b w.tags)
unfolding clients_share_tags
clients_share_tags_iff w a b = (found, back)
  where
    found :
        clients_share_tags w a b ≡ true
        → ((w.client a).sticky ≡ true) ⊎ ((w.client b).sticky ≡ true) ⊎ Holds w a b w.tags
    found h = elim (Bool-cases (w.client a).sticky) [
      | inl e ↦ inl e
      | inr e ↦ elim (Bool-cases (w.client b).sticky) [
        | inl f ↦ inr (inl f)
        | inr f ↦ inr (inr (shared_tag-found w a b w.tags (ground arith)))
      ]
    ]

    back :
        ((w.client a).sticky ≡ true) ⊎ ((w.client b).sticky ≡ true) ⊎ Holds w a b w.tags
        → clients_share_tags w a b ≡ true
    back (inl e) = ground arith
    back (inr (inl e)) = ground arith
    back (inr (inr (t, l, x, y))) = ground (arith, shared_tag_complete w a b t w.tags l x y)
