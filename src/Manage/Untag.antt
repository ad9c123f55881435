-- ===== src/Manage/Untag.antt =====
-- What the steps of client_unmanage() do to the tags.
use somewm.Common.{
  ℕ, zero, suc, ◌+◌, ◌<◌, ◌≤◌, ◌≡◌, refl, sym, ap, ◌∙◌, subst, inl, inr, true, false, none, some,
  List, [], ◌∷◌, ◌==◌, ==_iff, Bool-cases, Option-cases, ptr_eq, has, Nodup, has-erase_self, length,
  get_elem?, arith,
}
use somewm.World.{
  World, Name, Under, under_none, under_client, under_drawin, parent, property_inactive, unfocus,
  set_client, signal,
}
use somewm.Stack.{stack_windows}
use somewm.Client.{Host, client_unfocus, is_client_tagged, emit, enqueue}
use somewm.Client.Frame.{emit_eq, is_client_tagged-has, client_unfocus_eq}
use somewm.Tags.{untag_client}
use somewm.Tags.Members.{KeepsTags, members, untag_client-members, tag_untag-Nodup, emit-tag}
use somewm.Tags.Listed.{untag_client-tags}
use somewm.Manage.{orphan, clear_pre_lock_client, leave_mouse, untag_from}

-- The tags and their clients are the same.
pub record SameTags (w w' : World) : Type 0 where
  pub tag : w'.tag ≡ w.tag
  pub tags : w'.tags ≡ w.tags

pub SameTags-refl : (w : World) → SameTags w w
SameTags-refl w = record { tag = refl; tags = refl }

pub SameTags-trans : (u v w : World) → SameTags u v → SameTags v w → SameTags u w
SameTags-trans u v w s t = record { tag = t.tag ∙ s.tag; tags = t.tags ∙ s.tags }

pub orphan-SameTags : (c : ℕ) (ts : List ℕ) (w : World) → SameTags w (orphan c ts w)
unfolding orphan stack_windows
orphan-SameTags c [] w = SameTags-refl w
orphan-SameTags c (t ∷ ts) w = elim (Bool-cases (ptr_eq (parent w t) (some c))) [
  | inl e ↦
      let w1 = stack_windows (set_client w t (record (w.client t) { transient_for = none })) in
      rw e (SameTags-trans w w1 _ (record { tag = refl; tags = refl }) (orphan-SameTags c ts w1))
  | inr e ↦ rw e (orphan-SameTags c ts w)
]

pub clear-SameTags : (c : ℕ) (w : World) → SameTags w (clear_pre_lock_client c w)
unfolding clear_pre_lock_client
clear-SameTags c w = record { tag = ground arith; tags = ground arith }

-- No tag has a client twice.
abbrev pub IsTidy : World → Type 0
IsTidy w = (u : ℕ) → Nodup (members w u)

-- The client has none of the tags before the index.
abbrev pub Cleared : ℕ → ℕ → World → Type 0
Cleared c i w = (j t : ℕ) → get_elem? w.tags j ≡ some t → j < i → is_client_tagged w c t ≡ false

get_elem?-lt : (xs : List ℕ) (j t : ℕ) → get_elem? xs j ≡ some t → j < length xs
get_elem?-lt [] j t h = absurd (ground arith)
get_elem?-lt (x ∷ xs) zero t h = ground arith
get_elem?-lt (x ∷ xs) (suc j) t h = ground (arith, get_elem?-lt xs j t h)

pub get_elem?-none :
    (xs : List ℕ) (i j t : ℕ) → get_elem? xs i ≡ none → get_elem? xs j ≡ some t → j < i
get_elem?-none [] i j t h e = absurd (ground arith)
get_elem?-none (x ∷ xs) zero j t h e = absurd (ground arith)
get_elem?-none (x ∷ xs) (suc i) zero t h e = ground arith
get_elem?-none (x ∷ xs) (suc i) (suc j) t h e = ground (arith, get_elem?-none xs i j t h e)

module _ (host : Host) (keeps : KeepsTags host) where
  pub emit-SameTags : (o : ℕ) (n : Name) (w : World) → SameTags w (emit host o n w)
  emit-SameTags o n w = record {
    tag = emit-tag host keeps o n w;
    tags = ap (λ (v : World). v.tags) (emit_eq host o n w) ∙ keeps.lua_tags (signal o n) _;
  }

  pub unfocus-SameTags : (c : ℕ) (w : World) → SameTags w (client_unfocus host c true w)
  unfocus-SameTags c w =
      let w1 = record w { focus_client = none } in
      let one = emit-SameTags c property_inactive w1 in
      let two = emit-SameTags c unfocus (emit host c property_inactive w1) in
      rw (client_unfocus_eq host c w)
        (record { tag = two.tag ∙ one.tag; tags = two.tags ∙ one.tags })

  pub leave-SameTags : (c : ℕ) (u : Under) (w : World) → SameTags w (leave_mouse host c u w)
  unfolding leave_mouse enqueue
  leave-SameTags c under_none w = SameTags-refl w
  leave-SameTags c (under_drawin d) w = SameTags-refl w
  leave-SameTags c (under_client u) w = record { tag = ground arith; tags = ground arith }

  module _ (c : ℕ) where
    untagged_here :
        (i t : ℕ) (w : World)
        → IsTidy w
        → get_elem? w.tags i ≡ some t
        → Cleared c i w
        → Cleared c (suc i) (untag_client host c t w)
    untagged_here i t w n e h j u f l =
        let before =
          sym (ap (λ (ts : List ℕ). get_elem? ts j) (untag_client-tags host keeps c t w)) ∙ f in
        is_client_tagged-has (untag_client host c t w) c u
        ∙ ap (has c) (untag_client-members host keeps c t w u)
        ∙ elim (Bool-cases (t == u)) [
          | inl y ↦ rw y (has-erase_self c (members w u) (n u))
          | inr y ↦ rw y (sym (is_client_tagged-has w c u) ∙ h j u before (before_here y before l))
        ]
      where
        before_here : (t == u) ≡ false → get_elem? w.tags j ≡ some u → j < suc i → j < i
        before_here y g l = elim (Bool-cases (j == i)) [
          | inl q ↦ absurd (
              ground
                (arith, e, subst (λ (x : ℕ). get_elem? w.tags x ≡ some u) ((==_iff j i).0 q) g))
          | inr q ↦ ground arith
        ]

    pub untag_from-Cleared :
        (k i : ℕ) (w : World)
        → IsTidy w
        → length w.tags ≤ i + k
        → Cleared c i w
        → (j : ℕ) → Cleared c j (untag_from host k c i w)
    unfolding untag_from
    untag_from-Cleared zero i w n l h j =
        λ m t e f. h m t e (ground (arith, get_elem?-lt w.tags m t e))
    untag_from-Cleared (suc k) i w n l h j = elim (Option-cases (get_elem? w.tags i)) [
      | inl e ↦ rw (e, untag_from) (λ m t y f. h m t y (get_elem?-none w.tags i m t e y))
      | inr (t, e) ↦
          rw (e, untag_from)
            (untag_from-Cleared k (suc i) (untag_client host c t w)
              (λ u. (tag_untag-Nodup host keeps c t w u (n u)).1)
              (rw (untag_client-tags host keeps c t w) (ground arith)) (untagged_here i t w n e h)
              j)
    ]
