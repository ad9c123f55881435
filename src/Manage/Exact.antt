-- ===== src/Manage/Exact.antt =====
-- Giving a client a table of tags gives it those tags.
use somewm.Common.{
  ℕ, zero, suc, ◌+◌, ◌<◌, ◌≤◌, ◌≡◌, refl, sym, ap, ◌∙◌, inl, inr, true, false, not, ◌&&◌, ◌||◌,
  some, List, [], ◌∷◌, ◌==◌, ==_iff, Bool-cases, Option-cases, if◌then◌else◌, has, length,
  get_elem?, arith,
}
use somewm.World.{World, Tag, property_tags}
use somewm.Client.{Host, is_client_tagged, emit}
use somewm.Client.Frame.{is_client_tagged-has}
use somewm.Tags.{tag_client, untag_client}
use somewm.Tags.Members.{KeepsTags, tag_untag-is_client_tagged, tag_untag-Nodup}
use somewm.Tags.Listed.{untag_client-tags}
use somewm.Manage.{untag_others, tag_each, client_tags}
use somewm.Manage.Untag.{IsTidy, get_elem?-none, emit-SameTags}
use somewm.Manage.Gone.{place_of}

module _ (host : Host) (keeps : KeepsTags host) (c : ℕ) (ts : List ℕ) where
  step : ℕ → World → World
  step t w = if has t ts then w else untag_client host c t w

  -- What a step of the first loop does.
  step-is_client_tagged :
      (t a u : ℕ) (w : World)
      → IsTidy w
      → is_client_tagged (step t w) a u
        ≡ (not ((t == u) && ((c == a) && not (has t ts))) && is_client_tagged w a u)
  unfolding step
  step-is_client_tagged t a u w n = elim (Bool-cases (has t ts)) [
    | inl e ↦ rw e (ground arith)
    | inr e ↦ rw e ((tag_untag-is_client_tagged host keeps c t w a u (n u)).1 ∙ ground arith)
  ]

  step-IsTidy : (t : ℕ) (w : World) → IsTidy w → IsTidy (step t w)
  unfolding step
  step-IsTidy t w n u = elim (Bool-cases (has t ts)) [
    | inl e ↦ rw e (n u)
    | inr e ↦ rw e ((tag_untag-Nodup host keeps c t w u (n u)).1)
  ]

  step-tags : (t : ℕ) (w : World) → (step t w).tags ≡ w.tags
  unfolding step
  step-tags t w = elim (Bool-cases (has t ts)) [
    | inl e ↦ rw e refl
    | inr e ↦ rw e (untag_client-tags host keeps c t w)
  ]

  untag_others-IsTidy : (k i : ℕ) (w : World) → IsTidy w → IsTidy (untag_others host k c ts i w)
  unfolding untag_others step
  untag_others-IsTidy zero i w n = n
  untag_others-IsTidy (suc k) i w n = elim (Option-cases (get_elem? w.tags i)) [
    | inl e ↦ rw (e, untag_others) n
    | inr (t, e) ↦
        rw (e, untag_others) (untag_others-IsTidy k (suc i) (step t w) (step-IsTidy t w n))
  ]

  untag_others-tags : (k i : ℕ) (w : World) → (untag_others host k c ts i w).tags ≡ w.tags
  unfolding untag_others step
  untag_others-tags zero i w = refl
  untag_others-tags (suc k) i w = elim (Option-cases (get_elem? w.tags i)) [
    | inl e ↦ rw (e, untag_others) refl
    | inr (t, e) ↦ rw (e, untag_others) (untag_others-tags k (suc i) (step t w) ∙ step-tags t w)
  ]

  -- Another client, and a tag of the table, are left alone.
  untag_others-kept :
      (k i : ℕ) (w : World) (a u : ℕ)
      → IsTidy w
      → ((c == a) && not (has u ts)) ≡ false
      → is_client_tagged (untag_others host k c ts i w) a u ≡ is_client_tagged w a u
  unfolding untag_others step
  untag_others-kept zero i w a u n h = refl
  untag_others-kept (suc k) i w a u n h = elim (Option-cases (get_elem? w.tags i)) [
    | inl e ↦ rw (e, untag_others) refl
    | inr (t, e) ↦
        rw (e, untag_others)
          (untag_others-kept k (suc i) (step t w) a u (step-IsTidy t w n) h
            ∙ step-is_client_tagged t a u w n
            ∙ unchanged t)
  ]
    where
      unchanged :
          (t : ℕ)
          → (not ((t == u) && ((c == a) && not (has t ts))) && is_client_tagged w a u)
            ≡ is_client_tagged w a u
      unchanged t = elim (Bool-cases (t == u)) [
        | inl e ↦ rw ((==_iff t u).0 e, h) (ground arith)
        | inr e ↦ rw e refl
      ]

  untag_others-none :
      (k i : ℕ) (w : World) (u : ℕ)
      → IsTidy w
      → is_client_tagged w c u ≡ false
      → is_client_tagged (untag_others host k c ts i w) c u ≡ false
  unfolding untag_others step
  untag_others-none zero i w u n h = h
  untag_others-none (suc k) i w u n h = elim (Option-cases (get_elem? w.tags i)) [
    | inl e ↦ rw (e, untag_others) h
    | inr (t, e) ↦
        rw (e, untag_others)
          (untag_others-none k (suc i) (step t w) u (step-IsTidy t w n)
            (step-is_client_tagged t c u w n ∙ rw h (ground arith)))
  ]

  -- A tag that is not in the table, at a place that the loop comes to.
  untag_others-cleared :
      (k i : ℕ) (w : World) (j u : ℕ)
      → IsTidy w
      → i ≤ j
      → j < i + k
      → get_elem? w.tags j ≡ some u
      → has u ts ≡ false
      → is_client_tagged (untag_others host k c ts i w) c u ≡ false
  unfolding untag_others step
  untag_others-cleared zero i w j u n l m e h = absurd (omega arith)
  untag_others-cleared (suc k) i w j u n l m e h = elim (Bool-cases (i == j)) [
    | inl q ↦
        rw (ap (get_elem? w.tags) ((==_iff i j).0 q) ∙ e, untag_others)
          (untag_others-none k (suc i) (step u w) u (step-IsTidy u w n)
            (step-is_client_tagged u c u w n ∙ rw h (ground arith)))
    | inr q ↦ elim (Option-cases (get_elem? w.tags i)) [
      | inl f ↦ absurd (omega (arith, get_elem?-none w.tags i j u f e))
      | inr (t, f) ↦
          rw (f, untag_others)
            (untag_others-cleared k (suc i) (step t w) j u (step-IsTidy t w n) (ground arith)
              (omega arith) (ap (λ (l : List ℕ). get_elem? l j) (step-tags t w) ∙ e) h)
    ]
  ]

-- The second loop adds the tags of the table.
tag_each-is_client_tagged :
    (host : Host) (keeps : KeepsTags host) (c : ℕ) (ts : List ℕ) (w : World) (a u : ℕ)
    → IsTidy w
    → is_client_tagged (tag_each host c ts w) a u
      ≡ (((c == a) && has u ts) || is_client_tagged w a u)
unfolding tag_each
tag_each-is_client_tagged host keeps c [] w a u n = ground arith
tag_each-is_client_tagged host keeps c (t ∷ ts) w a u n =
    tag_each-is_client_tagged host keeps c ts (tag_client host c t w) a u
      (λ v. (tag_untag-Nodup host keeps c t w v (n v)).0)
    ∙ rw ((tag_untag-is_client_tagged host keeps c t w a u (n u)).0) (ground arith)

-- With handlers and a layout that leave the tags alone, with tags that have no client twice, and with a
-- round for each tag: when Lua gives a client a table of tags, the client has of the listed tags
-- those of the table and no other, and no other client gets or loses a tag.
pub client_tags-is_client_tagged :
    (host : Host) (keeps : KeepsTags host) (rounds c : ℕ) (ts : List ℕ) (w : World) (a u : ℕ)
    → IsTidy w
    → length w.tags ≤ rounds
    → has u w.tags ≡ true
    → is_client_tagged (client_tags host rounds c ts w) a u
      ≡ (if c == a then has u ts else is_client_tagged w a u)
unfolding client_tags
client_tags-is_client_tagged host keeps rounds c ts w a u n l h =
    let w1 = untag_others host rounds c ts 0 w in
    let w2 = tag_each host c ts w1 in
    is_client_tagged-has (emit host c property_tags w2) a u
    ∙ ap (λ (f : ℕ → Tag). has a (f u).clients) (emit-SameTags host keeps c property_tags w2).tag
    ∙ sym (is_client_tagged-has w2 a u)
    ∙ tag_each-is_client_tagged host keeps c ts w1 a u
        (untag_others-IsTidy host keeps c ts rounds 0 w n)
    ∙ elim (Bool-cases (c == a)) [
      | inr e ↦ rw e (untag_others-kept host keeps c ts rounds 0 w a u n (rw e refl))
      | inl e ↦ elim (Bool-cases (has u ts)) [
        | inl f ↦ rw (e, f) refl
        | inr f ↦
            let (j, g, m) = place_of u w.tags h in
            let gone =
              untag_others-cleared host keeps c ts rounds 0 w j u n (omega arith) (omega arith) g
                f in
            rw (e, f) (ap (λ (x : ℕ). is_client_tagged w1 x u) (sym ((==_iff c a).0 e)) ∙ gone)
      ]
    ]
