-- ===== src/Manage/Gone.antt =====
-- client_unmanage() as a whole.
use somewm.Common.{
  ℕ, suc, ◌≤◌, ◌≡◌, refl, sym, ap, ◌∙◌, subst, inl, inr, Bool, true, false, some, List, [], ◌∷◌,
  ◌++◌, ◌==◌, ==_iff, Bool-cases, if◌then◌else◌, ptr_eq, has, erase, Nodup, has-erase_self,
  has-erase_le, length, get_elem?, arith,
}
use somewm.World.{World, Tag, Signal, parent, request_unmanage, global_signal, list}
use somewm.Stack.{stack_windows, stack_client_remove}
use somewm.Client.{Host, client_unfocus, is_client_tagged, emit}
use somewm.Client.Frame.{is_client_tagged-has}
use somewm.Client.Spares.{Spares, Spares-trans, mouse_on, IsDiscreet, emit-Spares}
use somewm.Tags.Members.{KeepsTags}
use somewm.Manage.{
  Reason, context, is_unmap, orphan, clear_pre_lock_client, leave_mouse, let_go, untag_from,
  invalidate, client_unmanage,
}
use somewm.Manage.Apart.{
  Apart, Apart-Spares, orphan-Spares, orphan-parents, clear-Spares, leave-Spares, lose_focus,
  untag_from-Spares,
}
use somewm.Manage.Untag.{
  SameTags, SameTags-refl, SameTags-trans, IsTidy, orphan-SameTags, clear-SameTags, leave-SameTags,
  unfocus-SameTags, emit-SameTags, untag_from-Cleared,
}
use somewm.Manage.Titlebars.{invalidate-SameTags, invalidate-Spares}

-- Nothing that the compositor holds refers to the client, and it has none of the tags.
pub record Gone (c : ℕ) (w : World) : Type 0 where
  pub apart : Apart c w
  pub tags : (t : ℕ) → has t w.tags ≡ true → is_client_tagged w c t ≡ false

pub place_of :
    (t : ℕ) (xs : List ℕ)
    → has t xs ≡ true
    → (j : ℕ) × (get_elem? xs j ≡ some t) × (suc j ≤ length xs)
place_of t [] h = absurd (ground arith)
place_of t (x ∷ xs) h = elim (Bool-cases (x == t)) [
  | inl e ↦ (0, ap some ((==_iff x t).0 e), ground arith)
  | inr e ↦ let (j, f, l) = place_of t xs (ground arith) in (suc j, f, ground arith)
]

Gone-Spares : (c : ℕ) (w w' : World) → Gone c w → Spares c w w' → SameTags w w' → Gone c w'
Gone-Spares c w w' g s t = record {
  apart = Apart-Spares c w w' g.apart s;
  tags = λ u h.
      is_client_tagged-has w' c u
      ∙ ap (λ (f : ℕ → _). has c (f u).clients) t.tag
      ∙ sym (is_client_tagged-has w c u)
      ∙ g.tags u (sym (ap (has u) t.tags) ∙ h);
}

-- What is only noted refers to nothing.
noted-Gone :
    (c : ℕ) (w : World) (queued : List Signal) (dirty : Bool) (unreferenced : List ℕ)
    → Gone c w
    → Gone c (record w { queued = queued; all_dirty = dirty; unreferenced = unreferenced })
noted-Gone c w queued dirty unreferenced g =
    Gone-Spares c w _ g
      (record {
        clients = refl;
        once = λ h. h;
        stack = λ h. h;
        parents = λ d h. h;
        focus = λ h. h;
        pre_lock = λ h. h;
        mouse = λ h. h;
      })
      (record { tag = refl; tags = refl })

-- Of the first steps: what referred to the client does no more, and the rest is spared.
record Released (c : ℕ) (w w' : World) : Type 0 where
  pub tags : SameTags w w'
  pub spares : Spares c w w'
  pub parents : (d : ℕ) → has d w.clients ≡ true → ptr_eq (parent w' d) (some c) ≡ false
  pub focus : ptr_eq w'.focus_client (some c) ≡ false
  pub pre_lock : ptr_eq (some c) w'.pre_lock_client ≡ false
  pub mouse : mouse_on c w'.mouse_under ≡ false

module _ (host : Host) (keeps : KeepsTags host) (c : ℕ) (discreet : IsDiscreet host c) where
  let_go-Released : (w : World) → Released c w (let_go host c w)
  unfolding let_go
  let_go-Released w =
      let w1 = orphan c w.clients w in
      let w2 = if ptr_eq w1.focus_client (some c) then client_unfocus host c true w1 else w1 in
      let w3 = clear_pre_lock_client c w2 in
      let w4 = leave_mouse host c w3.mouse_under w3 in
      let one = orphan-Spares c w.clients w in
      let (two, focus) = lose_focus host c discreet w1 in
      let (three, pre_lock) = clear-Spares c w2 in
      let (four, mouse) = leave-Spares host c discreet w3.mouse_under w3 refl in
      let later = Spares-trans c w1 w2 w4 two (Spares-trans c w2 w3 w4 three four) in
      record {
        tags = SameTags-trans w w1 w4 (orphan-SameTags c w.clients w) (
            SameTags-trans w1 w2 w4 (focus_tags w1) (
              SameTags-trans w2 w3 w4 (clear-SameTags c w2)
                (leave-SameTags host keeps c w3.mouse_under w3)));
        spares = Spares-trans c w w1 w4 one later;
        parents = λ d h. later.parents d (orphan-parents c w.clients w d h);
        focus = four.focus (three.focus focus);
        pre_lock = four.pre_lock pre_lock;
        mouse = mouse;
      }
    where
      focus_tags :
          (w : World)
          → SameTags w (if ptr_eq w.focus_client (some c) then client_unfocus host c true w else w)
      focus_tags w = elim (Bool-cases (ptr_eq w.focus_client (some c))) [
        | inl e ↦ rw e (unfocus-SameTags host keeps c w)
        | inr e ↦ rw e (SameTags-refl w)
      ]

  -- The client is in no list, and nothing refers to it.
  unlisted : World → World
  unlisted w =
      let w4 = let_go host c w in stack_client_remove (record w4 { clients = erase c w4.clients }) c

  unlisted-SameTags : (w : World) → SameTags w (unlisted w)
  unfolding unlisted stack_client_remove stack_windows
  unlisted-SameTags w = let r = let_go-Released w in record { tag = r.tags.tag; tags = r.tags.tags }

  unlisted-Apart : (w : World) → Nodup w.clients → Nodup w.stack → Apart c (unlisted w)
  unfolding unlisted stack_client_remove stack_windows
  unlisted-Apart w n m =
      let r = let_go-Released w in
      let w4 = let_go host c w in
      record {
        clients = has-erase_self c w4.clients (subst Nodup (sym r.spares.clients) n);
        stack = has-erase_self c w4.stack (r.spares.once m);
        parents = λ d h. r.parents d (ap (has d) (sym r.spares.clients) ∙ listed d h);
        focus = r.focus;
        pre_lock = r.pre_lock;
        mouse = r.mouse;
      }
    where
      listed :
          (d : ℕ)
          → has d (erase c (let_go host c w).clients) ≡ true
          → has d (let_go host c w).clients ≡ true
      listed d h = ground (arith, has-erase_le c d (let_go host c w).clients)

  untagged-Gone :
      (rounds : ℕ) (w : World)
      → Nodup w.clients
      → Nodup w.stack
      → IsTidy w
      → length w.tags ≤ rounds
      → Gone c (untag_from host rounds c 0 (unlisted w))
  untagged-Gone rounds w n m t l =
      let w5 = unlisted w in
      let w6 = untag_from host rounds c 0 w5 in
      let same = unlisted-SameTags w in
      record {
        apart =
            Apart-Spares c w5 w6 (unlisted-Apart w n m)
              (untag_from-Spares host c discreet rounds 0 w5);
        tags = λ u h.
            let (j, e, f) = place_of u w6.tags h in
            untag_from-Cleared host keeps c rounds 0 w5
              (λ v. subst (λ (f : ℕ → Tag). Nodup (f v).clients) (sym same.tag) (t v))
              (rw same.tags (omega arith)) (λ j v e f. absurd (omega arith)) (length w6.tags) j u e
              f;
      }

  -- What is left of client_unmanage() when the client is untagged.
  told : Reason → World → World
  told reason w =
      let w7 = emit host c (request_unmanage (context reason)) w in
      record w7 { queued = w7.queued ++ global_signal list ∷ []; all_dirty = true }

  told-Gone : (reason : Reason) (w : World) → Gone c w → Gone c (invalidate host c (told reason w))
  unfolding told
  told-Gone reason w g =
      let n = request_unmanage (context reason) in
      let w7 = emit host c n w in
      let w8 = record w7 { queued = w7.queued ++ global_signal list ∷ []; all_dirty = true } in
      let a =
        Gone-Spares c w w7 g (emit-Spares host c discreet c n w) (emit-SameTags host keeps c n w) in
      let b = noted-Gone c w7 w8.queued true w7.unreferenced a in
      Gone-Spares c w8 _ b (invalidate-Spares host c c w8) (invalidate-SameTags host c w8)

  -- With handlers and a layout that leave the tags alone and do not come to refer to the client,
  -- with a list of clients, a stack and tags that have no client twice, and with a round for each
  -- tag: after client_unmanage(), for whatever reason, the client is neither in the list nor in the
  -- stack, it has no tag of the list, no client of the list is its transient, and it is not the
  -- focus, not the client that had the focus before the lock, and not the one under the mouse.
  pub client_unmanage-Gone :
      (rounds : ℕ) (reason : Reason) (w : World)
      → Nodup w.clients
      → Nodup w.stack
      → IsTidy w
      → length w.tags ≤ rounds
      → Gone c (client_unmanage host rounds c reason w)
  unfolding client_unmanage unlisted told
  client_unmanage-Gone rounds reason w n m t l =
      let g = told-Gone reason _ (untagged-Gone rounds w n m t l) in
      elim (Bool-cases (is_unmap reason)) [ inl e ↦ rw e g | inr e ↦ rw e (unref g) ]
    where
      unref : {v : World} → Gone c v → Gone c (record v { unreferenced = v.unreferenced ++ c ∷ [] })
      unref {v} g = noted-Gone c v v.queued v.all_dirty (v.unreferenced ++ c ∷ []) g
