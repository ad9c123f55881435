-- ===== src/Render/Restack/Ordered.antt =====
-- The restacking puts the nodes in the order of the pass.
use somewm.Common.{
  ℕ, ◌≡◌, refl, sym, ap, ◌∙◌, inl, inr, Bool, true, false, Option, none, some, List, [], ◌∷◌, ◌++◌,
  ==_iff, Bool-cases, ptr_eq, has, erase, Nodup, erase-Nodup, append-Nodup, arith,
}
use mathlib.Core.List.{append_assoc}
use somewm.Render.Restack.{placed_below, restack_node, restack}
use somewm.Render.Restack.Placed.{
  visible, realized, insert_above, pred, IsMoving, placed_below-pred, visible-erase,
  visible-insert_above, pred-skip, insert_above-skip, erase-skip, ptr_eq-eq, Nodup-last, head_of,
  head_after, all_absent, last_apart, apart-erase, same-erase,
}

module _ (dark : ℕ → Bool) (place_above : ℕ → ℕ → List ℕ → List ℕ)
    (lower_to_bottom : ℕ → List ℕ → List ℕ) (moving : IsMoving place_above lower_to_bottom) where
  -- A node is put above the one before it, or is there already.
  place_one :
      (n b : ℕ) (done r children : List ℕ)
      → dark n ≡ false
      → dark b ≡ false
      → visible dark children ≡ done ++ b ∷ r
      → has n (done ++ b ∷ []) ≡ false
      → has b done ≡ false
      → has b r ≡ false
      → has n r ≡ true
      → visible dark (restack_node dark place_above lower_to_bottom (some b) n children)
        ≡ done ++ b ∷ n ∷ erase n r
  unfolding restack_node
  place_one n b done r children dn db v hn hb br nr =
      elim (Bool-cases (ptr_eq (placed_below dark n none children) (some b))) [
        | inl e ↦ rw e (
            v
            ∙ ap (λ (l : List ℕ). done ++ b ∷ l)
                (head_after n b r (sym at ∙ ptr_eq-eq _ _ e) nr br))
        | inr e ↦ rw e (
            ap (visible dark) (moving.above n b children)
            ∙ visible-insert_above dark n b (erase n children) dn db
            ∙ ap (insert_above n b)
                (visible-erase dark n children dn ∙ ap (erase n) v ∙ erase-skip n b done r hn)
            ∙ insert_above-skip n b done (erase n r) hb)
      ]
    where
      at : placed_below dark n none children ≡ pred n (some b) r
      at =
          placed_below-pred dark n none children dn
          ∙ ap (pred n none) v
          ∙ pred-skip n b none done r hn

  -- The rest of the order comes above what is placed.
  place_rest :
      (ns : List (Option ℕ)) (b : ℕ) (done r children : List ℕ)
      → ((x : ℕ) → has x (realized ns) ≡ true → dark x ≡ false)
      → dark b ≡ false
      → visible dark children ≡ done ++ b ∷ r
      → Nodup (done ++ b ∷ [])
      → Nodup r
      → ((x : ℕ) → has x r ≡ true → has x (done ++ b ∷ []) ≡ false)
      → ((x : ℕ) → has x r ≡ has x (realized ns))
      → Nodup (realized ns)
      → visible dark (restack dark place_above lower_to_bottom (some b) ns children)
        ≡ done ++ b ∷ realized ns
  unfolding restack
  place_rest [] b done r children dn db v m k apart same l =
      v ∙ ap (λ (x : List ℕ). done ++ b ∷ x) (all_absent r same)
  place_rest (none ∷ ns) b done r children dn db v m k apart same l =
      place_rest ns b done r children dn db v m k apart same l
  place_rest (some n ∷ ns) b done r children dn db v m k apart same l =
      let here = same n ∙ first in
      let fresh = apart n here in
      let now =
        place_one n b done r children (dn n first) db v fresh (Nodup-last b done m)
          (last_apart b done r apart) here in
      place_rest ns n (done ++ b ∷ []) (erase n r) _ (λ x h. dn x (ground arith)) (dn n first)
        (now ∙ sym (append_assoc done (b ∷ []) (n ∷ erase n r)))
        (append-Nodup n (done ++ b ∷ []) m fresh) (erase-Nodup n r k)
        (apart-erase n (done ++ b ∷ []) r apart k) (same-erase n r (realized ns) same k l) l.1
      ∙ append_assoc done (b ∷ []) (n ∷ realized ns)
    where
      first : has n (n ∷ realized ns) ≡ true
      first = ground (arith, (==_iff n n).1 refl)

  -- With calls that move a node right above another and to the bottom, as wlroots does, with an
  -- order whose nodes are different and not kept dark, and siblings of which those not kept dark
  -- are different and are the nodes of the order: after the restacking the siblings that are not
  -- kept dark are the nodes of the order, in order.
  pub restack-visible :
      (ns : List (Option ℕ)) (children : List ℕ)
      → ((x : ℕ) → has x (realized ns) ≡ true → dark x ≡ false)
      → Nodup (realized ns)
      → Nodup (visible dark children)
      → ((x : ℕ) → has x (visible dark children) ≡ has x (realized ns))
      → visible dark (restack dark place_above lower_to_bottom none ns children) ≡ realized ns
  unfolding restack restack_node
  restack-visible [] children dn l k same = all_absent (visible dark children) same
  restack-visible (none ∷ ns) children dn l k same = restack-visible ns children dn l k same
  restack-visible (some n ∷ ns) children dn l k same =
      place_rest ns n [] (erase n r) _ (λ x h. dn x (ground arith)) bright start (refl, tt)
        (erase-Nodup n r k) (λ x h. apart-erase n [] r (λ y g. refl) k x h)
        (same-erase n r (realized ns) same k l) l.1
    where
      r : List ℕ
      r = visible dark children

      first : has n (n ∷ realized ns) ≡ true
      first = ground (arith, (==_iff n n).1 refl)

      bright : dark n ≡ false
      bright = dn n first

      at : placed_below dark n none children ≡ pred n none r
      at = placed_below-pred dark n none children bright

      start :
          visible dark (restack_node dark place_above lower_to_bottom none n children)
          ≡ n ∷ erase n r
      start = elim (Bool-cases (ptr_eq (placed_below dark n none children) none)) [
        | inl e ↦ rw e (head_of n r (sym at ∙ ptr_eq-eq _ _ e) (same n ∙ first))
        | inr e ↦ rw e (
            ap (visible dark) (moving.bottom n children)
            ∙ rw bright (ap (λ (x : List ℕ). n ∷ x) (visible-erase dark n children bright)))
      ]
