-- ===== src/Manage/Apart.antt =====
-- What the steps of client_unmanage() do to the references to the client, those of the tags apart.
use somewm.Common.{
  ℕ, zero, suc, ◌≡◌, refl, sym, ap, ◌∙◌, subst, inl, inr, Bool, true, false, Option, none, some,
  List, [], ◌∷◌, ◌==◌, ==_iff, Bool-cases, Option-cases, if◌then◌else◌, ptr_eq, has, get_elem?,
  arith,
}
use somewm.World.{
  World, Client, Under, under_none, under_client, under_drawin, parent, set_client, mouse_leave,
}
use somewm.Stack.{stack_windows}
use somewm.Client.{Host, client_unfocus, enqueue}
use somewm.Client.Spares.{Spares, Spares-refl, Spares-trans, IsDiscreet, mouse_on, unfocus-Spares}
use somewm.Tags.{untag_client}
use somewm.Tags.Spares.{untag_client-Spares}
use somewm.Manage.{orphan, clear_pre_lock_client, leave_mouse, untag_from}

-- A client that may have been changed to be no transient.
pick :
    (c : ℕ) (b : Bool) (v old : Client)
    → v.transient_for ≡ none
    → (b ≡ false → ptr_eq old.transient_for (some c) ≡ false)
    → ptr_eq (if b then v else old).transient_for (some c) ≡ false
pick c true v old e h = ap (λ (o : Option ℕ). ptr_eq o (some c)) e
pick c false v old e h = h refl

pub orphan-Spares : (c : ℕ) (ts : List ℕ) (w : World) → Spares c w (orphan c ts w)
unfolding orphan stack_windows
orphan-Spares c [] w = Spares-refl c w
orphan-Spares c (t ∷ ts) w = elim (Bool-cases (ptr_eq (parent w t) (some c))) [
  | inl e ↦
      let w1 = stack_windows (set_client w t (record (w.client t) { transient_for = none })) in
      rw e (Spares-trans c w w1 _ one (orphan-Spares c ts w1))
  | inr e ↦ rw e (orphan-Spares c ts w)
]
  where
    cut :
        (d : ℕ)
        → ptr_eq (parent w d) (some c) ≡ false
        → ptr_eq (parent (set_client w t (record (w.client t) { transient_for = none })) d) (some c)
          ≡ false
    cut d h = pick c (d == t) _ (w.client d) refl (λ e. h)

    one : Spares c w (stack_windows (set_client w t (record (w.client t) { transient_for = none })))
    one = record {
      clients = refl;
      once = λ h. h;
      stack = λ h. h;
      parents = cut;
      focus = λ h. h;
      pre_lock = λ h. h;
      mouse = λ h. h;
    }

pub orphan-parents :
    (c : ℕ) (ts : List ℕ) (w : World) (d : ℕ)
    → has d ts ≡ true
    → ptr_eq (parent (orphan c ts w) d) (some c) ≡ false
unfolding orphan stack_windows
orphan-parents c [] w d h = absurd (ground arith)
orphan-parents c (t ∷ ts) w d h = elim (Bool-cases (t == d)) [
  | inr e ↦ orphan-parents c ts _ d (ground arith)
  | inl e ↦ (orphan-Spares c ts _).parents d (elim (Bool-cases (ptr_eq (parent w t) (some c))) [
    | inl y ↦ rw y (pick c (d == t) _ (w.client d) refl (λ n. absurd (ground arith)))
    | inr y ↦ rw y (subst (λ (x : ℕ). ptr_eq (parent w x) (some c) ≡ false) ((==_iff t d).0 e) y)
  ])
]

-- But for the tags, nothing that the compositor holds refers to the client.
pub record Apart (c : ℕ) (w : World) : Type 0 where
  pub clients : has c w.clients ≡ false
  pub stack : has c w.stack ≡ false
  pub parents : (d : ℕ) → has d w.clients ≡ true → ptr_eq (parent w d) (some c) ≡ false
  pub focus : ptr_eq w.focus_client (some c) ≡ false
  pub pre_lock : ptr_eq (some c) w.pre_lock_client ≡ false
  pub mouse : mouse_on c w.mouse_under ≡ false

pub Apart-Spares : (c : ℕ) (w w' : World) → Apart c w → Spares c w w' → Apart c w'
Apart-Spares c w w' a s = record {
  clients = ap (has c) s.clients ∙ a.clients;
  stack = s.stack a.stack;
  parents = λ d h. s.parents d (a.parents d (sym (ap (has d) s.clients) ∙ h));
  focus = s.focus a.focus;
  pre_lock = s.pre_lock a.pre_lock;
  mouse = s.mouse a.mouse;
}

pub clear-Spares :
    (c : ℕ) (w : World)
    → Spares c w (clear_pre_lock_client c w)
      × (ptr_eq (some c) (clear_pre_lock_client c w).pre_lock_client ≡ false)
unfolding clear_pre_lock_client
clear-Spares c w = elim (Bool-cases (ptr_eq (some c) w.pre_lock_client)) [
  | inl e ↦ rw e (
    record {
      clients = refl;
      once = λ h. h;
      stack = λ h. h;
      parents = λ d h. h;
      focus = λ h. h;
      pre_lock = λ h. refl;
      mouse = λ h. h;
    },
    refl,
  )
  | inr e ↦ rw e (Spares-refl c w, e)
]

module _ (host : Host) (c : ℕ) (discreet : IsDiscreet host c) where
  pub leave-Spares :
      (u : Under) (w : World)
      → w.mouse_under ≡ u
      → Spares c w (leave_mouse host c u w)
        × (mouse_on c (leave_mouse host c u w).mouse_under ≡ false)
  unfolding leave_mouse enqueue
  leave-Spares under_none w e = (Spares-refl c w, ap (mouse_on c) e)
  leave-Spares (under_drawin d) w e = (Spares-refl c w, ap (mouse_on c) e)
  leave-Spares (under_client u) w e = elim (Bool-cases (u == c)) [
    | inr n ↦ rw n (Spares-refl c w, ap (mouse_on c) e ∙ n)
    | inl y ↦ rw y (left, refl)
  ]
    where
      left : Spares c w (record (enqueue host c mouse_leave w) { mouse_under = under_none })
      left = record {
        clients = refl;
        once = λ h. h;
        stack = λ h. h;
        parents = λ d h. h;
        focus = λ h. h;
        pre_lock = λ h. h;
        mouse = λ h. refl;
      }

  pub lose_focus :
      (w : World)
      → let w' = if ptr_eq w.focus_client (some c) then client_unfocus host c true w else w in
        Spares c w w' × (ptr_eq w'.focus_client (some c) ≡ false)
  lose_focus w = elim (Bool-cases (ptr_eq w.focus_client (some c))) [
    | inl e ↦ rw e (unfocus-Spares host c discreet w)
    | inr e ↦ rw e (Spares-refl c w, e)
  ]

  pub untag_from-Spares : (k i : ℕ) (w : World) → Spares c w (untag_from host k c i w)
  unfolding untag_from
  untag_from-Spares zero i w = Spares-refl c w
  untag_from-Spares (suc k) i w = elim (Option-cases (get_elem? w.tags i)) [
    | inl e ↦ rw (e, untag_from) (Spares-refl c w)
    | inr (t, e) ↦
        let w1 = untag_client host c t w in
        rw (e, untag_from)
          (Spares-trans c w w1 _ (untag_client-Spares host c discreet c t w)
            (untag_from-Spares k (suc i) w1))
  ]
