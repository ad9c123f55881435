-- ===== src/Manage/Titlebars.antt =====
-- What dropping the titlebars and the surface does to the references to clients: nothing.
use somewm.Common.{
  ℕ, ◌≡◌, refl, sym, ap, has, ◌++◌, ◌∙◌, inl, inr, Bool, true, false, Option, none, some, List, [],
  ◌∷◌, ◌==◌, ==_iff, Bool-cases, if◌then◌else◌, ptr_eq, Nodup, subst,
}
use somewm.World.{World, Client, parent}
use somewm.Client.{Host, enqueue}
use somewm.Client.Spares.{Spares, mouse_on}
use somewm.Manage.{leave_drawable, drop_titlebars, invalidate}
use somewm.Manage.Untag.{SameTags}

-- The lists of clients and of tags, the references to clients, and the tags are as they were.
pub record Untouched (w w' : World) : Type 0 where
  pub client : w'.client ≡ w.client
  pub tag : w'.tag ≡ w.tag
  pub tags : w'.tags ≡ w.tags
  pub clients : w'.clients ≡ w.clients
  pub stack : w'.stack ≡ w.stack
  pub focus : w'.focus_client ≡ w.focus_client
  pub pre_lock : w'.pre_lock_client ≡ w.pre_lock_client
  pub mouse : w'.mouse_under ≡ w.mouse_under

Untouched-trans : (u v w : World) → Untouched u v → Untouched v w → Untouched u w
Untouched-trans u v w s t = record {
  client = t.client ∙ s.client;
  tag = t.tag ∙ s.tag;
  tags = t.tags ∙ s.tags;
  clients = t.clients ∙ s.clients;
  stack = t.stack ∙ s.stack;
  focus = t.focus ∙ s.focus;
  pre_lock = t.pre_lock ∙ s.pre_lock;
  mouse = t.mouse ∙ s.mouse;
}

keep_parent :
    (o : Option ℕ) (b : Bool) (v old : Client)
    → (b ≡ true → v.transient_for ≡ o)
    → old.transient_for ≡ o
    → (if b then v else old).transient_for ≡ o
keep_parent o true v old h k = h refl
keep_parent o false v old h k = k

module _ (host : Host) where
  leave_drawable-Untouched : (d : ℕ) (w : World) → Untouched w (leave_drawable host d w)
  unfolding leave_drawable enqueue
  leave_drawable-Untouched d w = elim (Bool-cases (ptr_eq w.drawable_under_mouse (some d))) [
    | inl e ↦ rw e (record {
      client = refl;
      tag = refl;
      tags = refl;
      clients = refl;
      stack = refl;
      focus = refl;
      pre_lock = refl;
      mouse = refl;
    })
    | inr e ↦ rw e (record {
      client = refl;
      tag = refl;
      tags = refl;
      clients = refl;
      stack = refl;
      focus = refl;
      pre_lock = refl;
      mouse = refl;
    })
  ]

  drop_titlebars-Untouched :
      (ds : List (Option ℕ)) (w : World) → Untouched w (drop_titlebars host ds w)
  unfolding drop_titlebars
  drop_titlebars-Untouched [] w = record {
    client = refl;
    tag = refl;
    tags = refl;
    clients = refl;
    stack = refl;
    focus = refl;
    pre_lock = refl;
    mouse = refl;
  }
  drop_titlebars-Untouched (none ∷ ds) w = drop_titlebars-Untouched ds w
  drop_titlebars-Untouched (some d ∷ ds) w =
      Untouched-trans w (leave_drawable host d w) _ (leave_drawable-Untouched d w)
        (Untouched-trans (leave_drawable host d w) w1 _ unref (drop_titlebars-Untouched ds w1))
    where
      w1 : World
      w1 =
          let w' = leave_drawable host d w in record w' { unreferenced = w'.unreferenced ++ d ∷ [] }

      unref : Untouched (leave_drawable host d w) w1
      unref = record {
        client = refl;
        tag = refl;
        tags = refl;
        clients = refl;
        stack = refl;
        focus = refl;
        pre_lock = refl;
        mouse = refl;
      }

  pub invalidate-SameTags : (c : ℕ) (w : World) → SameTags w (invalidate host c w)
  unfolding invalidate
  invalidate-SameTags c w =
      let s = drop_titlebars-Untouched (w.client c).titlebar w in
      record { tag = s.tag; tags = s.tags }

  pub invalidate-Spares : (a c : ℕ) (w : World) → Spares a w (invalidate host c w)
  unfolding invalidate
  invalidate-Spares a c w =
      let s = drop_titlebars-Untouched (w.client c).titlebar w in
      record {
        clients = s.clients;
        once = subst Nodup (sym s.stack);
        stack = λ h. ap (has a) s.stack ∙ h;
        parents = λ d h. ap (λ (o : Option ℕ). ptr_eq o (some a)) (same_parent d) ∙ h;
        focus = λ h. ap (λ (o : Option ℕ). ptr_eq o (some a)) s.focus ∙ h;
        pre_lock = λ h. ap (ptr_eq (some a)) s.pre_lock ∙ h;
        mouse = λ h. ap (mouse_on a) s.mouse ∙ h;
      }
    where
      s : Untouched w (drop_titlebars host (w.client c).titlebar w)
      s = drop_titlebars-Untouched (w.client c).titlebar w

      same_parent : (d : ℕ) → parent (invalidate host c w) d ≡ parent w d
      same_parent d =
          keep_parent (parent w d) (d == c) _ _
            (λ e.
              ap (λ (f : ℕ → Client). (f c).transient_for) s.client
              ∙ ap (parent w) (sym ((==_iff d c).0 e)))
            (ap (λ (f : ℕ → Client). (f d).transient_for) s.client)
