-- ===== src/Client/Spares.antt =====
-- What does not come to refer to a client that it did not refer to.
use somewm.Common.{
  ℕ, ◌≡◌, refl, ◌∙◌, inl, inr, Bool, true, false, not, ◌&&◌, none, some, List, [], ◌∷◌, ◌==◌,
  Bool-cases, ptr_eq, has, Nodup,
}
use somewm.World.{
  property_inactive, unfocus, World, Signal, Name, Under, under_none, under_client, under_drawin,
  signal, parent,
}
use somewm.Client.{
  Host, client_isvisible, client_unfocus_internal, client_unfocus, client_ban_unfocus,
  unfocus_hidden, banning_need_update, emit, enqueue,
}
use somewm.Client.Frame.{emit_eq}

-- Whether the mouse is known to be on the client.
abbrev pub mouse_on : ℕ → Under → Bool
mouse_on c under_none = false
mouse_on c (under_client u) = u == c
mouse_on c (under_drawin d) = false

-- From the one world to the other, the clients are listed the same, no client comes to be in the stack
-- twice, and nothing else that did not refer to `c` comes to.
pub record Spares (c : ℕ) (w w' : World) : Type 0 where
  pub clients : w'.clients ≡ w.clients
  pub once : Nodup w.stack → Nodup w'.stack
  pub stack : has c w.stack ≡ false → has c w'.stack ≡ false
  pub parents :
      (d : ℕ) → ptr_eq (parent w d) (some c) ≡ false → ptr_eq (parent w' d) (some c) ≡ false
  pub focus : ptr_eq w.focus_client (some c) ≡ false → ptr_eq w'.focus_client (some c) ≡ false
  pub pre_lock :
      ptr_eq (some c) w.pre_lock_client ≡ false → ptr_eq (some c) w'.pre_lock_client ≡ false
  pub mouse : mouse_on c w.mouse_under ≡ false → mouse_on c w'.mouse_under ≡ false

pub Spares-refl : (c : ℕ) (w : World) → Spares c w w
Spares-refl c w = record {
  clients = refl;
  once = λ h. h;
  stack = λ h. h;
  parents = λ d h. h;
  focus = λ h. h;
  pre_lock = λ h. h;
  mouse = λ h. h;
}

pub Spares-trans : (c : ℕ) (u v w : World) → Spares c u v → Spares c v w → Spares c u w
Spares-trans c u v w a b = record {
  clients = b.clients ∙ a.clients;
  once = λ h. b.once (a.once h);
  stack = λ h. b.stack (a.stack h);
  parents = λ d h. b.parents d (a.parents d h);
  focus = λ h. b.focus (a.focus h);
  pre_lock = λ h. b.pre_lock (a.pre_lock h);
  mouse = λ h. b.mouse (a.mouse h);
}

-- The Lua handlers and the layout do not come to refer to the client.
pub record IsDiscreet (host : Host) (c : ℕ) : Type 0 where
  pub lua : (s : Signal) (w : World) → Spares c w (host.lua s w)
  pub arrange : (m : ℕ) (w : World) → Spares c w (host.arrange m w)

module _ (host : Host) (c : ℕ) where
  ban_unfocus-Spares : (d : ℕ) (w : World) → Spares c w (client_ban_unfocus host d w)
  unfolding client_ban_unfocus client_unfocus client_unfocus_internal enqueue
  ban_unfocus-Spares d w =
      elim (Bool-cases (ptr_eq w.focus_client (some d) && not w.mousegrabber)) [
        | inl e ↦ rw e (record {
          clients = refl;
          once = λ h. h;
          stack = λ h. h;
          parents = λ d h. h;
          focus = λ h. refl;
          pre_lock = λ h. h;
          mouse = λ h. h;
        })
        | inr e ↦ rw e (Spares-refl c w)
      ]

  unfocus_hidden-Spares : (ds : List ℕ) (w : World) → Spares c w (unfocus_hidden host ds w)
  unfolding unfocus_hidden
  unfocus_hidden-Spares [] w = Spares-refl c w
  unfocus_hidden-Spares (d ∷ ds) w = elim (Bool-cases (client_isvisible host w d)) [
    | inl v ↦ rw v (unfocus_hidden-Spares ds w)
    | inr v ↦ rw v (
        Spares-trans c w (client_ban_unfocus host d w) _ (ban_unfocus-Spares d w)
          (unfocus_hidden-Spares ds (client_ban_unfocus host d w)))
  ]

  pub need_update-Spares : (w : World) → Spares c w (banning_need_update host w)
  unfolding banning_need_update
  need_update-Spares w =
      let s = unfocus_hidden-Spares w.clients (record w { need_lazy_banning = true }) in
      record {
        clients = s.clients;
        once = s.once;
        stack = s.stack;
        parents = s.parents;
        focus = s.focus;
        pre_lock = s.pre_lock;
        mouse = s.mouse;
      }

  module _ (discreet : IsDiscreet host c) where
    pub emit-Spares : (o : ℕ) (n : Name) (w : World) → Spares c w (emit host o n w)
    emit-Spares o n w =
        let s = discreet.lua (signal o n) (record w { emitted = signal o n ∷ w.emitted }) in
        rw (emit_eq host o n w) (record {
          clients = s.clients;
          once = s.once;
          stack = s.stack;
          parents = s.parents;
          focus = s.focus;
          pre_lock = s.pre_lock;
          mouse = s.mouse;
        })

    -- Losing the focus, while the handlers of the two signals run.
    pub unfocus-Spares :
        (w : World)
        → Spares c w (client_unfocus host c true w)
          × (ptr_eq (client_unfocus host c true w).focus_client (some c) ≡ false)
    unfolding client_unfocus client_unfocus_internal
    unfocus-Spares w =
        let w1 = record w { focus_client = none } in
        let one = emit-Spares c property_inactive w1 in
        let w2 = emit host c property_inactive w1 in
        let two = emit-Spares c unfocus w2 in
        (
          record {
            clients = two.clients ∙ one.clients;
            once = λ h. two.once (one.once h);
            stack = λ h. two.stack (one.stack h);
            parents = λ d h. two.parents d (one.parents d h);
            focus = λ h. two.focus (one.focus refl);
            pre_lock = λ h. two.pre_lock (one.pre_lock h);
            mouse = λ h. two.mouse (one.mouse h);
          },
          two.focus (one.focus refl),
        )
