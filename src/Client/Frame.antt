-- ===== src/Client/Frame.antt =====
-- What asking for a refresh of the banning leaves alone.
use somewm.Common.{
  ℕ, ◌≡◌, refl, ◌∙◌, inl, inr, Bool, true, bool_eq, none, List, [], ◌∷◌, arith, Bool-cases, has,
}
use somewm.World.{World, Name, Signal, signal, property_urgent, unfocus, property_inactive}
use somewm.Client.{
  Host, client_isvisible, client_unfocus_internal, client_unfocus, client_ban_unfocus,
  unfocus_hidden, client_set_urgent, banning_need_update, emit, enqueue, is_client_tagged,
}

-- The tags and the attributes of the clients are the same.
pub record SameObjects (w w' : World) : Type 0 where
  pub client : w'.client ≡ w.client
  pub tag : w'.tag ≡ w.tag
  pub tags : w'.tags ≡ w.tags

pub SameObjects-trans : (u v w : World) → SameObjects u v → SameObjects v w → SameObjects u w
SameObjects-trans u v w s t = record {
  client = t.client ∙ s.client;
  tag = t.tag ∙ s.tag;
  tags = t.tags ∙ s.tags;
}

module _ (host : Host) where
  ban_unfocus-SameObjects : (c : ℕ) (w : World) → SameObjects w (client_ban_unfocus host c w)
  unfolding client_ban_unfocus client_unfocus client_unfocus_internal enqueue
  ban_unfocus-SameObjects c w = record {
    client = ground arith;
    tag = ground arith;
    tags = ground arith;
  }

  unfocus_hidden-SameObjects : (cs : List ℕ) (w : World) → SameObjects w (unfocus_hidden host cs w)
  unfolding unfocus_hidden
  unfocus_hidden-SameObjects [] w = record { client = refl; tag = refl; tags = refl }
  unfocus_hidden-SameObjects (c ∷ cs) w = elim (Bool-cases (client_isvisible host w c)) [
    | inl v ↦ rw v (unfocus_hidden-SameObjects cs w)
    | inr v ↦ rw v (
        SameObjects-trans w (client_ban_unfocus host c w) _ (ban_unfocus-SameObjects c w)
          (unfocus_hidden-SameObjects cs (client_ban_unfocus host c w)))
  ]

  pub need_update-SameObjects : (w : World) → SameObjects w (banning_need_update host w)
  unfolding banning_need_update
  need_update-SameObjects w =
      let s = unfocus_hidden-SameObjects w.clients (record w { need_lazy_banning = true }) in
      record { client = s.client; tag = s.tag; tags = s.tags }

  pub emit_eq :
      (c : ℕ) (n : Name) (w : World)
      → emit host c n w ≡ host.lua (signal c n) (record w { emitted = signal c n ∷ w.emitted })
  unfolding emit
  emit_eq c n w = refl

  pub enqueue-focus :
      (c : ℕ) (n : Name) (w : World) → (enqueue host c n w).focus_client ≡ w.focus_client
  unfolding enqueue
  enqueue-focus c n w = refl

  pub client_unfocus_eq :
      (c : ℕ) (w : World)
      → client_unfocus host c true w
        ≡ record (emit host c unfocus
            (emit host c property_inactive (record w { focus_client = none }))) {
              focus_need_update = true;
            }
  unfolding client_unfocus client_unfocus_internal
  client_unfocus_eq c w = refl

pub is_client_tagged-has : (w : World) (c t : ℕ) → is_client_tagged w c t ≡ has c (w.tag t).clients
unfolding is_client_tagged
is_client_tagged-has w c t = refl

module _ (host : Host) where
  -- The urgency of a client is not about the stack.
  pub client_set_urgent-stack :
      ((s : Signal) (v : World) → (host.lua s v).stack ≡ v.stack)
      → (c : ℕ) (s : Bool) (w : World) → (client_set_urgent host c s w).stack ≡ w.stack
  unfolding client_set_urgent emit
  client_set_urgent-stack keeps c s w = elim (Bool-cases (bool_eq (w.client c).urgent s)) [
    | inl e ↦ rw e refl
    | inr e ↦ rw e (keeps (signal c property_urgent) _)
  ]

  ban_unfocus_due :
      (c : ℕ) (w : World)
      → ((client_ban_unfocus host c w).need_lazy_banning ≡ w.need_lazy_banning)
        × ((client_ban_unfocus host c w).clients ≡ w.clients)
  unfolding client_ban_unfocus client_unfocus client_unfocus_internal enqueue
  ban_unfocus_due c w = (ground arith, ground arith)

  unfocus_hidden_due :
      (cs : List ℕ) (w : World)
      → ((unfocus_hidden host cs w).need_lazy_banning ≡ w.need_lazy_banning)
        × ((unfocus_hidden host cs w).clients ≡ w.clients)
  unfolding unfocus_hidden
  unfocus_hidden_due [] w = (refl, refl)
  unfocus_hidden_due (c ∷ cs) w = elim (Bool-cases (client_isvisible host w c)) [
    | inl v ↦ rw (v, unfocus_hidden) (unfocus_hidden_due cs w)
    | inr v ↦
        let (d, m) = unfocus_hidden_due cs (client_ban_unfocus host c w) in
        let (d', m') = ban_unfocus_due c w in rw (v, unfocus_hidden) (d ∙ d', m ∙ m')
  ]

  -- The refresh is due then.
  pub need_update_due :
      (w : World)
      → ((banning_need_update host w).need_lazy_banning ≡ true)
        × ((banning_need_update host w).clients ≡ w.clients)
  unfolding banning_need_update
  need_update_due w = unfocus_hidden_due w.clients (record w { need_lazy_banning = true })
