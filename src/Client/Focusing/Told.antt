-- ===== src/Client/Focusing/Told.antt =====
-- What Lua is told of the focus: the signals that wait for the drain, replayed, lead to the client that
-- has the focus.
use somewm.Common.{
  ℕ, ◌≡◌, refl, sym, ap, ◌∙◌, inl, inr, Bool, true, false, ◌&&◌, not, Option, none, some, List, [],
  ◌∷◌, ◌++◌, arith, Bool-cases, if◌then◌else◌, ptr_eq, bool_eq, ◌==◌, ==_iff,
}
use somewm.World.{World, Signal, Name, signal, focus, unfocus, property_active, property_inactive}
use somewm.Client.{
  Host, emit, enqueue, client_set_urgent, client_unfocus_internal, client_unfocus,
  client_ban_unfocus,
}
use somewm.Client.Focusing.{take_focus, client_focus_update}

-- Whether Lua takes the client `x` for focused, after one signal and after those of a queue.
abbrev pub tell : ℕ → Bool → Signal → Bool
tell x b s = elim s.name [
  | focus ↦ if ptr_eq s.object (some x) then true else b
  | unfocus ↦ if ptr_eq s.object (some x) then false else b
  | _ ↦ b
]

abbrev pub told : ℕ → Bool → List Signal → Bool
told x b [] = b
told x b (s ∷ ss) = told x (tell x b s) ss

pub told-append :
    (x : ℕ) (b : Bool) (ss ts : List Signal) → told x b (ss ++ ts) ≡ told x (told x b ss) ts
told-append x b [] ts = refl
told-append x b (s ∷ ss) ts = told-append x (tell x b s) ss ts

-- After the queue Lua is right about `x`, if it took it for focused as `start` says.
abbrev pub Told : ℕ → Bool → World → Type 0
Told x start w = told x start w.queued ≡ ptr_eq w.focus_client (some x)

-- The handlers of signals that are emitted at once neither move the focus nor queue signals.
pub record IsSilent (lua : Signal → World → World) : Type 0 where
  pub queued : (s : Signal) (w : World) → (lua s w).queued ≡ w.queued
  pub focus_client : (s : Signal) (w : World) → (lua s w).focus_client ≡ w.focus_client

same_focus : (c : ℕ) (o : Option ℕ) → ptr_eq o (some c) ≡ true → o ≡ some c
same_focus c none h = absurd (ground arith)
same_focus c (some f) h = ap some ((==_iff f c).0 h)

module _ (host : Host) (silent : IsSilent host.lua) (x : ℕ) (start : Bool) where
  pub enqueue-told :
      (c : ℕ) (n : Name) (w : World)
      → (told x start (enqueue host c n w).queued ≡ tell x (told x start w.queued) (signal c n))
        × ((enqueue host c n w).focus_client ≡ w.focus_client)
  unfolding enqueue
  enqueue-told c n w = (told-append x start w.queued (signal c n ∷ []), refl)

  pub set_urgent-told :
      (c : ℕ) (s : Bool) (w : World)
      → ((client_set_urgent host c s w).queued ≡ w.queued)
        × ((client_set_urgent host c s w).focus_client ≡ w.focus_client)
  unfolding client_set_urgent emit
  set_urgent-told c s w = elim (Bool-cases (bool_eq (w.client c).urgent s)) [
    | inl e ↦ rw e (refl, refl)
    | inr e ↦ rw e (silent.queued _ _, silent.focus_client _ _)
  ]

  unfocus_internal-Told :
      (c : ℕ) (w : World)
      → w.focus_client ≡ some c
      → Told x start w
      → Told x start (client_unfocus_internal host c false w)
        × ((client_unfocus_internal host c false w).focus_client ≡ none)
  unfolding client_unfocus_internal
  unfocus_internal-Told c w e t =
      let w1 = record w { focus_client = none } in
      let w2 = enqueue host c property_inactive w1 in
      ground (arith, enqueue-told c property_inactive w1, enqueue-told c unfocus w2)

  -- Whoever loses the focus because it vanishes.
  pub ban_unfocus-Told :
      (c : ℕ) (w : World) → Told x start w → Told x start (client_ban_unfocus host c w)
  unfolding client_ban_unfocus client_unfocus
  ban_unfocus-Told c w t =
      elim (Bool-cases (ptr_eq w.focus_client (some c) && not w.mousegrabber)) [
        | inl e ↦ rw e (unfocus_internal-Told c w (same_focus c w.focus_client (ground arith)) t).0
        | inr e ↦ rw e t
      ]

  take_focus-Told :
      (c : ℕ) (f : Option ℕ) (w : World)
      → w.focus_client ≡ f
      → Told x start w
      → Told x start (take_focus host c f w)
        × ((take_focus host c f w).focus_client ≡ (if ptr_eq f (some c) then f else none))
  unfolding take_focus
  take_focus-Told c none w e t = (t, e)
  take_focus-Told c (some f) w e t = elim (Bool-cases (f == c)) [
    | inl same ↦ rw same (t, e)
    | inr other ↦ let (u, n) = unfocus_internal-Told f w e t in rw other (u, n)
  ]

  new_focus :
      (c : ℕ) (f : Option ℕ)
      → ptr_eq (if ptr_eq f (some c) then f else none) (some c) ≡ ptr_eq f (some c)
  new_focus c none = refl
  new_focus c (some f) = ground arith

  lost :
      (c : ℕ) (o f : Option ℕ)
      → o ≡ (if ptr_eq f (some c) then f else none)
      → ptr_eq o (some c) ≡ false
      → o ≡ none
  lost c o none e h = e
  lost c o (some f) e h = elim (Bool-cases (f == c)) [
    | inl same ↦ absurd (ground arith)
    | inr other ↦ e ∙ rw other refl
  ]

  -- With such handlers, and if Lua will be right about a client before client_focus_update(), it
  -- will be right about it after it: the client that is given has the focus, and the answer is
  -- whether it did not have it before.
  pub client_focus_update-Told :
      (c : ℕ) (w : World)
      → Told x start w
      → let (changed, w') = client_focus_update host c w in
        Told x start w'
        × (w'.focus_client ≡ some c)
        × (changed ≡ not (ptr_eq w.focus_client (some c)))
  unfolding client_focus_update
  client_focus_update-Told c w t =
      let w1 = take_focus host c w.focus_client w in
      let (u, n) = take_focus-Told c w.focus_client w refl t in
      let w2 = record w1 { focus_client = some c } in
      let (q, f) = set_urgent-told c false w2 in
      let w3 = client_set_urgent host c false w2 in
      let w4 = enqueue host c property_active w3 in
      let was = ap (λ (o : Option ℕ). ptr_eq o (some c)) n ∙ new_focus c w.focus_client in
      elim (Bool-cases (ptr_eq w1.focus_client (some c))) [
        | inl same ↦ rw same (
          ap (told x start) q
              ∙ rw f (
                  u ∙ ap (λ (o : Option ℕ). ptr_eq o (some x)) (same_focus c w1.focus_client same)),
          f,
          ap not (sym same ∙ was),
        )
        | inr new ↦
            let at = (enqueue-told c focus w4).1 ∙ (enqueue-told c property_active w3).1 ∙ f in
            let before =
              (enqueue-told c property_active w3).0
              ∙ ap (told x start) q
              ∙ u
              ∙ ap (λ (o : Option ℕ). ptr_eq o (some x))
                  (lost c w1.focus_client w.focus_client n new) in
            rw new (
              (enqueue-told c focus w4).0
                  ∙ rw at (ap (λ (b : Bool). if c == x then true else b) before ∙ ground arith),
              at,
              ap not (sym new ∙ was),
            )
      ]
