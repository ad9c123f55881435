-- ===== src/EventQueue/Move.antt =====
-- some_event_queue_move(): the moves of one object that follow each other are folded into one.
pub mod Swap
pub mod Fold
use somewm.Common.{
  ℕ, zero, suc, ◌+◌, ◌≡◌, refl, sym, ap, ◌∙◌, subst, ◌⊎◌, inl, inr, Bool, true, false, Option, some,
  none, List, [], ◌∷◌, ◌++◌, arith, Bool-cases, Option-cases, if◌then◌else◌, ◌==◌, length,
  get_elem?, All, length-append,
}
use mathlib.Core.List.{append-nil, append_assoc}
use somewm.EventQueue.{
  Value, object, table, Registry, Event, EventType, event_object, Message, Queue, sig_mouse_move,
  same_object, move_scan, object_of, args_of, message,
}

-- The event of a mouse::move, as some_event_queue_move() makes it.
pub record IsMove (e : Event) : Type 0 where
  pub event_type : e.event_type ≡ event_object
  pub signal_id : e.signal_id ≡ sig_mouse_move
  pub nargs : e.nargs ≡ 2
  pub object_ref : (r : ℕ) × (e.object_ref ≡ some r)
  pub args_ref : (r : ℕ) × (e.args_ref ≡ some r)

-- No other call queues that signal.
abbrev pub IsMoveIfNamed : Event → Type 0
IsMoveIfNamed e = (e.signal_id == sig_mouse_move) ≡ true → IsMove e

module _ (lua : Registry) (s : lua.State) (o : ℕ) where
  -- A mouse::move of another object than `o`.
  pub record IsOther (e : Event) : Type 0 where
    pub named : (e.signal_id == sig_mouse_move) ≡ true
    pub other : same_object lua s e.object_ref o ≡ false

  -- What the scan of a buffer finds: the last mouse::move of `o`, if only moves of others follow it;
  -- else those moves, which start the buffer or follow another signal.
  pub data Scanned (buf : List Event) : Option ℕ → Type 0 where
    hit :
        (p : List Event) (e : Event) (q : List Event)
        → buf ≡ p ++ e ∷ q
        → (e.signal_id == sig_mouse_move) ≡ true
        → same_object lua s e.object_ref o ≡ true
        → All IsOther q
        → Scanned buf (some (length p))
    miss_start : All IsOther buf → Scanned buf none
    miss :
        (p : List Event) (f : Event) (q : List Event)
        → buf ≡ p ++ f ∷ q
        → (f.signal_id == sig_mouse_move) ≡ false
        → All IsOther q
        → Scanned buf none

  last_of :
      (k : ℕ) (p : List Event)
      → length p ≡ suc k
      → (p' : List Event) × (e : Event) × (p ≡ p' ++ e ∷ []) × (length p' ≡ k)
  last_of k [] h = absurd (omega arith)
  last_of zero (e ∷ []) h = ([], e, refl, refl)
  last_of zero (e ∷ f ∷ p) h = absurd (omega arith)
  last_of (suc k) (e ∷ []) h = absurd (omega arith)
  last_of (suc k) (e ∷ f ∷ p) h =
      let (p', g, a, b) = last_of k (f ∷ p) (omega arith) in (e ∷ p', g, ap (◌∷◌ e) a, omega arith)

  at_length :
      (p : List Event) (e : Event) (q : List Event) → get_elem? (p ++ e ∷ q) (length p) ≡ some e
  at_length [] e q = refl
  at_length (x ∷ p) e q = at_length p e q

  scan-Scanned :
      (k : ℕ) (buf p q : List Event)
      → buf ≡ p ++ q
      → length p ≡ k
      → All IsOther q
      → Scanned buf (move_scan lua buf s o k)
  unfolding move_scan
  scan-Scanned zero buf [] q e h others = miss_start (rw e others)
  scan-Scanned zero buf (x ∷ p) q e h others = absurd (omega arith)
  scan-Scanned (suc k) buf p q e h others =
      let (p', f, a, b) = last_of k p h in
      let split : buf ≡ p' ++ f ∷ q =
        e ∙ ap (λ (t : List Event). t ++ q) a ∙ append_assoc p' (f ∷ []) q in
      let at : get_elem? buf k ≡ some f =
        ap (λ (t : List Event). get_elem? t k) split
        ∙ ap (get_elem? (p' ++ f ∷ q)) (sym b)
        ∙ at_length p' f q in
      elim (Bool-cases (f.signal_id == sig_mouse_move)) [
        | inr other ↦ rw (at, move_scan, other) (miss p' f q split other others)
        | inl named ↦ elim (Bool-cases (same_object lua s f.object_ref o)) [
          | inl same ↦
              rw (at, move_scan, named, same)
                (subst (λ (n : ℕ). Scanned buf (some n)) b (hit p' f q split named same others))
          | inr differs ↦
              rw (at, move_scan, named, differs)
                (scan-Scanned k buf p' (f ∷ q) split b
                  (record { named = named; other = differs }, others))
        ]
      ]
