-- ===== src/EventQueue/Move/Fold.antt =====
-- What some_event_queue_move() does to what the queue says, and to the references.
use mathlib.Core.List.{append-nil, append_assoc}
use somewm.Common.{
  ℕ, ◌≡◌, refl, sym, ap, ◌∙◌, subst, true, Option, some, none, List, [], ◌∷◌, ◌++◌, arith, length,
  All, has-append,
}
use somewm.EventQueue.{
  Value, object, table, Registry, Event, event_object, Message, Queue, sig_mouse_move, same_object,
  move_scan, object_of, args_of, message, some_event_queue_move, set_args, unref_some, args_ref_at,
  queue_push,
}
use somewm.EventQueue.Ledger.{
  Ledger, Ledger-ref, all_refs, messages, messages-Same, messages-append, all_refs-append,
}
use somewm.EventQueue.Move.{
  IsMove, IsMoveIfNamed, IsOther, Scanned, hit, miss_start, miss, scan-Scanned,
}
use somewm.EventQueue.Move.Swap.{swap-Ledger}

-- The mouse::move of the object `o` at `x`, `y`.
abbrev pub moved : ℕ → ℕ → ℕ → Message
moved o x y = record {
  event_type = event_object;
  signal_id = sig_mouse_move;
  target = some o;
  class_ptr = none;
  args = x ∷ y ∷ [];
}

module _ (lua : Registry) where
  set_args-at :
      (p : List Event) (e : Event) (q : List Event) (a : Option ℕ)
      → set_args lua (p ++ e ∷ q) (length p) a ≡ p ++ record e { args_ref = a } ∷ q
  set_args-at [] e q a = refl
  set_args-at (f ∷ p) e q a = ap (◌∷◌ f) (set_args-at p e q a)

  args_ref_at-length :
      (p : List Event) (e : Event) (q : List Event)
      → args_ref_at lua (p ++ e ∷ q) (length p) ≡ e.args_ref
  args_ref_at-length [] e q = refl
  args_ref_at-length (f ∷ p) e q = args_ref_at-length p e q

  pub message-moved :
      (s : lua.State) (e : Event) (r b o x y : ℕ)
      → e.event_type ≡ event_object
      → e.signal_id ≡ sig_mouse_move
      → e.nargs ≡ 2
      → e.object_ref ≡ some r
      → e.args_ref ≡ some b
      → lua.value s r ≡ some (object o)
      → lua.value s b ≡ some (table (x ∷ y ∷ []))
      → message lua s e ≡ some (moved o x y)
  unfolding message object_of args_of
  message-moved s e r b o x y t i n g a vr vb = ground arith

  same_object-value :
      (s : lua.State) (r o : ℕ)
      → same_object lua s (some r) o ≡ true
      → lua.value s r ≡ some (object o)
  unfolding same_object
  same_object-value s r o h = ground arith

  -- What the call leaves of what the queue says.
  pub data Coalesced (o x y : ℕ) (q q' : Queue lua) : Type 0 where
    folded :
        (p : List Event) (e : Event) (r : List Event)
        → q.buf ≡ p ++ e ∷ r
        → same_object lua q.reg e.object_ref o ≡ true
        → All (IsOther lua q.reg o) r
        → messages lua q'.reg q'.buf
          ≡ messages lua q.reg p ++ some (moved o x y) ∷ messages lua q.reg r
        → Coalesced o x y q q'
    queued :
        Scanned lua q.reg o q.buf none
        → messages lua q'.reg q'.buf ≡ messages lua q.reg q.buf ++ some (moved o x y) ∷ []
        → Coalesced o x y q q'

  module _ (base : ℕ → Option Value) (o x y : ℕ) where
    -- The call, when the scan finds nothing, and when it finds the event at `i`.
    move_new :
        (q : Queue lua)
        → move_scan lua q.buf q.reg o (length q.buf) ≡ none
        → let (r, s) = lua.ref (object o) q.reg in
          let (a, s') = lua.ref (table (x ∷ y ∷ [])) s in
          let e : Event = record {
            event_type = event_object;
            signal_id = sig_mouse_move;
            object_ref = some r;
            nargs = 2;
            args_ref = some a;
            class_ptr = none;
          } in
          ((some_event_queue_move lua o x y q).buf ≡ q.buf ++ e ∷ [])
          × ((some_event_queue_move lua o x y q).reg ≡ s')
    unfolding some_event_queue_move queue_push
    move_new q h = rw (h, some_event_queue_move) (ground arith, ground arith)

    move_old :
        (q : Queue lua) (i : ℕ)
        → move_scan lua q.buf q.reg o (length q.buf) ≡ some i
        → let s = unref_some lua (args_ref_at lua q.buf i) q.reg in
          let (a, s') = lua.ref (table (x ∷ y ∷ [])) s in
          some_event_queue_move lua o x y q
          ≡ record q { buf = set_args lua q.buf i (some a); reg = s' }
    unfolding some_event_queue_move
    move_old q i h = rw (h, some_event_queue_move) refl

    push_move :
        (q : Queue lua)
        → Ledger lua base q.reg (all_refs q.buf)
        → move_scan lua q.buf q.reg o (length q.buf) ≡ none
        → let q' = some_event_queue_move lua o x y q in
          Ledger lua base q'.reg (all_refs q'.buf)
          × (messages lua q'.reg q'.buf ≡ messages lua q.reg q.buf ++ some (moved o x y) ∷ [])
    push_move q l h =
        let r = (lua.ref (object o) q.reg).0 in
        let s1 = (lua.ref (object o) q.reg).1 in
        let args = table (x ∷ y ∷ []) in
        let a = (lua.ref args s1).0 in
        let s2 = (lua.ref args s1).1 in
        let rs = all_refs q.buf in
        let (l1, k1) = Ledger-ref lua base (object o) l in
        let (l2, k2) = Ledger-ref lua base args l1 in
        let (b, g) = move_new q h in
        let e : Event = record {
          event_type = event_object;
          signal_id = sig_mouse_move;
          object_ref = some r;
          nargs = 2;
          args_ref = some a;
          class_ptr = none;
        } in
        let vr : lua.value s2 r ≡ some (object o) =
          k2 r (ground (arith, has-append r rs (r ∷ [])))
          ∙ lua.ref_value (object o) q.reg r
          ∙ ground arith in
        let va : lua.value s2 a ≡ some args = lua.ref_value args s1 a ∙ ground arith in
        rw (b, g)
          (
            rw (all_refs-append q.buf (e ∷ [])) (rw (← append_assoc rs (r ∷ []) (a ∷ [])) l2),
            messages-append lua s2 q.buf (e ∷ [])
                ∙ rw (message-moved s2 e r a o x y refl refl refl refl refl vr va) (
                    ap (λ (m : List (Option Message)). m ++ some (moved o x y) ∷ [])
                      (messages-Same lua q.buf
                        (λ t i. k2 t (ground (arith, has-append t rs (r ∷ []))) ∙ k1 t i))),
          )

    fold_move :
        (q : Queue lua) (p : List Event) (e : Event) (r : List Event)
        → Ledger lua base q.reg (all_refs q.buf)
        → q.buf ≡ p ++ e ∷ r
        → IsMove e
        → same_object lua q.reg e.object_ref o ≡ true
        → move_scan lua q.buf q.reg o (length q.buf) ≡ some (length p)
        → let q' = some_event_queue_move lua o x y q in
          Ledger lua base q'.reg (all_refs q'.buf)
          × (messages lua q'.reg q'.buf
              ≡ messages lua q.reg p ++ some (moved o x y) ∷ messages lua q.reg r)
    unfolding unref_some
    fold_move q p e r l split m same h =
        let (o_ref, eo) = m.object_ref in
        let (a, ea) = m.args_ref in
        let args = table (x ∷ y ∷ []) in
        let front = all_refs p ++ o_ref ∷ [] in
        let own : all_refs q.buf ≡ front ++ a ∷ all_refs r =
          ap all_refs split
          ∙ all_refs-append p (e ∷ r)
          ∙ rw (eo, ea) (sym (append_assoc (all_refs p) (o_ref ∷ []) (a ∷ all_refs r))) in
        let w =
          swap-Ledger lua base a front (all_refs r) args (subst (Ledger lua base q.reg) own l) in
        let s = lua.unref a q.reg in
        let b = (lua.ref args s).0 in
        let s' = (lua.ref args s).1 in
        let e' : Event = record e { args_ref = some b } in
        let gone : unref_some lua (args_ref_at lua q.buf (length p)) q.reg ≡ s =
          ap (λ (o' : Option ℕ). unref_some lua o' q.reg)
            (ap (λ (t : List Event). args_ref_at lua t (length p)) split
              ∙ args_ref_at-length p e r
              ∙ ea) in
        let done : some_event_queue_move lua o x y q ≡ record q { buf = p ++ e' ∷ r; reg = s' } =
          move_old q (length p) h
          ∙ rw gone (
              ap (λ (t : List Event). record q { buf = t; reg = s' })
                (ap (λ (t : List Event). set_args lua t (length p) (some b)) split
                  ∙ set_args-at p e r (some b))) in
        let vo : lua.value s' o_ref ≡ some (object o) =
          w.same o_ref (
            ground (
              arith,
              has-append o_ref front (all_refs r),
              has-append o_ref (all_refs p) (o_ref ∷ []),
            ))
          ∙ same_object-value q.reg o_ref o (rw (← eo) same) in
        let mp : messages lua s' p ≡ messages lua q.reg p = messages-Same lua p (λ t i. w.same t (
          ground
            (arith, has-append t front (all_refs r), has-append t (all_refs p) (o_ref ∷ [])))) in
        let mr : messages lua s' r ≡ messages lua q.reg r =
          messages-Same lua r (λ t i. w.same t (ground (arith, has-append t front (all_refs r)))) in
        rw done (
          rw
              (
                all_refs-append p (e' ∷ r),
                eo,
                ← append_assoc (all_refs p) (o_ref ∷ []) (b ∷ all_refs r),
              )
              w.ledger,
          messages-append lua s' p (e' ∷ r)
              ∙ rw
                  (message-moved s' e' o_ref b o x y m.event_type m.signal_id m.nargs eo refl vo
                    w.holds)
                  (rw (mp, mr) refl),
        )

    All-at :
        (p : List Event) (e : Event) (r : List Event)
        → All IsMoveIfNamed (p ++ e ∷ r)
        → IsMoveIfNamed e
    All-at [] e r h = h.0
    All-at (f ∷ p) e r h = All-at p e r h.1

    -- On a queue that owns its references, where only moves are named mouse::move: if the last move
    -- of the object is followed by moves of other objects only, that event is given the new
    -- position and every other event says what it said; if not, a new event goes to the end. Either
    -- way the queue owns its references, the position that was replaced is given back, and no other
    -- entry of the registry changes.
    pub some_event_queue_move-Coalesced :
        (q : Queue lua)
        → All IsMoveIfNamed q.buf
        → Ledger lua base q.reg (all_refs q.buf)
        → let q' = some_event_queue_move lua o x y q in
          Ledger lua base q'.reg (all_refs q'.buf) × Coalesced o x y q q'
    some_event_queue_move-Coalesced q named l =
        found (move_scan lua q.buf q.reg o (length q.buf)) refl
          (scan-Scanned lua q.reg o (length q.buf) q.buf q.buf [] (sym (append-nil q.buf)) refl tt)
      where
        missed :
            move_scan lua q.buf q.reg o (length q.buf) ≡ none
            → Scanned lua q.reg o q.buf none
            → let q' = some_event_queue_move lua o x y q in
              Ledger lua base q'.reg (all_refs q'.buf) × Coalesced o x y q q'
        missed h s = let (k, m) = push_move q l h in (k, queued s m)

        found :
            (i : Option ℕ)
            → move_scan lua q.buf q.reg o (length q.buf) ≡ i
            → Scanned lua q.reg o q.buf i
            → let q' = some_event_queue_move lua o x y q in
              Ledger lua base q'.reg (all_refs q'.buf) × Coalesced o x y q q'
        found _ h (hit p e r split n same others) =
            let move = All-at p e r (subst (All IsMoveIfNamed) split named) n in
            let (k, m) = fold_move q p e r l split move same h in
            (k, folded p e r split same others m)
        found _ h (miss_start others) = missed h (miss_start others)
        found _ h (miss p f r split n others) = missed h (miss p f r split n others)
