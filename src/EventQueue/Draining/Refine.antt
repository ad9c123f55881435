-- ===== src/EventQueue/Draining/Refine.antt =====
-- some_event_queue_drain(): it emits the signals of a snapshot of the queue, in order and once, keeps
-- what the handlers queue meanwhile for the next drain, and gives every reference back.
use mathlib.Core.List.{append-nil, append_assoc}
use somewm.Common.{
  ℕ, suc, ◌≡◌, refl, sym, subst, ◌∙◌, ap, Option, some, List, [], ◌∷◌, ◌++◌, arith, if◌then◌else◌,
  ltb, length, get_elem?, drop, length-append, All, map,
}
use somewm.EventQueue.{Value, Registry, Event, Message, Call, message}
use somewm.EventQueue.Ledger.{Ledger, Same, all_refs, messages, messages-Same, messages-append}
use somewm.EventQueue.Push.{IsPlain, asked}
use somewm.EventQueue.Draining.{Drain, drain_event, drain_loop, some_event_queue_drain}
use somewm.EventQueue.Draining.Round.{
  run, get_elem?-append, drop-append, map-append', run_then, has_before, has_after, in_append,
  in_last, At, Round, event-Round,
}

module _ (lua : Registry) (base : ℕ → Option Value) {U : Type 0}
    (handle : U → Message → U × List Call)
    (plain : (u : U) (m : Message) → All IsPlain (handle u m).1) where
  -- What the rounds for `todo` do, from `d` to `d'`.
  record Rounds (old todo new : List Event) (d d' : Drain lua handle) : Type 0 where
    added : List Event
    buf : d'.queue.buf ≡ (old ++ todo) ++ (new ++ added)
    ledger : Ledger lua base d'.queue.reg (all_refs (new ++ added))
    same : Same lua d.queue.reg d'.queue.reg (all_refs new)
    says :
        messages lua d'.queue.reg added
        ≡ map asked (run handle d.user (messages lua d.queue.reg todo)).calls
    user : d'.user ≡ (run handle d.user (messages lua d.queue.reg todo)).user
    sent : d'.sent ≡ d.sent ++ (run handle d.user (messages lua d.queue.reg todo)).sent

  Rounds-none :
      (old new : List Event) (d : Drain lua handle)
      → At lua base handle plain old [] new d
      → Rounds old [] new d d
  Rounds-none old new d at = record {
    added = [];
    buf = rw (append-nil new) at.buf;
    ledger = rw (append-nil new) at.ledger;
    same = λ r h. refl;
    says = refl;
    user = refl;
    sent = sym (append-nil d.sent);
  }

  -- The first round and the others, as the handlers see them.
  Rounds_next :
      (old todo new : List Event) (e : Event) {d d' : Drain lua handle}
      (f : Round lua base handle plain old todo new e d d')
      → run handle d'.user (messages lua d'.queue.reg todo)
        ≡ run handle
            (run handle d.user (message lua d.queue.reg e ∷ [])).user
            (messages lua d.queue.reg todo)
  Rounds_next old todo new e {d} {d'} f =
      rw
        (
          messages-Same lua todo (λ r h. f.same r (has_before r (all_refs todo) (all_refs new) h)),
          f.user,
        )
        refl

  Rounds-cons :
      (old todo new : List Event) (e : Event) {d d' d'' : Drain lua handle}
      (f : Round lua base handle plain old todo new e d d')
      → Rounds (old ++ e ∷ []) todo (new ++ f.es) d' d''
      → Rounds old (e ∷ todo) new d d''
  Rounds-cons old todo new e {d} {d'} {d''} f g =
      let (u, s, c) =
        run_then handle d.user (message lua d.queue.reg e) (messages lua d.queue.reg todo) in
      let next = Rounds_next old todo new e f in
      let kept = messages-Same lua f.es (λ r h. g.same r (in_last r new f.es h)) in
      record {
        added = f.es ++ g.added;
        buf = g.buf ∙ regroup old todo new f.es g.added;
        ledger =
            subst (Ledger lua base d''.queue.reg) (ap all_refs (append_assoc new f.es g.added))
              g.ledger;
        same = λ r h.
            g.same r (in_append r new f.es h)
            ∙ f.same r (has_after r (all_refs todo) (all_refs new) h);
        says =
            messages-append lua d''.queue.reg f.es g.added
            ∙ rw
                (
                  c,
                  map-append' (run handle d.user (message lua d.queue.reg e ∷ [])).calls,
                  g.says,
                  kept,
                  f.says,
                  next,
                )
                refl;
        user = g.user ∙ rw (u, next) refl;
        sent = g.sent ∙ rw (s, f.sent, next) (append_assoc d.sent _ _);
      }
    where
      regroup :
          (old todo new es added : List Event)
          → ((old ++ e ∷ []) ++ todo) ++ ((new ++ es) ++ added)
            ≡ (old ++ e ∷ todo) ++ (new ++ (es ++ added))
      regroup old todo new es added = simp append_assoc

  loop-Rounds :
      (todo old new : List Event) (d : Drain lua handle)
      → At lua base handle plain old todo new d
      → Rounds old todo new d (drain_loop lua handle (length todo) (length old) d)
  unfolding drain_loop
  loop-Rounds [] old new d at = Rounds-none old new d at
  loop-Rounds (e ∷ todo) old new d at =
      let f = event-Round lua base handle plain old todo new e d at in
      let g =
        loop-Rounds todo (old ++ e ∷ []) (new ++ f.es) (drain_event lua handle (some e) d) f.at in
      subst
        (λ (x : Option Event).
          Rounds old (e ∷ todo) new d
            (drain_loop lua handle (length todo) (suc (length old)) (drain_event lua handle x d)))
        (sym (ap (λ (b : List Event). get_elem? b (length old)) at.buf ∙ at_index old todo new e))
        (Rounds-cons old todo new e f (
          subst
            (λ (n : ℕ).
              Rounds (old ++ e ∷ []) todo (new ++ f.es) (drain_event lua handle (some e) d)
                (drain_loop lua handle (length todo) n (drain_event lua handle (some e) d)))
            (length-append old (e ∷ []) ∙ omega arith) g))
    where
      at_index :
          (old todo new : List Event) (e : Event)
          → get_elem? ((old ++ e ∷ todo) ++ new) (length old) ≡ some e
      at_index old todo new e =
          rw (append_assoc old (e ∷ todo) new) (get_elem?-append old e (todo ++ new))

  -- What a drain does, from `d` to `d'`. What was pending is emitted in order; the queue is left with
  -- what the handlers asked for meanwhile; and the registry holds what it holds without the queue, and
  -- the references of what is left.
  pub record Drained (d d' : Drain lua handle) : Type 0 where
    emitted : d'.sent ≡ d.sent ++ (run handle d.user (messages lua d.queue.reg d.queue.buf)).sent
    user : d'.user ≡ (run handle d.user (messages lua d.queue.reg d.queue.buf)).user
    left :
        messages lua d'.queue.reg d'.queue.buf
        ≡ map asked (run handle d.user (messages lua d.queue.reg d.queue.buf)).calls
    ledger : Ledger lua base d'.queue.reg (all_refs d'.queue.buf)

  -- The buffer after the snapshot is dropped.
  buf_left :
      (todo added : List Event)
      → (if ltb (length todo) (length (todo ++ added))
          then drop (length todo) (todo ++ added)
          else [])
        ≡ added
  buf_left todo added =
      rw (drop-append todo added, length-append todo added) (ground (arith, empty added))
    where
      empty : (xs : List Event) → length xs ≡ 0 → xs ≡ []
      empty [] h = refl
      empty (x ∷ xs) h = absurd (omega arith)

  -- A drain of a queue that owns its references, with handlers that queue no mouse::move, emits what
  -- was pending in order and once each; what the handlers queue meanwhile is left, in order, for the
  -- next drain; and every reference of what was pending is given back and no other entry of the
  -- registry changes.
  pub some_event_queue_drain-Drained :
      (d : Drain lua handle)
      → Ledger lua base d.queue.reg (all_refs d.queue.buf)
      → Drained d (some_event_queue_drain lua handle d)
  unfolding some_event_queue_drain
  some_event_queue_drain-Drained d l =
      let todo = d.queue.buf in
      let f =
        loop-Rounds todo [] [] d
          (record { buf = sym (append-nil todo); ledger = rw (append-nil (all_refs todo)) l }) in
      let left =
        ap (λ (b : List Event). if ltb (length todo) (length b) then drop (length todo) b else [])
          f.buf
        ∙ buf_left todo f.added in
      record { emitted = f.sent; user = f.user; left = rw left f.says; ledger = rw left f.ledger }
