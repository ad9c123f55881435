-- ===== src/EventQueue/Push.antt =====
-- What each call of the queue but a mouse::move does: one more event at the end, which says what was
-- asked for, and no event before it says anything else than it did.
use mathlib.Core.List.{append-nil, append_assoc}
use somewm.Common.{
  ℕ, ◌≡◌, refl, sym, ◌∙◌, ap, Option, some, none, List, [], ◌∷◌, ◌++◌, arith, if◌then◌else◌, leb,
  length, take, has-append, All, map,
}
use somewm.EventQueue.{
  Value, Registry, Event, Message, Call, Queue, sig_count, event_object, event_class, event_global,
  queue_signal0, queue_signal, queue_global, queue_class, queue_global_args, queue_class_args,
  queue_move, queue_push, queue_capture_args, perform, some_event_queue_signal,
  some_event_queue_signal0, queue_plain, perform_all, message, args_of, object_of, object, table,
}
use somewm.EventQueue.Ledger.{
  Ledger, Same, Ledger-ref, refs, all_refs, opt_refs, messages, messages-Same, messages-append,
  all_refs-append,
}

-- The signal that a call asks for; an identifier that has no name is dropped by the drain.
abbrev known : ℕ → Message → Option Message
known id m = if leb sig_count id then none else some m

abbrev pub asked : Call → Option Message
asked (queue_signal0 o id) = known id (record {
  event_type = event_object;
  signal_id = id;
  target = some o;
  class_ptr = none;
  args = [];
})
asked (queue_signal o id args) = known id (record {
  event_type = event_object;
  signal_id = id;
  target = some o;
  class_ptr = none;
  args = args;
})
asked (queue_global id) = known id (record {
  event_type = event_global;
  signal_id = id;
  target = none;
  class_ptr = none;
  args = [];
})
asked (queue_class c id) = known id (record {
  event_type = event_class;
  signal_id = id;
  target = none;
  class_ptr = some c;
  args = [];
})
asked (queue_global_args id args) = known id (record {
  event_type = event_global;
  signal_id = id;
  target = none;
  class_ptr = none;
  args = args;
})
asked (queue_class_args c id args) = known id (record {
  event_type = event_class;
  signal_id = id;
  target = none;
  class_ptr = some c;
  args = args;
})
asked (queue_move o x y) = none

-- A call other than that for a mouse::move.
abbrev pub IsPlain : Call → Type 0
IsPlain (queue_move o x y) = ⊥
IsPlain _ = Unit {0}

take_all {ℓ} : {A : Type ℓ} (xs : List A) → take (length xs) xs ≡ xs
take_all [] = refl
take_all (x ∷ xs) = ap (◌∷◌ x) (take_all xs)

module _ (lua : Registry) (base : ℕ → Option Value) where
  -- From `q` to `q'` the events `es` were added, which say `ms`. `rs` are the references that are
  -- owned.
  pub record Adds (rs : List ℕ) (ms : List (Option Message)) (q q' : Queue lua) : Type 0 where
    pub es : List Event
    pub added : q'.buf ≡ q.buf ++ es
    pub ledger : Ledger lua base q'.reg (rs ++ all_refs es)
    pub same : Same lua q.reg q'.reg rs
    pub says : messages lua q'.reg es ≡ ms

  queue_push-buf :
      (e : Event) (q : Queue lua)
      → ((queue_push lua e q).buf ≡ q.buf ++ e ∷ []) × ((queue_push lua e q).reg ≡ q.reg)
  unfolding queue_push
  queue_push-buf e q = (ground arith, ground arith)

  -- The capture of arguments.
  capture :
      {rs : List ℕ} {s : lua.State} (args : List ℕ)
      → Ledger lua base s rs
      → let (a, s') = queue_capture_args lua args s in
        Ledger lua base s' (rs ++ opt_refs a)
        × Same lua s s' rs
        × (args_of lua s' a (length args) ≡ args)
  unfolding queue_capture_args args_of
  capture {rs} [] l = (rw (append-nil rs) l, λ r h. refl, refl)
  capture {rs} {s} (a ∷ as') l =
      let (k, same) = Ledger-ref lua base (table (a ∷ as')) l in
      (
        k,
        same,
        ground (
          arith,
          lua.ref_value (table (a ∷ as')) s (lua.ref (table (a ∷ as')) s).0,
          take_all as',
        ),
      )

  push-Adds :
      {rs : List ℕ} {s' : lua.State} (m : Option Message) (e : Event) (q : Queue lua)
      → Ledger lua base s' (rs ++ refs e)
      → Same lua q.reg s' rs
      → message lua s' e ≡ m
      → Adds rs (m ∷ []) q (queue_push lua e (record q { reg = s' }))
  push-Adds {rs} {s'} m e q l same says =
      let (b, r) = queue_push-buf e (record q { reg = s' }) in
      record {
        es = e ∷ [];
        added = b;
        ledger = rw (r, append-nil (refs e)) l;
        same = rw r same;
        says = rw r (rw says);
      }

  object_value :
      (o : ℕ) (s : lua.State)
      → object_of lua (lua.ref (object o) s).1 (some (lua.ref (object o) s).0) ≡ some o
  unfolding object_of
  object_value o s = ground (arith, lua.ref_value (object o) s (lua.ref (object o) s).0)

  object_message :
      (o id : ℕ) (s : lua.State)
      → message lua (lua.ref (object o) s).1 (record {
        event_type = event_object;
        signal_id = id;
        object_ref = some (lua.ref (object o) s).0;
        nargs = 0;
        args_ref = none;
        class_ptr = none;
      })
        ≡ asked (queue_signal0 o id)
  unfolding message args_of
  object_message o id s = ground (arith, object_value o s)

  signal0-Adds :
      {rs : List ℕ} (o id : ℕ) (q : Queue lua)
      → Ledger lua base q.reg rs
      → Adds rs (asked (queue_signal0 o id) ∷ []) q (some_event_queue_signal0 lua o id q)
  unfolding some_event_queue_signal0
  signal0-Adds o id q l =
      let (k, same) = Ledger-ref lua base (object o) l in
      push-Adds _ _ q k same (object_message o id q.reg)

  object_of-kept :
      {s s' : lua.State} (r : ℕ)
      → lua.value s' r ≡ lua.value s r
      → object_of lua s' (some r) ≡ object_of lua s (some r)
  unfolding object_of
  object_of-kept r h = ground (arith, h)

  signal_message :
      (o id r : ℕ) (args : List ℕ) (a : Option ℕ) (s : lua.State)
      → object_of lua s (some r) ≡ some o
      → args_of lua s a (length args) ≡ args
      → message lua s (record {
        event_type = event_object;
        signal_id = id;
        object_ref = some r;
        nargs = length args;
        args_ref = a;
        class_ptr = none;
      })
        ≡ asked (queue_signal o id args)
  unfolding message
  signal_message o id r args a s h k = ground arith

  signal-Adds :
      {rs : List ℕ} (o id : ℕ) (args : List ℕ) (q : Queue lua)
      → Ledger lua base q.reg rs
      → Adds rs (asked (queue_signal o id args) ∷ []) q (some_event_queue_signal lua o id args q)
  unfolding some_event_queue_signal
  signal-Adds {rs} o id args q l =
      let (k, same) = Ledger-ref lua base (object o) l in
      let new = (lua.ref (object o) q.reg).0 in
      let s = (lua.ref (object o) q.reg).1 in
      let a = (queue_capture_args lua args s).0 in
      let s' = (queue_capture_args lua args s).1 in
      let (m, same', got) = capture args k in
      push-Adds _ _ q (rw (← append_assoc) m)
        (λ r h. same' r (ground (arith, has-append r rs (new ∷ []))) ∙ same r h)
        (signal_message o id new args a s'
          (object_of-kept new (same' new (ground (arith, has-append new rs (new ∷ []))))
            ∙ object_value o q.reg)
          got)

  plain_message :
      (cls : Option ℕ) (id : ℕ) (args : List ℕ) (a : Option ℕ) (s : lua.State)
      → args_of lua s a (length args) ≡ args
      → (message lua s (record {
        event_type = event_global;
        signal_id = id;
        object_ref = none;
        nargs = length args;
        args_ref = a;
        class_ptr = cls;
      })
          ≡ asked (queue_global_args id args))
        × (message lua s (record {
          event_type = event_class;
          signal_id = id;
          object_ref = none;
          nargs = length args;
          args_ref = a;
          class_ptr = cls;
        })
            ≡ known id (record {
              event_type = event_class;
              signal_id = id;
              target = none;
              class_ptr = cls;
              args = args;
            }))
  unfolding message
  plain_message cls id args a s h = (ground arith, ground arith)

  global-Adds :
      {rs : List ℕ} (id : ℕ) (args : List ℕ) (q : Queue lua)
      → Ledger lua base q.reg rs
      → Adds rs
          (asked (queue_global_args id args) ∷ [])
          q
          (queue_plain lua event_global none id args q)
  unfolding queue_plain
  global-Adds id args q l =
      let (m, same, got) = capture args l in
      push-Adds _ _ q m same (plain_message none id args _ _ got).0

  class-Adds :
      {rs : List ℕ} (cls id : ℕ) (args : List ℕ) (q : Queue lua)
      → Ledger lua base q.reg rs
      → Adds rs
          (asked (queue_class_args cls id args) ∷ [])
          q
          (queue_plain lua event_class (some cls) id args q)
  unfolding queue_plain
  class-Adds cls id args q l =
      let (m, same, got) = capture args l in
      push-Adds _ _ q m same (plain_message (some cls) id args _ _ got).1

  -- Every call but that for a mouse::move, on a queue that owns its references, adds one event at the
  -- end, which says what was asked for. The new event owns its references, and nothing else in the
  -- registry changes.
  pub perform-Adds :
      {rs : List ℕ} (c : Call) (q : Queue lua)
      → IsPlain c
      → Ledger lua base q.reg rs
      → Adds rs (asked c ∷ []) q (perform lua c q)
  unfolding perform
  perform-Adds (queue_signal0 o id) q p l = signal0-Adds o id q l
  perform-Adds (queue_signal o id args) q p l = signal-Adds o id args q l
  perform-Adds (queue_global id) q p l = global-Adds id [] q l
  perform-Adds (queue_class c id) q p l = class-Adds c id [] q l
  perform-Adds (queue_global_args id args) q p l = global-Adds id args q l
  perform-Adds (queue_class_args c id args) q p l = class-Adds c id args q l
  perform-Adds (queue_move o x y) q p l = absurd p

  pub Adds-none : {rs : List ℕ} (q : Queue lua) → Ledger lua base q.reg rs → Adds rs [] q q
  Adds-none q l = record {
    es = [];
    added = sym (append-nil q.buf);
    ledger = rw (append-nil) l;
    same = λ r h. refl;
    says = refl;
  }

  Adds-then :
      {rs : List ℕ} {ms ns : List (Option Message)} {q q' q'' : Queue lua} (f : Adds rs ms q q')
      → Adds (rs ++ all_refs f.es) ns q' q''
      → Adds rs (ms ++ ns) q q''
  Adds-then {rs} {ns} {q} f g = record {
    es = f.es ++ g.es;
    added = g.added ∙ ap (λ (b : List Event). b ++ g.es) f.added ∙ append_assoc q.buf f.es g.es;
    ledger = rw (all_refs-append f.es g.es, ← append_assoc) g.ledger;
    same = λ r h. g.same r (ground (arith, has-append r rs (all_refs f.es))) ∙ f.same r h;
    says =
        rw
          (
            messages-append lua _ f.es g.es,
            g.says,
            messages-Same lua f.es
                (λ r h. g.same r (ground (arith, has-append r rs (all_refs f.es)))),
          )
          (ap (λ (m : List (Option Message)). m ++ ns) f.says);
  }

  pub perform_all-Adds :
      (cs : List Call) {rs : List ℕ} (q : Queue lua)
      → All IsPlain cs
      → Ledger lua base q.reg rs
      → Adds rs (map asked cs) q (perform_all lua cs q)
  unfolding perform_all
  perform_all-Adds [] q p l = Adds-none q l
  perform_all-Adds (c ∷ cs) q p l =
      let f = perform-Adds c q p.0 l in
      Adds-then f (perform_all-Adds cs (perform lua c q) p.1 f.ledger)
