-- ===== src/Examples/Events.antt =====
-- The queue over a registry kept as a list of slots.
use somewm.Common.{
  ℕ, zero, suc, ◌≡◌, ◌≢◌, refl, true, false, Option, some, none, List, [], ◌∷◌, has, arith,
}
use somewm.EventQueue.{
  Value, Message, Call, Queue, queue_signal, queue_global, queue_class_args, perform, perform_all,
  queue_move, Event, event_object, sig_mouse_move, object, table, some_event_queue_move,
  same_object, message,
}
use somewm.EventQueue.Ledger.{Ledger, all_refs}
use somewm.EventQueue.Push.{asked, Adds, perform-Adds, perform_all-Adds}
use somewm.EventQueue.Draining.{
  Drain, some_event_queue_drain, some_event_queue_reset, some_event_queue_wipe,
  some_event_queue_pending,
}
use somewm.EventQueue.Draining.Refine.{Drained, some_event_queue_drain-Drained}
use somewm.EventQueue.Draining.Release.{IsReleased, reset_wipe-IsReleased}
use somewm.EventQueue.Draining.Reentry.{reentrant_move_lost}
use somewm.EventQueue.Capacity.{Fits, perform-Fits}
use somewm.EventQueue.Move.{IsMove}
use somewm.EventQueue.Move.Fold.{moved, message-moved, Coalesced, some_event_queue_move-Coalesced}
use somewm.Examples.Data.{slots}

abbrev nothing : ℕ → Option Value
nothing r = none

abbrev empty : Queue slots
empty = record { buf = []; cap = 0; faulted = false; reg = [] }

empty-Ledger : Ledger slots nothing [] []
empty-Ledger = record {
  distinct = tt;
  in_use = λ r h. ground arith;
  own = λ r h. refl;
  others = λ r h. refl;
}

perform-Adds_example :
    Adds slots nothing []
      (asked (queue_signal 7 10 (3 ∷ [])) ∷ [])
      empty
      (perform slots (queue_signal 7 10 (3 ∷ [])) empty)
perform-Adds_example = perform-Adds slots nothing (queue_signal 7 10 (3 ∷ [])) empty tt empty-Ledger

abbrev calls : List Call
calls = queue_signal 7 10 (3 ∷ []) ∷ queue_class_args 1 16 (4 ∷ []) ∷ []

abbrev pending : Queue slots
pending = perform_all slots calls empty

-- A handler that counts the signals, and queues a global signal for each.
abbrev handle : ℕ → Message → ℕ × List Call
handle n m = (suc n, queue_global 13 ∷ [])

abbrev start : Drain slots handle
start = record { user = 0; queue = pending; sent = [] }

pending-Ledger : Ledger slots nothing pending.reg (all_refs pending.buf)
pending-Ledger =
    let f = perform_all-Adds slots nothing calls empty (tt, (tt, tt)) empty-Ledger in
    rw f.added f.ledger

some_event_queue_drain-Drained_example :
    Drained slots nothing handle (λ u m. (tt, tt)) start (some_event_queue_drain slots handle start)
some_event_queue_drain-Drained_example =
    some_event_queue_drain-Drained slots nothing handle (λ u m. (tt, tt)) start pending-Ledger

perform-Fits_example : Fits slots (perform slots (queue_move 7 1 2) empty)
perform-Fits_example = perform-Fits slots (queue_move 7 1 2) empty (omega arith) (omega arith, refl)

reset_wipe-IsReleased_example :
    (IsReleased slots nothing (some_event_queue_reset slots true pending).reg
      × (some_event_queue_pending slots (some_event_queue_reset slots true pending) ≡ false))
    × (IsReleased slots nothing (some_event_queue_wipe slots true pending).reg
        × (some_event_queue_pending slots (some_event_queue_wipe slots true pending) ≡ false))
reset_wipe-IsReleased_example = reset_wipe-IsReleased slots nothing pending pending-Ledger

-- A mouse::move of the object 7, and a queue that holds it alone.
abbrev move_event : Event
move_event = record {
  event_type = event_object;
  signal_id = sig_mouse_move;
  object_ref = some 0;
  nargs = 2;
  args_ref = some 1;
  class_ptr = none;
}

abbrev moving : Queue slots
moving = record {
  buf = move_event ∷ [];
  cap = 64;
  faulted = false;
  reg = some (object 7) ∷ some (table (5 ∷ 6 ∷ [])) ∷ [];
}

moving-Ledger : Ledger slots nothing moving.reg (all_refs moving.buf)
moving-Ledger = record {
  distinct = (refl, (refl, tt));
  in_use = in_use;
  own = λ r h. refl;
  others = others;
}
  where
    in_use : (r : ℕ) → has r (0 ∷ 1 ∷ []) ≡ true → slots.value moving.reg r ≢ none
    in_use zero h e = cc
    in_use (suc zero) h e = cc
    in_use (suc (suc r)) h e = absurd (ground arith)

    others : (r : ℕ) → has r (0 ∷ 1 ∷ []) ≡ false → slots.value moving.reg r ≡ none
    others zero h = absurd (ground arith)
    others (suc zero) h = absurd (ground arith)
    others (suc (suc r)) h = refl

moving-IsMove : IsMove move_event
moving-IsMove = record {
  event_type = refl;
  signal_id = refl;
  nargs = refl;
  object_ref = (0, refl);
  args_ref = (1, refl);
}

some_event_queue_move-Coalesced_example :
    let q = some_event_queue_move slots 7 1 2 moving in
    Ledger slots nothing q.reg (all_refs q.buf) × Coalesced slots 7 1 2 moving q
some_event_queue_move-Coalesced_example =
    some_event_queue_move-Coalesced slots nothing 7 1 2 moving ((λ h. moving-IsMove), tt)
      moving-Ledger

-- A handler that moves the pointer over the same object again.
abbrev echo : ℕ → Message → ℕ × List Call
echo n m = (n, queue_move 7 1 2 ∷ [])

same : same_object slots moving.reg (some 0) 7 ≡ true
unfolding same_object
same = refl

says : message slots moving.reg move_event ≡ some (moved 7 5 6)
says = message-moved slots moving.reg move_event 0 1 7 5 6 refl refl refl refl refl refl refl

reentrant_move_lost_example :
    let d = some_event_queue_drain slots echo (record { user = 0; queue = moving; sent = [] }) in
    (d.queue.buf ≡ []) × (d.sent ≡ moved 7 5 6 ∷ [])
reentrant_move_lost_example =
    reentrant_move_lost slots echo (record { user = 0; queue = moving; sent = [] }) move_event
      (moved 7 5 6) 7 1 2 refl refl same says refl
