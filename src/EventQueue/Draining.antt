-- ===== src/EventQueue/Draining.antt =====
-- The consumers of event_queue.c: the drain at the frame boundary, and what drops pending events.
pub mod Round
pub mod Refine
pub mod Release
pub mod Reentry
use somewm.Common.{
  ℕ, zero, suc, Bool, Option, none, some, List, [], ◌∷◌, ◌++◌, ltb, if◌then◌else◌, length,
  get_elem?, drop,
}
use somewm.EventQueue.{Registry, Event, Message, Call, Queue, message, cleanup, perform_all}

module _ (lua : Registry) where
  pub some_event_queue_pending : Queue lua → Bool
  some_event_queue_pending q = ltb 0 (length q.buf)

  pub release_all : List Event → lua.State → lua.State
  release_all [] s = s
  release_all (e ∷ es) s = release_all es (cleanup lua e s)

  pub some_event_queue_reset : Bool → Queue lua → Queue lua
  unfolding release_all
  some_event_queue_reset has_state q = record q {
    buf = [];
    reg = if has_state then release_all q.buf q.reg else q.reg;
  }

  pub some_event_queue_wipe : Bool → Queue lua → Queue lua
  unfolding release_all
  some_event_queue_wipe has_state q = record q {
    buf = [];
    cap = 0;
    reg = if has_state then release_all q.buf q.reg else q.reg;
  }

  -- The Lua side of a drain: `handle` is what the handlers of a signal do to their own state, and the
  -- calls of the queue that they make.
  module _ {U : Type 0} (handle : U → Message → U × List Call) where
    pub record Drain : Type 0 where
      pub user : U
      pub queue : Queue lua
      -- The signals that were emitted, oldest first.
      pub sent : List Message

    pub dispatch : Option Message → Drain → Drain
    dispatch none d = d
    dispatch (some m) d =
        let (u, calls) = handle d.user m in
        record { user = u; queue = perform_all lua calls d.queue; sent = d.sent ++ m ∷ [] }

    -- One round: the event is copied first, so its references are those it had before the handlers.
    pub drain_event : Option Event → Drain → Drain
    drain_event none d = d
    drain_event (some e) d =
        let d' = dispatch (message lua d.queue.reg e) d in
        record d' { queue = record (d'.queue) { reg = cleanup lua e d'.queue.reg } }

    -- `n` rounds from the index `i`.
    pub drain_loop : ℕ → ℕ → Drain → Drain
    drain_loop zero i d = d
    drain_loop (suc n) i d = drain_loop n (suc i) (drain_event (get_elem? d.queue.buf i) d)

    pub some_event_queue_drain : Drain → Drain
    some_event_queue_drain d =
        let count = length d.queue.buf in
        let d' = drain_loop count 0 d in
        record d' {
          queue = record (d'.queue) {
            buf = if ltb count (length d'.queue.buf) then drop count d'.queue.buf else [];
          };
        }
