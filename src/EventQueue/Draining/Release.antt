-- ===== src/EventQueue/Draining/Release.antt =====
-- some_event_queue_reset() and some_event_queue_wipe(): no reference of a pending event is left behind.
use mathlib.Core.List.{append-nil, append_assoc}
use somewm.Common.{ℕ, ◌≡◌, refl, true, false, Option, List, [], ◌∷◌, ◌++◌}
use somewm.EventQueue.{Value, Registry, Event, Queue, cleanup}
use somewm.EventQueue.Ledger.{Ledger, Ledger-cleanup, refs, all_refs}
use somewm.EventQueue.Draining.{
  release_all, some_event_queue_pending, some_event_queue_reset, some_event_queue_wipe,
}

module _ (lua : Registry) (base : ℕ → Option Value) where
  release_all-Ledger :
      (es : List Event) {rs : List ℕ} (s : lua.State)
      → Ledger lua base s (all_refs es ++ rs)
      → Ledger lua base (release_all lua es s) rs
  unfolding release_all
  release_all-Ledger [] s l = l
  release_all-Ledger (e ∷ es) {rs} s l =
      release_all-Ledger es (cleanup lua e s)
        (Ledger-cleanup lua base e (rw (← append_assoc (refs e) (all_refs es) rs) l)).0

  -- The registry holds what it holds without the queue.
  abbrev pub IsReleased : lua.State → Type 0
  IsReleased s = (r : ℕ) → lua.value s r ≡ base r

  released :
      (es : List Event) (s : lua.State)
      → Ledger lua base s (all_refs es)
      → IsReleased (release_all lua es s)
  released es s l r =
      (release_all-Ledger es {rs = []} s (rw (append-nil (all_refs es)) l)).others r refl

  -- With a Lua state, on a queue that owns its references, both drop every pending event and give back
  -- every reference: the registry then holds what it holds without the queue.
  pub reset_wipe-IsReleased :
      (q : Queue lua)
      → Ledger lua base q.reg (all_refs q.buf)
      → (IsReleased (some_event_queue_reset lua true q).reg
          × (some_event_queue_pending lua (some_event_queue_reset lua true q) ≡ false))
        × (IsReleased (some_event_queue_wipe lua true q).reg
            × (some_event_queue_pending lua (some_event_queue_wipe lua true q) ≡ false))
  unfolding some_event_queue_reset some_event_queue_wipe some_event_queue_pending
  reset_wipe-IsReleased q l = ((released q.buf q.reg l, refl), (released q.buf q.reg l, refl))
