-- ===== src/EventQueue/Draining/Reentry.antt =====
-- A drain whose handlers queue a mouse::move for the object of the event that is being drained.
use somewm.Common.{ℕ, ◌≡◌, refl, ap, ◌∙◌, true, some, List, [], ◌∷◌, ◌++◌, length, get_elem?, ◌==◌}
use somewm.EventQueue.{
  Registry, Event, Message, Call, Queue, queue_move, sig_mouse_move, same_object, move_scan,
  message, perform_all,
}
use somewm.EventQueue.Capacity.{move_length, move_scan_single, perform_all_move}
use somewm.EventQueue.Draining.{Drain, dispatch, drain_event, drain_loop, some_event_queue_drain}

module _ (lua : Registry) {U : Type 0} (handle : U → Message → U × List Call) where
  one_loop :
      (d : Drain lua handle) (e : Event)
      → d.queue.buf ≡ e ∷ []
      → drain_loop lua handle 1 0 d ≡ drain_event lua handle (some e) d
  unfolding drain_loop
  one_loop d e h = ap (λ (b : List Event). drain_event lua handle (get_elem? b 0) d) h

  -- The snapshot has one event, and the queue holds one after its round: nothing is left.
  one_round :
      (d : Drain lua handle) (e : Event)
      → d.queue.buf ≡ e ∷ []
      → length (drain_event lua handle (some e) d).queue.buf ≡ 1
      → let d' = some_event_queue_drain lua handle d in
        (d'.queue.buf ≡ []) × (d'.sent ≡ (drain_event lua handle (some e) d).sent)
  unfolding some_event_queue_drain
  one_round d e h n =
      let c : length d.queue.buf ≡ 1 = ap length h in
      let l = ap (λ (k : ℕ). drain_loop lua handle k 0 d) c ∙ one_loop d e h in
      rw (l, c, n) (refl, refl)

  round :
      (d : Drain lua handle) (e : Event) (m : Message)
      → message lua d.queue.reg e ≡ some m
      → ((drain_event lua handle (some e) d).queue.buf
          ≡ (perform_all lua (handle d.user m).1 d.queue).buf)
        × ((drain_event lua handle (some e) d).sent ≡ d.sent ++ m ∷ [])
  unfolding drain_event dispatch
  round d e m h = rw h (refl, refl)

  -- If the only pending event is a mouse::move of an object, and the handler of its signal queues
  -- another mouse::move of that object, then that one is lost: it is neither emitted by this drain nor
  -- left for the next one.
  pub reentrant_move_lost :
      (d : Drain lua handle) (e : Event) (m : Message) (o x y : ℕ)
      → d.queue.buf ≡ e ∷ []
      → (e.signal_id == sig_mouse_move) ≡ true
      → same_object lua d.queue.reg e.object_ref o ≡ true
      → message lua d.queue.reg e ≡ some m
      → (handle d.user m).1 ≡ queue_move o x y ∷ []
      → let d' = some_event_queue_drain lua handle d in
        (d'.queue.buf ≡ []) × (d'.sent ≡ d.sent ++ m ∷ [])
  reentrant_move_lost d e m o x y h named same says asks =
      let q = d.queue in
      let scan : move_scan lua q.buf q.reg o (length q.buf) ≡ some 0 =
        rw h (move_scan_single lua e q.reg o named same) in
      let (b, t) = round d e m says in
      let n : length (drain_event lua handle (some e) d).queue.buf ≡ 1 =
        ap length b
        ∙ ap (λ (cs : List Call). length (perform_all lua cs q).buf) asks
        ∙ ap (λ (p : Queue lua). length p.buf) (perform_all_move lua o x y q)
        ∙ move_length lua o x y q 0 scan
        ∙ ap length h in
      let (left, s) = one_round d e h n in (left, s ∙ t)
