-- ===== src/EventQueue/Capacity.antt =====
-- The array of event_queue.c: no call writes past its capacity.
use somewm.Common.{
  ℕ, zero, suc, ◌≤◌, ◌<◌, ◌≡◌, refl, ap, inl, inr, true, false, Option, some, List, [], ◌∷◌, arith,
  Option-cases, ◌==◌, length, length-append,
}
use somewm.EventQueue.{
  Registry, Event, Call, Queue, queue_signal0, queue_signal, queue_global, queue_class,
  queue_global_args, queue_class_args, queue_move, queue_grow, queue_push, queue_write,
  some_event_queue_signal, some_event_queue_signal0, queue_plain, some_event_queue_move, move_scan,
  set_args, same_object, sig_mouse_move, perform, perform_all,
}

-- Half of what an int can count.
abbrev pub half_end : ℕ
half_end = 1073741824

module _ (lua : Registry) where
  -- The events are within the array, and nothing went wrong: no event was written past the array,
  -- and the capacity never left an int.
  abbrev pub Fits : Queue lua → Type 0
  Fits q = (length q.buf ≤ q.cap) × (q.faulted ≡ false)

  -- The slot that queue_push() fills is within the array, which it grows first if need be.
  queue_push-Fits :
      (e : Event) (q : Queue lua) → length q.buf < half_end → Fits q → Fits (queue_push lua e q)
  unfolding queue_push queue_grow queue_write
  queue_push-Fits e q b h = (
    let l = length-append q.buf (e ∷ []) in let h0 = h.0 in ground arith,
    let h0 = h.0 in let h1 = h.1 in ground arith,
  )

  pub length-set_args :
      (es : List Event) (i : ℕ) (a : Option ℕ) → length (set_args lua es i a) ≡ length es
  length-set_args [] i a = refl
  length-set_args (e ∷ es) zero a = refl
  length-set_args (e ∷ es) (suc i) a = ap suc (length-set_args es i a)

  -- A call that finds an event to fold into leaves as many events as there were.
  pub move_length :
      (o x y : ℕ) (q : Queue lua) (i : ℕ)
      → move_scan lua q.buf q.reg o (length q.buf) ≡ some i
      → length (some_event_queue_move lua o x y q).buf ≡ length q.buf
  unfolding some_event_queue_move
  move_length o x y q i e = rw (e, some_event_queue_move) (length-set_args q.buf i _)

  -- The only event is a mouse::move of the object: the scan finds it.
  pub move_scan_single :
      (e : Event) (s : lua.State) (o : ℕ)
      → (e.signal_id == sig_mouse_move) ≡ true
      → same_object lua s e.object_ref o ≡ true
      → move_scan lua (e ∷ []) s o 1 ≡ some 0
  unfolding move_scan
  move_scan_single e s o h k = rw (h, k) refl

  pub perform_all_move :
      (o x y : ℕ) (q : Queue lua)
      → perform_all lua (queue_move o x y ∷ []) q ≡ some_event_queue_move lua o x y q
  unfolding perform_all perform
  perform_all_move o x y q = refl

  move-Fits :
      (o x y : ℕ) (q : Queue lua)
      → length q.buf < half_end
      → Fits q
      → Fits (some_event_queue_move lua o x y q)
  unfolding some_event_queue_move
  move-Fits o x y q b h = elim (Option-cases (move_scan lua q.buf q.reg o (length q.buf))) [
    | inl e ↦ rw (e, some_event_queue_move) (queue_push-Fits _ _ b h)
    | inr (i, e) ↦ rw (e, some_event_queue_move) (rw (length-set_args q.buf i) h)
  ]

  -- Below 2 ^ 30 events, a call of the queue keeps this: the events are within the array, no event
  -- was ever written past it, and its capacity never left an int.
  pub perform-Fits :
      (c : Call) (q : Queue lua) → length q.buf < half_end → Fits q → Fits (perform lua c q)
  unfolding perform some_event_queue_signal0 some_event_queue_signal queue_plain
  perform-Fits (queue_signal0 o id) q b h = queue_push-Fits _ _ b h
  perform-Fits (queue_signal o id args) q b h = queue_push-Fits _ _ b h
  perform-Fits (queue_global id) q b h = queue_push-Fits _ _ b h
  perform-Fits (queue_class c id) q b h = queue_push-Fits _ _ b h
  perform-Fits (queue_global_args id args) q b h = queue_push-Fits _ _ b h
  perform-Fits (queue_class_args c id args) q b h = queue_push-Fits _ _ b h
  perform-Fits (queue_move o x y) q b h = move-Fits o x y q b h
