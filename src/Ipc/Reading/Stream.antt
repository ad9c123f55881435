-- ===== src/Ipc/Reading/Stream.antt =====
-- What a stream of bytes makes of a client, however the kernel cuts it into reads.
use mathlib.Core.List.{append_assoc, append-nil}
use somewm.Common.{
  ℕ, suc, ◌+◌, ◌-◌, ◌*◌, ◌<◌, ◌≤◌, ◌≡◌, refl, sym, ap, ◌∙◌, subst, inl, inr, Bool, true, false,
  Option, none, some, List, [], ◌∷◌, ◌++◌, ltb, leb, Bool-cases, if◌then◌else◌, has, has-append,
  has-take, has-drop, length-drop, length-take-le, take-append-drop, take-add, length,
  length-append, take, drop, arith,
}
use somewm.Common.Text.{newline}
use somewm.Ipc.{
  Ipc, IpcClient, Peer, bytes, ipc_buffer_max, ◌>>=◌, set_ipc_client, send, ipc_client_destroy,
}
use somewm.Ipc.Mild.{IsReliable}
use somewm.Ipc.Reading.{
  ipc_buffer_grow, ensure_room, take_commands, store_bytes, read_in, ipc_handle_client_data,
  too_long,
}
use somewm.Ipc.Reading.Lines.{
  split, commands, rest-le, rest-has, rest_unfinished, split-none, split-resume,
}
use somewm.Ipc.Reading.Rounds.{
  Holds, Takes, set_ipc_client-Holds, from, log-append, take_commands-Takes,
}

-- Between two reads: the buffer holds an unfinished line, and has room for two more bytes.
pub record Ready (p fd : ℕ) (b : List ℕ) (s : Ipc) : Type 0 where
  pub size : ℕ
  pub holds : Holds p fd size b s
  pub room : length b + 1 < size
  pub limit : size ≤ ipc_buffer_max
  pub text : has 0 b ≡ false
  pub line : has newline b ≡ false

-- The run leaves the client ready, with these bytes, and has handed on these commands.
pub record Serves (p fd : ℕ) (b : List ℕ) (ls : List (List ℕ)) (s : Ipc) (result : Option Ipc)
    : Type 0 where
  pub after : Ipc
  pub returned : result ≡ some after
  pub ready : Ready p fd b after
  pub dispatched : after.dispatched ≡ s.dispatched ++ from fd (commands ls)

record Roomy (p fd : ℕ) (b : List ℕ) (s : Ipc) (result : Option (Bool × Ipc)) : Type 0 where
  after : Ipc
  returned : result ≡ some (true, after)
  ready : Ready p fd b after
  dispatched : after.dispatched ≡ s.dispatched

module _ (peer : Peer) (p fd : ℕ) where
  room_of : IpcClient → Ipc → Option (Bool × Ipc)
  room_of c s =
      if leb (c.buffer_size - 1) c.buffer_used
      then elim (ipc_buffer_grow c) [
        | none ↦ ipc_client_destroy p (send peer c.fd too_long s) >>= λ s1. some (false, s1)
        | some c' ↦ some (true, set_ipc_client p c' s)
      ]
      else some (true, s)

  ensure_room-at :
      (c : IpcClient) (s : Ipc) → s.client p ≡ some c → ensure_room peer p s ≡ room_of c s
  unfolding ensure_room room_of
  ensure_room-at c s e =
      ap (λ (o : Option IpcClient). elim o [ none ↦ none | some d ↦ room_of d s ]) e

  -- A buffer that is not nearly full is left as it is.
  pub ensure_room-none :
      (b : List ℕ) (s : Ipc) → Ready p fd b s → ensure_room peer p s ≡ some (true, s)
  unfolding room_of
  ensure_room-none b s r =
      let c = r.holds.c in
      let e : leb (c.buffer_size - 1) c.buffer_used ≡ false =
        rw (r.holds.buffer_size, r.holds.buffer_used) (ground (arith, r.room)) in
      ensure_room-at c s r.holds.there ∙ rw e refl

  grown :
      (c : IpcClient)
      → c.buffer_size < ipc_buffer_max
      → ipc_buffer_grow c
        ≡ some (record c {
          buffer_size =
              if ltb ipc_buffer_max (c.buffer_size * 2) then ipc_buffer_max else c.buffer_size * 2;
        })
  unfolding ipc_buffer_grow
  grown c h = ground arith

  -- One that is nearly full grows, unless it is as large as it may be.
  ensure_room-Roomy :
      (size : ℕ) (b : List ℕ) (s : Ipc)
      → Holds p fd size b s
      → length b < size
      → size ≤ ipc_buffer_max
      → length b + 1 < ipc_buffer_max
      → has 0 b ≡ false
      → has newline b ≡ false
      → Roomy p fd b s (ensure_room peer p s)
  unfolding room_of
  ensure_room-Roomy size b s h lt le fits z l =
      elim (Bool-cases (leb (h.c.buffer_size - 1) h.c.buffer_used)) [
        | inr e ↦ record {
          after = s;
          returned = ensure_room-at h.c s h.there ∙ rw e refl;
          ready = record {
            size = size;
            holds = h;
            room = ground (arith, h.buffer_size, h.buffer_used);
            limit = le;
            text = z;
            line = l;
          };
          dispatched = refl;
        }
        | inl e ↦
            let new_size =
              if ltb ipc_buffer_max (h.c.buffer_size * 2)
              then ipc_buffer_max
              else h.c.buffer_size * 2 in
            let c' = record (h.c) { buffer_size = new_size } in
            let small : h.c.buffer_size < ipc_buffer_max =
              ground (arith, h.buffer_size, h.buffer_used) in
            record {
              after = set_ipc_client p c' s;
              returned = ensure_room-at h.c s h.there ∙ rw (e, grown h.c small) refl;
              ready = record {
                size = new_size;
                holds =
                    subst (λ (f : ℕ). Holds p f new_size b (set_ipc_client p c' s)) h.descriptor
                      (set_ipc_client-Holds p c' b s h.live h.buffer h.buffer_used);
                room = ground (arith, h.buffer_size);
                limit = ground arith;
                text = z;
                line = l;
              };
              dispatched = refl;
            }
      ]

  -- How many bytes read() is asked for.
  abbrev pub asked : Ipc → ℕ
  asked s = elim (s.client p) [ none ↦ 0 | some c ↦ c.buffer_size - c.buffer_used - 1 ]

  asked_lem : (b : List ℕ) (s : Ipc) (r : Ready p fd b s) → (asked s ≡ r.size - length b - 1)
  asked_lem b s r =
      ap
        (λ (o : Option IpcClient). elim o [ none ↦ 0 | some c ↦ c.buffer_size - c.buffer_used - 1 ])
        r.holds.there
      ∙ rw (r.holds.buffer_size, r.holds.buffer_used) refl

  module _ (reliable : IsReliable peer) where
    store_bytes-Takes :
        (b read : List ℕ) (s : Ipc) (r : Ready p fd b s)
        → has 0 read ≡ false
        → Takes p fd r.size
            (split [] (b ++ read)).1
            (split [] (b ++ read)).0
            s
            (store_bytes peer p read s)
    unfolding store_bytes
    store_bytes-Takes b read s r z =
        let h = r.holds in
        let c1 = record (h.c) {
          buffer = h.c.buffer ++ read;
          buffer_used = h.c.buffer_used + length read;
        } in
        let s1 = set_ipc_client p c1 s in
        let joined : c1.buffer ≡ b ++ read = ap (λ (x : List ℕ). x ++ read) h.buffer in
        let holds : Holds p fd r.size (b ++ read) s1 =
          subst (λ (f : ℕ). Holds p f r.size (b ++ read) s1) h.descriptor
            (subst (λ (k : ℕ). Holds p h.c.fd k (b ++ read) s1) h.buffer_size
              (set_ipc_client-Holds p c1 (b ++ read) s h.live joined
                (omega (arith, h.buffer_used, length-append b read)))) in
        let run =
          take_commands-Takes peer reliable p fd r.size (length (b ++ read)) (b ++ read) s1
            (has-append 0 b read ∙ rw (r.text, z) refl) (omega arith) holds in
        let e : store_bytes peer p read s ≡ take_commands peer (length (b ++ read)) p s1 =
          ap
            (λ (o : Option IpcClient). elim o [
              | none ↦ none
              | some c ↦
                  let c1 = record c {
                    buffer = c.buffer ++ read;
                    buffer_used = c.buffer_used + length read;
                  } in
                  take_commands peer (length c1.buffer) p (set_ipc_client p c1 s)
            ])
            h.there
          ∙ ap (λ (x : List ℕ). take_commands peer (length x) p s1) joined in
        record {
          after = run.after;
          returned = e ∙ run.returned;
          holds = run.holds;
          dispatched = run.dispatched;
        }

    -- One call, for a read of as many bytes as were asked for at most.
    handle-Serves :
        (b read : List ℕ) (s : Ipc)
        → Ready p fd b s
        → length read ≤ asked s
        → has 0 read ≡ false
        → length (split [] (b ++ read)).1 + 1 < ipc_buffer_max
        → Serves p fd
            (split [] (b ++ read)).1
            (split [] (b ++ read)).0
            s
            (ipc_handle_client_data peer p (bytes read) s)
    unfolding ipc_handle_client_data read_in
    handle-Serves b read s r le z short =
        let rest = (split [] (b ++ read)).1 in
        let run = store_bytes-Takes b read s r z in
        let fits : length read ≤ r.size - length b - 1 =
          subst (λ (k : ℕ). length read ≤ k) (asked_lem b s r) le in
        let room =
          ensure_room-Roomy r.size rest run.after run.holds
            (omega (arith, rest-le [] (b ++ read), length-append b read, r.room)) r.limit short
            (rest-has 0 [] (b ++ read) refl (has-append 0 b read ∙ rw (r.text, z) refl))
            (rest_unfinished [] (b ++ read) refl) in
        record {
          after = room.after;
          returned = rw (ensure_room-none b s r, run.returned, room.returned) refl;
          ready = room.ready;
          dispatched = room.dispatched ∙ run.dispatched;
        }

  -- The kernel hands a stream over in reads: each `k` of `cuts` allows one read of `k + 1` bytes, or of
  -- as many as were asked for and are there.
  pub deliver : List ℕ → List ℕ → Ipc → Option (List ℕ × Ipc)
  deliver [] stream s = some (stream, s)
  deliver (k ∷ cuts) [] s = some ([], s)
  deliver (k ∷ cuts) (x ∷ xs) s =
      let n = if leb (suc k) (asked s) then suc k else asked s in
      ipc_handle_client_data peer p (bytes (take n (x ∷ xs))) s >>= deliver cuts (drop n (x ∷ xs))

  -- No unfinished line of the stream, which goes on behind `b`, fills the largest buffer.
  abbrev pub IsShort : List ℕ → List ℕ → Type 0
  IsShort b stream = (n : ℕ) → length (split [] (b ++ take n stream)).1 + 1 < ipc_buffer_max

  -- So it is for a stream that is short itself.
  pub length-IsShort :
      (b stream : List ℕ) → length b + length stream + 1 < ipc_buffer_max → IsShort b stream
  length-IsShort b stream h n =
      let all = ap length (take-append-drop n stream) in
      omega (
        arith,
        rest-le [] (b ++ take n stream),
        length-append b (take n stream),
        length-append (take n stream) (drop n stream),
      )

  -- Of the stream this much arrives, and the client is served as if it had arrived at once. Where no
  -- read is missing, all of it arrives.
  pub record Delivers (b cuts stream : List ℕ) (s : Ipc) (result : Option (List ℕ × Ipc))
      : Type 0 where
    pub sent : List ℕ
    pub left : List ℕ
    pub whole : stream ≡ sent ++ left
    pub complete : length stream ≤ length cuts → left ≡ []
    pub after : Ipc
    pub returned : result ≡ some (left, after)
    pub ready : Ready p fd (split [] (b ++ sent)).1 after
    pub dispatched : after.dispatched ≡ s.dispatched ++ from fd (commands (split [] (b ++ sent)).0)

  module _ (reliable : IsReliable peer) where
    nothing-Delivers :
        (b cuts stream : List ℕ) (s : Ipc)
        → Ready p fd b s
        → (length stream ≤ length cuts → stream ≡ [])
        → Delivers b cuts stream s (some (stream, s))
    nothing-Delivers b cuts stream s r end =
        let all = split-none [] (b ++ []) (has-append newline b [] ∙ rw r.line refl) in
        let e : split [] (b ++ []) ≡ ([], b) = all ∙ rw (append-nil b) refl in
        record {
          sent = [];
          left = stream;
          whole = refl;
          complete = end;
          after = s;
          returned = refl;
          ready = rw e r;
          dispatched = rw e (sym (append-nil s.dispatched));
        }

    resumed :
        (n : ℕ) (b stream : List ℕ)
        → IsShort b stream
        → IsShort (split [] (b ++ take n stream)).1 (drop n stream)
    resumed n b stream h m =
        let r = take n stream in
        let t = take m (drop n stream) in
        let e : (split [] ((split [] (b ++ r)).1 ++ t)).1
            ≡ (split [] (b ++ take (n + m) stream)).1 =
          sym (ap (λ (q : List (List ℕ) × List ℕ). q.1) (split-resume (b ++ r) t))
          ∙ ap (λ (x : List ℕ). (split [] x).1)
              (append_assoc b r t ∙ ap (λ (x : List ℕ). b ++ x) (take-add n m stream)) in
        subst (λ (x : List ℕ). length x + 1 < ipc_buffer_max) (sym e) (h (n + m))

    join :
        (b r cuts stream : List ℕ) (k : ℕ) (s : Ipc) (x : Option Ipc)
        → (one : Serves p fd (split [] (b ++ r)).1 (split [] (b ++ r)).0 s x)
        → Delivers (split [] (b ++ r)).1 cuts stream one.after (deliver cuts stream one.after)
        → (length (r ++ stream) ≤ length (k ∷ cuts) → length stream ≤ length cuts)
        → Delivers b (k ∷ cuts) (r ++ stream) s (x >>= deliver cuts stream)
    join b r cuts stream k s x one rest fewer =
        let whole : split [] (b ++ (r ++ rest.sent)) ≡ (
          (split [] (b ++ r)).0 ++ (split [] ((split [] (b ++ r)).1 ++ rest.sent)).0,
          (split [] ((split [] (b ++ r)).1 ++ rest.sent)).1,
        ) =
          rw (← append_assoc b r rest.sent) (split-resume (b ++ r) rest.sent) in
        record {
          sent = r ++ rest.sent;
          left = rest.left;
          whole = ap (λ (l : List ℕ). r ++ l) rest.whole ∙ sym (append_assoc r rest.sent rest.left);
          complete = λ h. rest.complete (fewer h);
          after = rest.after;
          returned =
              ap (λ (o : Option Ipc). o >>= deliver cuts stream) one.returned ∙ rest.returned;
          ready = rw whole rest.ready;
          dispatched =
              rw whole
                (log-append fd (split [] (b ++ r)).0 _ s.dispatched one.dispatched rest.dispatched);
        }

    -- If no write is refused for good, the bytes are not zero, and no unfinished line fills the
    -- largest buffer: however the kernel cuts the stream into reads of at most the bytes that were
    -- asked for, each is handled, and what has arrived leads to the commands that its lines are,
    -- without the empty ones, in their order, and leaves the unfinished line in the buffer. All of
    -- it arrives if there are as many reads as bytes.
    pub deliver-Delivers :
        (cuts stream b : List ℕ) (s : Ipc)
        → Ready p fd b s
        → has 0 stream ≡ false
        → IsShort b stream
        → Delivers b cuts stream s (deliver cuts stream s)
    unfolding deliver
    deliver-Delivers [] stream b s r z short = nothing-Delivers b [] stream s r (empty stream)
      where
        empty : (l : List ℕ) → length l ≤ 0 → l ≡ []
        empty [] h = refl
        empty (x ∷ l) h = absurd (omega arith)
    deliver-Delivers (k ∷ cuts) [] b s r z short = nothing-Delivers b (k ∷ cuts) [] s r (λ h. refl)
    deliver-Delivers (k ∷ cuts) (x ∷ xs) b s r z short =
        let n = if leb (suc k) (asked s) then suc k else asked s in
        let l = x ∷ xs in
        let some_asked : 0 < asked s = omega (arith, asked_lem b s r, r.room) in
        let positive : 0 < n = ground arith in
        let le : n ≤ asked s = ground arith in
        let one =
          handle-Serves reliable b (take n l) s r (omega (arith, length-take-le n l))
            (has-take 0 n l z) (short n) in
        let rest =
          deliver-Delivers cuts (drop n l) (split [] (b ++ take n l)).1 one.after one.ready
            (has-drop 0 n l z) (resumed n b l short) in
        let fewer : length (take n l ++ drop n l) ≤ length (k ∷ cuts)
            → length (drop n l) ≤ length cuts =
          λ h. let all = ap length (take-append-drop n l) in omega (arith, length-drop n l) in
        subst (λ (t : List ℕ). Delivers b (k ∷ cuts) t s (deliver (k ∷ cuts) l s))
          (sym (take-append-drop n l)) (join b (take n l) cuts (drop n l) k s _ one rest fewer)
