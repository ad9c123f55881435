-- ===== src/Ipc/Reading/Sound.antt =====
-- What each event of the command socket leads to is a valid state.
use somewm.Common.{
  ℕ, zero, suc, ◌+◌, ◌-◌, ◌<◌, ◌≡◌, ◌||◌, refl, ap, ◌∙◌, subst, inl, inr, Bool, true, false, Option,
  none, some, List, [], ◌∷◌, ◌++◌, ◌==◌, ==_iff, ltb, leb, Bool-cases, if◌then◌else◌, length, has,
  take, update, arith,
}
use somewm.Common.Int.{pos}
use somewm.Common.Text.{newline}
use somewm.Ipc.{
  Ipc, IpcClient, Peer, Received, ended, bytes, ipc_max_clients, ◌>>=◌, set_ipc_client, send,
  ipc_client_destroy, ipc_process_command, ipc_dispatch_to_lua,
}
use somewm.Ipc.Mild.{is_some, Live}
use somewm.Ipc.Counted.{
  IsValid, Keeps, set_ipc_client-IsValid, destroy-Keeps, logged-IsValid, Live-has, update-Live,
  subscribers-update,
}
use somewm.Ipc.Counted.Calls.{send-IsValid, dispatch-Keeps}
use somewm.Ipc.Reading.{
  strchr, ipc_buffer_grow, remove_command, too_long, ensure_room, take_command, take_commands,
  store_bytes, close, read_in, ipc_handle_client_data, ipc_handle_connection, destroy_all,
  ipc_cleanup,
}

-- A run that ends does so in a valid state.
abbrev pub Sound : Option Ipc → Type 0
Sound none = Unit {0}
Sound (some s) = IsValid s

abbrev SoundWith : Option (Bool × Ipc) → Type 0
SoundWith none = Unit {0}
SoundWith (some r) = IsValid r.1

pub Keeps-Sound : (r : Option Ipc) → Keeps r → Sound r
Keeps-Sound none k = tt
Keeps-Sound (some s) k = subst IsValid (ground (arith, k.returned)) k.valid

Sound-bind :
    (m : Option Ipc) (f : Ipc → Option Ipc)
    → Sound m
    → ((s : Ipc) → IsValid s → Sound (f s))
    → Sound (m >>= f)
Sound-bind none f h k = tt
Sound-bind (some s) f h k = k s h

SoundWith-bind :
    (m : Option (Bool × Ipc)) (f : Bool × Ipc → Option Ipc)
    → SoundWith m
    → ((r : Bool × Ipc) → IsValid r.1 → Sound (f r))
    → Sound (m >>= f)
SoundWith-bind none f h k = tt
SoundWith-bind (some r) f h k = k r h

freed : (p : ℕ) (s : Ipc) → s.client p ≡ none → ipc_client_destroy p s ≡ none
unfolding ipc_client_destroy
freed p s e = rw (e, ipc_client_destroy) refl

destroy-Sound : (p : ℕ) (s : Ipc) → IsValid s → Sound (ipc_client_destroy p s)
destroy-Sound p s v = at (s.client p) refl
  where
    at : (o : Option IpcClient) → s.client p ≡ o → Sound (ipc_client_destroy p s)
    at none e = rw (freed p s e) tt
    at (some c) e = Keeps-Sound _ (destroy-Keeps p s (v.listed p (ap is_some e)) v).0

grow-subscribed : (c c' : IpcClient) → ipc_buffer_grow c ≡ some c' → c'.subscribed ≡ c.subscribed
unfolding ipc_buffer_grow
grow-subscribed c c' e = ground arith

refused : (m : Option Ipc) → Sound m → SoundWith (m >>= λ s. some (false, s))
refused none h = tt
refused (some s) h = h

unlisted : (p : ℕ) (s : Ipc) → s.client p ≡ none → IsValid s → has p s.ipc_clients ≡ false
unlisted p s e v = elim (Bool-cases (has p s.ipc_clients)) [
  | inl h ↦
      let l = Live-has s p s.ipc_clients v.live h in absurd (let l' = ap is_some e in ground arith)
  | inr h ↦ h
]

added-IsValid :
    (p : ℕ) (c : IpcClient) (s : Ipc)
    → s.client p ≡ none
    → c.subscribed ≡ false
    → length s.ipc_clients < ipc_max_clients
    → IsValid s
    → IsValid (record s { ipc_clients = p ∷ s.ipc_clients; client = update s.client p (some c) })
added-IsValid p c s e b l v =
    let out = unlisted p s e v in
    let sum = subscribers-update s.client p (some c) s.ipc_clients v.distinct in
    record {
      distinct = (out, v.distinct);
      live = (
        rw ((==_iff p p).1 refl) refl,
        carried s.ipc_clients (update-Live s p (some c) s.ipc_clients (inl out) v.live),
      );
      counted = v.counted ∙ ap pos (rw ((==_iff p p).1 refl, b) (omega (arith, rw out at sum)));
      listed = listed;
      few = omega arith;
    }
  where
    carried :
        (ps : List ℕ)
        → Live (record s { client = update s.client p (some c) }) ps
        → Live
            (record s { ipc_clients = p ∷ s.ipc_clients; client = update s.client p (some c) })
            ps
    carried [] h = tt
    carried (q ∷ ps) h = (h.0, carried ps h.1)

    listed :
        (q : ℕ)
        → is_some (update s.client p (some c) q) ≡ true
        → (p == q || has q s.ipc_clients) ≡ true
    listed q h = elim (Bool-cases (q == p)) [
      | inl y ↦ ground arith
      | inr y ↦ let k = v.listed q (rw y at h) in ground arith
    ]

module _ (peer : Peer) where
  ensure_room-Sound : (p : ℕ) (s : Ipc) → IsValid s → SoundWith (ensure_room peer p s)
  unfolding ensure_room
  ensure_room-Sound p s v = at (s.client p) refl
    where
      grow :
          (c : IpcClient) (o : Option IpcClient)
          → s.client p ≡ some c
          → ipc_buffer_grow c ≡ o
          → SoundWith (elim o [
            | none ↦ ipc_client_destroy p (send peer c.fd too_long s) >>= λ s1. some (false, s1)
            | some c' ↦ some (true, set_ipc_client p c' s)
          ])
      grow c none e g =
          refused (ipc_client_destroy p (send peer c.fd too_long s))
            (destroy-Sound p (send peer c.fd too_long s) (send-IsValid peer c.fd too_long s v))
      grow c (some c') e g = set_ipc_client-IsValid p c c' s e (grow-subscribed c c' g) v

      at :
          (o : Option IpcClient)
          → s.client p ≡ o
          → SoundWith (elim o [
            | none ↦ none
            | some c ↦
                if leb (c.buffer_size - 1) c.buffer_used
                then elim (ipc_buffer_grow c) [
                  | none ↦
                      ipc_client_destroy p (send peer c.fd too_long s) >>= λ s1. some (false, s1)
                  | some c' ↦ some (true, set_ipc_client p c' s)
                ]
                else some (true, s)
          ])
      at none e = tt
      at (some c) e = elim (Bool-cases (leb (c.buffer_size - 1) c.buffer_used)) [
        | inl y ↦ rw y (grow c (ipc_buffer_grow c) e refl)
        | inr y ↦ rw y v
      ]

  process-Sound :
      (p : ℕ) (command : List ℕ) (s : Ipc)
      → IsValid s
      → Sound (ipc_process_command peer p command s)
  unfolding ipc_process_command
  process-Sound p command s v = at (s.client p)
    where
      at :
          (o : Option IpcClient)
          → Sound (elim o [
            | none ↦ none
            | some c ↦
                ipc_dispatch_to_lua peer c.fd command
                  (record s { dispatched = s.dispatched ++ (c.fd, command) ∷ [] })
          ])
      at none = tt
      at (some c) =
          Keeps-Sound _ (dispatch-Keeps peer c.fd command _ (logged-IsValid s s.written _ v))

  take_command-Sound :
      (p n : ℕ) (c : IpcClient) (s : Ipc) → IsValid s → Sound (take_command peer p n c s)
  unfolding take_command remove_command
  take_command-Sound p n c s v = Sound-bind _ _ processed remove
    where
      processed : Sound (if ltb 0 n then ipc_process_command peer p (take n c.buffer) s else some s)
      processed = elim (Bool-cases (ltb 0 n)) [
        | inl y ↦ rw y (process-Sound p (take n c.buffer) s v)
        | inr y ↦ rw y v
      ]

      at :
          (t : Ipc) (o : Option IpcClient)
          → IsValid t
          → t.client p ≡ o
          → Sound
              (elim o [ none ↦ none | some c1 ↦ some (set_ipc_client p (remove_command n c1) t) ])
      at t none w e = tt
      at t (some c1) w e = set_ipc_client-IsValid p c1 (remove_command n c1) t e refl w

      remove :
          (t : Ipc)
          → IsValid t
          → Sound (elim (t.client p) [
            | none ↦ none
            | some c1 ↦ some (set_ipc_client p (remove_command n c1) t)
          ])
      remove t w = at t (t.client p) w refl

  take_commands-Sound : (k p : ℕ) (s : Ipc) → IsValid s → Sound (take_commands peer k p s)
  unfolding take_commands
  take_commands-Sound zero p s v = v
  take_commands-Sound (suc k) p s v = at (take_commands-Sound k p) (s.client p)
    where
      round :
          ((t : Ipc) → IsValid t → Sound (take_commands peer k p t))
          → (c : IpcClient) (o : Option ℕ)
          → Sound (elim o [
            | none ↦ some s
            | some n ↦ take_command peer p n c s >>= take_commands peer k p
          ])
      round ih c none = v
      round ih c (some n) = Sound-bind _ _ (take_command-Sound p n c s v) ih

      at :
          ((t : Ipc) → IsValid t → Sound (take_commands peer k p t))
          → (o : Option IpcClient)
          → Sound (elim o [
            | none ↦ none
            | some c ↦ elim (strchr newline c.buffer) [
              | none ↦ some s
              | some n ↦ take_command peer p n c s >>= take_commands peer k p
            ]
          ])
      at ih none = tt
      at ih (some c) = round ih c (strchr newline c.buffer)

  store_bytes-Sound :
      (p : ℕ) (read : List ℕ) (s : Ipc) → IsValid s → Sound (store_bytes peer p read s)
  unfolding store_bytes
  store_bytes-Sound p read s v = at (s.client p) refl
    where
      at :
          (o : Option IpcClient)
          → s.client p ≡ o
          → Sound (elim o [
            | none ↦ none
            | some c ↦
                let c1 = record c {
                  buffer = c.buffer ++ read;
                  buffer_used = c.buffer_used + length read;
                } in
                take_commands peer (length c1.buffer) p (set_ipc_client p c1 s)
          ])
      at none e = tt
      at (some c) e =
          take_commands-Sound (length (c.buffer ++ read)) p _
            (set_ipc_client-IsValid p c _ s e refl v)

  pub handle-Sound :
      (p : ℕ) (r : Received) (s : Ipc) → IsValid s → Sound (ipc_handle_client_data peer p r s)
  unfolding ipc_handle_client_data close read_in
  handle-Sound p ended s v = SoundWith-bind _ _ (ensure_room-Sound p s v) closing
    where
      closing : (r : Bool × Ipc) → IsValid r.1 → Sound (close peer p r)
      closing (true, t) w = destroy-Sound p t w
      closing (false, t) w = w
  handle-Sound p (bytes read) s v = SoundWith-bind _ _ (ensure_room-Sound p s v) reading
    where
      last : (t : Ipc) → IsValid t → Sound (ensure_room peer p t >>= (λ (r : Bool × Ipc). some r.1))
      last t w = SoundWith-bind _ _ (ensure_room-Sound p t w) (λ r x. x)

      reading : (r : Bool × Ipc) → IsValid r.1 → Sound (read_in peer p read r)
      reading (true, t) w =
          SoundWith-bind _ _ (again (store_bytes peer p read t) (store_bytes-Sound p read t w))
            (λ r x. x)
        where
          again : (m : Option Ipc) → Sound m → SoundWith (m >>= ensure_room peer p)
          again none h = tt
          again (some u) h = ensure_room-Sound p u h
      reading (false, t) w = w

  pub connection-IsValid :
      (watched : Bool) (p : ℕ) (fd : Option ℕ) (s : Ipc)
      → s.client p ≡ none
      → IsValid s
      → IsValid (ipc_handle_connection peer watched p fd s)
  unfolding ipc_handle_connection
  connection-IsValid watched p none s e v = v
  connection-IsValid watched p (some fd) s e v =
      elim (Bool-cases (leb ipc_max_clients (length s.ipc_clients))) [
        | inl y ↦ rw y (send-IsValid peer fd _ s v)
        | inr y ↦ elim (Bool-cases watched) [
          | inl w ↦ rw (y, w) (added-IsValid p _ s e refl (ground arith) v)
          | inr w ↦ rw (y, w) v
        ]
      ]

  destroy_all-Sound : (ps : List ℕ) (s : Ipc) → IsValid s → Sound (destroy_all ps s)
  unfolding destroy_all
  destroy_all-Sound [] s v = v
  destroy_all-Sound (p ∷ ps) s v =
      Sound-bind _ _ (destroy-Sound p s v) (λ t w. destroy_all-Sound ps t w)

  pub cleanup-Sound : (s : Ipc) → IsValid s → Sound (ipc_cleanup s)
  unfolding ipc_cleanup
  cleanup-Sound s v = destroy_all-Sound s.ipc_clients s v
