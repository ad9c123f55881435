-- ===== src/Ipc/Reading/Freed.antt =====
-- ipc.c: a client that its own command destroys.
use somewm.Common.{
  ℕ, suc, ◌+◌, ◌<◌, ◌≡◌, ◌⊎◌, refl, sym, ap, ◌∙◌, subst, inl, inr, true, false, not, erase, Option,
  none, some, List, [], ◌∷◌, ◌++◌, ◌==◌, ==_iff, ltb, Bool-cases, if◌then◌else◌, length, has, take,
  update, arith,
}
use somewm.Common.Int.{pos, ◌-ℤ◌, ltb_ℤ}
use somewm.Common.Text.{newline}
use somewm.Ipc.{
  Ipc, IpcClient, Peer, Written, done, again, broken, Call, broadcast, Outcome, bytes, ◌>>=◌,
  set_ipc_client, ipc_client_destroy, broadcast_to, broadcast_all, ipc_broadcast, perform,
  perform_all, respond, ipc_process_command, ipc_dispatch_to_lua,
}
use somewm.Ipc.Mild.{plain, is_some, respond-Mild}
use somewm.Ipc.Counted.{IsValid, mark, subscribers}
use somewm.Ipc.Reading.Stream.{Ready, ensure_room-none}
use somewm.Ipc.Reading.{
  strchr, remove_command, take_command, take_commands, store_bytes, read_in, ipc_handle_client_data,
}

-- A run that goes on does so without the client `p`.
abbrev Lost : ℕ → Option Ipc → Type 0
Lost p none = Unit {0}
Lost p (some s) = s.client p ≡ none

-- A run that goes on does so with the client `p` as it was.
abbrev Stays : ℕ → IpcClient → Option Ipc → Type 0
Stays p c none = Unit {0}
Stays p c (some s) = s.client p ≡ some c

Lost-bind :
    (p : ℕ) (m : Option Ipc) (f : Ipc → Option Ipc)
    → Lost p m
    → ((s : Ipc) → s.client p ≡ none → Lost p (f s))
    → Lost p (m >>= f)
Lost-bind p none f h k = tt
Lost-bind p (some s) f h k = k s h

Stays-bind :
    (p : ℕ) (c : IpcClient) (m : Option Ipc) (f : Ipc → Option Ipc)
    → Stays p c m
    → ((s : Ipc) → s.client p ≡ some c → Lost p (f s))
    → Lost p (m >>= f)
Stays-bind p c none f h k = tt
Stays-bind p c (some s) f h k = k s h

-- Destroying a client, and the others.
module _ (p q : ℕ) (s : Ipc) where
  destroy-Lost : (s.client p ≡ none) ⊎ ((p == q) ≡ true) → Lost p (ipc_client_destroy q s)
  unfolding ipc_client_destroy
  destroy-Lost h =
      elim (s.client q)
        as (λ (o : Option IpcClient). Lost p (elim o [
          | none ↦ none
          | some c ↦ some (record s {
            ipc_subscriber_count =
                if c.subscribed then s.ipc_subscriber_count -ℤ pos 1 else s.ipc_subscriber_count;
            ipc_clients = erase q s.ipc_clients;
            client = update s.client q none;
          })
        ])) [ none ↦ tt | some c ↦ gone h ]
    where
      gone : (s.client p ≡ none) ⊎ ((p == q) ≡ true) → (if p == q then none else s.client p) ≡ none
      gone (inl n) = elim (Bool-cases (p == q)) [ inl e ↦ rw e refl | inr e ↦ rw e n ]
      gone (inr e) = rw e refl

  destroy-Stays :
      (c : IpcClient) → s.client p ≡ some c → (p == q) ≡ false → Stays p c (ipc_client_destroy q s)
  unfolding ipc_client_destroy
  destroy-Stays c h e =
      elim (s.client q)
        as (λ (o : Option IpcClient). Stays p c (elim o [
          | none ↦ none
          | some d ↦ some (record s {
            ipc_subscriber_count =
                if d.subscribed then s.ipc_subscriber_count -ℤ pos 1 else s.ipc_subscriber_count;
            ipc_clients = erase q s.ipc_clients;
            client = update s.client q none;
          })
        ])) [ none ↦ tt | some d ↦ rw e h ]

strchr-found :
    (l more : List ℕ)
    → has newline l ≡ false
    → has 0 l ≡ false
    → strchr newline (l ++ newline ∷ more) ≡ some (length l)
unfolding strchr
strchr-found [] more h z = refl
strchr-found (c ∷ l) more h z =
    let e : (c == newline) ≡ false = ground arith in
    let f : (c == 0) ≡ false = ground arith in
    rw (e, f, strchr-found l more (ground arith) (ground arith)) refl

take-length : (l more : List ℕ) → take (length l) (l ++ more) ≡ l
take-length [] more = refl
take-length (c ∷ l) more = ap (λ (x : List ℕ). c ∷ x) (take-length l more)

some_subscribed :
    (f : ℕ → Option IpcClient) (p : ℕ) (c : IpcClient) (ps : List ℕ)
    → has p ps ≡ true
    → f p ≡ some c
    → c.subscribed ≡ true
    → 0 < subscribers f ps
some_subscribed f p c [] h e b = absurd (ground arith)
some_subscribed f p c (q ∷ ps) h e b = elim (Bool-cases (q == p)) [
  | inl y ↦
      let m : mark (f q) ≡ 1 =
        ap (λ (x : ℕ). mark (f x)) ((==_iff q p).0 y) ∙ ap mark e ∙ rw b refl in
      omega (arith, m)
  | inr y ↦ omega (arith, some_subscribed f p c ps (ground arith) e b)
]

module _ (peer : Peer) (p : ℕ) where
  -- One turn of the loop over the clients, for `w` what becomes of the write.
  abbrev sent : List ℕ → ℕ → Ipc → IpcClient → Written → Option Ipc
  sent m q s c w = elim w [
    | done ↦ some (record s { written = s.written ++ (c.fd, m) ∷ [] })
    | again ↦ some s
    | broken ↦ ipc_client_destroy q s
  ]

  abbrev told : List ℕ → ℕ → Ipc → Option IpcClient → Option Ipc
  told m q s none = none
  told m q s (some c) = if not c.subscribed then some s else sent m q s c (peer.write c.fd m s)

  broadcast_to-told :
      (m : List ℕ) (q : ℕ) (s : Ipc) → broadcast_to peer m q s ≡ told m q s (s.client q)
  unfolding broadcast_to
  broadcast_to-told m q s =
      elim (s.client q)
        as (λ (o : Option IpcClient).
          (elim o [
            | none ↦ none
            | some c ↦ if not c.subscribed then some s else elim (peer.write c.fd m s) [
              | done ↦ some (record s { written = s.written ++ (c.fd, m) ∷ [] })
              | again ↦ some s
              | broken ↦ ipc_client_destroy q s
            ]
          ])
          ≡ told m q s o) [ none ↦ refl | some c ↦ refl ]

  sent-Lost :
      (m : List ℕ) (q : ℕ) (s : Ipc) (c : IpcClient) (w : Written)
      → s.client p ≡ none
      → Lost p (sent m q s c w)
  sent-Lost m q s c done h = h
  sent-Lost m q s c again h = h
  sent-Lost m q s c broken h = destroy-Lost p q s (inl h)

  to-Lost : (m : List ℕ) (q : ℕ) (s : Ipc) → s.client p ≡ none → Lost p (broadcast_to peer m q s)
  to-Lost m q s h = subst (Lost p) (sym (broadcast_to-told m q s)) (at (s.client q))
    where
      at : (o : Option IpcClient) → Lost p (told m q s o)
      at none = tt
      at (some c) = elim (Bool-cases (not c.subscribed)) [
        | inl e ↦ rw e h
        | inr e ↦ rw e (sent-Lost m q s c (peer.write c.fd m s) h)
      ]

  all-Lost : (m ps : List ℕ) (s : Ipc) → s.client p ≡ none → Lost p (broadcast_all peer m ps s)
  unfolding broadcast_all
  all-Lost m [] s h = h
  all-Lost m (q ∷ ps) s h = Lost-bind p _ _ (to-Lost m q s h) (all-Lost m ps)

  module _ (c : IpcClient) (m : List ℕ) (refused : (t : Ipc) → peer.write c.fd m t ≡ broken) where
    to-Stays :
        (q : ℕ) (s : Ipc)
        → s.client p ≡ some c
        → (p == q) ≡ false
        → Stays p c (broadcast_to peer m q s)
    to-Stays q s h e = subst (Stays p c) (sym (broadcast_to-told m q s)) (at (s.client q))
      where
        out : (d : IpcClient) (w : Written) → Stays p c (sent m q s d w)
        out d done = h
        out d again = h
        out d broken = destroy-Stays p q s c h e

        at : (o : Option IpcClient) → Stays p c (told m q s o)
        at none = tt
        at (some d) = elim (Bool-cases (not d.subscribed)) [
          | inl y ↦ rw y h
          | inr y ↦ rw y (out d (peer.write d.fd m s))
        ]

    self-Lost :
        (s : Ipc) → s.client p ≡ some c → c.subscribed ≡ true → Lost p (broadcast_to peer m p s)
    self-Lost s h b =
        let e : broadcast_to peer m p s ≡ ipc_client_destroy p s =
          broadcast_to-told m p s ∙ ap (told m p s) h ∙ rw (b, refused s) refl in
        subst (Lost p) (sym e) (destroy-Lost p p s (inr ((==_iff p p).1 refl)))

    loses :
        (ps : List ℕ) (s : Ipc)
        → has p ps ≡ true
        → s.client p ≡ some c
        → c.subscribed ≡ true
        → Lost p (broadcast_all peer m ps s)
    unfolding broadcast_all
    loses [] s h t b = absurd (ground arith)
    loses (q ∷ ps) s h t b = elim (Bool-cases (p == q)) [
      | inl e ↦
          let one =
            subst (λ (x : ℕ). Lost p (broadcast_to peer m x s)) ((==_iff p q).0 e)
              (self-Lost s t b) in
          Lost-bind p _ _ one (all-Lost m ps)
      | inr e ↦ Stays-bind p c _ _ (to-Stays q s t e) (λ u k. loses ps u (ground arith) k b)
    ]

    broadcast-Lost :
        (s : Ipc)
        → has p s.ipc_clients ≡ true
        → s.client p ≡ some c
        → c.subscribed ≡ true
        → ltb_ℤ (pos 0) s.ipc_subscriber_count ≡ true
        → Lost p (ipc_broadcast peer m s)
    unfolding ipc_broadcast
    broadcast-Lost s h t b n = rw n (loses s.ipc_clients s h t b)

    respond-Lost :
        (fd : ℕ) (o : Outcome) (s : Ipc) → s.client p ≡ none → (respond peer fd o s).client p ≡ none
    respond-Lost fd o s h = bare _ ((respond-Mild peer fd o s).client p ∙ ap plain h)
      where
        bare : (x : Option IpcClient) → plain x ≡ none → x ≡ none
        bare none e = refl
        bare (some d) e = absurd (ground arith)

    process-Lost :
        (command : List ℕ) (o : Outcome) (s : Ipc)
        → ((t : Ipc) → peer.lua c.fd command t ≡ (broadcast m ∷ [], o))
        → has p s.ipc_clients ≡ true
        → s.client p ≡ some c
        → c.subscribed ≡ true
        → ltb_ℤ (pos 0) s.ipc_subscriber_count ≡ true
        → Lost p (ipc_process_command peer p command s)
    unfolding ipc_process_command ipc_dispatch_to_lua perform_all perform
    process-Lost command o s answer h t b n =
        let s0 = record s { dispatched = s.dispatched ++ (c.fd, command) ∷ [] } in
        let e : ipc_process_command peer p command s
            ≡ (ipc_broadcast peer m s0 >>= (λ (u : Ipc). some u))
              >>= (λ (u : Ipc). some (respond peer c.fd o u)) =
          ap
            (λ (x : Option IpcClient). elim x [
              | none ↦ none
              | some d ↦
                  ipc_dispatch_to_lua peer d.fd command
                    (record s { dispatched = s.dispatched ++ (d.fd, command) ∷ [] })
            ])
            t
          ∙ ap
              (λ (r : List Call × Outcome).
                perform_all peer r.0 s0 >>= λ (u : Ipc). some (respond peer c.fd r.1 u))
              (answer s0) in
        subst (Lost p) (sym e) (
          Lost-bind p _ _ (Lost-bind p _ _ (broadcast-Lost s0 h t b n) (λ u k. k))
            (λ u k. respond-Lost c.fd o u k))

  fault :
      (m : Option Ipc) (f : Ipc → IpcClient → Option Ipc)
      → Lost p m
      → (m >>= λ s1. elim (s1.client p) [ none ↦ none | some c1 ↦ f s1 c1 ]) ≡ none
  fault none f h = refl
  fault (some s) f h = ap (λ (o : Option IpcClient). elim o [ none ↦ none | some c1 ↦ f s c1 ]) h

  take_command-fault :
      (n : ℕ) (c : IpcClient) (s : Ipc)
      → Lost p (ipc_process_command peer p (take (suc n) c.buffer) s)
      → take_command peer p (suc n) c s ≡ none
  unfolding take_command
  take_command-fault n c s h =
      let e : ltb 0 (suc n) ≡ true = ground arith in
      rw e (fault _ (λ s1 c1. some (set_ipc_client p (remove_command (suc n) c1) s1)) h)

  take_commands-fault :
      (k n : ℕ) (c : IpcClient) (s : Ipc)
      → s.client p ≡ some c
      → strchr newline c.buffer ≡ some (suc n)
      → Lost p (ipc_process_command peer p (take (suc n) c.buffer) s)
      → take_commands peer (suc k) p s ≡ none
  unfolding take_commands
  take_commands-fault k n c s t e h =
      ap
        (λ (x : Option IpcClient). elim x [
          | none ↦ none
          | some d ↦ elim (strchr newline d.buffer) [
            | none ↦ some s
            | some i ↦ take_command peer p i d s >>= take_commands peer k p
          ]
        ])
        t
      ∙ ap
          (λ (x : Option ℕ). elim x [
            | none ↦ some s
            | some i ↦ take_command peer p i c s >>= take_commands peer k p
          ])
          e
      ∙ ap (λ (x : Option Ipc). x >>= take_commands peer k p) (take_command-fault n c s h)

  -- If the client is a subscriber, and the handlers of the command that the next read completes answer
  -- with a broadcast, and its socket refuses the write for good: ipc_handle_client_data() goes on with
  -- the client that the broadcast has freed.
  pub handle_freed :
      (s : Ipc) (fd a : ℕ) (l more m : List ℕ) (o : Outcome) (r : Ready p fd (a ∷ l) s)
      → IsValid s
      → r.holds.c.subscribed ≡ true
      → ((t : Ipc) → peer.lua fd (a ∷ l) t ≡ (broadcast m ∷ [], o))
      → ((t : Ipc) → peer.write fd m t ≡ broken)
      → ipc_handle_client_data peer p (bytes (newline ∷ more)) s ≡ none
  unfolding ipc_handle_client_data read_in store_bytes take_commands take_command
  handle_freed s fd a l more m o r v b answer refused =
      let c = r.holds.c in
      let read = newline ∷ more in
      let c1 = record c { buffer = c.buffer ++ read; buffer_used = c.buffer_used + length read } in
      let s1 = set_ipc_client p c1 s in
      let member : has p s.ipc_clients ≡ true = v.listed p (ap is_some r.holds.there) in
      let counted : ltb_ℤ (pos 0) s.ipc_subscriber_count ≡ true =
        rw v.counted
          (positive (some_subscribed s.client p c s.ipc_clients member r.holds.there b)) in
      let there : s1.client p ≡ some c1 = rw ((==_iff p p).1 refl) refl in
      let lost =
        process-Lost c1 m (λ t. ap (λ (f : ℕ). peer.write f m t) r.holds.descriptor ∙ refused t)
          (a ∷ l) o s1 (λ t. ap (λ (f : ℕ). peer.lua f (a ∷ l) t) r.holds.descriptor ∙ answer t)
          member there b counted in
      let whole : c1.buffer ≡ a ∷ (l ++ read) = ap (λ (x : List ℕ). x ++ read) r.holds.buffer in
      let line : strchr newline c1.buffer ≡ some (suc (length l)) =
        ap (strchr newline) whole ∙ strchr-found (a ∷ l) more r.line r.text in
      let command : take (suc (length l)) c1.buffer ≡ a ∷ l =
        ap (take (suc (length l))) whole ∙ take-length (a ∷ l) read in
      let gone : take_commands peer (suc (length (l ++ read))) p s1 ≡ none =
        take_commands-fault (length (l ++ read)) (length l) c1 s1 there line
          (subst (λ (x : List ℕ). Lost p (ipc_process_command peer p x s1)) (sym command) lost) in
      let stored : store_bytes peer p read s ≡ none =
        ap
          (λ (x : Option IpcClient). elim x [
            | none ↦ none
            | some d ↦
                let d1 = record d {
                  buffer = d.buffer ++ read;
                  buffer_used = d.buffer_used + length read;
                } in
                take_commands peer (length d1.buffer) p (set_ipc_client p d1 s)
          ])
          r.holds.there
        ∙ ap (λ (x : List ℕ). take_commands peer (length x) p s1) whole
        ∙ gone in
      rw (ensure_room-none peer p fd (a ∷ l) s r, stored) refl
    where
      positive : {n : ℕ} → 0 < n → ltb_ℤ (pos 0) (pos n) ≡ true
      positive h = ground arith
