-- ===== src/Ipc/Counted/Calls.antt =====
-- What Lua can call, on a valid state.
use somewm.Common.{
  ℕ, ◌≡◌, ◌≢◌, refl, ap, ◌∙◌, inl, inr, true, false, not, Option, none, some, List, [], ◌∷◌, ◌++◌,
  ◌==◌, Bool-cases, Option-cases, if◌then◌else◌, has, Nodup, has-erase_ne, arith,
}
use somewm.Common.Int.{pos, ltb_ℤ}
use somewm.Ipc.{
  Ipc, IpcClient, Peer, Written, done, again, broken, Call, send_response, subscribe_client,
  broadcast, Outcome, ipc_client_destroy, find_fd, subscribe_at, ipc_subscribe_client, send,
  ipc_send_response, needs_newline, broadcast_to, broadcast_all, ipc_broadcast, perform,
  perform_all, response_text, respond, ipc_dispatch_to_lua,
}
use somewm.Ipc.Mild.{is_some, Live}
use somewm.Ipc.Counted.{
  IsValid, Keeps, Live-has, subscribe_at-IsValid, destroy-Keeps, logged-IsValid,
}

found-has :
    (fd : ℕ) (ps : List ℕ) (s : Ipc)
    → Live s ps
    → (o : Option ℕ) × (find_fd fd ps s ≡ some o) × ((p : ℕ) → o ≡ some p → has p ps ≡ true)
unfolding find_fd
found-has fd [] s l = (none, refl, λ p e. absurd (ground arith))
found-has fd (p ∷ ps) s l = elim (Option-cases (s.client p)) [
  | inl gone ↦ absurd (ground arith)
  | inr (c, there) ↦ elim (Bool-cases (c.fd == fd)) [
    | inl e ↦ (some p, ground arith, λ q e. ground arith)
    | inr e ↦
        let (o, f, h) = found-has fd ps s l.1 in (o, ground arith, λ q k. ground (arith, h q k))
  ]
]

subscribe-Keeps : (fd : ℕ) (s : Ipc) → IsValid s → Keeps (ipc_subscribe_client fd s)
unfolding ipc_subscribe_client
subscribe-Keeps fd s v = go (found-has fd s.ipc_clients s v.live)
  where
    at :
        (p : ℕ) (o : Option IpcClient)
        → s.client p ≡ o
        → is_some o ≡ true
        → has p s.ipc_clients ≡ true
        → Keeps (elim o [ none ↦ none | some c ↦ some (subscribe_at p c s) ])
    at p none e l h = absurd (ground arith)
    at p (some c) e l h = record {
      after = subscribe_at p c s;
      returned = refl;
      valid = subscribe_at-IsValid p c s e h v;
    }

    go :
        (o : Option ℕ) × (find_fd fd s.ipc_clients s ≡ some o)
          × ((p : ℕ) → o ≡ some p → has p s.ipc_clients ≡ true)
        → Keeps (ipc_subscribe_client fd s)
    go (none, f, h) = rw f (record { after = s; returned = refl; valid = v })
    go (some p, f, h) =
        let member = h p refl in
        rw f (at p (s.client p) refl (Live-has s p s.ipc_clients v.live member) member)

-- All of these clients are in the list.
abbrev Among : Ipc → List ℕ → Type 0
Among s [] = Unit {0}
Among s (p ∷ ps) = (has p s.ipc_clients ≡ true) × Among s ps

all-Among :
    (s : Ipc) (ps : List ℕ) → ((q : ℕ) → has q ps ≡ true → has q s.ipc_clients ≡ true) → Among s ps
all-Among s [] f = tt
all-Among s (p ∷ ps) f = (f p (ground arith), all-Among s ps (λ q h. f q (ground arith)))

module _ (peer : Peer) where
  -- Text that is written changes no client.
  pub send-IsValid : (fd : ℕ) (text : List ℕ) (s : Ipc) → IsValid s → IsValid (send peer fd text s)
  unfolding send
  send-IsValid fd text s v =
      elim (peer.write fd text s)
        as (λ (w : Written). IsValid (elim w [
          | done ↦ record s { written = s.written ++ (fd, text) ∷ [] }
          | again ↦ s
          | broken ↦ s
        ])) [ done ↦ logged-IsValid s _ s.dispatched v | again ↦ v | broken ↦ v ]

  response-IsValid :
      (fd : ℕ) (text : List ℕ) (s : Ipc) → IsValid s → IsValid (ipc_send_response peer fd text s)
  unfolding ipc_send_response
  response-IsValid fd text s v =
      let w = send-IsValid fd text s v in
      elim (Bool-cases (needs_newline text)) [
        | inl e ↦ rw e (send-IsValid fd _ (send peer fd text s) w)
        | inr e ↦ rw e w
      ]

  respond-IsValid : (fd : ℕ) (o : Outcome) (s : Ipc) → IsValid s → IsValid (respond peer fd o s)
  unfolding respond
  respond-IsValid fd o s v =
      elim (response_text o)
        as (λ (t : Option (List ℕ)).
          IsValid (elim t [ none ↦ s | some text ↦ ipc_send_response peer fd text s ])) [
            | none ↦ v
            | some text ↦ response-IsValid fd text s v
          ]

  -- One client is told or destroyed, the others stay.
  record Tells (p : ℕ) (s : Ipc) (result : Option Ipc) : Type 0 where
    keeps : Keeps result
    others : (q : ℕ) → p ≢ q → has q keeps.after.ipc_clients ≡ has q s.ipc_clients

  broadcast_to-Tells :
      (m : List ℕ) (p : ℕ) (s : Ipc)
      → has p s.ipc_clients ≡ true
      → IsValid s
      → Tells p s (broadcast_to peer m p s)
  unfolding broadcast_to
  broadcast_to-Tells m p s h v = at (s.client p) refl (Live-has s p s.ipc_clients v.live h)
    where
      unchanged : (t : Ipc) → t.ipc_clients ≡ s.ipc_clients → IsValid t → Tells p s (some t)
      unchanged t e w = record {
        keeps = record { after = t; returned = refl; valid = w };
        others = λ q n. ap (has q) e;
      }

      sent :
          (c : IpcClient) (w : Written)
          → Tells p s (elim w [
            | done ↦ some (record s { written = s.written ++ (c.fd, m) ∷ [] })
            | again ↦ some s
            | broken ↦ ipc_client_destroy p s
          ])
      sent c done = unchanged _ refl (logged-IsValid s _ s.dispatched v)
      sent c again = unchanged s refl v
      sent c broken =
          let (k, e) = destroy-Keeps p s h v in
          record { keeps = k; others = λ q n. ap (has q) e ∙ has-erase_ne p q s.ipc_clients n }

      at :
          (o : Option IpcClient)
          → s.client p ≡ o
          → is_some o ≡ true
          → Tells p s (elim o [
            | none ↦ none
            | some c ↦ if not c.subscribed then some s else elim (peer.write c.fd m s) [
              | done ↦ some (record s { written = s.written ++ (c.fd, m) ∷ [] })
              | again ↦ some s
              | broken ↦ ipc_client_destroy p s
            ]
          ])
      at none e l = absurd (ground arith)
      at (some c) e l = elim (Bool-cases (not c.subscribed)) [
        | inl y ↦ rw y (unchanged s refl v)
        | inr y ↦ rw y (sent c (peer.write c.fd m s))
      ]

  Among-keep :
      (p : ℕ) (s t : Ipc) (ps : List ℕ)
      → ((q : ℕ) → p ≢ q → has q t.ipc_clients ≡ has q s.ipc_clients)
      → has p ps ≡ false
      → Among s ps
      → Among t ps
  Among-keep p s t [] f h a = tt
  Among-keep p s t (q ∷ ps) f h a =
      (f q (λ e. ground arith) ∙ a.0, Among-keep p s t ps f (ground arith) a.1)

  broadcast_all-Keeps :
      (m ps : List ℕ) (s : Ipc)
      → Nodup ps
      → Among s ps
      → IsValid s
      → Keeps (broadcast_all peer m ps s)
  unfolding broadcast_all
  broadcast_all-Keeps m [] s n a v = record { after = s; returned = refl; valid = v }
  broadcast_all-Keeps m (p ∷ ps) s n a v =
      let one = broadcast_to-Tells m p s a.0 v in
      let t = one.keeps.after in
      rw one.keeps.returned
        (broadcast_all-Keeps m ps t n.1 (Among-keep p s t ps one.others n.0 a.1) one.keeps.valid)

  pub broadcast-Keeps : (m : List ℕ) (s : Ipc) → IsValid s → Keeps (ipc_broadcast peer m s)
  unfolding ipc_broadcast
  broadcast-Keeps m s v = elim (Bool-cases (ltb_ℤ (pos 0) s.ipc_subscriber_count)) [
    | inl e ↦
        rw e (
          broadcast_all-Keeps m s.ipc_clients s v.distinct (all-Among s s.ipc_clients (λ q h. h)) v)
    | inr e ↦ rw e (record { after = s; returned = refl; valid = v })
  ]

  -- In a valid state each call that Lua can make reads no freed client, and leaves a valid state,
  -- whatever becomes of the writes.
  pub perform-Keeps : (c : Call) (s : Ipc) → IsValid s → Keeps (perform peer c s)
  unfolding perform
  perform-Keeps (send_response fd text) s v = record {
    after = ipc_send_response peer fd text s;
    returned = refl;
    valid = response-IsValid fd text s v;
  }
  perform-Keeps (subscribe_client fd) s v = subscribe-Keeps fd s v
  perform-Keeps (broadcast m) s v = broadcast-Keeps m s v

  perform_all-Keeps : (cs : List Call) (s : Ipc) → IsValid s → Keeps (perform_all peer cs s)
  unfolding perform_all
  perform_all-Keeps [] s v = record { after = s; returned = refl; valid = v }
  perform_all-Keeps (c ∷ cs) s v =
      let one = perform-Keeps c s v in rw one.returned (perform_all-Keeps cs one.after one.valid)

  pub dispatch-Keeps :
      (fd : ℕ) (command : List ℕ) (s : Ipc)
      → IsValid s
      → Keeps (ipc_dispatch_to_lua peer fd command s)
  unfolding ipc_dispatch_to_lua
  dispatch-Keeps fd command s v =
      let (calls, o) = peer.lua fd command s in
      let all = perform_all-Keeps calls s v in
      rw all.returned (record {
        after = respond peer fd o all.after;
        returned = refl;
        valid = respond-IsValid fd o all.after all.valid;
      })
