-- ===== src/Ipc/Mild.antt =====
-- What a command does to the clients, while no write is refused for good: it may subscribe some.
use somewm.Common.{
  ℕ, ◌≡◌, ◌≢◌, refl, sym, ◌∙◌, subst, inl, inr, Bool, true, false, not, Option, none, some, List,
  [], ◌∷◌, ◌++◌, ◌==◌, ==_iff, Bool-cases, Option-cases, if◌then◌else◌, update, arith,
}
use somewm.Common.Int.{pos, ltb_ℤ}
use somewm.Ipc.{
  Ipc, IpcClient, Peer, Written, done, again, broken, Call, send_response, subscribe_client,
  broadcast, Outcome, find_fd, subscribe_at, ipc_subscribe_client, send, ipc_send_response,
  needs_newline, broadcast_to, broadcast_all, ipc_broadcast, ipc_client_destroy, perform,
  perform_all, response_text, respond, ipc_dispatch_to_lua,
}

-- A client but for whether it is subscribed.
abbrev pub plain : Option IpcClient → Option IpcClient
plain none = none
plain (some c) = some (record c { subscribed = false })

pub record Mild (s s' : Ipc) : Type 0 where
  pub ipc_clients : s'.ipc_clients ≡ s.ipc_clients
  pub dispatched : s'.dispatched ≡ s.dispatched
  pub client : (q : ℕ) → plain (s'.client q) ≡ plain (s.client q)

abbrev pub is_some : Option IpcClient → Bool
is_some none = false
is_some (some c) = true

-- No pointer in the list is to a freed client.
abbrev pub Live : Ipc → List ℕ → Type 0
Live s [] = Unit {0}
Live s (p ∷ ps) = (is_some (s.client p) ≡ true) × Live s ps

-- What happened leaves the list as it was, with live clients.
pub record Safe (s : Ipc) (result : Option Ipc) : Type 0 where
  pub after : Ipc
  pub returned : result ≡ some after
  pub mild : Mild s after

pub Mild-refl : (s : Ipc) → Mild s s
Mild-refl s = record { ipc_clients = refl; dispatched = refl; client = λ q. refl }

pub Mild-trans : (s t u : Ipc) → Mild s t → Mild t u → Mild s u
Mild-trans s t u a b = record {
  ipc_clients = b.ipc_clients ∙ a.ipc_clients;
  dispatched = b.dispatched ∙ a.dispatched;
  client = λ q. b.client q ∙ a.client q;
}

is_some-plain : (a b : Option IpcClient) → plain a ≡ plain b → is_some a ≡ is_some b
is_some-plain none none h = refl
is_some-plain (some a) (some b) h = refl
is_some-plain none (some b) h = absurd (ground arith)
is_some-plain (some a) none h = absurd (ground arith)

Mild-Live_at : (s t : Ipc) (ps : List ℕ) → Mild s t → Live s ps → Live t ps
Mild-Live_at s t [] m l = tt
Mild-Live_at s t (p ∷ ps) m l =
    (is_some-plain (t.client p) (s.client p) (m.client p) ∙ l.0, Mild-Live_at s t ps m l.1)

pub Mild-Live : (s t : Ipc) → Mild s t → Live s s.ipc_clients → Live t t.ipc_clients
Mild-Live s t m l = subst (Live t) (sym m.ipc_clients) (Mild-Live_at s t s.ipc_clients m l)

abbrev IsLive : Ipc → Option ℕ → Type 0
IsLive s none = Unit {0}
IsLive s (some p) = is_some (s.client p) ≡ true

found-Live :
    (fd : ℕ) (ps : List ℕ) (s : Ipc)
    → Live s ps
    → (o : Option ℕ) × (find_fd fd ps s ≡ some o) × IsLive s o
unfolding find_fd
found-Live fd [] s l = (none, refl, tt)
found-Live fd (p ∷ ps) s l = elim (Option-cases (s.client p)) [
  | inl gone ↦ absurd (ground arith)
  | inr (c, there) ↦ elim (Bool-cases (c.fd == fd)) [
    | inl e ↦ (some p, ground arith, l.0)
    | inr e ↦ let (o, f, h) = found-Live fd ps s l.1 in (o, ground arith, h)
  ]
]

plain-subscribe :
    (p q : ℕ) (c : IpcClient) (s : Ipc)
    → s.client p ≡ some c
    → plain (update s.client p (some (record c { subscribed = true })) q) ≡ plain (s.client q)
plain-subscribe p q c s h = elim (Bool-cases (q == p)) [
  | inl e ↦ rw (e, (==_iff q p).0 e, h) refl
  | inr e ↦ rw e refl
]

subscribe_at-Mild :
    (p : ℕ) (c : IpcClient) (s : Ipc) → s.client p ≡ some c → Mild s (subscribe_at p c s)
unfolding subscribe_at
subscribe_at-Mild p c s h = elim (Bool-cases c.subscribed) [
  | inl e ↦ rw e (Mild-refl s)
  | inr e ↦
      simp e
        (record { ipc_clients = refl; dispatched = refl; client = λ q. plain-subscribe p q c s h })
]

subscribe-Safe : (fd : ℕ) (s : Ipc) → Live s s.ipc_clients → Safe s (ipc_subscribe_client fd s)
unfolding ipc_subscribe_client
subscribe-Safe fd s l = go (found-Live fd s.ipc_clients s l)
  where
    at :
        (p : ℕ) (o : Option IpcClient)
        → s.client p ≡ o
        → is_some o ≡ true
        → Safe s (elim o [ none ↦ none | some c ↦ some (subscribe_at p c s) ])
    at p none h live = absurd (ground arith)
    at p (some c) h live = record {
      after = subscribe_at p c s;
      returned = refl;
      mild = subscribe_at-Mild p c s h;
    }

    go :
        (o : Option ℕ) × (find_fd fd s.ipc_clients s ≡ some o) × IsLive s o
        → Safe s (ipc_subscribe_client fd s)
    go (none, f, h) = rw f (record { after = s; returned = refl; mild = Mild-refl s })
    go (some p, f, h) = rw f (at p (s.client p) refl h)

module _ (peer : Peer) where
  pub send-Mild : (fd : ℕ) (text : List ℕ) (s : Ipc) → Mild s (send peer fd text s)
  unfolding send
  send-Mild fd text s =
      elim (peer.write fd text s)
        as (λ (w : Written). Mild s (elim w [
          | done ↦ record s { written = s.written ++ (fd, text) ∷ [] }
          | again ↦ s
          | broken ↦ s
        ])) [
          | done ↦ record { ipc_clients = refl; dispatched = refl; client = λ q. refl }
          | again ↦ Mild-refl s
          | broken ↦ Mild-refl s
        ]

  pub response-Mild : (fd : ℕ) (text : List ℕ) (s : Ipc) → Mild s (ipc_send_response peer fd text s)
  unfolding ipc_send_response
  response-Mild fd text s =
      let s1 = send peer fd text s in
      elim (Bool-cases (needs_newline text)) [
        | inl e ↦ rw e (Mild-trans s s1 _ (send-Mild fd text s) (send-Mild fd _ s1))
        | inr e ↦ rw e (send-Mild fd text s)
      ]

  pub respond-Mild : (fd : ℕ) (o : Outcome) (s : Ipc) → Mild s (respond peer fd o s)
  unfolding respond
  respond-Mild fd o s =
      elim (response_text o)
        as (λ (t : Option (List ℕ)).
          Mild s (elim t [ none ↦ s | some text ↦ ipc_send_response peer fd text s ])) [
            | none ↦ Mild-refl s
            | some text ↦ response-Mild fd text s
          ]

  -- No write is refused for good.
  abbrev pub IsReliable : Type 0
  IsReliable = (fd : ℕ) (text : List ℕ) (s : Ipc) → peer.write fd text s ≢ broken

  module _ (reliable : IsReliable) where
    broadcast_to-Safe :
        (m : List ℕ) (p : ℕ) (s : Ipc)
        → is_some (s.client p) ≡ true
        → Safe s (broadcast_to peer m p s)
    unfolding broadcast_to
    broadcast_to-Safe m p s l = at (s.client p) l
      where
        sent :
            (c : IpcClient) (w : Written)
            → w ≢ broken
            → Safe s (elim w [
              | done ↦ some (record s { written = s.written ++ (c.fd, m) ∷ [] })
              | again ↦ some s
              | broken ↦ ipc_client_destroy p s
            ])
        sent c done h = record {
          after = record s { written = s.written ++ (c.fd, m) ∷ [] };
          returned = refl;
          mild = record { ipc_clients = refl; dispatched = refl; client = λ q. refl };
        }
        sent c again h = record { after = s; returned = refl; mild = Mild-refl s }
        sent c broken h = absurd (h refl)

        at :
            (o : Option IpcClient)
            → is_some o ≡ true
            → Safe s (elim o [
              | none ↦ none
              | some c ↦ if not c.subscribed then some s else elim (peer.write c.fd m s) [
                | done ↦ some (record s { written = s.written ++ (c.fd, m) ∷ [] })
                | again ↦ some s
                | broken ↦ ipc_client_destroy p s
              ]
            ])
        at none h = absurd (ground arith)
        at (some c) h = elim (Bool-cases (not c.subscribed)) [
          | inl e ↦ rw e (record { after = s; returned = refl; mild = Mild-refl s })
          | inr e ↦ rw e (sent c (peer.write c.fd m s) (reliable c.fd m s))
        ]

    broadcast_all-Safe :
        (m : List ℕ) (ps : List ℕ) (s : Ipc) → Live s ps → Safe s (broadcast_all peer m ps s)
    unfolding broadcast_all
    broadcast_all-Safe m [] s l = record { after = s; returned = refl; mild = Mild-refl s }
    broadcast_all-Safe m (p ∷ ps) s l =
        let one = broadcast_to-Safe m p s l.0 in
        let rest = broadcast_all-Safe m ps one.after (Mild-Live_at s one.after ps one.mild l.1) in
        rw one.returned (record {
          after = rest.after;
          returned = rest.returned;
          mild = Mild-trans s one.after rest.after one.mild rest.mild;
        })

    perform-Safe : (c : Call) (s : Ipc) → Live s s.ipc_clients → Safe s (perform peer c s)
    unfolding perform ipc_broadcast
    perform-Safe (send_response fd text) s l = record {
      after = ipc_send_response peer fd text s;
      returned = refl;
      mild = response-Mild fd text s;
    }
    perform-Safe (subscribe_client fd) s l = subscribe-Safe fd s l
    perform-Safe (broadcast m) s l = elim (Bool-cases (ltb_ℤ (pos 0) s.ipc_subscriber_count)) [
      | inl e ↦ rw e (broadcast_all-Safe m s.ipc_clients s l)
      | inr e ↦ rw e (record { after = s; returned = refl; mild = Mild-refl s })
    ]

    perform_all-Safe :
        (cs : List Call) (s : Ipc) → Live s s.ipc_clients → Safe s (perform_all peer cs s)
    unfolding perform_all
    perform_all-Safe [] s l = record { after = s; returned = refl; mild = Mild-refl s }
    perform_all-Safe (c ∷ cs) s l =
        let one = perform-Safe c s l in
        let rest = perform_all-Safe cs one.after (Mild-Live s one.after one.mild l) in
        rw one.returned (record {
          after = rest.after;
          returned = rest.returned;
          mild = Mild-trans s one.after rest.after one.mild rest.mild;
        })

    pub dispatch_to_lua-Safe :
        (fd : ℕ) (command : List ℕ) (s : Ipc)
        → Live s s.ipc_clients
        → Safe s (ipc_dispatch_to_lua peer fd command s)
    unfolding ipc_dispatch_to_lua
    dispatch_to_lua-Safe fd command s l =
        let (calls, o) = peer.lua fd command s in
        let all = perform_all-Safe calls s l in
        rw all.returned (record {
          after = respond peer fd o all.after;
          returned = refl;
          mild = Mild-trans s all.after _ all.mild (respond-Mild fd o all.after);
        })
