-- ===== src/Ipc/Counted.antt =====
-- The list of clients and the number of subscribers, whatever the writes and the Lua side do.
pub mod Calls
use somewm.Common.{
  ℕ, ◌+◌, ◌≤◌, ◌≡◌, ◌≢◌, ◌⊎◌, refl, sym, ap, ◌∙◌, subst, inl, inr, Bool, true, false, not, ◌||◌,
  Option, none, some, List, [], ◌∷◌, ◌++◌, ◌==◌, ==_iff, Bool-cases, Option-cases, if◌then◌else◌,
  length, has, erase, Nodup, erase-Nodup, has-erase_self, has-erase_ne, update, arith,
}
use somewm.Common.Int.{ℤ, pos, ◌+ℤ◌, ◌-ℤ◌, ltb_ℤ, +ℤ_parts, -ℤ_parts, eq_of_parts}
use somewm.Ipc.{
  Ipc, IpcClient, ipc_max_clients, Peer, Written, done, again, broken, Call, send_response,
  subscribe_client, broadcast, Outcome, ◌>>=◌, set_ipc_client, ipc_client_destroy, find_fd,
  subscribe_at, ipc_subscribe_client, send, ipc_send_response, needs_newline, broadcast_to,
  broadcast_all, ipc_broadcast, perform, perform_all, response_text, respond, ipc_dispatch_to_lua,
  ipc_process_command,
}
use somewm.Ipc.Mild.{is_some, Live}

abbrev pub mark : Option IpcClient → ℕ
mark none = 0
mark (some c) = if c.subscribed then 1 else 0

-- How many of the clients in a list are subscribed.
abbrev pub subscribers : (ℕ → Option IpcClient) → List ℕ → ℕ
subscribers f [] = 0
subscribers f (p ∷ ps) = mark (f p) + subscribers f ps

-- The list names the clients that are there, each once, and is not too long; the count is that of the
-- subscribed ones.
pub record IsValid (s : Ipc) : Type 0 where
  pub distinct : Nodup s.ipc_clients
  pub live : Live s s.ipc_clients
  pub counted : s.ipc_subscriber_count ≡ pos (subscribers s.client s.ipc_clients)
  pub listed : (q : ℕ) → is_some (s.client q) ≡ true → has q s.ipc_clients ≡ true
  pub few : length s.ipc_clients ≤ ipc_max_clients

pub subscribers-update :
    (f : ℕ → Option IpcClient) (p : ℕ) (v : Option IpcClient) (ps : List ℕ)
    → Nodup ps
    → subscribers (update f p v) ps + (if has p ps then mark (f p) else 0)
      ≡ subscribers f ps + (if has p ps then mark v else 0)
subscribers-update f p v [] n = refl
subscribers-update f p v (q ∷ ps) n = elim (Bool-cases (q == p)) [
  | inl e ↦
      let h : has p ps ≡ false = subst (λ (x : ℕ). has x ps ≡ false) ((==_iff q p).0 e) n.0 in
      let ih = subscribers-update f p v ps n.1 in
      rw ((==_iff q p).0 e, (==_iff p p).1 refl) (omega (arith, rw h at ih))
  | inr e ↦ let ih = subscribers-update f p v ps n.1 in rw e (omega (arith, ih))
]

subscribers-erase :
    (f : ℕ → Option IpcClient) (p : ℕ) (ps : List ℕ)
    → subscribers f (erase p ps) + (if has p ps then mark (f p) else 0) ≡ subscribers f ps
subscribers-erase f p [] = refl
subscribers-erase f p (q ∷ ps) = elim (Bool-cases (q == p)) [
  | inl e ↦ rw ((==_iff q p).0 e, (==_iff p p).1 refl) (omega arith)
  | inr e ↦ let ih = subscribers-erase f p ps in rw e (omega (arith, ih))
]

pub Live-has :
    (s : Ipc) (q : ℕ) (ps : List ℕ) → Live s ps → has q ps ≡ true → is_some (s.client q) ≡ true
Live-has s q [] l h = absurd (ground arith)
Live-has s q (p ∷ ps) l h = elim (Bool-cases (p == q)) [
  | inl e ↦ subst (λ (x : ℕ). is_some (s.client x) ≡ true) ((==_iff p q).0 e) l.0
  | inr e ↦ Live-has s q ps l.1 (ground arith)
]

pub update-Live :
    (s : Ipc) (p : ℕ) (v : Option IpcClient) (ps : List ℕ)
    → (has p ps ≡ false) ⊎ (is_some v ≡ true)
    → Live s ps
    → Live (record s { client = update s.client p v }) ps
update-Live s p v [] h l = tt
update-Live s p v (q ∷ ps) (inl h) l = (
  let e : (q == p) ≡ false = ground arith in rw e l.0,
  update-Live s p v ps (inl (ground arith)) l.1,
)
update-Live s p v (q ∷ ps) (inr h) l = (
  elim (Bool-cases (q == p)) [ inl e ↦ rw e h | inr e ↦ rw e l.0 ],
  update-Live s p v ps (inr h) l.1,
)

updated-listed :
    (s : Ipc) (p : ℕ) (v : Option IpcClient)
    → is_some (s.client p) ≡ true
    → ((q : ℕ) → is_some (s.client q) ≡ true → has q s.ipc_clients ≡ true)
    → (q : ℕ) → is_some (update s.client p v q) ≡ true
    → has q s.ipc_clients ≡ true
updated-listed s p v there f q h = elim (Bool-cases (q == p)) [
  | inl e ↦ subst (λ (x : ℕ). has x s.ipc_clients ≡ true) (sym ((==_iff q p).0 e)) (f p there)
  | inr e ↦ f q (rw e at h)
]

erase-listed :
    (s : Ipc) (p : ℕ)
    → ((q : ℕ) → is_some (s.client q) ≡ true → has q s.ipc_clients ≡ true)
    → (q : ℕ) → is_some (update s.client p none q) ≡ true
    → has q (erase p s.ipc_clients) ≡ true
erase-listed s p f q h = elim (Bool-cases (q == p)) [
  | inl e ↦ let h' = rw e at h in absurd (ground arith)
  | inr e ↦ has-erase_ne p q s.ipc_clients (λ k. ground (arith, k)) ∙ f q (rw e at h)
]

length-erase-le : (p : ℕ) (ps : List ℕ) → length (erase p ps) ≤ length ps
length-erase-le p [] = omega arith
length-erase-le p (q ∷ ps) = ground (arith, length-erase-le p ps)

erase-Live : (s : Ipc) (p : ℕ) (ps : List ℕ) → Live s ps → Live s (erase p ps)
erase-Live s p [] l = tt
erase-Live s p (q ∷ ps) l = elim (Bool-cases (q == p)) [
  | inl e ↦ rw e l.1
  | inr e ↦ rw e (l.0, erase-Live s p ps l.1)
]

-- What happened leaves a valid state.
pub record Keeps (result : Option Ipc) : Type 0 where
  pub after : Ipc
  pub returned : result ≡ some after
  pub valid : IsValid after

-- A client in the list that changes, but not in whether it is subscribed.
pub set_ipc_client-IsValid :
    (p : ℕ) (c c' : IpcClient) (s : Ipc)
    → s.client p ≡ some c
    → c'.subscribed ≡ c.subscribed
    → IsValid s
    → IsValid (set_ipc_client p c' s)
set_ipc_client-IsValid p c c' s e b v = record {
  distinct = v.distinct;
  live = update-Live s p (some c') s.ipc_clients (inr refl) v.live;
  counted =
      v.counted
      ∙ ap pos (
          same (has p s.ipc_clients)
            (subscribers-update s.client p (some c') s.ipc_clients v.distinct)
            (ap mark e ∙ ap (λ (x : Bool). if x then 1 else 0) (sym b)));
  listed = updated-listed s p (some c') (ap is_some e) v.listed;
  few = v.few;
}
  where
    same :
        (h : Bool) {a b m n : ℕ}
        → a + (if h then m else 0) ≡ b + (if h then n else 0)
        → m ≡ n
        → b ≡ a
    same h e k = ground arith

pub subscribe_at-IsValid :
    (p : ℕ) (c : IpcClient) (s : Ipc)
    → s.client p ≡ some c
    → has p s.ipc_clients ≡ true
    → IsValid s
    → IsValid (subscribe_at p c s)
unfolding subscribe_at
subscribe_at-IsValid p c s e h v = elim (Bool-cases c.subscribed) [
  | inl y ↦ rw y v
  | inr y ↦
      let c' = record c { subscribed = true } in
      let sum = subscribers-update s.client p (some c') s.ipc_clients v.distinct in
      let old : mark (s.client p) ≡ 0 = ap mark e ∙ simp y in
      let more : subscribers (update s.client p (some c')) s.ipc_clients
          ≡ subscribers s.client s.ipc_clients + 1 =
        omega (arith, rw (h, old) at sum) in
      simp y (record {
        distinct = v.distinct;
        live = update-Live s p (some c') s.ipc_clients (inr refl) v.live;
        counted =
            ap (λ (n : ℤ). n +ℤ pos 1) v.counted
            ∙ sum_pos (subscribers s.client s.ipc_clients)
            ∙ ap pos (sym more);
        listed = updated-listed s p (some c') (ap is_some e) v.listed;
        few = v.few;
      })
]
  where
    sum_pos : (n : ℕ) → pos n +ℤ pos 1 ≡ pos (n + 1)
    sum_pos n = eq_of_parts _ _ (omega (arith, +ℤ_parts (pos n) (pos 1)))

pub destroy-Keeps :
    (p : ℕ) (s : Ipc)
    → has p s.ipc_clients ≡ true
    → IsValid s
    → (r : Keeps (ipc_client_destroy p s)) × (r.after.ipc_clients ≡ erase p s.ipc_clients)
unfolding ipc_client_destroy
destroy-Keeps p s h v = at (s.client p) refl (Live-has s p s.ipc_clients v.live h)
  where
    gone :
        (o : Option IpcClient)
        → s.client p ≡ o
        → subscribers (update s.client p none) (erase p s.ipc_clients) + mark o
          ≡ subscribers s.client s.ipc_clients
    gone o e =
        let left = erase p s.ipc_clients in
        let upd =
          subscribers-update s.client p none left (erase-Nodup p s.ipc_clients v.distinct) in
        let out = has-erase_self p s.ipc_clients v.distinct in
        let cut = subscribers-erase s.client p s.ipc_clients in
        omega (arith, rw out at upd, rw (h, e) at cut)

    counted :
        (c : IpcClient)
        → subscribers (update s.client p none) (erase p s.ipc_clients) + mark (some c)
          ≡ subscribers s.client s.ipc_clients
        → (if c.subscribed then s.ipc_subscriber_count -ℤ pos 1 else s.ipc_subscriber_count)
          ≡ pos (subscribers (update s.client p none) (erase p s.ipc_clients))
    counted c g = elim (Bool-cases c.subscribed) [
      | inl y ↦
          let g' = simp y at g in
          simp (y, v.counted)
            (eq_of_parts _ _
              (omega (arith, g', -ℤ_parts (pos (subscribers s.client s.ipc_clients)) (pos 1))))
      | inr y ↦ let g' = simp y at g in simp y (v.counted ∙ ap pos (omega (arith, g')))
    ]

    at :
        (o : Option IpcClient)
        → s.client p ≡ o
        → is_some o ≡ true
        → (r : Keeps (elim o [
          | none ↦ none
          | some c ↦ some (record s {
            ipc_subscriber_count =
                if c.subscribed then s.ipc_subscriber_count -ℤ pos 1 else s.ipc_subscriber_count;
            ipc_clients = erase p s.ipc_clients;
            client = update s.client p none;
          })
        ]))
          × (r.after.ipc_clients ≡ erase p s.ipc_clients)
    at none e l = absurd (ground arith)
    at (some c) e l = (
      record {
        after = _;
        returned = refl;
        valid = record {
          distinct = erase-Nodup p s.ipc_clients v.distinct;
          live =
              update-Live s p none (erase p s.ipc_clients)
                (inl (has-erase_self p s.ipc_clients v.distinct))
                (erase-Live s p s.ipc_clients v.live);
          counted = counted c (gone (some c) e);
          listed = erase-listed s p v.listed;
          few = omega (arith, v.few, length-erase-le p s.ipc_clients);
        };
      },
      refl,
    )

-- What is written and what is dispatched does not matter.
pub logged-IsValid :
    (s : Ipc) (w d : List (ℕ × List ℕ))
    → IsValid s
    → IsValid (record s { written = w; dispatched = d })
logged-IsValid s w d v = record {
  distinct = v.distinct;
  live = same s.ipc_clients v.live;
  counted = v.counted;
  listed = v.listed;
  few = v.few;
}
  where
    same : (ps : List ℕ) → Live s ps → Live (record s { written = w; dispatched = d }) ps
    same [] l = tt
    same (p ∷ ps) l = (l.0, same ps l.1)
