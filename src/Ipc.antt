-- ===== src/Ipc.antt =====
-- ipc.c and objects/ipc.c: the clients of the command socket, the lines they send, and the events they
-- subscribe to. The kernel's sockets and the Lua side are parameters.
pub mod Mild
pub mod Counted
pub mod Reading
use somewm.Common.{
  ℕ, zero, suc, ◌+◌, ◌-◌, ◌*◌, Bool, true, false, not, ◌||◌, Option, none, some, List, [], ◌∷◌,
  ◌++◌, ◌==◌, ltb, leb, if◌then◌else◌, length, get_or, take, drop, erase, update,
}
use somewm.Common.Int.{ℤ, pos, ◌+ℤ◌, ◌-ℤ◌, ltb_ℤ}
use somewm.Common.Text.{codes, newline}

abbrev pub ipc_max_clients : ℕ
ipc_max_clients = 10

abbrev pub ipc_buffer_initial : ℕ
ipc_buffer_initial = 4096

abbrev pub ipc_buffer_max : ℕ
ipc_buffer_max = 1048576

-- `struct ipc_client`. `buffer` is what lies before the terminator that is written at `buffer_used`.
pub record IpcClient : Type 0 where
  pub fd : ℕ
  pub buffer : List ℕ
  pub buffer_size : ℕ
  pub buffer_used : ℕ
  pub subscribed : Bool

-- The clients by their pointers; a client that is freed, or was never allocated, is `none`. `written`
-- is what went out on which descriptor, `dispatched` which commands were handed on, oldest first.
pub record Ipc : Type 0 where
  pub ipc_clients : List ℕ
  pub client : ℕ → Option IpcClient
  pub ipc_subscriber_count : ℤ
  pub written : List (ℕ × List ℕ)
  pub dispatched : List (ℕ × List ℕ)

-- How a write ends: done, refused for now (EAGAIN, EINTR), or refused for good.
pub data Written : Type 0 where
  done again broken : Written

-- What read() gives: the end of the stream or an error, or some bytes.
pub data Received : Type 0 where
  ended : Received
  bytes : List ℕ → Received

-- The calls of ipc.c that the Lua side can make.
pub data Call : Type 0 where
  send_response : ℕ → List ℕ → Call
  subscribe_client : ℕ → Call
  broadcast : List ℕ → Call

-- How `_ipc_dispatch` ends: there is no Lua state, no such function, an error with a text, nothing for
-- a descriptor that the handler has claimed, a text, or something else.
pub data Outcome : Type 0 where
  no_lua no_dispatcher claimed wordless : Outcome
  raised answered : List ℕ → Outcome

-- `write` is the kernel's, `lua` what the handlers of a command do.
pub record Peer : Type 0 where
  pub write : ℕ → List ℕ → Ipc → Written
  pub lua : ℕ → List ℕ → Ipc → List Call × Outcome

-- A step that reads through a pointer to a freed client has no result.
infixl 5 ◌>>=◌
abbrev pub ◌>>=◌ {ℓ κ} : {A : Type ℓ} {B : Type κ} → Option A → (A → Option B) → Option B
none >>= f = none
some a >>= f = f a

-- `client->x = …` on a client that is there.
abbrev pub set_ipc_client : ℕ → IpcClient → Ipc → Ipc
set_ipc_client p c s = record s { client = update s.client p (some c) }

pub ipc_has_subscribers : Ipc → Bool
ipc_has_subscribers s = ltb_ℤ (pos 0) s.ipc_subscriber_count

pub ipc_client_destroy : ℕ → Ipc → Option Ipc
ipc_client_destroy p s = elim (s.client p) [
  | none ↦ none
  | some c ↦ some (record s {
    ipc_subscriber_count =
        if c.subscribed then s.ipc_subscriber_count -ℤ pos 1 else s.ipc_subscriber_count;
    ipc_clients = erase p s.ipc_clients;
    client = update s.client p none;
  })
]

-- The first client in the list with the descriptor.
pub find_fd : ℕ → List ℕ → Ipc → Option (Option ℕ)
find_fd fd [] s = some none
find_fd fd (p ∷ ps) s = elim (s.client p) [
  | none ↦ none
  | some c ↦ if c.fd == fd then some (some p) else find_fd fd ps s
]

pub subscribe_at : ℕ → IpcClient → Ipc → Ipc
subscribe_at p c s = if c.subscribed then s else record s {
  client = update s.client p (some (record c { subscribed = true }));
  ipc_subscriber_count = s.ipc_subscriber_count +ℤ pos 1;
}

pub ipc_subscribe_client : ℕ → Ipc → Option Ipc
ipc_subscribe_client fd s = do
  found ← find_fd fd s.ipc_clients s
  elim found [
    | none ↦ some s
    | some p ↦ elim (s.client p) [ none ↦ none | some c ↦ some (subscribe_at p c s) ]
  ]

pub ends_in_newline : List ℕ → ℕ → Bool
ends_in_newline r k = get_or r (length r - k) 0 == newline

-- Two characters are tested, one is added.
pub needs_newline : List ℕ → Bool
needs_newline r = ltb (length r) 2 || (not (ends_in_newline r 1) || not (ends_in_newline r 2))

-- What is sent for an outcome. At most 1023 characters of the response to an error fit the array that
-- it is printed into.
pub response_text : Outcome → Option (List ℕ)
response_text no_lua = some (codes "ERROR Lua not initialized" ++ newline ∷ newline ∷ [])
response_text no_dispatcher =
    some (codes "ERROR IPC dispatcher not initialized" ++ newline ∷ newline ∷ [])
response_text (raised error) =
    some (take 1023 (codes "ERROR " ++ (error ++ newline ∷ newline ∷ [])))
response_text claimed = none
response_text (answered text) = some text
response_text wordless = some (codes "ERROR No response from dispatcher" ++ newline ∷ newline ∷ [])

module _ (peer : Peer) where
  -- `(void)!write(...)`.
  pub send : ℕ → List ℕ → Ipc → Ipc
  send fd text s = elim (peer.write fd text s) [
    | done ↦ record s { written = s.written ++ (fd, text) ∷ [] }
    | again ↦ s
    | broken ↦ s
  ]

  pub ipc_send_response : ℕ → List ℕ → Ipc → Ipc
  ipc_send_response fd response s =
      let s1 = send fd response s in
      if needs_newline response then send fd (newline ∷ []) s1 else s1

  broadcast_to : List ℕ → ℕ → Ipc → Option Ipc
  broadcast_to message p s = elim (s.client p) [
    | none ↦ none
    | some c ↦ if not c.subscribed then some s else elim (peer.write c.fd message s) [
      | done ↦ some (record s { written = s.written ++ (c.fd, message) ∷ [] })
      | again ↦ some s
      | broken ↦ ipc_client_destroy p s
    ]
  ]

  -- wl_list_for_each_safe(): the next client is taken before the body may destroy this one.
  broadcast_all : List ℕ → List ℕ → Ipc → Option Ipc
  broadcast_all message [] s = some s
  broadcast_all message (p ∷ ps) s = broadcast_to message p s >>= broadcast_all message ps

  pub ipc_broadcast : List ℕ → Ipc → Option Ipc
  ipc_broadcast message s =
      if ltb_ℤ (pos 0) s.ipc_subscriber_count then broadcast_all message s.ipc_clients s else some s

  pub perform : Call → Ipc → Option Ipc
  perform (send_response fd text) s = some (ipc_send_response fd text s)
  perform (subscribe_client fd) s = ipc_subscribe_client fd s
  perform (broadcast message) s = ipc_broadcast message s

  pub perform_all : List Call → Ipc → Option Ipc
  perform_all [] s = some s
  perform_all (c ∷ cs) s = perform c s >>= perform_all cs

  pub respond : ℕ → Outcome → Ipc → Ipc
  respond fd o s = elim (response_text o) [ none ↦ s | some text ↦ ipc_send_response fd text s ]

  -- What Lua does comes before what its answer makes of the response.
  pub ipc_dispatch_to_lua : ℕ → List ℕ → Ipc → Option Ipc
  ipc_dispatch_to_lua fd command s =
      let (calls, outcome) = peer.lua fd command s in
      perform_all calls s >>= λ s1. some (respond fd outcome s1)

  pub ipc_process_command : ℕ → List ℕ → Ipc → Option Ipc
  ipc_process_command p command s = elim (s.client p) [
    | none ↦ none
    | some c ↦
        ipc_dispatch_to_lua c.fd command
          (record s { dispatched = s.dispatched ++ (c.fd, command) ∷ [] })
  ]
