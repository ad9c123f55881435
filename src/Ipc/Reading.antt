-- ===== src/Ipc/Reading.antt =====
-- ipc.c: ipc_handle_client_data(), with the buffer that it grows and the lines it takes out, and what
-- opens and closes connections.
pub mod Lines
pub mod Rounds
pub mod Stream
pub mod Sound
pub mod Events
pub mod Freed
use somewm.Common.{
  ℕ, zero, suc, ◌+◌, ◌-◌, ◌*◌, Bool, true, false, Option, none, some, List, [], ◌∷◌, ◌++◌, ◌==◌,
  ltb, leb, if◌then◌else◌, length, take, drop, update,
}
use somewm.Common.Int.{pos}
use somewm.Common.Text.{codes, newline}
use somewm.Ipc.{
  Ipc, IpcClient, Peer, Received, ended, bytes, ipc_max_clients, ipc_buffer_initial, ipc_buffer_max,
  ◌>>=◌, set_ipc_client, send, ipc_client_destroy, ipc_process_command,
}

-- strchr(): where the character is, before the first zero or the terminator.
pub strchr : ℕ → List ℕ → Option ℕ
strchr a [] = none
strchr a (c ∷ cs) =
    if c == a then some 0 else if c == 0 then none else strchr a cs >>= λ n. some (suc n)

-- realloc() succeeds.
pub ipc_buffer_grow : IpcClient → Option IpcClient
ipc_buffer_grow c =
    if leb ipc_buffer_max c.buffer_size
    then none
    else let new_size = c.buffer_size * 2 in
      some (record c {
        buffer_size = if ltb ipc_buffer_max new_size then ipc_buffer_max else new_size;
      })

abbrev pub too_long : List ℕ
too_long = codes "ERROR Command too long" ++ newline ∷ newline ∷ []

-- The command's bytes and its line feed go.
pub remove_command : ℕ → IpcClient → IpcClient
remove_command n c = record c {
  buffer_used = c.buffer_used - (n + 1);
  buffer = drop (n + 1) c.buffer;
}

module _ (peer : Peer) where
  -- Grow a buffer that is nearly full; if it is as large as it may be, the client goes.
  pub ensure_room : ℕ → Ipc → Option (Bool × Ipc)
  ensure_room p s = elim (s.client p) [
    | none ↦ none
    | some c ↦
        if leb (c.buffer_size - 1) c.buffer_used
        then elim (ipc_buffer_grow c) [
          | none ↦ ipc_client_destroy p (send peer c.fd too_long s) >>= λ s1. some (false, s1)
          | some c' ↦ some (true, set_ipc_client p c' s)
        ]
        else some (true, s)
  ]

  -- One round of the loop, for a line feed behind `n` characters.
  pub take_command : ℕ → ℕ → IpcClient → Ipc → Option Ipc
  take_command p n c s = do
    s1 ← if ltb 0 n then ipc_process_command peer p (take n c.buffer) s else some s
    elim (s1.client p) [ none ↦ none | some c1 ↦ some (set_ipc_client p (remove_command n c1) s1) ]

  -- `while ((newline = strchr(client->buffer, '\n')) != NULL)`, for so many rounds.
  pub take_commands : ℕ → ℕ → Ipc → Option Ipc
  take_commands zero p s = some s
  take_commands (suc k) p s = elim (s.client p) [
    | none ↦ none
    | some c ↦ elim (strchr newline c.buffer) [
      | none ↦ some s
      | some n ↦ take_command p n c s >>= take_commands k p
    ]
  ]

  -- Each round takes at least one character out of the buffer.
  pub store_bytes : ℕ → List ℕ → Ipc → Option Ipc
  store_bytes p read s = elim (s.client p) [
    | none ↦ none
    | some c ↦
        let c1 = record c {
          buffer = c.buffer ++ read;
          buffer_used = c.buffer_used + length read;
        } in
        take_commands (length c1.buffer) p (set_ipc_client p c1 s)
  ]

  close : ℕ → Bool × Ipc → Option Ipc
  close p (true, s) = ipc_client_destroy p s
  close p (false, s) = some s

  read_in : ℕ → List ℕ → Bool × Ipc → Option Ipc
  read_in p read (true, s) =
      store_bytes p read s >>= ensure_room p >>= (λ (r : Bool × Ipc). some r.1)
  read_in p read (false, s) = some s

  pub ipc_handle_client_data : ℕ → Received → Ipc → Option Ipc
  ipc_handle_client_data p ended s = ensure_room p s >>= close p
  ipc_handle_client_data p (bytes read) s = ensure_room p s >>= read_in p read

  -- A connection is accepted on the descriptor `fd`, and its client allocated at `p`; `watched` is
  -- whether the event loop takes the descriptor.
  pub ipc_handle_connection : Bool → ℕ → Option ℕ → Ipc → Ipc
  ipc_handle_connection watched p none s = s
  ipc_handle_connection watched p (some fd) s =
      if leb ipc_max_clients (length s.ipc_clients)
      then send peer fd (codes "ERROR Too many clients" ++ newline ∷ newline ∷ []) s
      else if watched
      then record s {
        ipc_clients = p ∷ s.ipc_clients;
        client = update s.client p (
            some (record {
              fd = fd;
              buffer = [];
              buffer_size = ipc_buffer_initial;
              buffer_used = 0;
              subscribed = false;
            }));
      }
      else s

-- The clients of ipc_cleanup().
pub destroy_all : List ℕ → Ipc → Option Ipc
destroy_all [] s = some s
destroy_all (p ∷ ps) s = ipc_client_destroy p s >>= destroy_all ps

pub ipc_cleanup : Ipc → Option Ipc
ipc_cleanup s = destroy_all s.ipc_clients s
