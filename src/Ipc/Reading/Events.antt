-- ===== src/Ipc/Reading/Events.antt =====
-- The states of the command socket that the events of the event loop lead to.
use somewm.Common.{ℕ, ◌≡◌, refl, subst, Bool, Option, none, some, [], arith}
use somewm.Common.Int.{pos}
use somewm.Ipc.{Ipc, Peer, Received, Call, perform}
use somewm.Ipc.Counted.{IsValid}
use somewm.Ipc.Counted.Calls.{perform-Keeps}
use somewm.Ipc.Reading.{ipc_handle_client_data, ipc_handle_connection, ipc_cleanup}
use somewm.Ipc.Reading.Sound.{Sound, Keeps-Sound, handle-Sound, connection-IsValid, cleanup-Sound}

-- The server after ipc_init().
abbrev pub initial : Ipc
initial = record {
  ipc_clients = [];
  client = λ p. none;
  ipc_subscriber_count = pos 0;
  written = [];
  dispatched = [];
}

module _ (peer : Peer) where
  -- What can happen to the server: a connection, whose client is allocated where none was, something to
  -- read from a client, a call that Lua makes outside a command, and the end of the compositor.
  pub data Reach : Ipc → Type 0 where
    start : Reach initial
    connection :
        {s : Ipc} (watched : Bool) (p : ℕ) (fd : Option ℕ)
        → Reach s
        → s.client p ≡ none
        → Reach (ipc_handle_connection peer watched p fd s)
    readable :
        {s t : Ipc} (p : ℕ) (r : Received)
        → Reach s
        → ipc_handle_client_data peer p r s ≡ some t
        → Reach t
    called : {s t : Ipc} (call : Call) → Reach s → perform peer call s ≡ some t → Reach t
    cleaned : {s t : Ipc} → Reach s → ipc_cleanup s ≡ some t → Reach t

  -- In every state that connections, reads, calls of Lua in a command or outside one, and the final
  -- cleanup lead to, whatever the Lua side does with the commands and whatever becomes of the
  -- writes: the list names the clients that are there, each once, and at most ten of them, and the
  -- number of subscribers is that of the subscribed clients.
  pub Reach-IsValid : {s : Ipc} → Reach s → IsValid s
  Reach-IsValid start = record {
    distinct = tt;
    live = tt;
    counted = refl;
    listed = λ q h. ground arith;
    few = omega arith;
  }
  Reach-IsValid (connection {s} watched p fd r e) =
      connection-IsValid peer watched p fd s e (Reach-IsValid r)
  Reach-IsValid (readable {s} {t} p r h e) =
      subst Sound e (handle-Sound peer p r s (Reach-IsValid h))
  Reach-IsValid (called {s} {t} call h e) =
      subst Sound e (Keeps-Sound _ (perform-Keeps peer call s (Reach-IsValid h)))
  Reach-IsValid (cleaned {s} {t} h e) = subst Sound e (cleanup-Sound peer s (Reach-IsValid h))
