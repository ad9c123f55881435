-- ===== src/Examples/Sockets.antt =====
-- A client of the command socket on descriptor 7: it sends two lines, or its own command destroys it.
use somewm.Common.{
  ℕ, ◌≡◌, refl, Bool, true, false, some, none, List, [], ◌∷◌, ◌++◌, ◌==◌, if◌then◌else◌, arith,
}
use somewm.Common.Int.{pos}
use somewm.Common.Text.{codes, newline}
use somewm.Ipc.{
  Ipc, IpcClient, Peer, done, broken, broadcast, claimed, answered, bytes, ipc_buffer_initial,
}
use somewm.Ipc.Counted.{IsValid}
use somewm.Ipc.Reading.{ipc_handle_connection, ipc_handle_client_data}
use somewm.Ipc.Reading.Stream.{Ready, Delivers, deliver, length-IsShort, deliver-Delivers}
use somewm.Ipc.Reading.Events.{initial, start, connection, Reach-IsValid}
use somewm.Ipc.Reading.Freed.{handle_freed}

-- Writes succeed, and each command is answered.
abbrev willing : Peer
willing = record { write = λ fd text s. done; lua = λ fd command s. ([], answered (codes "OK")) }

-- Writes fail, and each command leads to an event.
abbrev gone : Peer
gone = record {
  write = λ fd text s. broken;
  lua = λ fd command s. (broadcast (codes "EVENT") ∷ [], claimed);
}

abbrev seventh : Bool → List ℕ → ℕ → IpcClient
seventh subscribed buffer used = record {
  fd = 7;
  buffer = buffer;
  buffer_size = ipc_buffer_initial;
  buffer_used = used;
  subscribed = subscribed;
}

abbrev server : Ipc
server = record initial {
  ipc_clients = 1 ∷ [];
  client = λ p. if p == 1 then some (seventh false [] 0) else none;
}

abbrev two_lines : List ℕ
two_lines = codes "ab" ++ newline ∷ (codes "c" ++ newline ∷ [])

ready : Ready 1 7 [] server
ready = record {
  size = ipc_buffer_initial;
  holds = record {
    c = seventh false [] 0;
    there = refl;
    descriptor = refl;
    buffer_size = refl;
    buffer = refl;
    buffer_used = refl;
    live = (refl, tt);
  };
  room = omega arith;
  limit = omega arith;
  text = refl;
  line = refl;
}

deliver-Delivers_example :
    Delivers willing 1 7 []
      (0 ∷ 3 ∷ 2 ∷ [])
      two_lines
      server
      (deliver willing 1 7 (0 ∷ 3 ∷ 2 ∷ []) two_lines server)
deliver-Delivers_example =
    deliver-Delivers willing 1 7 (λ fd text s e. ground arith) (0 ∷ 3 ∷ 2 ∷ []) two_lines [] server
      ready refl (length-IsShort willing 1 7 [] two_lines (omega arith))

Reach-IsValid_example : IsValid (ipc_handle_connection gone true 1 (some 7) initial)
Reach-IsValid_example = Reach-IsValid gone (connection true 1 (some 7) start refl)

abbrev subscriber : Ipc
subscriber = record initial {
  ipc_clients = 1 ∷ [];
  client = λ p. if p == 1 then some (seventh true (codes "a") 1) else none;
  ipc_subscriber_count = pos 1;
}

abbrev listening : Ready 1 7 (codes "a") subscriber
listening = record {
  size = ipc_buffer_initial;
  holds = record {
    c = seventh true (codes "a") 1;
    there = refl;
    descriptor = refl;
    buffer_size = refl;
    buffer = refl;
    buffer_used = refl;
    live = (refl, tt);
  };
  room = omega arith;
  limit = omega arith;
  text = refl;
  line = refl;
}

counted : IsValid subscriber
counted = record {
  distinct = (refl, tt);
  live = (refl, tt);
  counted = refl;
  listed = λ q h. ground arith;
  few = omega arith;
}

handle_freed_example : ipc_handle_client_data gone 1 (bytes (newline ∷ [])) subscriber ≡ none
handle_freed_example =
    handle_freed gone 1 subscriber 7 97 [] [] (codes "EVENT") claimed listening counted refl
      (λ t. refl) (λ t. refl)
