-- ===== src/Lib.antt =====
-- somewm: a Wayland compositor that is configured in Lua. This library models the core of its C code:
-- who is where in the stack, who is visible, who has the focus, how the attributes of a client exclude
-- one another, which tags hold which clients, and how signals wait for the frame boundary.
--
-- The parts and how they interact. The clients (objects/client.c, objects/client.h) hold the
-- attributes; a setter that changes what is visible asks for a refresh of the banning (banning.c), and
-- one that changes the order asks for a refresh of the stack (stack.c). Both are done once per turn of
-- the main loop. What a setter tells Lua is emitted at once or put into the event queue
-- (event_queue.c), which is drained at the frame boundary. The handlers may call all of this again.
--
-- The files:
--   Common          numbers, tests, lists of identifiers, stores addressed by identifier.
--   World           the data: `struct client_t`, `tag_t`, and the fields of `awesome_t` in
--                   globalconf.h that the operations read and write. A pointer is a number, the null
--                   pointer is `none`, and objects are in stores, so that aliasing is explicit.
--   Stack           stack.c, one function for each function there. Layer, Chain, Place and Refresh
--                   hold the proofs: the effective layer, the chains of parents, the depth-first
--                   placement, the whole refresh.
--   Client          objects/client.c: visibility, loss of focus, the setters that change visibility,
--                   and banning_need_update() of banning.c. Client/Visible is what visibility means.
--   Client/Ban      client_ban(), client_unban() and banning_refresh() of banning.c.
--   Client/Setters  the setters that restack: layers, modality, the parent of a transient,
--                   maximization.
--   Client/Focusing client_focus_update(), client_focus() and client_focus_refresh(); Told is whether
--                   Lua will be told the truth about the focus, First who gets it.
--   Client/Raise    client_raise() of objects/client.h.
--   Client/Frame    what asking for a refresh of the banning leaves alone.
--   Focus           focus.c. Told is again what Lua is told, Lift the stack and focustop(),
--                   Restore who decides on the focus when something closed.
--   Tags            objects/tag.c: tagging, viewing, activating. Members is who is tagged, View who is
--                   visible, Activated the list of tags, Spares and Listed what is left alone.
--   Manage          objects/client.c again: client_unmanage(), the tags that Lua gives a client, and
--                   swapping. Apart, Untag and Titlebars are what its steps do to the references, Gone
--                   the whole.
--   EventQueue      event_queue.c: the buffer, the calls that put events into it, and what an event
--                   says. Ledger is who owns which reference, Push what the calls do, Move the
--                   folding of mouse::move, Capacity the array, Draining the drain, the reset and
--                   the wipe.
--   Signals         common/signal.h and the ordered arrays of common/array.h: Search is the binary
--                   search of the insertion, Connect what the connections are.
--   Render          render.c: the nodes of an output and the hash index of their keys. Index is the open
--                   addressing: Capacity the sizes, Found and Built what a search finds, Lookup the
--                   whole. Pass is what a pass of render_reconcile() does: Declared one command, Loop
--                   all of them, Sweep the sweep, Order the new order, Whole all of it. Restack is
--                   the order of the scene nodes: Placed what a move does, Ordered the loop.
--   References      the reference counts of common/luaobject.c.
--   Colors          color.c: colours as strings.
--   Ipc             ipc.c and objects/ipc.c: the command socket. Mild and Counted are what the calls of
--                   Lua leave alone and keep; Reading is the handler of a client's bytes: Lines, Rounds
--                   and Stream the commands that a stream leads to, Sound and Events the states that
--                   are reached, Freed a client that its own command destroys.
--   Examples        data, and the theorems that have hypotheses applied where they hold.
--
-- Parameters. What Lua does is not in this repository's C code. The handlers of signals that are
-- emitted at once are a function on the world (`Host`), with client_resize_do() and
-- some_monitor_arrange(), which end in wlroots. What focusclient() asks of the seat and its surfaces is
-- a record (`Seat`), and the monitor of a screen a function. The handlers of a drain are a function of
-- their own state that answers each signal with the calls of the queue that they make. The Lua
-- registry is a record (`Registry`) with the laws that luaL_ref() and luaL_unref() document: a new reference was not
-- in use, and each call changes the entry of its own reference only.
--
-- For the command socket, how a write ends and what the handlers of a command do is a record (`Peer`);
-- the handlers answer with the calls of ipc.c that they make. A pointer to a freed client that is read
-- is a run without a result.
--
-- What a command draws in its node, whether the tint of a fade can be decoded, and which elements are
-- declared, are arguments of a pass, which answers `some none` where the source calls abort(); the two
-- calls of wlroots that move a node among its siblings are arguments of the restacking.
--
-- Fuel. stack_rides() counts its rounds in the source, as does client_find_transient_for(); the model
-- counts the same way. The recursion of stack_place() gets as many rounds as the old stack is long:
-- each call that does not return at once appends a client that was missing. The walk of
-- stack_client_effective_layer() and the count of client_raise() are given rounds; one more than the
-- chain of parents is long is enough, and client_find_transient_for() never makes a chain that does not
-- end. The loop of ipc_handle_client_data() gets as many rounds as the buffer has bytes: each round
-- takes at least one. A search of the hash index gets as many rounds as the map has slots, which is
-- enough since the map is never full; the sweep gets as many as there are nodes; the capacity of the
-- map doubles at most as often as there are nodes.
--
-- Bounds. A C int has 32 bits: the count of an object's references wraps round, and a capacity of the
-- queue beyond an int, or an event written past the array, sets the ghost field `faulted`; the
-- generation of a pass, the hash and the keys have 64.
--
-- Not modelled. Memory: allocation succeeds. The messages to wlroots, X11 and D-Bus that a setter sends
-- besides its own work are output only. What is drawn, the input devices, the protocols and the
-- bindings to Lua are not part of this library.
pub mod Client
pub mod Colors
pub mod Common
pub mod EventQueue
pub mod Examples
pub mod Focus
pub mod Ipc
pub mod Manage
pub mod References
pub mod Render
pub mod Signals
pub mod Stack
pub mod Tags
pub mod World
