-- ===== src/EventQueue.antt =====
-- event_queue.c: signals that wait for the frame boundary. An event holds references into the Lua
-- registry. The registry is Lua's: a parameter, with what luaL_ref() and luaL_unref() document. The
-- handlers that a drain runs may call the queue again: they are a parameter too, which answers each
-- signal with the calls that it makes.
pub mod Ledger
pub mod Push
pub mod Move
pub mod Capacity
pub mod Draining
use somewm.Common.{
  ℕ, zero, suc, ◌+◌, ◌*◌, ◌||◌, Bool, true, false, ◌≡◌, Option, none, some, List, [], ◌∷◌, ◌++◌,
  ◌==◌, ltb, leb, map, if◌then◌else◌, length, get_elem?, take, drop,
}
use somewm.Common.Int.{int_end}

-- A Lua value that the queue stores: an object, or a table of arguments.
pub data Value : Type 0 where
  object : ℕ → Value
  table : List ℕ → Value

-- The Lua registry. `value s r` is what the reference `r` holds, `none` if it is not in use.
pub record Registry : Type 1 where
  pub State : Type 0
  pub ref : Value → State → ℕ × State
  pub unref : ℕ → State → State
  pub value : State → ℕ → Option Value
  -- luaL_ref() gives a reference that was not in use, and changes no other.
  pub ref_fresh : (v : Value) (s : State) → value s (ref v s).0 ≡ none
  pub ref_value :
      (v : Value) (s : State) (r : ℕ)
      → value (ref v s).1 r ≡ (if r == (ref v s).0 then some v else value s r)
  -- luaL_unref() gives a reference back, and changes no other.
  pub unref_value :
      (q : ℕ) (s : State) (r : ℕ) → value (unref q s) r ≡ (if r == q then none else value s r)

-- event_queue.h: EVENT_OBJECT, EVENT_CLASS, EVENT_GLOBAL.
pub data EventType : Type 0 where
  event_object event_class event_global : EventType

-- `some_event_t`. LUA_NOREF and a null class are `none`.
pub record Event : Type 0 where
  pub event_type : EventType
  pub signal_id : ℕ
  pub object_ref : Option ℕ
  pub nargs : ℕ
  pub args_ref : Option ℕ
  pub class_ptr : Option ℕ

-- SIG_MOUSE_MOVE and SIG_COUNT. Every identifier below SIG_COUNT has a name in signal_names[].
abbrev pub sig_mouse_move : ℕ
sig_mouse_move = 15

abbrev pub sig_count : ℕ
sig_count = 51

abbrev pub queue_initial_cap : ℕ
queue_initial_cap = 64

-- A signal as it reaches Lua.
pub record Message : Type 0 where
  pub event_type : EventType
  pub signal_id : ℕ
  pub target : Option ℕ
  pub class_ptr : Option ℕ
  pub args : List ℕ

-- The calls that put something into the queue.
pub data Call : Type 0 where
  queue_signal0 : (object signal_id : ℕ) → Call
  queue_signal : (object signal_id : ℕ) → List ℕ → Call
  queue_global : (signal_id : ℕ) → Call
  queue_class : (class_ptr signal_id : ℕ) → Call
  queue_global_args : (signal_id : ℕ) → List ℕ → Call
  queue_class_args : (class_ptr signal_id : ℕ) → List ℕ → Call
  queue_move : (object x y : ℕ) → Call

module _ (lua : Registry) where
  -- `faulted` records undefined behaviour: a capacity beyond an int, or a write past the array.
  pub record Queue : Type 0 where
    pub buf : List Event
    pub cap : ℕ
    pub faulted : Bool
    pub reg : lua.State

  -- queue_grow() doubles the capacity, which is an int.
  pub queue_grow : Queue → Queue
  queue_grow q =
      let new_cap = if q.cap == 0 then queue_initial_cap else q.cap * 2 in
      record q { cap = new_cap; faulted = q.faulted || leb int_end new_cap }

  -- `event_queue[queue_len++] = e`.
  pub queue_write : Event → Queue → Queue
  queue_write e q = record q {
    buf = q.buf ++ e ∷ [];
    faulted = q.faulted || leb q.cap (length q.buf);
  }

  -- queue_push() and queue_push_event(), with the event that the caller fills in.
  pub queue_push : Event → Queue → Queue
  unfolding queue_grow queue_write
  queue_push e q = queue_write e (if leb q.cap (length q.buf) then queue_grow q else q)

  -- queue_capture_args(): LUA_NOREF for no arguments, else a reference to a table of them.
  pub queue_capture_args : List ℕ → lua.State → Option ℕ × lua.State
  queue_capture_args [] s = (none, s)
  queue_capture_args (a ∷ as') s = let (r, s') = lua.ref (table (a ∷ as')) s in (some r, s')

  pub some_event_queue_signal : ℕ → ℕ → List ℕ → Queue → Queue
  unfolding queue_push queue_capture_args
  some_event_queue_signal o id args q =
      let (r, s) = lua.ref (object o) q.reg in
      let (a, s') = queue_capture_args args s in
      queue_push
        (record {
          event_type = event_object;
          signal_id = id;
          object_ref = some r;
          nargs = length args;
          args_ref = a;
          class_ptr = none;
        })
        (record q { reg = s' })

  pub some_event_queue_signal0 : ℕ → ℕ → Queue → Queue
  unfolding queue_push
  some_event_queue_signal0 o id q =
      let (r, s) = lua.ref (object o) q.reg in
      queue_push
        (record {
          event_type = event_object;
          signal_id = id;
          object_ref = some r;
          nargs = 0;
          args_ref = none;
          class_ptr = none;
        })
        (record q { reg = s })

  -- The class and the global signals differ in the class pointer and the kind.
  pub queue_plain : EventType → Option ℕ → ℕ → List ℕ → Queue → Queue
  unfolding queue_push queue_capture_args
  queue_plain kind cls id args q =
      let (a, s) = queue_capture_args args q.reg in
      queue_push
        (record {
          event_type = kind;
          signal_id = id;
          object_ref = none;
          nargs = length args;
          args_ref = a;
          class_ptr = cls;
        })
        (record q { reg = s })

  -- The object that an event's reference holds is `o`: lua_rawequal() on the registry's values.
  unfoldable pub same_object : lua.State → Option ℕ → ℕ → Bool
  same_object s none o = false
  same_object s (some r) o = elim (lua.value s r) [ some (object p) ↦ p == o | _ ↦ false ]

  -- The backward scan over the first `k` events, for a mouse::move of the object `o`.
  pub move_scan : List Event → lua.State → ℕ → ℕ → Option ℕ
  unfolding same_object
  move_scan buf s o zero = none
  move_scan buf s o (suc i) = elim (get_elem? buf i) [
    | none ↦ none
    | some e ↦
        let rest = move_scan buf s o i in
        if e.signal_id == sig_mouse_move
        then (if same_object s e.object_ref o then some i else rest)
        else none
  ]

  abbrev pub set_args : List Event → ℕ → Option ℕ → List Event
  set_args [] i a = []
  set_args (e ∷ es) zero a = record e { args_ref = a } ∷ es
  set_args (e ∷ es) (suc i) a = e ∷ set_args es i a

  pub unref_some : Option ℕ → lua.State → lua.State
  unref_some none s = s
  unref_some (some r) s = lua.unref r s

  abbrev pub args_ref_at : List Event → ℕ → Option ℕ
  args_ref_at buf i = elim (get_elem? buf i) [ none ↦ none | some e ↦ e.args_ref ]

  pub some_event_queue_move : ℕ → ℕ → ℕ → Queue → Queue
  unfolding move_scan unref_some queue_push
  some_event_queue_move o x y q = elim (move_scan q.buf q.reg o (length q.buf)) [
    | some i ↦
        let s = unref_some (args_ref_at q.buf i) q.reg in
        let (a, s') = lua.ref (table (x ∷ y ∷ [])) s in
        record q { buf = set_args q.buf i (some a); reg = s' }
    | none ↦
        let (r, s) = lua.ref (object o) q.reg in
        let (a, s') = lua.ref (table (x ∷ y ∷ [])) s in
        queue_push
          (record {
            event_type = event_object;
            signal_id = sig_mouse_move;
            object_ref = some r;
            nargs = 2;
            args_ref = some a;
            class_ptr = none;
          })
          (record q { reg = s' })
  ]

  pub perform : Call → Queue → Queue
  perform (queue_signal0 o id) = some_event_queue_signal0 o id
  perform (queue_signal o id args) = some_event_queue_signal o id args
  perform (queue_global id) = queue_plain event_global none id []
  perform (queue_class c id) = queue_plain event_class (some c) id []
  perform (queue_global_args id args) = queue_plain event_global none id args
  perform (queue_class_args c id args) = queue_plain event_class (some c) id args
  perform (queue_move o x y) = some_event_queue_move o x y

  pub perform_all : List Call → Queue → Queue
  perform_all [] q = q
  perform_all (c ∷ cs) q = perform_all cs (perform c q)

  -- What an event's references hold.
  pub object_of : lua.State → Option ℕ → Option ℕ
  object_of s none = none
  object_of s (some r) = elim (lua.value s r) [ some (object o) ↦ some o | _ ↦ none ]

  -- drain_unpack_args() takes the first `nargs` entries of the table.
  pub args_of : lua.State → Option ℕ → ℕ → List ℕ
  args_of s none n = []
  args_of s (some r) n = elim (lua.value s r) [ some (table as') ↦ take n as' | _ ↦ [] ]

  -- The signal that a drain emits for an event, `none` if it only cleans up: an identifier with no
  -- name, or an object event with no object.
  pub message : lua.State → Event → Option Message
  message s e =
      let args = args_of s e.args_ref e.nargs in
      if leb sig_count e.signal_id then none else elim e.event_type [
        | event_global ↦ some (record {
          event_type = event_global;
          signal_id = e.signal_id;
          target = none;
          class_ptr = none;
          args = args;
        })
        | event_class ↦ some (record {
          event_type = event_class;
          signal_id = e.signal_id;
          target = none;
          class_ptr = e.class_ptr;
          args = args;
        })
        | event_object ↦ elim e.object_ref [
          | none ↦ none
          | some r ↦ some (record {
            event_type = event_object;
            signal_id = e.signal_id;
            target = object_of s (some r);
            class_ptr = none;
            args = args;
          })
        ]
      ]

  -- The cleanup of an event: both references go back to the registry.
  pub cleanup : Event → lua.State → lua.State
  unfolding unref_some
  cleanup e s = unref_some e.args_ref (unref_some e.object_ref s)
