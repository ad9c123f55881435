-- ===== src/Examples/Data.antt =====
-- Test data: clients, tags, a world, and a Lua registry kept as a list of its slots.
use somewm.Common.{
  ℕ, zero, suc, ◌≡◌, refl, true, false, Option, some, none, List, [], ◌∷◌, ◌++◌, arith, ◌==◌,
  if◌then◌else◌, length,
}
use somewm.World.{World, Client, Tag, normal, xdg_shell, under_none}
use somewm.Client.{Host}
use somewm.EventQueue.{Value, Registry}

abbrev pub plain_client : Client
plain_client = record {
  ontop = false;
  above = false;
  below = false;
  fullscreen = false;
  maximized = false;
  maximized_horizontal = false;
  maximized_vertical = false;
  modal = false;
  minimized = false;
  hidden = false;
  sticky = false;
  urgent = false;
  isbanned = false;
  focusable = true;
  focusable_set = false;
  scene = true;
  type = normal;
  screen = some 0;
  mon = some 0;
  transient_for = none;
  border_rgba = none;
  client_type = xdg_shell;
  surface = some 1;
  window = 0;
  frame_window = 0;
  nofocus_window = 0;
  titlebar = none ∷ none ∷ none ∷ none ∷ [];
}

-- Client 1 is a transient of 2, and 3 of 1; 4 and 5 are transients of each other.
abbrev pub parents : ℕ → Option ℕ
parents c =
    if c == 1
    then some 2
    else if c == 3
    then some 1
    else if c == 4
    then some 5
    else if c == 5
    then some 4
    else none

abbrev pub clients_at : ℕ → Client
clients_at c = record plain_client { transient_for = parents c; minimized = c == 3 }

-- Tag 0 is selected and holds client 1, tag 1 is not and holds client 2.
abbrev pub tags_at : ℕ → Tag
tags_at t = record {
  selected = t == 0;
  activated = true;
  screen = some 0;
  clients = if t == 0 then 1 ∷ 3 ∷ [] else 2 ∷ [];
}

abbrev pub world : World
world = record {
  client = clients_at;
  tag = tags_at;
  clients = 1 ∷ 2 ∷ 3 ∷ [];
  stack = 3 ∷ 1 ∷ 4 ∷ 2 ∷ 5 ∷ [];
  tags = 0 ∷ 1 ∷ [];
  focus_client = some 2;
  focus_need_update = false;
  need_lazy_banning = true;
  need_stack_refresh = true;
  all_dirty = false;
  mousegrabber = false;
  selmon = some 0;
  loop = true;
  pre_lock_client = none;
  mouse_under = under_none;
  drawable_under_mouse = none;
  destroy_later_windows = [];
  unreferenced = [];
  queued = [];
  emitted = [];
}

-- The world without the two clients that are transients of each other.
abbrev pub tree_world : World
tree_world = record world {
  client = λ c. record plain_client { transient_for = if c == 1 then some 2 else none };
  stack = 1 ∷ 2 ∷ [];
}

-- Handlers that do nothing.
abbrev pub quiet_host : Host
quiet_host = record {
  lua = λ s w. w;
  monitor_screen = λ m. some m;
  resize_do = λ c w. w;
  arrange = λ m w. w;
}

abbrev pub slot : List (Option Value) → ℕ → Option Value
slot [] r = none
slot (v ∷ s) zero = v
slot (v ∷ s) (suc r) = slot s r

abbrev pub free : ℕ → List (Option Value) → List (Option Value)
free r [] = []
free zero (v ∷ s) = none ∷ s
free (suc r) (v ∷ s) = v ∷ free r s

pub slot-fresh : (s : List (Option Value)) → slot s (length s) ≡ none
slot-fresh [] = refl
slot-fresh (v ∷ s) = slot-fresh s

pub slot-append :
    (v : Value) (s : List (Option Value)) (r : ℕ)
    → slot (s ++ some v ∷ []) r ≡ (if r == length s then some v else slot s r)
slot-append v [] zero = refl
slot-append v [] (suc r) = ground arith
slot-append v (w ∷ s) zero = ground arith
slot-append v (w ∷ s) (suc r) = ground (arith, slot-append v s r)

pub slot-free :
    (q : ℕ) (s : List (Option Value)) (r : ℕ)
    → slot (free q s) r ≡ (if r == q then none else slot s r)
slot-free q [] r = ground arith
slot-free zero (v ∷ s) zero = refl
slot-free zero (v ∷ s) (suc r) = ground arith
slot-free (suc q) (v ∷ s) zero = ground arith
slot-free (suc q) (v ∷ s) (suc r) = ground (arith, slot-free q s r)

abbrev pub slots : Registry
slots = record {
  State = List (Option Value);
  ref = λ v s. (length s, s ++ some v ∷ []);
  unref = free;
  value = slot;
  ref_fresh = λ v s. slot-fresh s;
  ref_value = slot-append;
  unref_value = slot-free;
}
