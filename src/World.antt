-- ===== src/World.antt =====
-- The data of the compositor core: the client objects (objects/client.h, `struct client_t`), the tags
-- (objects/tag.h) and the fields of the global configuration (globalconf.h, `awesome_t`) that the
-- modelled operations read and write. A pointer is a number, a null pointer is `none`, and the
-- objects live in stores addressed by pointer, so that aliasing is explicit.
use somewm.Common.{ℕ, Bool, Option, none, some, List, update}

-- somewm_types.h, `window_type_t`.
pub data WindowType : Type 0 where
  normal desktop dock toolbar menu utility splash dialog : WindowType
  dropdown_menu popup_menu tooltip notification combo dnd : WindowType

-- Xdg and X11 clients, and layer surfaces.
pub data ClientType : Type 0 where
  xdg_shell layer_shell x11 : ClientType

-- What `request::unmanage` says of the reason.
pub data Context : Type 0 where
  user reparented destroyed : Context

-- globalconf.mouse_under.
pub data Under : Type 0 where
  under_none : Under
  under_client under_drawin : ℕ → Under

-- `struct client_t`: the attributes that stacking, banning and focus decide by.
pub record Client : Type 0 where
  pub ontop : Bool
  pub above : Bool
  pub below : Bool
  pub fullscreen : Bool
  pub maximized : Bool
  pub maximized_horizontal : Bool
  pub maximized_vertical : Bool
  pub modal : Bool
  pub minimized : Bool
  pub hidden : Bool
  pub sticky : Bool
  pub urgent : Bool
  pub isbanned : Bool
  pub focusable : Bool
  pub focusable_set : Bool
  -- Whether the scene tree exists: it is made when the client maps.
  pub scene : Bool
  pub type : WindowType
  pub screen : Option ℕ
  pub mon : Option ℕ
  pub transient_for : Option ℕ
  -- border_rgba, `none` until border_rgba_set.
  pub border_rgba : Option ℕ
  pub client_type : ClientType
  -- surface.xdg of an xdg client, and the X windows, 0 for XCB_NONE.
  pub surface : Option ℕ
  pub window : ℕ
  pub frame_window : ℕ
  pub nofocus_window : ℕ
  -- The drawables of the titlebars: top, right, bottom, left.
  pub titlebar : List (Option ℕ)

-- `struct tag_t`.
pub record Tag : Type 0 where
  pub selected : Bool
  pub activated : Bool
  pub screen : Option ℕ
  pub clients : List ℕ

-- The signals that the modelled code emits or queues, and the requests that Lua handlers answer.
-- `property_active` and `property_inactive` are property::active with the argument true and false.
pub data Name : Type 0 where
  property_ontop property_above property_below property_fullscreen property_modal : Name
  property_minimized property_hidden property_sticky property_focusable property_urgent : Name
  property_maximized property_maximized_horizontal property_maximized_vertical : Name
  property_transient_for property_selected property_activated : Name
  property_active property_inactive property_border_color request_geometry focus unfocus : Name
  client_focused client_unfocused request_focus_restore tagged untagged raised : Name
  mouse_leave property_tags list swapped : Name
  request_unmanage : Context → Name

-- A signal, and the object that it is emitted on, `none` for a global signal.
pub record Signal : Type 0 where
  pub object : Option ℕ
  pub name : Name

abbrev pub signal : ℕ → Name → Signal
signal o n = record { object = some o; name = n }

abbrev pub global_signal : Name → Signal
global_signal n = record { object = none; name = n }

pub record World : Type 0 where
  pub client : ℕ → Client
  pub tag : ℕ → Tag
  pub clients : List ℕ
  pub stack : List ℕ
  pub tags : List ℕ
  -- globalconf.focus
  pub focus_client : Option ℕ
  pub focus_need_update : Bool
  pub need_lazy_banning : Bool
  -- stack.c, `need_stack_refresh`
  pub need_stack_refresh : Bool
  -- declare.c: every output is marked to be declared again
  pub all_dirty : Bool
  -- mousegrabber_isrunning()
  pub mousegrabber : Bool
  -- globalconf.loop: the main loop is running
  pub loop : Bool
  -- somewm.c, `selmon`
  pub selmon : Option ℕ
  -- somewm.c, `pre_lock_focused_client`
  pub pre_lock_client : Option ℕ
  pub mouse_under : Under
  pub drawable_under_mouse : Option ℕ
  pub destroy_later_windows : List ℕ
  -- The objects that luaA_object_unref() was called on, oldest first.
  pub unreferenced : List ℕ
  -- What event_queue.c holds for the next drain, oldest first.
  pub queued : List Signal
  -- What was emitted at once, newest first.
  pub emitted : List Signal

-- `c->field = v`: one client of the store changes.
abbrev pub set_client : World → ℕ → Client → World
set_client w c v = record w { client = update w.client c v }

-- The attribute that a client rides by.
abbrev pub parent : World → ℕ → Option ℕ
parent w c = (w.client c).transient_for
