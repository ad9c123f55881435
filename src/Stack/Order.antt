-- ===== src/Stack/Order.antt =====
-- What the operations of stack.c that move one client do to the order, and what they leave alone.
use somewm.Common.{ℕ, ◌≡◌, refl, true, false, [], ◌∷◌, ◌++◌, arith, erase}
use somewm.World.{World, parent}
use somewm.Stack.{stack_windows, stack_client_remove, stack_client_append, restack, stack_refresh}

-- Only the order, and the marks that it changed, differ.
pub record SameBut (w w' : World) : Type 0 where
  pub client : w'.client ≡ w.client
  pub tag : w'.tag ≡ w.tag
  pub clients : w'.clients ≡ w.clients
  pub tags : w'.tags ≡ w.tags
  pub focus_client : w'.focus_client ≡ w.focus_client
  pub queued : w'.queued ≡ w.queued

pub stack_client_append-stack :
    (w : World) (c : ℕ)
    → ((stack_client_append w c).stack ≡ erase c w.stack ++ c ∷ [])
      × SameBut w (stack_client_append w c)
unfolding stack_client_append stack_client_remove stack_windows
stack_client_append-stack w c = (
  refl,
  record {
    client = refl;
    tag = refl;
    clients = refl;
    tags = refl;
    focus_client = refl;
    queued = refl;
  },
)

pub stack_refresh-SameBut : (w : World) → SameBut w (stack_refresh w)
unfolding stack_refresh
stack_refresh-SameBut w = record {
  client = ground arith;
  tag = ground arith;
  clients = ground arith;
  tags = ground arith;
  focus_client = ground arith;
  queued = ground arith;
}

pub stack_client_append_eq :
    (w : World) (c : ℕ)
    → stack_client_append w c ≡ stack_windows (record w { stack = erase c w.stack ++ c ∷ [] })
unfolding stack_client_append stack_client_remove stack_windows
stack_client_append_eq w c = refl

pub stack_refresh-done : (w : World) → (stack_refresh w).need_stack_refresh ≡ false
unfolding stack_refresh
stack_refresh-done w = ground arith

-- A due refresh reorders by the parents of the world that it leaves.
pub stack_refresh_due :
    (w : World)
    → w.need_stack_refresh ≡ true
    → (stack_refresh w).stack ≡ restack (parent (stack_refresh w)) w.stack
unfolding stack_refresh
stack_refresh_due w due = rw due refl
