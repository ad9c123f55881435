-- ===== src/Examples/Focusing.antt =====
-- The focus goes from client 2 to client 1, and client 3 is raised.
use somewm.Common.{
  ℕ, ◌≡◌, refl, true, false, not, some, none, List, ◌∷◌, ◌++◌, ptr_eq, erase, if◌then◌else◌,
}
use somewm.World.{World, parent, raised}
use somewm.Stack.{stack_windows, restack}
use somewm.Stack.Layer.{stop, step}
use somewm.Client.{emit}
use somewm.Client.Focusing.{client_focus_update}
use somewm.Client.Focusing.Told.{Told, told, IsSilent, client_focus_update-Told}
use somewm.Client.Focusing.{client_focus}
use somewm.Client.Focusing.First.{Focuses, target, client_focus-Focuses}
use somewm.Client.Raise.{client_raise}
use somewm.Client.Raise.Top.{Lineage, without, client_raise-Lineage}
use somewm.Focus.{Seat, focusclient, focustop, focus_restore, old_keeps}
use somewm.Focus.Told.{focusclient-Told, focusclient-none-told}
use somewm.Focus.Restore.{Restores, focus_restore-Restores}
use somewm.Focus.Lift.{Finds, focusclient_lift, focustop-Finds}
use somewm.Examples.Data.{world, quiet_host}

abbrev seat : Seat
seat = record {
  locked = false;
  old = some 2;
  surface = λ c. some c;
  old_client = some 2;
  old_on_top = false;
  unmanaged = λ c. false;
  exclusive_focus = none;
  wants_focus = λ c. false;
  drag = false;
  focus_color = 1;
  border_color = 0;
  motion = λ w. w;
}

silent : IsSilent quiet_host.lua
silent = record { queued = λ s w. refl; focus_client = λ s w. refl }

client_focus_update-Told_example :
    let (changed, w) = client_focus_update quiet_host 1 world in
    Told 2 true w × (w.focus_client ≡ some 1) × (changed ≡ not (ptr_eq world.focus_client (some 1)))
client_focus_update-Told_example = client_focus_update-Told quiet_host silent 2 true 1 world refl

focusclient-Told_example : Told 2 true (focusclient quiet_host seat (some 1) true world)
focusclient-Told_example =
    focusclient-Told quiet_host silent seat 2 true 1 true world
      (record { queued = λ w. refl; focus_client = λ w. refl }) (λ g e. refl) refl refl

not_kept : old_keeps quiet_host seat ≡ false
unfolding old_keeps
not_kept = refl

focusclient-none-told_example :
    ((focusclient quiet_host seat none false world).focus_client ≡ none)
    × (told 2 true (focusclient quiet_host seat none false world).queued ≡ true)
focusclient-none-told_example =
    focusclient-none-told quiet_host silent seat 2 true false world refl not_kept refl refl

focusclient_lift_example :
    (focusclient quiet_host seat (some 1) true world
      ≡ focusclient quiet_host seat (some 1) false (stack_windows world))
    × (let w' = focusclient quiet_host seat (some 1) false world in
        w'.stack ≡ (
          if old_keeps quiet_host seat
          then 1 ∷ erase 1 world.stack
          else restack (parent w') (1 ∷ erase 1 world.stack)))
focusclient_lift_example =
    focusclient_lift quiet_host seat (record { lua = λ s w. refl; motion = λ w. refl }) 1 world refl
      refl refl (refl, (refl, (refl, (refl, (refl, tt)))))

focustop-Finds_example :
    Finds quiet_host seat world (some 0) world.stack (focustop quiet_host seat world (some 0))
focustop-Finds_example = focustop-Finds quiet_host seat world (some 0)

client_raise-Lineage_example :
    (xs : List ℕ) × (w : World) × (client_raise quiet_host 3 3 world
      ≡ some (emit quiet_host 3 raised w))
    × Lineage (parent world) xs 3
    × (w.stack ≡ without xs world.stack ++ xs)
client_raise-Lineage_example =
    client_raise-Lineage quiet_host world 2 3 (refl, (refl, (refl, (refl, (refl, tt)))))
      (step refl (step refl (stop refl)))

abbrev unfocused : World
unfocused = record world { focus_client = none }

focus_restore-Restores_example :
    Restores quiet_host seat true
      (some 0)
      unfocused
      (focus_restore quiet_host seat true (some 0) unfocused)
focus_restore-Restores_example = focus_restore-Restores quiet_host seat true (some 0) unfocused

client_focus-Focuses_example :
    Focuses 2 true (target none world.clients) (client_focus quiet_host (λ c b w. w) none world)
client_focus-Focuses_example =
    client_focus-Focuses quiet_host silent 2 true (λ c b w. w)
      (record { queued = λ c b w. refl; focus_client = λ c b w. refl }) none world refl
