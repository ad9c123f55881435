-- ===== src/Examples/Leaving.antt =====
-- Client 2 of the test data, the focus and the parent of client 1, leaves; client 1 is given a tag; and
-- clients 1 and 3 are swapped.
use somewm.Common.{some, ◌≡◌, refl, map, ◌++◌, ◌∷◌, [], ◌==◌, if◌then◌else◌, has, arith}
use somewm.World.{World, global_signal, signal, list, swapped, under_client}
use somewm.Client.{is_client_tagged}
use somewm.Client.Spares.{IsDiscreet, Spares-refl}
use somewm.Manage.{client_unmanage, client_tags, client_swap, unmanage_user}
use somewm.Manage.Untag.{IsTidy}
use somewm.Manage.Gone.{Gone, client_unmanage-Gone}
use somewm.Manage.Exact.{client_tags-is_client_tagged}
use somewm.Manage.Swap.{exchanged, client_swap-exchanged}
use somewm.Examples.Data.{world, quiet_host}
use somewm.Examples.Tagging.{keeps}

discreet : IsDiscreet quiet_host 2
discreet = record { lua = λ s w. Spares-refl 2 w; arrange = λ m w. Spares-refl 2 w }

abbrev busy_world : World
busy_world = record world { pre_lock_client = some 2; mouse_under = under_client 2 }

tidy : IsTidy busy_world
tidy u = ground arith

client_unmanage-Gone_example : Gone 2 (client_unmanage quiet_host 2 2 unmanage_user busy_world)
client_unmanage-Gone_example =
    client_unmanage-Gone quiet_host keeps 2 discreet 2 unmanage_user busy_world
      (refl, (refl, (refl, tt))) (refl, (refl, (refl, (refl, (refl, tt))))) tidy (ground arith)

client_tags-is_client_tagged_example :
    is_client_tagged (client_tags quiet_host 2 1 (1 ∷ []) world) 1 0
    ≡ (if 1 == 1 then has 0 (1 ∷ []) else is_client_tagged world 1 0)
client_tags-is_client_tagged_example =
    client_tags-is_client_tagged quiet_host keeps 2 1 (1 ∷ []) world 1 0 tidy (ground arith) refl

client_swap-exchanged_example :
    client_swap 1 3 world
    ≡ some (record world {
      clients = map (exchanged 1 3) world.clients;
      queued = world.queued ++ global_signal list ∷ signal 1 swapped ∷ signal 3 swapped ∷ [];
    })
client_swap-exchanged_example =
    client_swap-exchanged 1 3 world (λ e. absurd (ground arith)) (refl, (refl, (refl, tt))) refl
      refl
