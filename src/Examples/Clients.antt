-- ===== src/Examples/Clients.antt =====
-- The clients and tags of the test data.
use somewm.Common.{
  ℕ, ◌≡◌, ◌↔◌, ◌⊎◌, refl, true, false, not, some, suc, zero, arith, if◌then◌else◌, ◌==◌,
}
use somewm.World.{parent}
use somewm.Stack.Layer.{stop, step}
use somewm.Client.{client_isvisible}
use somewm.Client.Visible.{OnScreen, Shows, client_isvisible_iff}
use somewm.Client.Ban.{banning_refresh}
use somewm.Client.Ban.Refresh.{banning_refresh-banned}
use somewm.Client.Setters.{client_find_transient_for}
use somewm.Client.Setters.Layers.{
  IsQuiet, flags, get, only, clear, above_attribute, client_set, client_set-flags,
}
use somewm.Client.Setters.Transient.{IsAcyclic, find_transient_for-IsAcyclic}
use somewm.Examples.Data.{world, tree_world, quiet_host}

client_isvisible_iff_example : (client_isvisible quiet_host world 1 ≡ true) ↔ (
    ((world.client 1).hidden ≡ false)
    × ((world.client 1).minimized ≡ false)
    × (((world.client 1).sticky ≡ true)
        ⊎ ((s : ℕ) × (t : ℕ) × OnScreen quiet_host world 1 s × Shows world 1 s t)))
client_isvisible_iff_example = client_isvisible_iff quiet_host world 1

banning_refresh-banned_example :
    (((banning_refresh quiet_host world).client 2).isbanned
      ≡ not (client_isvisible quiet_host world 2))
    × (client_isvisible quiet_host (banning_refresh quiet_host world) 2
        ≡ client_isvisible quiet_host world 2)
banning_refresh-banned_example = banning_refresh-banned quiet_host world 2 refl refl refl

quiet : IsQuiet quiet_host
quiet = record { lua = λ s w c. refl; resize_do = λ a w c. refl }

client_set-flags_example :
    ((get above_attribute (flags world 1) ≡ true)
      × (client_set above_attribute quiet_host 1 true world ≡ world))
    ⊎ ((get above_attribute (flags world 1) ≡ not true)
        × (flags (client_set above_attribute quiet_host 1 true world) 1 ≡ (
            if 1 == 1
            then (if true then only above_attribute else clear above_attribute (flags world 1))
            else flags world 1)))
client_set-flags_example = client_set-flags quiet_host quiet above_attribute 1 true world 1

tree : IsAcyclic (parent tree_world)
tree zero = (0, stop refl)
tree (suc zero) = (1, step refl (stop refl))
tree (suc (suc c)) = (0, stop (ground arith))

find_transient_for-IsAcyclic_example :
    IsAcyclic (parent (client_find_transient_for quiet_host 2 (some 1) tree_world))
find_transient_for-IsAcyclic_example =
    find_transient_for-IsAcyclic quiet_host (record { lua = λ s w x. refl }) 2 (some 1) tree_world
      tree
