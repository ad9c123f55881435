-- ===== src/Examples/Stacking.antt =====
-- The stack of clients 3, 1, 4, 2 and 5, of which 4 and 5 are on a cycle.
use somewm.Common.{◌≡◌, refl, true, false, some, count, arith}
use somewm.World.{parent}
use somewm.Stack.{WindowLayer, stack_refresh, stack_rides, stack_client_effective_layer}
use somewm.Stack.Layer.{stop, step, Inherits, effective_layer-Inherits}
use somewm.Stack.Chain.{parent_of, Leads, here, next}
use somewm.Stack.Refresh.{below, stack_refresh-count, stack_refresh-below, stack_rides_iff}
use somewm.Examples.Data.{world}

stack_refresh-count_example :
    (count 4 (stack_refresh world).stack ≡ count 4 world.stack)
    × ((stack_refresh world).need_stack_refresh ≡ false)
stack_refresh-count_example = stack_refresh-count world 4 (refl, (refl, (refl, (refl, (refl, tt)))))

three-Leads : Leads (parent world) world.stack 1 1
three-Leads = next (parent_of refl refl) (here (record { top = λ q h. ground arith }))

stack_refresh-below_example : below 1 3 (stack_refresh world).stack ≡ true
stack_refresh-below_example = stack_refresh-below world 3 1 refl refl three_rides refl
  where
    three_rides : stack_rides (parent world) world.stack 3 ≡ true
    three_rides =
        (stack_rides_iff (parent world) world.stack 3).1
          (1, 1, parent_of refl refl, three-Leads, omega arith)

effective_layer-Inherits_example :
    (l : WindowLayer) × (stack_client_effective_layer 3 world 3 ≡ some l) × Inherits world 3 l
effective_layer-Inherits_example =
    effective_layer-Inherits world 2 3 (step refl (step refl (stop refl)))
