-- ===== src/Examples/Tagging.antt =====
-- Client 2 is tagged with tag 0 of the test data, and tag 1 is deactivated.
use somewm.Common.{
  some, none, ◌≡◌, ◌⊎◌, refl, true, false, ◌&&◌, ◌||◌, not, ◌==◌, has, if◌then◌else◌, bool_eq, ◌++◌,
  ◌∷◌,
}
use somewm.World.{
  World, signal, property_selected, request_geometry, property_maximized,
  property_maximized_vertical, property_maximized_horizontal,
}
use somewm.Client.{is_client_tagged, client_isvisible}
use somewm.Client.Ban.{banning_refresh}
use somewm.Tags.{tag_client, untag_client, tag_view, arrange_if, tag_set_activated}
use somewm.Tags.View.{KeepsClients, KeepsDue, viewed, tag_view-isvisible}
use somewm.Tags.Members.{KeepsTags, tag_untag-is_client_tagged}
use somewm.Tags.Activated.{IsListed, set_activated-IsListed}
use somewm.Client.Setters.Maximize.{bit_h, bit_v, bit_both, client_set_maximized_common}
use somewm.Client.Setters.Maximize.Bits.{IsModest, noted, state, wanted, set_maximized_common-next}
use somewm.Examples.Data.{world, quiet_host}

pub keeps : KeepsTags quiet_host
keeps = record {
  lua = λ s w. refl;
  lua_tags = λ s w. refl;
  arrange = λ m w. refl;
  arrange_tags = λ m w. refl;
}

tag_untag-is_client_tagged_example :
    (is_client_tagged (tag_client quiet_host 2 0 world) 2 0
      ≡ (((0 == 0) && (2 == 2)) || is_client_tagged world 2 0))
    × (is_client_tagged (untag_client quiet_host 2 0 world) 2 0
        ≡ (not ((0 == 0) && (2 == 2)) && is_client_tagged world 2 0))
tag_untag-is_client_tagged_example =
    tag_untag-is_client_tagged quiet_host keeps 2 0 world 2 0 (refl, (refl, tt))

abbrev two_tags : World
two_tags = record world { tag = λ t. record (world.tag t) { activated = has t world.tags } }

set_activated-IsListed_example : IsListed (tag_set_activated quiet_host 1 false two_tags)
set_activated-IsListed_example =
    set_activated-IsListed quiet_host keeps 1 false two_tags
      (record { distinct = (refl, (refl, tt)); listed = λ t. refl })

modest : IsModest quiet_host
modest = record { maximized = λ s w a. refl; emitted = λ s w. refl }

set_maximized_common-next_example :
    let x = world.client 1 in
    let now = wanted true true bit_h x in
    let w = client_set_maximized_common quiet_host 1 true bit_h world in
    (state bit_v (w.client 1) ≡ (if 1 == 1 then now bit_v else state bit_v (world.client 1)))
    × (w.emitted ≡ (
        if bool_eq (state bit_h x) (now bit_h)
          && bool_eq (state bit_v x) (now bit_v)
          && bool_eq (state bit_both x) (now bit_both)
        then world.emitted
        else noted (state bit_both x) (now bit_both) 1 property_maximized
          ++ (noted (state bit_v x) (now bit_v) 1 property_maximized_vertical
              ++ (noted (state bit_h x) (now bit_h) 1 property_maximized_horizontal
                  ++ signal 1 request_geometry ∷ world.emitted))))
set_maximized_common-next_example =
    set_maximized_common-next quiet_host modest 1 true bit_h world 1 bit_v

keeps_clients : KeepsClients quiet_host
keeps_clients = record { lua = λ s w. refl; arrange = λ m w. refl; arrange_tags = λ m w. refl }

keeps_due : KeepsDue quiet_host
keeps_due = record {
  lua = λ s w h. h;
  arrange = λ m w h. h;
  lua_clients = λ s w. refl;
  arrange_clients = λ m w. refl;
}

tag_view-isvisible_example :
    let w' = tag_view quiet_host (λ s. some s) 1 true world in
    (((world.tag 1).selected ≡ true) × (w' ≡ world))
    ⊎ (((world.tag 1).selected ≡ not true)
        × (((banning_refresh quiet_host w').client 2).isbanned
            ≡ not (client_isvisible quiet_host (viewed 1 true world) 2))
        × ((v : World) × ((v.tag 1).selected ≡ true)
            × (w'
                ≡ arrange_if quiet_host
                    (elim (world.tag 1).screen [ none ↦ none | some s ↦ some s ])
                    (quiet_host.lua (signal 1 property_selected) v))))
tag_view-isvisible_example =
    tag_view-isvisible quiet_host keeps keeps_clients keeps_due (λ s. some s) 1 true world 2 refl
      refl
