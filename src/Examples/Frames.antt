-- ===== src/Examples/Frames.antt =====
-- Two nodes are indexed, and a pass with three commands.
use somewm.Common.{
  has, erase, ◌==◌, ◌≡◌, refl, inl, some, none, Bool, true, false, Option, List, [], ◌∷◌, ℕ, arith,
}
use somewm.Render.{Slot, Rnode, RenderState, rmap_rebuild}
use somewm.Render.Restack.{restack}
use somewm.Render.Restack.Placed.{visible, insert_above, IsMoving}
use somewm.Render.Restack.Ordered.{restack-visible}
use somewm.Render.Index.Lookup.{IsLookup, rmap_rebuild-IsLookup}
use somewm.Render.Pass.{Realized, Command}

abbrev old_node : ℕ → Rnode
old_node key = record {
  key = key;
  gen = 3;
  node = some key;
  enabled = true;
  borrowed = false;
  retained = false;
}

abbrev first_frame : RenderState
first_frame = record {
  nodes = old_node 4294967297 ∷ old_node 4294967298 ∷ [];
  gen = 3;
  map = λ s. none;
  map_cap = 0;
  retained = 0;
  swept = 0;
  fades = [];
  fades_prepared = false;
}

abbrev drawn : Command → Rnode → Realized
drawn c n = record { node = some c.id; enabled = true; borrowed = false }

abbrev commands : List Command
commands =
    record { type = 1; id = 2 } ∷ record { type = 4; id = 7 } ∷ record { type = 1; id = 7 } ∷ []

rmap_rebuild-IsLookup_example :
    (slots : ℕ → Option Slot) × (cap : ℕ) × (rmap_rebuild first_frame
      ≡ some (record first_frame { map = slots; map_cap = cap }))
    × IsLookup (record first_frame { map = slots; map_cap = cap })
rmap_rebuild-IsLookup_example = rmap_rebuild-IsLookup first_frame (inl refl) (ground arith)

abbrev supported : Command → Bool
supported c = true

-- The siblings 9, 4 and 5, of which 9 is kept dark, are to be 5 and 4.
moving : IsMoving (λ n b xs. insert_above n b (erase n xs)) (λ n xs. n ∷ erase n xs)
moving = record { above = λ n b xs. refl; bottom = λ n xs. refl }

bright : (x : ℕ) → has x (5 ∷ 4 ∷ []) ≡ true → (x == 9) ≡ false
bright x h = ground arith

restack-visible_example :
    visible
      (λ x. x == 9)
      (restack
        (λ x. x == 9)
        (λ n b xs. insert_above n b (erase n xs))
        (λ n xs. n ∷ erase n xs)
        none
        (some 5 ∷ none ∷ some 4 ∷ [])
        (9 ∷ 4 ∷ 5 ∷ []))
    ≡ 5 ∷ 4 ∷ []
restack-visible_example =
    restack-visible (λ x. x == 9) (λ n b xs. insert_above n b (erase n xs)) (λ n xs. n ∷ erase n xs)
      moving (some 5 ∷ none ∷ some 4 ∷ []) (9 ∷ 4 ∷ 5 ∷ []) bright (refl, (refl, tt))
      (refl, (refl, tt)) same
  where
    same : (x : ℕ) → has x (4 ∷ 5 ∷ []) ≡ has x (5 ∷ 4 ∷ [])
    same x = ground arith
