-- ===== src/Examples/Shared.antt =====
-- Signals, references and colours.
use somewm.Common.{
  ℕ, ◌≡◌, refl, true, false, some, List, [], ◌∷◌, ◌++◌, ◌==◌, arith, ltb, if◌then◌else◌,
}
use somewm.Signals.{SignalEntry, signal_array_insert, signal_connect, signal_disconnect}
use somewm.Signals.Search.{IsOrdered, insert_ordered, signal_array_insert-ordered}
use somewm.Signals.Connect.{
  funcs, Disconnected, signal_connect-funcs, signal_disconnect-Disconnected,
}
use somewm.References.{Store}
use somewm.References.Counted.{Step, take_ref, give_ref, perform_all, held, perform_all-held}
use somewm.Colors.{Color, push_color, color_init_from_string}
use somewm.Colors.RoundTrip.{color_init_from_string-push_color}

abbrev entry : ℕ → SignalEntry
entry n = record { id = n; sigfuncs = 7 ∷ 8 ∷ [] }

abbrev connected : List SignalEntry
connected = entry 2 ∷ entry 5 ∷ entry 9 ∷ []

connected-IsOrdered : IsOrdered connected
connected-IsOrdered = ((omega arith, (omega arith, tt)), ((omega arith, tt), (tt, tt)))

signal_array_insert-ordered_example :
    signal_array_insert (entry 6) connected ≡ insert_ordered (entry 6) connected
signal_array_insert-ordered_example =
    signal_array_insert-ordered (entry 6) connected connected-IsOrdered refl

signal_connect-funcs_example :
    (funcs 5 (signal_connect 5 1 connected)
      ≡ (if 5 == 5 then funcs 5 connected ++ 1 ∷ [] else funcs 5 connected))
    × IsOrdered (signal_connect 5 1 connected)
signal_connect-funcs_example = signal_connect-funcs 5 1 connected 5 connected-IsOrdered

signal_disconnect-Disconnected_example :
    Disconnected 5 8 connected (signal_disconnect 5 8 connected)
signal_disconnect-Disconnected_example =
    signal_disconnect-Disconnected 5 8 connected connected-IsOrdered

abbrev empty_store : Store
empty_store = record { table = λ p. false; count = λ p. 0 }

abbrev steps : List Step
steps = take_ref 4 ∷ take_ref 4 ∷ give_ref 4 ∷ give_ref 6 ∷ []

perform_all-held_example :
    ((perform_all steps empty_store).table 4 ≡ ltb 0 (held 4 steps 0))
    × ((perform_all steps empty_store).count 4 ≡ held 4 steps 0)
perform_all-held_example = perform_all-held steps empty_store 4 (λ p. refl) (λ q. omega arith)

abbrev teal : Color
teal = record { red = 0; green = 128; blue = 127; alpha = 64; initialized = true }

color_init_from_string-push_color_example :
    (s : List ℕ) × (push_color teal ≡ some s) × (color_init_from_string s teal ≡ (true, teal))
color_init_from_string-push_color_example =
    color_init_from_string-push_color teal teal
      (record { red = omega arith; green = omega arith; blue = omega arith; alpha = omega arith })
      refl
