-- ===== src/Tests/Command.antt =====
-- A whole run of the starter.
use temporalops.Base.{String, ◌≡◌, refl, List, [], ◌∷◌}
use temporalops.Starter.Program.{Shell, printed}
use temporalops.Starter.Main.{main}
use temporalops.Starter.Main.Closing.{Closes, main-Closes}
use temporalops.Tests.Database.{memory}
use temporalops.Tests.Starter.{surroundings, desk, shell}

abbrev words : List String
words = "status" ∷ "--id=c-1" ∷ []

abbrev answered : Shell desk memory
answered = record shell { output = printed "phase: promote" ∷ [] }

main-Closes_example :
    (cmd : String) × (rest : List String) × (words ≡ cmd ∷ rest)
    × Closes desk memory surroundings cmd rest shell answered
unfolding main temporalops.Starter.Deploys.run_status temporalops.Starter.Flags.parse
main-Closes_example = main-Closes desk memory surroundings words shell answered refl
