-- ===== src/Client/Main.antt =====
-- `main` of src/client/gamer_main.cpp, with the setters of `Gamer`.
use Prim.Native.String.{String}
use angry_balls.Base.{ℕ, List, Bool, Option, none, some}
use angry_balls.Double.{Double}
use angry_balls.Units.{Acceleration}
use angry_balls.Random.{Random}
use angry_balls.Protocol.Json.{Json}
use angry_balls.Strategies.Factory.{Strategy, create, get_turn}
use angry_balls.Client.Gamer.{Round, Played, gamer_run}
use angry_balls.Client.Options.{parse_options}

-- The members of `Gamer` that are set before it runs, `none` until then.
pub record Gamer (S : Type 0) : Type 0 where
  pub port : Option ℕ
  pub strategy : Option S

module _ {S : Type 0} where
  abbrev pub gamer : Gamer S
  gamer = record { port = none; strategy = none }

  unfoldable pub set_strategy : S → Gamer S → Gamer S
  set_strategy strategy g = record g { strategy = some strategy }

  unfoldable pub set_port : ℕ → Gamer S → Gamer S
  set_port port g = record g { port = some port }

module _ {N V R : Type 0} ⦃d : Double N⦄ (j : Json N V) (random : Random N R) where
  -- `Run` of a gamer whose members are set; `attempts` are the results of the attempts to connect to
  -- its port, `garbage` and `score` what the strategy finds in members that are not assigned.
  unfoldable pub run_gamer :
      Acceleration N
      → N
      → (ℕ → List Bool)
      → Round
      → List Round
      → Gamer (Strategy N R)
      → Option (Played (Strategy N R))
  run_gamer garbage score attempts r rs g = elim g.port [
    | none ↦ none
    | some port ↦ elim g.strategy [
      | none ↦ none
      | some strategy ↦
          some (gamer_run j (get_turn random garbage score) (attempts port) r rs strategy)
    ]
  ]

  -- `main`; `none` when the arguments are refused or a conversion throws.
  unfoldable pub gamer_main :
      (String → ℕ)
      → R
      → Acceleration N
      → N
      → (ℕ → List Bool)
      → Round
      → List Round
      → List String
      → Option (Played (Strategy N R))
  unfolding run_gamer set_strategy set_port
  gamer_main atoi engine garbage score attempts r rs argv = elim (parse_options atoi argv) [
    | none ↦ none
    | some options ↦ elim options.port [
      | none ↦ none
      | some port ↦ elim options.strategy [
        | none ↦ none
        | some name ↦
            run_gamer garbage score attempts r rs
              (set_strategy (create random engine name) (set_port port gamer))
      ]
    ]
  ]
