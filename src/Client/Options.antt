-- ===== src/Client/Options.antt =====
-- src/client/gamer_main.cpp: the arguments of the client.
pub mod Assigned
use Prim.Native.String.{String, ◌++◌ as append}
use text.Mathlib.Text.{◌==◌ as str_eq}
use angry_balls.Base.{
  ℕ, suc, List, [], ◌∷◌, length, Bool, true, false, not, ◌&&◌, ◌||◌, Option, none, some, ◌==◌, ◌≡◌,
  ◌⊎◌, ◌≢◌, inl, inr, refl, if◌then◌else◌, arith,
}
use angry_balls.Strategies.Names.{StrategyName, get_all_strategy_names_str, strategy_from_string}

-- `StrategyNamesSeparatedByComma`: its loop over `result`.
unfoldable pub separated_by_comma : String → List String → String
separated_by_comma result [] = result
separated_by_comma result (name ∷ names) =
    separated_by_comma (append (if str_eq result "" then result else append result ",") name) names

unfoldable pub strategy_names_separated_by_comma : String
unfolding separated_by_comma
strategy_names_separated_by_comma = separated_by_comma "" get_all_strategy_names_str

unfoldable pub get_usage_message : String → String
unfolding strategy_names_separated_by_comma
get_usage_message binary_name = append "Usage: " (
    append binary_name (
      append " [OPTIONS]\n\nRequired arguments:\n  {-p|--port}   Server port.\n" (
        append "  --strategy    Strategy to use. Must be in: {" (
          append strategy_names_separated_by_comma
            "}\n\nOptional arguments:\n  {-?|--help}   Print usage.\n"))))

-- `argvv.end() != std::find(argvv.begin(), argvv.end(), s)`.
unfoldable pub has : String → List String → Bool
has s [] = false
has s (arg ∷ argv) = str_eq arg s || has s argv

abbrev pub xor : Bool → Bool → Bool
xor true b = not b
xor false b = b

-- The last test of `Validate`, for the arguments that it lets pass; the others print the usage and
-- exit, as those of its first test do.
unfoldable pub is_complete : List String → Bool
unfolding has
is_complete argv =
    (length argv == 5)
    && xor (has "-p" argv) (has "--port" argv)
    && has "--strategy" argv
    && not (has "-?" argv)
    && not (has "--help" argv)

-- `validate` is true when `Validate` returns.
abbrev pub asks_help : List String → Bool
asks_help (program ∷ arg ∷ []) = str_eq arg "-?" || str_eq arg "--help"
asks_help _ = false

unfoldable pub validate : List String → Bool
unfolding is_complete
validate argv = not (asks_help argv) && is_complete argv

-- `Options`; a member is `none` until it is assigned.
pub record Options : Type 0 where
  pub port : Option ℕ
  pub strategy : Option StrategyName

-- `atoi`, stored in a `size_t`.
module _ (atoi : String → ℕ) where
  -- The body of the loop of `ParseOptions`; `none` is the exception of `FromString`.
  unfoldable pub set_option : String → String → Options → Option Options
  set_option arg value o =
      let named : Option Options = elim (strategy_from_string value) [
        | none ↦ none
        | some name ↦ some (record o { strategy = some name })
      ] in
      if str_eq arg "-p" || str_eq arg "--port"
      then some (record o { port = some (atoi value) })
      else if str_eq arg "--strategy"
      then named
      else some o

  -- The loop; an option that is the last argument makes `at` throw.
  unfoldable pub parse_from : List String → Options → Option Options
  unfolding set_option
  parse_from [] o = some o
  parse_from (arg ∷ []) o =
      if str_eq arg "-p" || str_eq arg "--port" || str_eq arg "--strategy" then none else some o
  parse_from (arg ∷ value ∷ argv) o = elim (set_option arg value o) [
    | none ↦ none
    | some o' ↦ parse_from (value ∷ argv) o'
  ]

  -- What `ParseOptions` does, if `Validate` lets it.
  unfoldable pub parse_options : List String → Option Options
  unfolding validate parse_from
  parse_options [] = none
  parse_options (program ∷ argv) =
      if validate (program ∷ argv)
      then parse_from argv (record { port = none; strategy = none })
      else none
