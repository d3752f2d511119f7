-- ===== src/Client/Options/Assigned.antt =====
-- No member of the options is used before it is assigned.
use Prim.Native.String.{String}
use text.Mathlib.Text.{◌==◌ as str_eq}
use text.Mathlib.TextEquality.{eq_iff}
use angry_balls.Base.{
  ℕ, List, [], ◌∷◌, Bool, true, false, ◌||◌, Option, none, some, Option-cases, ◌≡◌, inl, inr, refl,
  arith,
}
use angry_balls.Strategies.Names.{strategy_from_string}
use angry_balls.Client.Options.{
  Options, has, validate, is_complete, set_option, parse_from, parse_options,
}

abbrev pub is_assigned {ℓ} : {A : Type ℓ} → Option A → Bool
is_assigned none = false
is_assigned (some a) = true

abbrev pub is_port : String → Bool
is_port arg = str_eq arg "-p" || str_eq arg "--port"

abbrev pub is_strategy : String → Bool
is_strategy arg = str_eq arg "--strategy"

not_port : (arg : String) → is_strategy arg ≡ true → is_port arg ≡ false
not_port arg e = let is : arg ≡ "--strategy" = (eq_iff arg "--strategy").0 e in rw (is) refl

module _ (atoi : String → ℕ) where
  set_option-port :
      (arg value : String) (o o' : Options)
      → set_option atoi arg value o ≡ some o'
      → is_assigned o'.port ≡ (is_port arg || is_assigned o.port)
  unfolding set_option
  set_option-port arg value o o' h = elim (Option-cases (strategy_from_string value)) [
    | inl e ↦ ground (arith, e, h)
    | inr (name, e) ↦ ground (arith, e, h)
  ]

  set_option-strategy :
      (arg value : String) (o o' : Options)
      → set_option atoi arg value o ≡ some o'
      → is_assigned o'.strategy ≡ (is_strategy arg || is_assigned o.strategy)
  unfolding set_option
  set_option-strategy arg value o o' h = elim (Option-cases (strategy_from_string value)) [
    | inl e ↦ ground (arith, e, h, not_port arg)
    | inr (name, e) ↦ ground (arith, e, h, not_port arg)
  ]

  parse_from-port :
      (argv : List String) (o o' : Options)
      → parse_from atoi argv o ≡ some o'
      → (is_assigned o.port || (has "-p" argv || has "--port" argv)) ≡ true
      → is_assigned o'.port ≡ true
  unfolding parse_from has
  parse_from-port [] o o' h g = ground arith
  parse_from-port (arg ∷ []) o o' h g = ground arith
  parse_from-port (arg ∷ value ∷ argv) o o' h g =
      elim (Option-cases (set_option atoi arg value o)) [
        | inl e ↦ ground (arith, e, h)
        | inr (o1, e) ↦
            parse_from-port (value ∷ argv) o1 o' (ground (arith, e, h))
              (ground (arith, set_option-port arg value o o1 e, g))
      ]

  parse_from-strategy :
      (argv : List String) (o o' : Options)
      → parse_from atoi argv o ≡ some o'
      → (is_assigned o.strategy || has "--strategy" argv) ≡ true
      → is_assigned o'.strategy ≡ true
  unfolding parse_from has
  parse_from-strategy [] o o' h g = ground arith
  parse_from-strategy (arg ∷ []) o o' h g = ground arith
  parse_from-strategy (arg ∷ value ∷ argv) o o' h g =
      elim (Option-cases (set_option atoi arg value o)) [
        | inl e ↦ ground (arith, e, h)
        | inr (o1, e) ↦
            parse_from-strategy (value ∷ argv) o1 o' (ground (arith, e, h))
              (ground (arith, set_option-strategy arg value o o1 e, g))
      ]

  -- Whenever ParseOptions returns, it has assigned both the port and the strategy, so that neither is
  -- used without a value, whatever the order of the arguments and even if one option stands in the
  -- place of the value of another; for a program whose own name is none of the options.
  pub parse_options-is_assigned :
      (program : String) (argv : List String) (o : Options)
      → is_port program ≡ false
      → is_strategy program ≡ false
      → parse_options atoi (program ∷ argv) ≡ some o
      → (is_assigned o.port ≡ true) × (is_assigned o.strategy ≡ true)
  unfolding parse_options validate is_complete has
  parse_options-is_assigned program argv o p s h =
      let start : Options = record { port = none; strategy = none } in
      (
        parse_from-port argv start o (ground (arith, h)) (ground (arith, h, p)),
        parse_from-strategy argv start o (ground (arith, h)) (ground (arith, h, s)),
      )
