-- ===== src/Web/Options.antt =====
-- `WebServerOptions`, `PrintUsage` and `ParseOptions` of src/web-ui-client/main.cpp, and `main`'s use of them.
use Prim.Native.String.{String, ◌++◌ as append}
use text.Mathlib.Text.{◌==◌ as str_eq}
use angry_balls.Base.{
  ℕ, zero, suc, ◌%◌, ◌^◌, List, [], ◌∷◌, Bool, true, false, Option, none, some, if◌then◌else◌,
}

pub record WebServerOptions : Type 0 where
  pub listen_port : ℕ
  pub game_server_host : String
  pub game_server_port : ℕ
  pub developer_mode : Bool

abbrev pub default_options : WebServerOptions
default_options = record {
  listen_port = 8080;
  game_server_host = "localhost";
  game_server_port = 9011;
  developer_mode = false;
}

unfoldable pub print_usage : String → String
print_usage arg0 = append "Usage: " (
    append arg0
      " [--help] [--dev] [--http-port 9010] [--game-server-host localhost] [--game-server-port 9011]\n")

-- `std::stoul`, `none` where it throws.
module _ (stoul : String → Option ℕ) where
  -- `stoul` into a `uint16_t`.
  abbrev pub port_of : String → Option ℕ
  port_of arg = elim (stoul arg) [ none ↦ none | some n ↦ some (n % 2 ^ 16) ]

  -- The loop of `ParseOptions`, with `help_requested`; `none` is an exception, or a read past the last
  -- argument for the value of an option.
  unfoldable pub parse_web_from : List String → WebServerOptions → Option (WebServerOptions × Bool)
  parse_web_from [] o = some (o, false)
  parse_web_from (cur_arg ∷ []) o =
      if str_eq cur_arg "--help"
      then some (o, true)
      else if str_eq cur_arg "--http-port"
      then none
      else if str_eq cur_arg "--game-server-host"
      then none
      else if str_eq cur_arg "--game-server-port"
      then none
      else if str_eq cur_arg "--dev"
      then some (record o { developer_mode = true }, false)
      else some (o, false)
  parse_web_from (cur_arg ∷ value ∷ args) o =
      let listens : Option (WebServerOptions × Bool) = elim (port_of value) [
        | none ↦ none
        | some port ↦ parse_web_from args (record o { listen_port = port })
      ] in
      let connects : Option (WebServerOptions × Bool) = elim (port_of value) [
        | none ↦ none
        | some port ↦ parse_web_from args (record o { game_server_port = port })
      ] in
      let hosted = parse_web_from args (record o { game_server_host = value }) in
      let developer = parse_web_from (value ∷ args) (record o { developer_mode = true }) in
      let next = parse_web_from (value ∷ args) o in
      if str_eq cur_arg "--help"
      then some (o, true)
      else if str_eq cur_arg "--http-port"
      then listens
      else if str_eq cur_arg "--game-server-host"
      then hosted
      else if str_eq cur_arg "--game-server-port"
      then connects
      else if str_eq cur_arg "--dev"
      then developer
      else next

  unfoldable pub parse_web_options : List String → Option (WebServerOptions × Bool)
  unfolding parse_web_from
  parse_web_options args = parse_web_from args (record default_options { listen_port = 9010 })

-- What `main` returns after both threads have ended.
unfoldable pub return_code : ℕ → ℕ → ℕ
return_code zero rc_webserver = rc_webserver
return_code (suc rc_client) rc_webserver = suc rc_client
