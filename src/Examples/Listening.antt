-- ===== src/Examples/Listening.antt =====
-- A web server whose port is taken.
use Prim.Native.String.{String}
use angry_balls.Base.{ℕ, []}
use angry_balls.System.{Call, open_socket, bind_to, Log, Answer, returned, fails, System}
use angry_balls.Web.Options.{default_options}
use angry_balls.Web.Socket.{socket_of}
use angry_balls.Web.Listening.{start_listening}
use angry_balls.Web.Listening.Owned.{Owns}
use angry_balls.Web.Listening.Outcomes.{Ends, start_listening-Ends}

abbrev strerror : ℕ → String
strerror errno = "Address already in use"

abbrev answers : Log → Call → Answer
answers log open_socket = returned 3
answers log (bind_to fd address) = fails 98
answers log c = returned 0

abbrev booted : System
booted = record { kernel = answers; log = [] }

start_listening-Ends_example :
    Ends strerror default_options
      (socket_of 9)
      booted
      (start_listening strerror default_options (socket_of 9) booted)
    × Owns (socket_of 9) booted (start_listening strerror default_options (socket_of 9) booted)
start_listening-Ends_example = start_listening-Ends strerror default_options (socket_of 9) booted
