-- ===== src/Examples/Servers.antt =====
-- The server of the game is made, takes a connection in and closes it.
use angry_balls.Base.{ℕ, ◌+◌, List, [], ◌∷◌, true, some, ◌==◌, ◌≡◌, refl, arith, if◌then◌else◌}
use angry_balls.Base.Int.{pos}
use angry_balls.System.{
  Call, open_socket, create_epoll, accept_on, get_flags, close_fd, set_reuse_address, set_flags,
  listen_on, add_to_epoll, bind_to, Answer, returned, fails, Log, System,
}
use angry_balls.System.Descriptors.{opened, closed}
use angry_balls.Mio.Socket.{Socket, socket_of, new_socket, make_nonblocking, destroy}
use angry_balls.Mio.ServerSocket.{
  Library, server_socket, set_up, set_reuse_address_of, bind_to_address, listen_to,
  get_address_by_ip, accept_new_connection, by_accepted,
}
use angry_balls.Mio.Accepting.{
  Accepted, drained, Operation, accepts, closes, operate, acceptor_read, add_watched, close_watched,
}
use angry_balls.Mio.Accepting.Held.{held, leaked}
use angry_balls.Mio.Events.{add_connection, close_connection}
use angry_balls.Server.Game.{
  Role, server_connection, GameIoServer, game_io_server, add_server_connection, run_io,
}
use angry_balls.Server.Game.Descriptors.{run_io-holds}

abbrev library : Library
library = record {
  with_nonblock = λ flags. flags + 2048;
  eagain = 11;
  ewouldblock = 11;
  einprogress = 115;
  inet_addr = λ ip. 127;
  inet_ntoa = λ ip. "127.0.0.1";
  inet_aton = λ text. some 127;
}

-- One connection waits, until it is watched.
abbrev accepted_after : Log → Answer
accepted_after ((add_to_epoll epoll fd, a) ∷ log) = if fd == 4 then returned 5 else fails 11
accepted_after log = fails 11

abbrev answers : Log → Call → Answer
answers log create_epoll = returned 3
answers log open_socket = returned 4
answers log (accept_on fd) = accepted_after log
answers log c = returned 0

abbrev booted : System
booted = record { kernel = answers; log = [] }

abbrev operations : List Operation
operations = accepts 2 ∷ closes 1 ∷ []

-- The calls that make the server, and those that follow.
abbrev made_log : Log
made_log =
    (add_to_epoll 3 4, returned 0)
    ∷ (listen_on 4 4096, returned 0)
    ∷ (bind_to 4 (record { ip = 127; port = 9011 }), returned 0)
    ∷ (set_reuse_address 4, returned 0)
    ∷ (set_flags 4 2048, returned 0)
    ∷ (get_flags 4, returned 0)
    ∷ (open_socket, returned 4)
    ∷ (create_epoll, returned 3)
    ∷ []

abbrev served_log : Log
served_log =
    (close_fd 5, returned 0)
    ∷ (accept_on 4, fails 11)
    ∷ (add_to_epoll 3 5, returned 0)
    ∷ (set_flags 5 2048, returned 0)
    ∷ (get_flags 5, returned 0)
    ∷ (accept_on 4, returned 5)
    ∷ made_log

abbrev own : ℕ → Socket
own fd = record { fd = fd; have_resources = true }

abbrev made : GameIoServer
made = record {
  epoll_socket = own 3;
  listening = record { socket = own 4; non_blocking = true };
  server = record {
    connections = (0, (own 4, server_connection)) ∷ [];
    next_iterator = 1;
    on_close = [];
  };
}

-- What is left of the server after these operations.
abbrev served : Accepted Role
served = record {
  ended = drained;
  server = record {
    connections = (0, (own 4, server_connection)) ∷ [];
    next_iterator = 2;
    on_close = 1 ∷ [];
  };
  system = record { kernel = answers; log = served_log };
}

run_io-holds_example :
    opened 5 served.system.log
    ≡ closed 5 served.system.log
      + 0
      + held 5 served.server.connections
      + leaked 5 served.ended served.system
unfolding game_io_server add_server_connection server_socket new_socket socket_of make_nonblocking
    set_up set_reuse_address_of bind_to_address listen_to get_address_by_ip add_watched
    add_connection run_io operate acceptor_read accept_new_connection by_accepted close_watched
    close_connection destroy
run_io-holds_example =
    run_io-holds library (pos 9011) operations booted made
      (record { kernel = answers; log = made_log }) served refl refl refl 5 (omega arith)
