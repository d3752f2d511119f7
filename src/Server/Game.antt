-- ===== src/Server/Game.antt =====
-- `GameConnection`, `GameConnectionFactory` and `GameIoServer` of src/server/game_server.cpp.
pub mod Descriptors
pub mod Finishing
pub mod Joining
pub mod Main
pub mod Threads
use Prim.Native.String.{String}
use angry_balls.Base.{ℕ, ◌-◌, ◌^◌, List, [], Bool, true, false, Option, none, some}
use angry_balls.Base.Int.{ℤ}
use angry_balls.System.{
  create_epoll, Answer, returned, fails, System, Result, ok, raise, asserts, Action, answer, after,
  on_unwinding,
}
use angry_balls.Mio.Socket.{Socket, destroy}
use angry_balls.Mio.ServerSocket.{Library, ServerSocket, server_socket}
use angry_balls.Mio.{Connection}
use angry_balls.Mio.Events.{IoServer, io_server}
use angry_balls.Mio.Accepting.{
  Ended, drained, accepting, asserted, threw, Accepted, Operation, add_watched, operate,
}
use angry_balls.Server.Framing.{State, initial}

-- What a connection of the server has besides its socket: the reader and the writer of a
-- `GameConnection`, or the acceptor of the `ServerConnection`.
pub data Role : Type 0 where
  server_connection : Role
  game_connection : State → Connection → Role

-- `createConnectionImpl`.
unfoldable pub create_connection_impl : Socket → Role
create_connection_impl socket = game_connection initial (record {
  writer = record { buffer = []; wire = [] };
  output_queue = [];
  close_after_output = false;
  need_close = false;
})

pub record GameIoServer : Type 0 where
  pub epoll_socket : Socket
  pub listening : ServerSocket
  pub server : IoServer (Socket × Role)

-- The constructor of `EpollDescriptorManager`. What `epoll_create1` answers is not tested: if it fails, the
-- descriptor is -1, which is 2 ^ 32 - 1 here.
abbrev pub epoll_fd : Answer → ℕ
epoll_fd (returned fd) = fd
epoll_fd (fails errno) = 2 ^ 32 - 1

abbrev pub epoll_of : Answer → Socket
epoll_of a = record { fd = epoll_fd a; have_resources = true }

-- `addServerConnection`, after the server socket was made. When it throws, the members are destroyed.
abbrev pub watch_server : Socket → ServerSocket → Accepted Role → Result GameIoServer × System
watch_server epoll_socket listening added = elim (added.ended) [
  | drained ↦ (
    ok (record { epoll_socket = epoll_socket; listening = listening; server = added.server }),
    added.system,
  )
  | accepting ↦ (asserts, added.system)
  | asserted ↦ (asserts, added.system)
  | threw e ↦ (raise e, destroy epoll_socket (destroy (listening.socket) (added.system)))
]

module _ (c : Library) where
  unfoldable pub add_server_connection :
      Socket → Result ServerSocket × System → Result GameIoServer × System
  unfolding add_watched destroy
  add_server_connection epoll_socket (ok listening, s) =
      watch_server epoll_socket listening
        (add_watched (epoll_socket.fd) (listening.socket, server_connection) io_server s)
  add_server_connection epoll_socket (raise e, s) = (raise e, destroy epoll_socket s)
  add_server_connection epoll_socket (asserts, s) = (asserts, s)

  -- The constructor, with a `ServerConfig` of the port.
  unfoldable pub game_io_server : ℤ → Action GameIoServer
  unfolding add_server_connection
  game_io_server port s =
      add_server_connection (epoll_of (answer create_epoll s))
        (server_socket c "127.0.0.1" port true (after create_epoll s))

  -- `Run`, as far as it takes connections in and closes them.
  unfoldable pub run_io : List Operation → GameIoServer → System → Option (Accepted Role)
  unfolding create_connection_impl
  run_io ops g s =
      operate c create_connection_impl (g.epoll_socket.fd) (g.listening) ops (g.server) s
