-- ===== src/Mio/Accepting.antt =====
-- server_acceptor.hpp, server_connection.hpp and connection_manager.hpp of include/mio/, `ConnectionFactory`
-- of mio.hpp, and the calls of `EpollDescriptorManager` of io_server.hpp: how connections come to an
-- `IOServer` with their sockets, and leave it.
pub mod Held
use Prim.Native.String.{String}
use angry_balls.Base.{ℕ, zero, suc, List, [], ◌∷◌, Bool, true, false, Option, none, some}
use angry_balls.Base.Int.{ℤ}
use angry_balls.System.{
  create_epoll, add_to_epoll, Answer, returned, fails, System, Exception, failed_to_add_watched,
  Result, ok, raise, asserts, Action, answer, after, call_or,
}
use angry_balls.Mio.Socket.{Socket, destroy}
use angry_balls.Mio.ServerSocket.{Library, ServerSocket, accept_new_connection}
use angry_balls.Mio.Table.{lookup}
use angry_balls.Mio.Events.{IoServer, add_connection, close_connection}

-- How the loop of `ServerAcceptor::read` ends: no connection waits; an exception; an assertion; or
-- it is still accepting after the rounds given.
pub data Ended : Type 0 where
  drained accepting asserted : Ended
  threw : Exception → Ended

-- `accepts n` is a call of `read` seen for `n` rounds of its loop, `closes i` a call of `closeConnection`.
pub data Operation : Type 0 where
  accepts closes : ℕ → Operation

-- A connection is its socket and the rest. The server with the system, and how an operation ended.
pub record Accepted (X : Type 0) : Type 0 where
  pub ended : Ended
  pub server : IoServer (Socket × X)
  pub system : System

-- `EpollDescriptorManager::addWatchedDescriptor`.
abbrev pub add_watched_descriptor : ℕ → ℕ → Action ℕ
add_watched_descriptor epoll fd = call_or failed_to_add_watched (add_to_epoll epoll fd)

module _ {X : Type 0} where
  -- `IOServer::addConnection`: the connection is listed, and then watched.
  unfoldable pub add_watched : ℕ → Socket × X → IoServer (Socket × X) → System → Accepted X
  unfolding add_connection
  add_watched epoll connection server s =
      let watched : Result ℕ × System = add_watched_descriptor epoll (connection.0).fd s in
      record {
        ended = elim (watched.0) [ ok n ↦ drained | raise e ↦ threw e | asserts ↦ asserted ];
        server = add_connection connection server;
        system = watched.1;
      }

  -- `IOServer::closeConnection`. The list holds the last pointer to a connection, and that to its socket;
  -- `none` is the use of an iterator that was erased.
  unfoldable pub close_watched :
      ℕ → IoServer (Socket × X) → System → Option (IoServer (Socket × X) × System)
  unfolding close_connection
  close_watched i server s = elim (lookup i server.connections) [
    | none ↦ none
    | some connection ↦ some (close_connection i server, destroy (connection.0) s)
  ]

  -- The loop, with `createConnection` of the factory; `create_connection_impl` makes the rest of a
  -- connection for its socket, and the manager of the connections is alive.
  module _ (c : Library) (create_connection_impl : Socket → X) (epoll : ℕ)
      (listening : ServerSocket) where
    -- A round of the loop, with the rounds that follow.
    abbrev pub accept_step :
        (IoServer (Socket × X) → System → Accepted X)
        → Result (Option Socket) × System
        → IoServer (Socket × X)
        → Accepted X
    accept_step rest (ok none, s) server = record { ended = drained; server = server; system = s }
    accept_step rest (ok (some socket), s) server =
        let added = add_watched epoll (socket, create_connection_impl socket) server s in
        elim (added.ended) [
          | drained ↦ rest (added.server) (added.system)
          | accepting ↦ added
          | asserted ↦ added
          | threw e ↦ added
        ]
    accept_step rest (raise e, s) server = record { ended = threw e; server = server; system = s }
    accept_step rest (asserts, s) server = record { ended = asserted; server = server; system = s }

    unfoldable pub acceptor_read : ℕ → IoServer (Socket × X) → System → Accepted X
    unfolding add_watched
    acceptor_read zero server s = record { ended = accepting; server = server; system = s }
    acceptor_read (suc rounds) server s =
        accept_step (acceptor_read rounds) (accept_new_connection c listening s) server

    -- What the event loop does with the list of its connections: it reads from the listening socket, and
    -- closes connections. It stops at an exception; `none` is the use of an erased iterator.
    unfoldable pub operate : List Operation → IoServer (Socket × X) → System → Option (Accepted X)
    unfolding acceptor_read close_watched
    operate [] server s = some (record { ended = drained; server = server; system = s })
    operate (accepts rounds ∷ ops) server s =
        let read = acceptor_read rounds server s in
        elim (read.ended) [
          | drained ↦ operate ops (read.server) (read.system)
          | accepting ↦ some read
          | asserted ↦ some read
          | threw e ↦ some read
        ]
    operate (closes i ∷ ops) server s = elim (close_watched i server s) [
      | none ↦ none
      | some (server', s') ↦ operate ops server' s'
    ]
