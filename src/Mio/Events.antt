-- ===== src/Mio/Events.antt =====
-- `IOServer` of include/mio/io_server.hpp, with the parts of connection.hpp, connection_manager.hpp and
-- server_acceptor.hpp that it calls.
pub mod Batch
use angry_balls.Base.{
  ℕ, suc, List, [], ◌∷◌, ◌++◌, Bool, true, false, Option, none, some, if◌then◌else◌,
}
use angry_balls.Mio.Table.{Table, lookup, store, erase}

-- An `EpollEvent` with the iterator that it carries.
pub record Event : Type 0 where
  pub connection : ℕ
  pub error : Bool
  pub input : Bool
  pub output : Bool
  pub closed : Bool

-- What the loop calls of a connection; `none` is an exception. The input of the listening connection
-- brings new connections, of which the one accepted first comes first.
pub record Handlers (C : Type 0) : Type 0 where
  pub on_input : C → Option (C × List C)
  pub on_output : C → Option C
  pub need_close : C → Bool

-- `next_iterator` is the iterator of the next insertion; `on_close` the connections whose `onClose` was
-- called, the last one first.
pub record IoServer (C : Type 0) : Type 0 where
  pub connections : Table C
  pub next_iterator : ℕ
  pub on_close : List ℕ

-- The server after the events, an exception, or the use of an iterator that was erased.
pub data Dispatched (C : Type 0) : Type 0 where
  handled : IoServer C → Dispatched C
  thrown : IoServer C → Dispatched C
  dangling : Dispatched C

module _ {C : Type 0} where
  abbrev pub io_server : IoServer C
  io_server = record { connections = []; next_iterator = 0; on_close = [] }

  -- `addConnection`, which inserts at the front.
  unfoldable pub add_connection : C → IoServer C → IoServer C
  add_connection c s = record s {
    connections = (s.next_iterator, c) ∷ s.connections;
    next_iterator = suc s.next_iterator;
  }

  -- The loop of `ServerAcceptor::read` over what `acceptNewConnection` brings.
  unfoldable pub add_connections : List C → IoServer C → IoServer C
  unfolding add_connection
  add_connections [] s = s
  add_connections (c ∷ cs) s = add_connections cs (add_connection c s)

  unfoldable pub close_connection : ℕ → IoServer C → IoServer C
  close_connection i s = record s { connections = erase i s.connections; on_close = i ∷ s.on_close }

  module _ (h : Handlers C) where
    -- The last test of the body of the loop.
    unfoldable pub finish_event : ℕ → C → IoServer C → IoServer C
    unfolding close_connection
    finish_event i c s =
        let stored : IoServer C = record s { connections = store i c s.connections } in
        if h.need_close c then close_connection i stored else stored

    -- The body of the loop over the events.
    unfoldable pub handle_event : Event → IoServer C → Dispatched C
    unfolding finish_event add_connections
    handle_event e s = elim (lookup e.connection s.connections) [
      | none ↦ dangling
      | some c ↦
          if e.error
          then handled (close_connection e.connection s)
          else if e.input
          then elim (h.on_input c) [
            | none ↦ thrown s
            | some (c', new) ↦ handled (finish_event e.connection c' (add_connections new s))
          ]
          else if e.output
          then elim (h.on_output c) [
            | none ↦ thrown s
            | some c' ↦ handled (finish_event e.connection c' s)
          ]
          else if e.closed
          then handled (close_connection e.connection s)
          else handled (finish_event e.connection c s)
    ]

    -- The loop over the events that `getReadyDescriptors` brings.
    unfoldable pub handle_events : List Event → IoServer C → Dispatched C
    unfolding handle_event
    handle_events [] s = handled s
    handle_events (e ∷ es) s = elim (handle_event e s) [
      | handled s' ↦ handle_events es s'
      | thrown s' ↦ thrown s'
      | dangling ↦ dangling
    ]

    -- `eventLoop`, over the batches that come before `stop_` is seen.
    unfoldable pub event_loop : List (List Event) → IoServer C → Dispatched C
    unfolding handle_events
    event_loop [] s = handled s
    event_loop (batch ∷ batches) s = elim (handle_events batch s) [
      | handled s' ↦ event_loop batches s'
      | thrown s' ↦ thrown s'
      | dangling ↦ dangling
    ]
