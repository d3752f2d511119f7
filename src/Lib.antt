-- ===== src/Lib.antt =====
-- angry-balls: players on a round field, a server that moves them, and the messages between them.
--
-- The server keeps one field. Clients and viewers connect; their byte streams are cut into requests
-- (src/server/protocol.hpp), which are parsed as JSON messages (lib/protocol) and dispatched: a
-- subscription adds a player, a turn sets his acceleration. The thread of the game sends the state to
-- all observers once a round and lets the emulator carry out the turns.
--
-- Which file models which part (paths from the root of the repository):
--   Base, Double, Bytes   shared lists, integers, an interface of doubles, bytes. `Double N` has the
--                         operations of `double` without laws; where a theorem needs them,
--                         `IsExact` adds the laws of exact addition and `IsOrder` those of a strict
--                         order. Double/Fixed is an instance on which the examples run.
--   Geometry, Units       include/util/geometry.h, lib/util/geometry.cpp; include/ab/units.h.
--   Emulator              lib/emulator: `emulate` is DefaultEmulator::Emulate, its helpers are in
--                         Turns (ApplyAcceleration), Physics (moves and collisions) and Coins
--                         (DivideCoins). A failed assertion and a read past the end are `fault`s.
--   Random, Generators    lib/player_generators, lib/coin_generators over an engine of <random>.
--   Server/Config         GameConfig, Check, ParseGameConfigOptions of src/server/game_server.*.
--   Server/Framing        src/server/protocol.hpp: `process_data_chunk` and `get_response`; Spec is a
--                         reader that takes the stream byte by byte.
--   Server/GameState      src/server/game_state_manager.*: one function per method, with the state
--                         passed explicitly; Run is a step relation between critical sections, and
--                         the other threads may step at any time. The generators are an interface
--                         that GameState/Interface fills with the default ones.
--   Protocol              include/protocol/protocol.h, lib/protocol: Names is string_conversion.cpp,
--                         Build and Parse the two halves of protocol.cpp over the interface
--                         Protocol/Json of the JSON library.
--   Server/Managers       message_manager.*, observers_manager.* and json_message.hpp of src/server: one
--                         state, one function per method.
--   Server/Game           GameIoServer, GameConnectionFactory and GameServer of game_server.cpp;
--                         Threads has the two threads of GameServer::Run as a step relation, Main
--                         starts them from the arguments, Joining is what a subscription meets.
--   Server/Wiring         the stack of a connection as game_server.cpp builds it: reader, framing,
--                         handler of the requests; Subscribing and Confirming join these with the
--                         client for a subscription.
--   Strategies            src/strategies: one `get_turn` per strategy. Predictive is the one that
--                         simulates (Simulation, Search, Straight), Names the names, Factory the
--                         factory and the choice of the override.
--   Client                src/client: Io is ClientIO over the results of `send` and `recv`, Gamer the
--                         subscription and the loop of turns over any strategy, Options and Main
--                         gamer_main.cpp; Connecting is the life of its socket.
--   Util/ThreadPool       lib/util/thread_pool.cpp: each critical section and each notification is a
--                         step of one of the threads; `Reaches` is what the pool can come to.
--   Web                   src/web-ui-client: Request and Response are ReadHttpRequest and
--                         SendHttpResponse of client_handler.cpp; Http has http.cpp (Url, Message),
--                         the handlers and Serve (Serving); Viewer is viewer_client.cpp, its streams
--                         of bytes in Viewer/Stream; Socket is socket.cpp, with the accept loop;
--                         Options the arguments in main.cpp; Reporting the report of an error;
--                         Listening the opening of the sockets (StartListening, ConnectSocket).
--   Mio                   include/mio: the output queue of a connection and AsyncWriter; Reader is
--                         AsyncReader; Events is IOServer over its Table of connections, whose
--                         iterators are numbers; Socket and ServerSocket are the classes of these
--                         names, with ClientSocket and InternetAddress; Accepting is how
--                         connections come into the list and leave it.
--   System                the calls of the operating system: a log of the calls and their answers,
--                         which an arbitrary function of the log gives; Descriptors counts in it.
--   Examples              the theorems at concrete inputs.
--
-- Fuel: the loop of the framing runs on 2 n + 1 rounds for a chunk of n bytes, which are shown to be
-- enough. The search for a free place of a new player runs on any number of rounds, since it need not
-- end; theorems about it hold for every number. A search that has found no place in them is a result
-- of its own, `unplaced`, other than the failed assertion, `too_large`; in the threads of the server
-- it is a place of the loop, `placing`, that holds the mutex. The loop over the lines of a request has
-- a round for each byte of it and one more, and so more rounds than lines. The loop that accepts
-- connections and the one that connects the client run for any number of rounds, since the system
-- decides when they end; theorems about them hold for every number. The other loops over sockets run
-- on the list of the results that the calls bring. All other loops are structural.
--
-- Not modelled: the vendored jsoncpp, Qt and browser code. What the operating system answers to its
-- calls, what files hold, the JSON library, <random>, atoi, atof, stoul, inet_addr and its inverse, the
-- printing of numbers by streams and the contents that the build generates are parameters. The sockets
-- of the web server and of the game client read and write over the list of the results of their calls.
-- Doubles carry no rounding laws, but that one theorem on the coins asks that a number below another
-- less the epsilon is below the other.
pub mod Base
pub mod Bytes
pub mod Double
pub mod Geometry
pub mod Units
pub mod Emulator
pub mod Random
pub mod Generators
pub mod Server
pub mod Protocol
pub mod Examples
pub mod Web
pub mod Util
pub mod Client
pub mod Strategies
pub mod System
pub mod Mio
