-- ===== src/Lib.antt =====
-- A server that makes up stock quotes and streams them to its clients: the library, the server program
-- and the client program.
--
-- The parts and how they interact. The server program reads a list of tickers and makes a
-- `QuoteServer`, which keeps a map of quotes under a read-write lock and a map of clients under a
-- mutex. A background thread updates the quotes by the `QuoteGenerator` and then sends `Update` to
-- every client. A `Client` has a channel and a thread, which on `Update` calls a callback with the JSON
-- of each quote it is subscribed to. A `TcpServer` accepts connections, each with a thread that reads
-- the commands `PING`, `STREAM` and `STOP`; `STREAM` adds a client whose callback sends to a UDP
-- address. The client program writes those commands from a console.
--
-- The files, with the code they are about:
--   Errors          src/errors.rs: the error types, their messages, the conversions of `?`
--   Defs            src/defs.rs: the constants
--   StockQuote      src/stock_quote.rs: `StockQuote` with `new`, `from_string`, `to_bytes`, `Display`
--   Generator       src/quote_generator.rs: `QuoteGenerator::new`, `update_quotes`,
--                   `update_single_quote`; Generator/Parallel is what is assumed of rayon
--   Client          src/client.rs: `Client` with `new`, `start`, `send`, `Drop`; Client/Thread is the
--                   loop of the thread with its channel, Client/Mailbox the sends and the rounds of
--                   the thread in any order
--   Server          src/quote_server.rs: Server/State the struct, Server/Config `from_config`,
--                   Server/Registry `add_client`, `remove_client` and `notify_clients`,
--                   Server/Update `update_quotes`, with Server/Update/Moved on each quote,
--                   Server/Background `start` and `shutdown`, Server/Handles `Drop` with the handles
--                   of the `Arc` that reach it;
--                   Server/Registry/Refines is the map of the clients without its order
--   Tcp             src/tcp_server.rs: Tcp/Handlers the four handlers, Tcp/Connection
--                   `handle_connection`, Tcp/Listener `TcpServer::new` and `start`; Tcp/Service is the
--                   interface of the quote server that a connection uses, Tcp/Implements fills it;
--                   Tcp/Reply is what is written for a line, Tcp/Silence a peer that writes none
--   System          the running program: the connections, the background thread and the threads of
--                   the clients on one quote server; System/Defs has its states and steps,
--                   System/Orphans the clients without a connection, and System/Program begins with
--                   `main` of the server; System/Locks has the two locks and the threads that take
--                   them in smaller steps, with the keys of the clients and the commands in the
--                   channels as the only data, System/Locks/Walk the runs of one caller, and
--                   System/Locks/Implements and System/Locks/Received lead from the steps of the
--                   detailed model to those steps
--   Cli             bins/client/main.rs and bins/server/main.rs: Cli/Logger `init_logger`,
--                   Cli/Exchange `connect`, `reconnect`, `send_command` and `send_ping`, Cli/Console
--                   the loop of `main` of the client, Cli/Pinger and Cli/UdpListener its threads,
--                   Cli/ClientMain and Cli/ServerMain `main` of the client and of the server,
--                   Cli/Options the command lines of both; Cli/KeepAlive is the keep-alive thread
--                   and the server on one stream, Cli/Reconnection the exchanges of both threads
--                   with the server on one stream after the other, Cli/Delivery the way from a
--                   command to `send_to`, Cli/Arrival from the datagrams to the screen
--   Base, HashMap, Text, Platform
--                   lists and tests, hash maps as association lists, texts as lists of code points
--                   with the functions of `str` that the code uses, and the parameters
--   Tests           the theorems at concrete inputs; Tests/Source the unit tests of the library
--
-- State is passed explicitly. A struct is a record, and what the code hands to the outside is a field
-- or a part of the result: the calls of a callback, the texts that are written to a stream, the clients
-- that were dropped. A call that can block returns an option, and `none` means that it does not return.
-- What the outside gives is an argument: the result of each read and write, the clock, what the threads
-- read under the lock. A poisoned lock is a flag. The order of a `HashMap` is that of insertion.
--
-- Bounds and fuel. Integers are natural numbers with the wrap of their width where the code computes
-- with them: the count of clients, the volume, the milliseconds. `to_decimal` has the number and one more as
-- fuel, since each division makes it smaller. `join` has the length of the queue and one
-- more, since each round takes a command off it. `update_quotes` has 101 rounds, since a round sleeps
-- at least 10 ms and the timeout is 1000 ms. `shutdown` has four steps of the background thread, since
-- it looks at the flag after at most four.
--
-- Parameters, as the code is not in the repository: `f64` with its arithmetic, print and parser,
-- `rand`, `rand_distr`, the JSON of `serde_json`, the Unicode tables of upper and lower case beyond
-- ASCII and the parser of socket addresses (Platform), and `try_for_each` of rayon (Generator/Parallel).
--
-- A callback is taken to return or to panic, and a lock to be given in the end to those who wait.
--
-- Threads. A step of the running program is one round of a connection, one step of the background
-- thread, one `recv` of the thread of a client, or the acceptance of a connection; any step can follow
-- any other. A round of a connection and a notification take the lock of the clients once, and are
-- one step each; the thread of a client that is shut down runs to its end in the step that waits for
-- it. The exchanges of the two threads of the client program follow each other, since each holds both
-- locks; the bytes of an exchange can reach the server in parts, with timeouts of its reads in
-- between, and the client's own read can time out. `main` of the client says which threads it has
-- spawned; their loops are functions of their own.
--
-- System/Locks takes the steps of the calls apart: a lock is waited for, taken and given back, the end
-- of a thread is waited for under the mutex, and a thread of a client waits for its commands and for the
-- lock of the quotes. There the locks are not poisoned, the numbers of the clients stay
-- below 2 ^ 64, and an attempt to write the quotes can find its time over at any point.
--
-- Not modelled: log lines, which have no effect; the `Debug` prints; how structopt reads a command
-- line, but for the types and the defaults of the options; the data of the quotes and of the sessions
-- in the smaller steps of System/Locks; the network, so that of the datagrams that were handed to
-- `send_to` any can be lost, repeated or late.
pub mod Base
pub mod HashMap
pub mod Text
pub mod Platform
pub mod Errors
pub mod Defs
pub mod StockQuote
pub mod Generator
pub mod Client
pub mod Server
pub mod Tcp
pub mod System
pub mod Cli
mod Tests
