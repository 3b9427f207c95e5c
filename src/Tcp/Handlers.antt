-- ===== src/Tcp/Handlers.antt =====
-- `handle_ping`, `handle_stream`, `handle_stop` and `handle_invalid` of src/tcp_server.rs.
use rust_quote_streamer.Base.{
  ℕ, List, [], ◌∷◌, ◌++◌, take, Option, none, some, ◌>>=◌, Result, ok, err,
}
use rust_quote_streamer.Text.{Text, codes, split_whitespace}
use rust_quote_streamer.Platform.{Platform}
use rust_quote_streamer.Errors.{
  TcpServerError, client_io_error, invalid_command, quote_server_error, QuoteServerError,
}
use rust_quote_streamer.Client.Thread.{Reads, send_datagram}
use rust_quote_streamer.Tcp.Service.{QuoteService}

-- What a connection keeps: its client, the time of the last line in nanoseconds, and, for the
-- statements, what was written to the stream.
pub record Session : Type 0 where
  pub client_id : Option ℕ
  pub last_ping : ℕ
  pub written : List Text

-- How many characters `write_all` has written when it fails, and the error.
abbrev pub WriteError : Type 0
WriteError = ℕ × Text

-- What the calls of the system give in one round: the errors of writing to the stream and of binding a
-- UDP socket, if any, and what threads that are joined read.
pub record Io (p : Platform) : Type 0 where
  pub write_error : Option WriteError
  pub udp_error : Option Text
  pub reads : Reads p

abbrev pub Handled : Type 0 → Type 0
Handled State = State × Session × Result TcpServerError (Unit {0})

abbrev pub usage : TcpServerError
usage = invalid_command (codes "STREAM host:port TICKER...")

abbrev pub bad_address : TcpServerError
bad_address = invalid_command (codes "Bad UDP address")

-- `stream.write_all(…).map_err(…)`
unfoldable pub write_all :
    Option WriteError → Text → Session → Session × Result TcpServerError (Unit {0})
write_all none text session = (record session { written = session.written ++ text ∷ [] }, ok tt)
write_all (some (n, e)) text session =
    (record session { written = session.written ++ take n text ∷ [] }, err (client_io_error e))

module _ (p : Platform) (q : QuoteService p) where
  open q use {State, add_client, remove_client}

  unfoldable pub reply : Io p → Text → State → Session → Handled State
  unfolding write_all
  reply io text s session =
      let (session', result) = write_all io.write_error text session in (s, session', result)

  unfoldable pub handle_ping : Io p → State → Session → Option (Handled State)
  unfolding reply
  handle_ping io s session = some (reply io (codes "PONG\n") s session)

  unfoldable pub handle_invalid : Io p → State → Session → Option (Handled State)
  unfolding reply
  handle_invalid io s session = some (reply io (codes "ERR Invalid command\n") s session)

  unfoldable pub registered : Io p → Session → State × Result QuoteServerError ℕ → Handled State
  unfolding reply
  registered io session (s, err e) = (s, session, err (quote_server_error e))
  registered io session (s, ok id) =
      reply io (codes "STREAM OK\n") s (record session { client_id = some id })

  unfoldable pub bound :
      Io p → p.SocketAddr → List Text → State → Session → Option Text → Option (Handled State)
  unfolding registered
  bound io address tickers s session (some e) = some (s, session, err (client_io_error e))
  bound io address tickers s session none = do
    added ← add_client io.reads tickers (send_datagram address) s
    some (registered io session added)

  unfoldable pub addressed :
      Io p → Option p.SocketAddr → List Text → State → Session → Option (Handled State)
  unfolding bound
  addressed io none tickers s session = some (s, session, err bad_address)
  addressed io (some address) tickers s session = bound io address tickers s session io.udp_error

  unfoldable pub with_parts : Io p → List Text → State → Session → Option (Handled State)
  unfolding addressed
  with_parts io (command ∷ address ∷ ticker ∷ tickers) s session =
      addressed io (p.parse_addr address) (ticker ∷ tickers) s session
  with_parts io parts s session = some (s, session, err usage)

  unfoldable pub handle_stream : Io p → Text → State → Session → Option (Handled State)
  unfolding with_parts
  handle_stream io msg s session = with_parts io (split_whitespace msg) s session

  -- `?` on the result of `remove_client`, and the reply if it is `Ok`.
  unfoldable pub stopped :
      Io p → Session → State × Result QuoteServerError (Unit {0}) → Handled State
  unfolding reply
  stopped io session (s, err e) = (s, session, err (quote_server_error e))
  stopped io session (s, ok _) = reply io (codes "STOP OK\n") s session

  unfoldable pub stop_client : Io p → Option ℕ → State → Session → Option (Handled State)
  unfolding stopped
  stop_client io none s session = some (reply io (codes "STOP OK\n") s session)
  stop_client io (some id) s session = do
    removed ← remove_client io.reads id s
    some (stopped io (record session { client_id = none }) removed)

  unfoldable pub handle_stop : Io p → State → Session → Option (Handled State)
  unfolding stop_client
  handle_stop io s session = stop_client io session.client_id s session
