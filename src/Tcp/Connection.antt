-- ===== src/Tcp/Connection.antt =====
-- `handle_connection` of src/tcp_server.rs: the rounds of the loop of one connection.
use rust_quote_streamer.Base.{
  ℕ, ◌-◌, ◌/◌, List, [], ◌∷◌, Option, none, some, ◌>>=◌, Result, ok, err, ltb, if◌then◌else◌,
}
use rust_quote_streamer.Text.{Text, codes, trim, is_empty, starts_with}
use rust_quote_streamer.Platform.{Platform}
use rust_quote_streamer.Errors.{
  TcpServerError, client_io_error, quote_server_error, QuoteServerError,
}
use rust_quote_streamer.Defs.{client_keep_alive_sec}
use rust_quote_streamer.Tcp.Service.{QuoteService}
use rust_quote_streamer.Tcp.Handlers.{
  Session, Io, Handled, handle_ping, handle_stream, handle_stop, handle_invalid,
}

-- What `read_line` gives: no byte, a line, a timeout with the part of a line that was read before it,
-- or another error.
pub data ReadLine : Type 0 where
  eof : ReadLine
  line : Text → ReadLine
  timed_out : Text → ReadLine
  failed : Text → ReadLine

pub record Round (p : Platform) : Type 0 where
  pub now : ℕ
  pub reading : ReadLine
  pub io : Io p

-- The loop goes on, or the function returns.
pub data Flow : Type 0 where
  goes_on : Flow
  returns : Result TcpServerError (Unit {0}) → Flow

-- `Duration::as_secs` of a time in nanoseconds.
abbrev pub as_secs : ℕ → ℕ
as_secs ns = ns / 1000000000

abbrev pub new_session : ℕ → Session
new_session start = record { client_id = none; last_ping = start; written = [] }

module _ (p : Platform) (q : QuoteService p) where
  open q use {State, remove_client}

  abbrev pub After : Type 0
  After = State × Session × Flow

  -- `?`: an error of a handler is returned at once.
  unfoldable pub propagate : Handled State → After
  propagate (s, session, ok _) = (s, session, goes_on)
  propagate (s, session, err e) = (s, session, returns (err e))

  unfoldable pub dispatch : Io p → Text → State → Session → Option (Handled State)
  dispatch io msg s session =
      if starts_with msg (codes "PING")
      then handle_ping p q io s session
      else if starts_with msg (codes "STREAM ")
      then handle_stream p q io msg s session
      else if starts_with msg (codes "STOP")
      then handle_stop p q io s session
      else handle_invalid p q io s session

  unfoldable pub on_message : Io p → Text → State → Session → Option After
  unfolding dispatch propagate
  on_message io msg s session =
      if is_empty msg
      then some (s, session, goes_on)
      else do handled ← dispatch io msg s session; some (propagate handled)

  -- The client is taken and removed; an error of that is returned instead of `result`.
  unfoldable pub removal :
      Result TcpServerError (Unit {0})
      → Session
      → State × Result QuoteServerError (Unit {0})
      → After
  removal result session (s, ok _) = (s, session, returns result)
  removal result session (s, err e) = (s, session, returns (err (quote_server_error e)))

  unfoldable pub clean_up :
      Io p → Result TcpServerError (Unit {0}) → Option ℕ → State → Session → Option After
  unfolding removal
  clean_up io result none s session = some (s, session, returns result)
  clean_up io result (some id) s session = do
    removed ← remove_client io.reads id s
    some (removal result (record session { client_id = none }) removed)

  unfoldable pub on_reading : Io p → ℕ → ReadLine → State → Session → Option After
  unfolding on_message clean_up
  on_reading io now eof s session = some (s, session, returns (ok tt))
  on_reading io now (line text) s session =
      on_message io (trim text) s (record session { last_ping = now })
  on_reading io now (timed_out part) s session =
      if ltb client_keep_alive_sec (as_secs (now - session.last_ping))
      then clean_up io (ok tt) session.client_id s session
      else some (s, session, goes_on)
  on_reading io now (failed e) s session =
      clean_up io (err (client_io_error e)) session.client_id s session

  unfoldable pub handle_round : Round p → State → Session → Option After
  unfolding on_reading
  handle_round r s session = on_reading r.io r.now r.reading s session

  abbrev pub unless_returned : (State → Session → Option After) → After → Option After
  unless_returned rest (s, session, goes_on) = rest s session
  unless_returned rest (s, session, returns result) = some (s, session, returns result)

  -- The rounds so far.
  unfoldable pub serve : List (Round p) → State → Session → Option After
  unfolding handle_round
  serve [] s session = some (s, session, goes_on)
  serve (r ∷ rounds) s session = handle_round r s session >>= unless_returned (serve rounds)

  -- `setup` is the error of cloning the stream or of setting its timeout, if any; `start` is the time
  -- at which the connection begins.
  unfoldable pub handle_connection : Option Text → ℕ → List (Round p) → State → Option After
  unfolding serve
  handle_connection (some e) start rounds s =
      some (s, new_session start, returns (err (client_io_error e)))
  handle_connection none start rounds s = serve rounds s (new_session start)
