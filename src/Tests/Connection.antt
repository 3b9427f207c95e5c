-- ===== src/Tests/Connection.antt =====
-- The theorems on connections at concrete inputs.
use rust_quote_streamer.Base.{
  List, ℕ, zero, suc, ◌+◌, ◌*◌, ◌-◌, ◌≤◌, ◌<◌, ◌≡◌, refl, [], ◌∷◌, ◌++◌, none, some, Result, ok,
  err, arith, nat_key,
}
use rust_quote_streamer.HashMap.{get}
use rust_quote_streamer.Text.{Text, codes, is_whitespace, starts_with, split_whitespace}
use rust_quote_streamer.Errors.{QuoteServerError}
use rust_quote_streamer.Client.Thread.{send_datagram}
use rust_quote_streamer.Server.State.{QuoteServer}
use rust_quote_streamer.Server.Registry.Valid.{new_client}
use rust_quote_streamer.Tcp.Service.{SameBut}
use rust_quote_streamer.Tcp.Handlers.{Session, Io, handle_stop}
use rust_quote_streamer.Tcp.Connection.{
  eof, line, timed_out, Round, Flow, goes_on, returns, on_message, handle_round, serve,
  handle_connection,
}
use rust_quote_streamer.Tcp.Implements.{quote_server, quote_server-IsService}
use rust_quote_streamer.Tcp.Live.{LeavesServer, connection_lem}
use rust_quote_streamer.Tcp.Stream.{
  stream_line, IsStream, stream_registers, stream_malformed, complaint,
}
use rust_quote_streamer.Tcp.Stop.{stop_session, stop_result, handle_stop_lem}
use rust_quote_streamer.Tcp.KeepAlive.{keep_alive_limit, EndsClean, keep_alive}
use rust_quote_streamer.Tcp.Silence.{tick, Silent, silence_ends}
use rust_quote_streamer.Tcp.Leaks.{second_stream_orphans}
use rust_quote_streamer.Tests.Toy.{toy, aapl}
use rust_quote_streamer.Tests.Server.{server, server-IsValid, busy_client}

abbrev pub io : Io toy
io = record { write_error = none; udp_error = none; reads = λ i. none }

abbrev pub address : Text
address = codes "127.0.0.1:34254"

abbrev pub stream_round : Round toy
stream_round = record {
  now = 7;
  reading = line (stream_line address (aapl ∷ []) (codes "\n"));
  io = io;
}

abbrev pub eof_round : Round toy
eof_round = record { now = 8; reading = eof; io = io }

abbrev pub timeout_round : Round toy
timeout_round = record { now = 6000000100; reading = timed_out (codes "PI"); io = io }

-- The connection has the client with the number 0.
abbrev pub session : Session
session = record { client_id = some 0; last_ping = 100; written = [] }

pub stream_round-IsStream : IsStream toy stream_round
unfolding is_whitespace
stream_round-IsStream = record {
  address_text = address;
  address = address;
  ticker = aapl;
  tickers = [];
  tail = codes "\n";
  address_word = (
    (λ e. cc),
    (
      refl,
      (
        refl,
        (
          refl,
          (
            refl,
            (
              refl,
              (refl, (refl, (refl, (refl, (refl, (refl, (refl, (refl, (refl, (refl, tt)))))))))),
            ),
          ),
        ),
      ),
    ),
  );
  ticker_word = ((λ e. cc), (refl, (refl, (refl, (refl, tt)))));
  ticker_words = tt;
  blank = (refl, tt);
  parsed = refl;
  read = refl;
  socket = refl;
  write = refl;
}

connection_example :
    (t : QuoteServer toy) × (end : Session) × (flow : Flow) × (handle_connection toy
        (quote_server toy)
        none
        5
        (stream_round ∷ timeout_round ∷ [])
        server
      ≡ some (t, end, flow))
    × LeavesServer toy server t
connection_example =
    connection_lem toy none 5 (stream_round ∷ timeout_round ∷ []) server server-IsValid refl
      (omega arith)

stream_registers_example :
    (t : QuoteServer toy) × (id : ℕ) × (handle_round toy
        (quote_server toy)
        stream_round
        server
        session
      ≡ some (
        t,
        record { client_id = some id; last_ping = 7; written = [] ++ codes "STREAM OK\n" ∷ [] },
        goes_on,
      ))
    × (get id server.clients ≡ none)
    × (get id t.clients ≡ some (new_client toy (aapl ∷ []) (send_datagram address)))
    × SameBut toy (quote_server toy) id server t
    × (quote_server-IsService toy).IsReady t
    × (quote_server-IsService toy).HasRoom 0 t
unfolding stream_round-IsStream
stream_registers_example =
    stream_registers toy (quote_server toy) (quote_server-IsService toy) stream_round
      stream_round-IsStream 0 server session
      (unfold quote_server-IsService in (server-IsValid, refl))
      (unfold quote_server-IsService in omega arith)

stop_example :
    (t : QuoteServer toy) × (r : Result QuoteServerError (Unit {0})) × (handle_stop toy
        (quote_server toy)
        io
        server
        session
      ≡ some (
        t,
        stop_session toy (quote_server toy) (quote_server-IsService toy) session r,
        stop_result toy (quote_server toy) (quote_server-IsService toy) r,
      ))
    × (get 0 t.clients ≡ none)
    × SameBut toy (quote_server toy) 0 server t
    × (quote_server-IsService toy).IsReady t
    × (handle_stop toy
          (quote_server toy)
          io
          t
          (stop_session toy (quote_server toy) (quote_server-IsService toy) session r)
        ≡ some (
          t,
          record (stop_session toy (quote_server toy) (quote_server-IsService toy) session r) {
            written =
                (stop_session toy (quote_server toy) (quote_server-IsService toy) session r).written
                ++ codes "STOP OK\n" ∷ [];
          },
          ok tt,
        ))
stop_example =
    handle_stop_lem toy (quote_server toy) (quote_server-IsService toy) io io 0 0 server session
      refl refl refl (unfold quote_server-IsService in (server-IsValid, refl))
      (unfold quote_server-IsService in omega arith)

keep_alive_example :
    (timeout_round.now - 100 < keep_alive_limit
      → handle_round toy (quote_server toy) timeout_round server session
        ≡ some (server, session, goes_on))
    × (keep_alive_limit ≤ timeout_round.now - 100
        → EndsClean toy
            (quote_server toy)
            (quote_server-IsService toy)
            0
            server
            session
            (ok tt)
            (handle_round toy (quote_server toy) timeout_round server session))
keep_alive_example =
    keep_alive toy (quote_server toy) (quote_server-IsService toy) timeout_round (codes "PI") 0 0
      server session refl refl (unfold quote_server-IsService in (server-IsValid, refl))
      (unfold quote_server-IsService in omega arith)

second_stream_orphans_example :
    (t : QuoteServer toy) × (end : Session) × (flow : Flow) × (serve toy
        (quote_server toy)
        (stream_round ∷ timeout_round ∷ [])
        server
        session
      ≡ some (t, end, flow))
    × (get 0 t.clients ≡ some busy_client)
second_stream_orphans_example =
    second_stream_orphans toy (quote_server toy) (quote_server-IsService toy) stream_round
      stream_round-IsStream (timeout_round ∷ []) 0 busy_client server session refl
      (unfold get in refl) (unfold quote_server-IsService in (server-IsValid, refl))
      (unfold quote_server-IsService in omega arith)

abbrev bad_line : Text
bad_line = codes "STREAM AAPL"

stream_malformed_example :
    on_message toy (quote_server toy) io bad_line server session
    ≡ some (
      server,
      session,
      returns (
          err (
            complaint toy
              (quote_server toy)
              (quote_server-IsService toy)
              (split_whitespace bad_line))),
    )
unfolding is_whitespace
stream_malformed_example =
    stream_malformed toy (quote_server toy) (quote_server-IsService toy) io bad_line server session
      (unfold starts_with in refl) (unfold split_whitespace in tt)

-- Reads that time out every 400 ms.
abbrev silence : ℕ → ℕ → List (Round toy)
silence zero now = []
silence (suc k) now = record timeout_round { now = now } ∷ silence k (now + 2 * tick)

silence-Silent : (k earliest now : ℕ) → earliest ≤ now → Silent toy earliest (silence k now)
silence-Silent zero earliest now h = tt
silence-Silent (suc k) earliest now h =
    ((codes "PI", refl), h, silence-Silent k (now + 2 * tick) (now + 2 * tick) (omega arith))

silence_ends_example :
    EndsClean toy
      (quote_server toy)
      (quote_server-IsService toy)
      0
      server
      session
      (ok tt)
      (serve toy (quote_server toy) (silence 16 (100 + tick)) server session)
silence_ends_example =
    silence_ends toy (quote_server toy) (quote_server-IsService toy) (silence 16 (100 + tick)) 0 0
      server session (silence-Silent 16 (100 + tick) (100 + tick) (omega arith)) (omega arith) refl
      (unfold quote_server-IsService in (server-IsValid, refl))
      (unfold quote_server-IsService in omega arith)
