-- ===== src/Cli/ServerMain.antt =====
-- `main` of bins/server/main.rs.
use rust_quote_streamer.Base.{
  ◌≡◌, List, [], ◌∷◌, ◌++◌, map, Option, none, some, Result, ok, err, and_then, map_err, false,
  arith,
}
use rust_quote_streamer.HashMap.{contains_key}
use rust_quote_streamer.Text.{Text, text_key}
use rust_quote_streamer.Platform.{Platform}
use rust_quote_streamer.Defs.{volatility}
use rust_quote_streamer.Errors.{
  CliError, general_error, TcpServerError, QuoteServerError, accept_error, bind_error,
  invalid_config, from_quote_server_error,
}
use rust_quote_streamer.Generator
use rust_quote_streamer.Generator.{QuoteGenerator}
use rust_quote_streamer.Server.State.{QuoteServer, at_test}
use rust_quote_streamer.Server.Registry.Valid.{IsValid}
use rust_quote_streamer.Server.Config.{Fresh, from_config}
use rust_quote_streamer.Server.Config.Loaded.{all_read, names, from_config_lem, from_config-err}
use rust_quote_streamer.Server.Background
use rust_quote_streamer.Tcp.Listener
use rust_quote_streamer.Tcp.Listener.{start_lem}

-- What the program has when it serves: the state of the quote server, the peers whose threads were
-- spawned, and the error with which it ends, if it ends.
pub record Serving (p : Platform) (Peer : Type 0) : Type 0 where
  pub server : QuoteServer p
  pub peers : List Peer
  pub ending : Option CliError

-- `map_err(|e| CliError::GeneralError(format!("{:?}", e)))`
abbrev pub from_tcp_error : (TcpServerError → Text) → TcpServerError → CliError
from_tcp_error show_debug e = general_error (show_debug e)

abbrev pub ending_of : (TcpServerError → Text) → Option TcpServerError → Option CliError
ending_of show_debug none = none
ending_of show_debug (some e) = some (from_tcp_error show_debug e)

unfoldable pub started :
    (p : Platform)
    → QuoteServer p × Result QuoteServerError (Unit {0})
    → Result CliError (QuoteServer p)
started p (s, ok _) = ok s
started p (s, err e) = err (from_quote_server_error e)

module _ (p : Platform) {Peer : Type 0} (show_debug : TcpServerError → Text) where
  unfoldable pub serving : QuoteServer p → List Peer × Option TcpServerError → Serving p Peer
  serving s (peers, ending) = record {
    server = s;
    peers = peers;
    ending = ending_of show_debug ending;
  }

  unfoldable pub server_main :
      Fresh p
      → Result Text (List (Result Text Text))
      → Option Text
      → Text
      → List (Result Text Peer)
      → Result CliError (Serving p Peer)
  unfolding serving started
  server_main fresh file bind address accepted =
      and_then (map_err from_quote_server_error (from_config p fresh file)) (λ quote_server.
        and_then (started p (Background.start p quote_server)) (λ running.
          and_then (map_err (from_tcp_error show_debug) (Listener.new bind address))
            (λ tcp_server. ok (serving running (Listener.start accepted [])))))

  -- With a configuration whose lines can all be read, a volatility that the generator takes and an
  -- address that can be bound, the server is valid, with the tickers of the configuration, no client
  -- and a background thread at its first test, spawns a thread for each peer that is accepted, in
  -- order, and ends with an error at the first error of `accept`.
  pub server_main_lem :
      (fresh : Fresh p) (lines : List Text) (g : QuoteGenerator p) (address : Text)
      (peers : List Peer) (e : Text) (rest : List (Result Text Peer))
      → Generator.new p (volatility p) ≡ ok g
      → (s : QuoteServer p) × (server_main fresh
            (ok (all_read p lines))
            none
            address
            (map ok peers ++ err e ∷ rest)
          ≡ ok (record {
            server = record s { bg_thread = some at_test };
            peers = peers;
            ending = some (from_tcp_error show_debug (accept_error e));
          }))
        × ((t : Text) → contains_key t s.quotes ≡ names p lines t)
        × (s.shutdown_flag ≡ false)
        × IsValid p s
        × (s.clients_poisoned ≡ false)
        × (s.clients_count ≡ 0)
  unfolding server_main Background.start Listener.new
  server_main_lem fresh lines g address peers e rest made =
      let (s, loaded, keys, initial_quotes, valid, idle, open_lock, flag, lock, count) =
        from_config_lem p fresh lines g made in
      (
        s,
        ground (arith, loaded, idle, open_lock, (start_lem peers e rest).1),
        keys,
        flag,
        valid,
        lock,
        count,
      )

  -- With a configuration that cannot be opened, the program ends with the message of that error, and
  -- with an address that cannot be bound with the error of binding, after a good configuration.
  pub server_main_err :
      (fresh : Fresh p) (lines : List Text) (g : QuoteGenerator p) (address e : Text)
      (bind : Option Text) (accepted : List (Result Text Peer))
      → Generator.new p (volatility p) ≡ ok g
      → (server_main fresh (err e) bind address accepted
          ≡ err (from_quote_server_error (invalid_config e)))
        × (server_main fresh (ok (all_read p lines)) (some e) address accepted
            ≡ err (from_tcp_error show_debug (bind_error e)))
  unfolding server_main Background.start Listener.new
  server_main_err fresh lines g address e bind accepted made =
      let (s, loaded, keys, initial_quotes, valid, idle, open_lock, flag, lock, count) =
        from_config_lem p fresh lines g made in
      (
        ground (arith, (from_config-err p fresh lines e []).0),
        ground (arith, loaded, idle, open_lock),
      )
