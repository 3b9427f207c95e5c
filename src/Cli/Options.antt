-- ===== src/Cli/Options.antt =====
-- The command-line options of bins/client/main.rs and bins/server/main.rs. The parser is structopt's:
-- an option is the text that was given, or its default, read as the type of its field.
use rust_quote_streamer.Base.{ℕ, ◌-◌, ◌^◌, List, Option, none, some, ◌>>=◌, Result}
use rust_quote_streamer.Text.{Text, codes, parse_uint}
use rust_quote_streamer.Platform.{Platform}
use rust_quote_streamer.Errors.{CliError, TcpServerError}
use rust_quote_streamer.StockQuote.{u64_max}
use rust_quote_streamer.Server.Config.{Fresh}
use rust_quote_streamer.Cli.Logger.{LevelFilter, log_level}
use rust_quote_streamer.Cli.Exchange.{IoError, Connecting}
use rust_quote_streamer.Cli.Console.{Turn}
use rust_quote_streamer.Cli.ClientMain.{Socket, Ended, client_main}
use rust_quote_streamer.Cli.ServerMain.{Serving, server_main}

abbrev pub u16_max : ℕ
u16_max = 2 ^ 16 - 1

abbrev pub unwrap_or : Text → Option Text → Text
unwrap_or default none = default
unwrap_or default (some text) = text

-- What is given on the command line.
pub record ClientArgs : Type 0 where
  pub server_addr : Option Text
  pub udp_port : Option Text
  pub keep_alive_sec : Option Text
  pub log_level : Option Text

pub record ClientOpt : Type 0 where
  pub server_addr : Text
  pub udp_port : ℕ
  pub keep_alive_sec : ℕ
  pub log_level : Text

-- `none`: the program prints how it is used and exits.
unfoldable pub client_from_args : ClientArgs → Option ClientOpt
client_from_args args = do
  udp_port ← parse_uint u16_max (unwrap_or (codes "50000") args.udp_port)
  keep_alive_sec ← parse_uint u64_max (unwrap_or (codes "2") args.keep_alive_sec)
  some (record {
    server_addr = unwrap_or (codes "127.0.0.1:33333") args.server_addr;
    udp_port = udp_port;
    keep_alive_sec = keep_alive_sec;
    log_level = unwrap_or (codes "info") args.log_level;
  })

pub record ServerArgs : Type 0 where
  pub tcp_addr : Option Text
  pub config : Option Text
  pub log_level : Option Text

pub record ServerOpt : Type 0 where
  pub tcp_addr : Text
  pub config : Text
  pub log_level : Text

-- The configuration has no default.
unfoldable pub server_from_args : ServerArgs → Option ServerOpt
server_from_args args = do
  config ← args.config
  some (record {
    tcp_addr = unwrap_or (codes "127.0.0.1:33333") args.tcp_addr;
    config = config;
    log_level = unwrap_or (codes "info") args.log_level;
  })

module _ (p : Platform) where
  -- `main` of the client: the level of the log, and what the console does.
  unfoldable pub run_client :
      (IoError → Text)
      → (Text → Connecting)
      → (ℕ → Socket)
      → List Turn
      → ClientArgs
      → Option (LevelFilter × Option Ended)
  unfolding client_from_args
  run_client show_error connecting socket turns args = do
    opt ← client_from_args args
    some (
      log_level p opt.log_level,
      client_main show_error (connecting opt.server_addr) (socket opt.udp_port) turns,
    )

  -- `main` of the server: the level of the log, and what the server does.
  unfoldable pub run_server :
      {Peer : Type 0}
      → (TcpServerError → Text)
      → Fresh p
      → (Text → Result Text (List (Result Text Text)))
      → (Text → Option Text)
      → List (Result Text Peer)
      → ServerArgs
      → Option (LevelFilter × Result CliError (Serving p Peer))
  unfolding server_from_args
  run_server show_debug fresh file bind accepted args = do
    opt ← server_from_args args
    some (
      log_level p opt.log_level,
      server_main p show_debug fresh (file opt.config) (bind opt.tcp_addr) opt.tcp_addr accepted,
    )
