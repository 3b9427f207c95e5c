-- ===== src/Tests/Programs.antt =====
-- The theorems on the two programs at concrete inputs.
use rust_quote_streamer.Base.{◌≡◌, refl, true, false, List, [], ◌∷◌, ◌++◌, map, none, some, ok, err}
use rust_quote_streamer.HashMap.{contains_key}
use rust_quote_streamer.Text.{
  Text, codes, trim, trim_start, trim_end, is_whitespace, is_empty, eq_ignore_ascii_case, text_key,
  parse_uint,
}
use rust_quote_streamer.Errors.{TcpServerError, accept_error, general_error}
use rust_quote_streamer.Generator
use rust_quote_streamer.Server.Registry.Valid.{IsValid}
use rust_quote_streamer.Server.State.{QuoteServer, at_test}
use rust_quote_streamer.Server.Config.Loaded.{all_read, names}
use rust_quote_streamer.Tcp.Connection.{line, Round}
use rust_quote_streamer.Cli.Exchange.{IoError, Exchange, Connecting, closed, connect}
use rust_quote_streamer.Cli.Protocol.{Writes}
use rust_quote_streamer.Cli.Console.{prompt, Turn, Console, stays, leaves, console_loop}
use rust_quote_streamer.Cli.Console.Commands.{
  IsCommand, prompts, lines_of, screen_of, console_loop-IsAtEnd,
}
use rust_quote_streamer.Cli.ClientMain.{
  Socket, no_threads, new_console, client_main, client_main_lem,
}
use rust_quote_streamer.Cli.Options.{ClientArgs, client_from_args, server_from_args}
use rust_quote_streamer.Cli.ServerMain.{server_main, from_tcp_error, server_main_lem}
use rust_quote_streamer.Tests.Toy.{toy}
use rust_quote_streamer.Tests.Data.{generator}
use rust_quote_streamer.Tests.Server.{samples, config}
use rust_quote_streamer.Tests.Connection.{io}

abbrev pub exchange : Text → Exchange
exchange reply = record {
  command_error = none;
  newline_error = none;
  flush_error = none;
  reply = ok reply;
}

pub exchange-Writes : (reply : Text) → Writes (exchange reply)
exchange-Writes reply = record { command = refl; newline = refl; flush = refl }

abbrev pub ping_round : Round toy
ping_round = record { now = 7; reading = line (codes "PING\n"); io = io }

abbrev console : Console
console = record { reconnects = 0; sent = []; printed = [] }

abbrev typed : Text → Text → Turn
typed text reply = record {
  flush_error = none;
  input = ok text;
  lock_error = none;
  exchange = exchange reply;
  attempts = [];
}

abbrev end_turn : Turn
end_turn = typed [] []

console_loop-IsAtEnd_example :
    console_loop (end_turn ∷ end_turn ∷ []) console
    ≡ some (record console { printed = prompts (end_turn ∷ end_turn ∷ []) }, stays)
console_loop-IsAtEnd_example =
    console_loop-IsAtEnd (end_turn ∷ end_turn ∷ []) console
      (record { flushed = refl; end = refl }, (record { flushed = refl; end = refl }, tt))

abbrev stop_turn : Turn
stop_turn = typed (codes " STOP\n") (codes "STOP OK\n")

stop_turn-IsCommand : IsCommand stop_turn
unfolding trim_start trim_end is_whitespace is_empty trim eq_ignore_ascii_case
stop_turn-IsCommand = record {
  text = codes " STOP\n";
  response = codes "STOP OK\n";
  flushed = refl;
  input = refl;
  not_blank = refl;
  not_exit = refl;
  lock = refl;
  command = refl;
  newline = refl;
  flush = refl;
  reply = refl;
  some_reply = refl;
}

abbrev refused : Connecting
refused = record { connect_error = some closed; timeout_error = none; clone_error = none }

abbrev accepted : Connecting
accepted = record { connect_error = none; timeout_error = none; clone_error = none }

abbrev debug : TcpServerError → Text
debug e = codes "error"

abbrev peers : List Text
peers = codes "a" ∷ codes "b" ∷ []

server_main_example :
    (s : QuoteServer toy) × (server_main toy debug samples
        (ok (all_read toy config))
        none
        (codes "0.0.0.0:8080")
        (map ok peers ++ err (codes "too many files") ∷ [])
      ≡ ok (record {
        server = record s { bg_thread = some at_test };
        peers = peers;
        ending = some (from_tcp_error debug (accept_error (codes "too many files")));
      }))
    × ((t : Text) → contains_key t s.quotes ≡ names toy config t)
    × (s.shutdown_flag ≡ false)
    × IsValid toy s
    × (s.clients_poisoned ≡ false)
    × (s.clients_count ≡ 0)
server_main_example =
    server_main_lem toy debug samples config generator (codes "0.0.0.0:8080") peers
      (codes "too many files") [] (unfold Generator.new in refl)

abbrev socket : Socket
socket = record { bind_error = none; timeout_error = none; clone_error = none }

abbrev taken : Socket
taken = record { bind_error = some (codes "in use"); timeout_error = none; clone_error = none }

abbrev show_error : IoError → Text
show_error e = codes "error"

client_main_example :
    (client_main show_error accepted socket (stop_turn ∷ typed (codes "exit\n") [] ∷ [])
      ≡ some (
        record { keep_alive = true; listener = true },
        record {
          reconnects = 0;
          sent = lines_of (stop_turn ∷ []) (stop_turn-IsCommand, tt);
          printed =
              screen_of (stop_turn ∷ []) (stop_turn-IsCommand, tt)
              ++ prompt ∷ codes "Exiting client.\n" ∷ [];
        },
        leaves (ok tt),
      ))
    × (client_main show_error refused socket (stop_turn ∷ typed (codes "exit\n") [] ∷ [])
        ≡ some (no_threads, new_console, leaves (err (general_error (show_error closed)))))
    × (client_main show_error accepted taken (stop_turn ∷ typed (codes "exit\n") [] ∷ [])
        ≡ some (
          record { keep_alive = true; listener = false },
          new_console,
          leaves (err (general_error (codes "in use"))),
        ))
unfolding trim_start trim_end is_whitespace is_empty trim eq_ignore_ascii_case
client_main_example =
    client_main_lem show_error accepted refused socket taken closed (codes "in use")
      (stop_turn ∷ []) (stop_turn-IsCommand, tt) (typed (codes "exit\n") []) (codes "exit\n") []
      (unfold connect in refl) (unfold connect in refl) refl refl refl refl refl refl refl refl

abbrev no_options : ClientArgs
no_options = record { server_addr = none; udp_port = none; keep_alive_sec = none; log_level = none }

default_options :
    client_from_args no_options
    ≡ some (record {
      server_addr = codes "127.0.0.1:33333";
      udp_port = 50000;
      keep_alive_sec = 2;
      log_level = codes "info";
    })
unfolding client_from_args parse_uint
default_options = refl

port_out_of_range :
    (client_from_args (record no_options { udp_port = some (codes "65536") }) ≡ none)
    × (client_from_args (record no_options { udp_port = some (codes "-1") }) ≡ none)
unfolding client_from_args parse_uint
port_out_of_range = (refl, refl)

no_configuration :
    server_from_args (record { tcp_addr = none; config = none; log_level = none }) ≡ none
unfolding server_from_args
no_configuration = refl
