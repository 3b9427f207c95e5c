-- ===== src/Tests/Traces.antt =====
-- The theorems on sequences of calls, and on the two programs together, at concrete inputs.
use rust_quote_streamer.Base.{◌≡◌, refl, List, [], ◌∷◌, ◌++◌, none, some, ok, arith}
use mathlib.Core.List.{filter_map}
use rust_quote_streamer.HashMap.{get}
use rust_quote_streamer.Text.{codes, spaced, trim, trim_start, trim_end, is_empty, is_whitespace}
use rust_quote_streamer.Client.Thread.{
  update, shutdown, closure, call, Worker, stop, on_recv, enqueue,
}
use rust_quote_streamer.Client.Delivery.{messages}
use rust_quote_streamer.Client.Mailbox.{Event, sent, received, happen_all, Delivers, mailbox_lem}
use rust_quote_streamer.Generator.{in_order}
use rust_quote_streamer.Server.State.{at_sleep, ended}
use rust_quote_streamer.Server.Registry.Refines.{
  RegistryCall, add, remove, notify, Refines, registry-Refines,
}
use rust_quote_streamer.Server.Handles.{Shared}
use rust_quote_streamer.Tcp.Handlers.{Session}
use rust_quote_streamer.Tcp.Connection.{line, goes_on, Round, serve}
use rust_quote_streamer.Tcp.Implements.{quote_server}
use rust_quote_streamer.Cli.Exchange.{send_command}
use rust_quote_streamer.Cli.Protocol.{ping_answer}
use rust_quote_streamer.Tcp.Reply.{answer, Spoke, round_answers}
use rust_quote_streamer.Cli.Delivery.{IsTyped, Reaches, quotes_reach_client}
use rust_quote_streamer.Cli.KeepAlive.{IsFed, over, pings, pauses, pongs, pings_keep_alive}
use rust_quote_streamer.Tests.Toy.{toy, aapl}
use rust_quote_streamer.Tests.Server.{takes_all, quotes, reads, busy_worker, server, server-IsValid}
use rust_quote_streamer.Tests.Connection.{io, session, address, timeout_round}
use rust_quote_streamer.Tests.Programs.{exchange, exchange-Writes, ping_round}

-- Two sends and three rounds, the last of which takes the `Shutdown`.
abbrev events : List (Event toy)
events =
    received (some quotes)
    ∷ sent shutdown
    ∷ received none
    ∷ sent update
    ∷ received (some quotes)
    ∷ []

abbrev stopped : Worker toy
stopped = stop toy (record busy_worker {
  queue = update ∷ [];
  calls = messages toy quotes (aapl ∷ codes "MSFT" ∷ []);
})

mailbox_example : Delivers toy busy_worker events stopped
unfolding get call filter_map on_recv enqueue
mailbox_example =
    mailbox_lem toy events busy_worker stopped (λ m. (ok tt, refl)) refl refl
      (unfold happen_all in refl)

abbrev registry_calls : List (RegistryCall toy)
registry_calls =
    add reads (aapl ∷ []) (closure takes_all)
    ∷ notify reads
    ∷ remove reads 0
    ∷ remove reads 7
    ∷ add reads [] (closure takes_all)
    ∷ []

registry-Refines_example : Refines toy registry_calls server
registry-Refines_example =
    registry-Refines toy registry_calls server server-IsValid refl (omega arith)

abbrev shared : Shared toy in_order
shared = record { others = 1; server = record server { bg_thread = some at_sleep } }

abbrev over_shared : Shared toy in_order
over_shared = record { others = 1; server = record server { bg_thread = some ended } }

-- The time of the last line is 100.
abbrev early_round : Round toy
early_round = record timeout_round { now = 200 }

fed : IsFed toy (quote_server toy) 100 (early_round ∷ ping_round ∷ early_round ∷ [])
fed =
    pauses early_round (codes "PI", refl, omega arith)
      (pings ping_round (refl, refl) (pauses early_round (codes "PI", refl, omega arith) over))

pings_keep_alive_example :
    (session' : Session) × (serve toy
        (quote_server toy)
        (early_round ∷ ping_round ∷ early_round ∷ [])
        server
        session
      ≡ some (server, session', goes_on))
    × (session'.client_id ≡ some 0)
    × (session'.written ≡ [] ++ pongs toy (quote_server toy) fed)
pings_keep_alive_example = pings_keep_alive toy (quote_server toy) fed server session refl

abbrev pub typed_round : Round toy
typed_round = record { now = 7; reading = line (codes "STREAM 127.0.0.1:34254 AAPL\n"); io = io }

unfoldable pub typed_round-IsTyped : IsTyped toy (exchange (codes "STREAM OK\n")) typed_round
unfolding is_whitespace send_command spaced
typed_round-IsTyped = record {
  address_text = address;
  address = address;
  ticker = aapl;
  tickers = [];
  address_word = (
    (λ e. cc),
    (
      refl,
      (
        refl,
        (
          refl,
          (
            refl,
            (
              refl,
              (refl, (refl, (refl, (refl, (refl, (refl, (refl, (refl, (refl, (refl, tt)))))))))),
            ),
          ),
        ),
      ),
    ),
  );
  ticker_word = ((λ e. cc), (refl, (refl, (refl, (refl, tt)))));
  ticker_words = tt;
  parsed = refl;
  writes = exchange-Writes (codes "STREAM OK\n");
  read = refl;
  socket = refl;
  write = refl;
}

quotes_reach_client_example :
    Reaches toy server session
      (exchange (codes "STREAM OK\n"))
      typed_round
      typed_round-IsTyped
      reads
      quotes
quotes_reach_client_example =
    quotes_reach_client toy server session (exchange (codes "STREAM OK\n")) typed_round
      typed_round-IsTyped reads quotes server-IsValid refl (omega arith)

abbrev pub fresh_session : Session
fresh_session = record { client_id = none; last_ping = 5; written = [] }

round_answers_example :
    Spoke
      (answer (trim (codes "PING\n")))
      session
      (record session { last_ping = 7; written = codes "PONG\n" ∷ [] })
      goes_on
unfolding trim trim_start trim_end is_whitespace is_empty
round_answers_example =
    round_answers toy (quote_server toy) ping_round (codes "PING\n") server server session
      (record session { last_ping = 7; written = codes "PONG\n" ∷ [] }) goes_on refl refl
      (ping_answer toy (quote_server toy) ping_round server session refl refl)
