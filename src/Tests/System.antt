-- ===== src/Tests/System.antt =====
-- The theorems on the running program at concrete inputs.
use rust_quote_streamer.Base.{
  ok, err, map, ℕ, suc, ◌+◌, ◌<◌, ◌^◌, ◌≡◌, ◌≢◌, refl, false, List, [], ◌∷◌, ◌++◌, Option, none,
  some, arith, nat_key,
}
use rust_quote_streamer.HashMap.{get, insert}
use rust_quote_streamer.Text.{Text, codes}
use rust_quote_streamer.Client.{Client}
use rust_quote_streamer.Client.Thread.{ClientCommand, Quotes, Worker}
use rust_quote_streamer.Server.State.{QuoteServer, Phase, at_update}
use rust_quote_streamer.Server.Update.Loop.{Sleeps}
use rust_quote_streamer.Server.Background.{Surroundings}
use rust_quote_streamer.Generator
use rust_quote_streamer.Generator.{in_order}
use rust_quote_streamer.Errors.{TcpServerError}
use rust_quote_streamer.Server.Config.Loaded.{all_read}
use rust_quote_streamer.Cli.ServerMain.{Serving, server_main}
use rust_quote_streamer.Tests.Data.{generator}
use rust_quote_streamer.Tcp.Handlers.{Session}
use rust_quote_streamer.Tcp.Connection.{Round, goes_on, returns, new_session, handle_round}
use rust_quote_streamer.Tcp.Implements.{quote_server, quote_server-IsService}
use rust_quote_streamer.Tcp.Stream.{stream_registers}
use rust_quote_streamer.System.{begun, returned, running, System, accept, round, Steps, here, more}
use rust_quote_streamer.System.Owned.{Owns, IsThere}
use rust_quote_streamer.System.Orphans.{disconnected_for_ever}
use rust_quote_streamer.System.Safety.{IsStarted, round_spares_others}
use rust_quote_streamer.System.Program.{IsInOrder, program_lem}
use rust_quote_streamer.System.Progress.{RoundReturns, StepReturns, ReceiveReturns, no_thread_hangs}
use rust_quote_streamer.Tests.Toy.{toy}
use rust_quote_streamer.Tests.Server.{samples, config, server, server-IsValid}
use rust_quote_streamer.Server.Registry.Valid.{IsValid}
use rust_quote_streamer.Tests.Connection.{eof_round, stream_round, stream_round-IsStream}

abbrev start : System toy
start = record { server = server; connections = [] }

start-IsStarted : (n : ℕ) → n < 100 → IsStarted toy in_order n start
start-IsStarted n few = record {
  valid = server-IsValid;
  lock = refl;
  flag = refl;
  phase = at_update;
  thread = refl;
  awake = λ e. cc;
  room = omega (arith, few);
  no_connections = refl;
}

-- A round with a `STREAM`: the server and the number of the new client.
abbrev Streamed : ℕ → QuoteServer toy → Session → Type 0
Streamed n s session =
    (t : QuoteServer toy) × (id : ℕ) × (handle_round toy (quote_server toy) stream_round s session
      ≡ some (
        t,
        record {
          client_id = some id;
          last_ping = 7;
          written = session.written ++ codes "STREAM OK\n" ∷ [];
        },
        goes_on,
      ))
    × IsValid toy t
    × (t.clients_poisoned ≡ false)
    × (t.clients_count + n < 2 ^ 64)

stream_round-Streamed :
    (n : ℕ) (s : QuoteServer toy) (session : Session)
    → IsValid toy s
    → s.clients_poisoned ≡ false
    → s.clients_count + suc n < 2 ^ 64
    → Streamed n s session
unfolding quote_server-IsService
stream_round-Streamed n s session valid lock room =
    let (t, id, e, fresh, found, same, (valid', lock'), room') =
      stream_registers toy (quote_server toy) (quote_server-IsService toy) stream_round
        stream_round-IsStream n s session (valid, lock) room in
    (t, id, e, valid', lock', room')

-- Two connections are accepted; the first sends a `STREAM`, and then the second.
abbrev first : Streamed 1 server (new_session 5)
first = stream_round-Streamed 1 server (new_session 5) server-IsValid refl (omega arith)

abbrev second : Streamed 0 first.0 (new_session 6)
second = stream_round-Streamed 0 first.0 (new_session 6) first.3 first.4 first.5

abbrev streamed : ℕ → Session
streamed id = record { client_id = some id; last_ping = 7; written = codes "STREAM OK\n" ∷ [] }

abbrev end : System toy
end = record {
  server = first.0;
  connections = (0, running (streamed first.1)) ∷ (1, running (new_session 6)) ∷ [];
}

steps : Steps toy in_order 3 start end
unfolding get insert
steps = more (accept 0 5 none refl) (
    more (accept 1 6 none refl) (
      more (round 0 stream_round (new_session 5) (streamed first.1) first.0 goes_on refl first.2)
        here))

round_spares_others_example :
    (get first.1 second.0.clients ≡ get first.1 first.0.clients) × (some second.1 ≢ some first.1)
round_spares_others_example =
    round_spares_others toy in_order (start-IsStarted 4 (omega arith)) steps 1 0 first.1
      stream_round (new_session 6) (streamed second.1) second.0 goes_on (unfold get in refl)
      second.2 (λ e. omega (arith, e)) (streamed first.1, unfold get in refl, refl)

no_thread_hangs_example :
    ((i : ℕ) (r : Round toy) (session : Session)
      → get i end.connections ≡ some (running session)
      → RoundReturns toy in_order end.server r session)
    × ((world : Surroundings toy) (phase : Phase)
        → Sleeps world.attempts
        → end.server.bg_thread ≡ some phase
        → StepReturns toy in_order end.server world phase)
    × ((id : ℕ) (c : Client toy) (w : Worker toy) (reading : Option (Quotes toy))
          (command : ClientCommand) (queue : List ClientCommand)
        → get id end.server.clients ≡ some c
        → c.tx ≡ some w
        → w.queue ≡ command ∷ queue
        → ReceiveReturns toy in_order w reading)
no_thread_hangs_example = no_thread_hangs toy in_order (start-IsStarted 4 (omega arith)) steps

abbrev debug : TcpServerError → Text
debug e = codes "error"

abbrev peers : List Text
peers = codes "a" ∷ codes "b" ∷ []

program_example :
    (serving : Serving toy Text) × (server_main toy debug samples
        (ok (all_read toy config))
        none
        (codes "0.0.0.0:8080")
        (map ok peers ++ err (codes "too many files") ∷ [])
      ≡ ok serving)
    × (serving.peers ≡ peers)
    × ((n : ℕ) (t : System toy)
        → n + 1 < 2 ^ 64
        → Steps toy in_order n (record { server = serving.server; connections = [] }) t
        → IsInOrder toy in_order config t)
program_example =
    program_lem toy in_order debug samples config generator (codes "0.0.0.0:8080") peers
      (codes "too many files") [] (unfold Generator.new in refl)

-- The first connection is closed by its peer, and another one begins.
abbrev closed : System toy
closed = record end { connections = insert 0 (returned (streamed first.1) (ok tt)) end.connections }

abbrev later : System toy
later = record closed { connections = insert 2 (begun none 9) closed.connections }

later_steps : Steps toy in_order 1 closed later
unfolding get insert
later_steps = more (accept 2 9 none refl) here

disconnected_for_ever_example :
    (handle_round toy (quote_server toy) eof_round first.0 (streamed first.1)
      ≡ some (first.0, streamed first.1, returns (ok tt)))
    × IsThere toy first.1 first.0.clients
    × ((j : ℕ) → Owns toy j first.1 later.connections → ⊥)
disconnected_for_ever_example =
    disconnected_for_ever toy in_order (start-IsStarted 5 (omega arith)) steps 0 first.1 eof_round
      (streamed first.1) (unfold get in refl) refl refl later_steps
