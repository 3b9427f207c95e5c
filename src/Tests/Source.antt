-- ===== src/Tests/Source.antt =====
-- The unit tests of src/tcp_server.rs, src/quote_server.rs, src/client.rs and src/quote_generator.rs,
-- on the concrete platform, whose JSON has no quotation marks and whose floats are millionths. What a
-- test writes to a socket is a line that the connection reads, and what it sleeps for is the round of
-- a thread.
use rust_quote_streamer.Base.{
  Bool, true, false, ◌&&◌, not, ◌==◌, ℕ, ◌≡◌, refl, List, [], ◌∷◌, nat_key, map, length, eqb, ltb,
  Option, none, some, ◌>>=◌, Result, ok, err, if◌then◌else◌,
}
use rust_quote_streamer.HashMap.{get, insert, contains_key}
use rust_quote_streamer.Text.{Text, codes, trim, starts_with, text_key}
use rust_quote_streamer.Errors.{
  QuoteServerError, QuoteGeneratorError, invalid_config, invalid_volatility,
}
use rust_quote_streamer.StockQuote
use rust_quote_streamer.StockQuote.{StockQuote}
use rust_quote_streamer.Generator
use rust_quote_streamer.Generator.{Draw, QuoteGenerator, in_order}
use rust_quote_streamer.Client
use rust_quote_streamer.Client.{Client}
use rust_quote_streamer.Client.Thread.{Callback, update, shutdown, closure, Quotes, on_recv}
use rust_quote_streamer.Server.State.{QuoteServer}
use rust_quote_streamer.Server.Config.{from_config}
use rust_quote_streamer.Server.Registry.{add_client, remove_client, notify_clients}
use rust_quote_streamer.Server.Update.{drawn, update_quotes}
use rust_quote_streamer.Tcp.Connection.{line, Round, handle_connection}
use rust_quote_streamer.Tcp.Implements.{quote_server}
use rust_quote_streamer.Text.{
  is_empty, is_whitespace, split_whitespace, to_uppercase, uppercase_char, to_decimal,
}
use rust_quote_streamer.HashMap.{remove}
use rust_quote_streamer.Tcp.Handlers.{handle_ping, handle_invalid, handle_stream, handle_stop}
use rust_quote_streamer.Client.Thread.{enqueue, join, call}
use rust_quote_streamer.Tests.Toy.{toy, aapl}
use rust_quote_streamer.Tests.Data.{draw}
use rust_quote_streamer.Tests.Server.{takes_all, reads, samples, attempts, draws}
use rust_quote_streamer.Tests.Connection.{io}

abbrev unwrap : {E A : Type 0} → Result E A → Option A
unwrap (ok a) = some a
unwrap (err _) = none

-- A test passes if its assertions hold and no `unwrap` fails.
abbrev passes : Option Bool → Bool
passes none = false
passes (some b) = b

abbrev contains : Text → Text → Bool
contains [] needle = starts_with [] needle
contains (c ∷ s) needle = if starts_with (c ∷ s) needle then true else contains s needle

abbrev last : List Text → Text
last [] = []
last (x ∷ []) = x
last (x ∷ y ∷ l) = last (y ∷ l)

abbrev takes : Callback toy
takes = closure takes_all

-- The tests of the connections: a server with one ticker, and the last answer to lines that are
-- written.
abbrev create_test_quote_server : Option (QuoteServer toy)
create_test_quote_server = unwrap (from_config toy samples (ok (ok (codes "AAPL") ∷ [])))

abbrev said : Text → Round toy
said text = record { now = 1; reading = line text; io = io }

abbrev last_answer : List Text → Option Text
last_answer lines = do
  qs ← create_test_quote_server
  (_, session, _) ← handle_connection toy (quote_server toy) none 0 (map said lines) qs
  some (trim (last session.written))

abbrev test_ping_pong : Bool
test_ping_pong = passes (do s ← last_answer (codes "PING\n" ∷ []); some (s == codes "PONG"))

abbrev test_invalid_command : Bool
test_invalid_command =
    passes (do s ← last_answer (codes "BLAH\n" ∷ []); some (s == codes "ERR Invalid command"))

abbrev test_stream_registers_client : Bool
test_stream_registers_client = passes (do
  s ← last_answer (codes "STREAM 127.0.0.1:50000 AAPL MSFT\n" ∷ [])
  some (s == codes "STREAM OK"))

abbrev test_stop_removes_client : Bool
test_stop_removes_client = passes (do
  s ← last_answer (codes "STREAM 127.0.0.1:50000 AAPL\n" ∷ codes "STOP\n" ∷ [])
  some (s == codes "STOP OK"))

-- The tests of the quote server.
abbrev test_from_config_valid_file : Bool
test_from_config_valid_file = passes (do
  server ←
      unwrap
        (from_config toy samples (ok (map ok (codes "AAPL" ∷ codes "GOOG" ∷ codes "MSFT" ∷ []))))
  some (
      contains_key (codes "AAPL") server.quotes
      && contains_key (codes "GOOG") server.quotes
      && contains_key (codes "MSFT") server.quotes))

abbrev is_invalid_config : Result QuoteServerError (QuoteServer toy) → Bool
is_invalid_config (err (invalid_config _)) = true
is_invalid_config _ = false

abbrev test_from_config_invalid_file : Bool
test_from_config_invalid_file =
    is_invalid_config (from_config toy samples (err (codes "No such file or directory")))

-- What the threads of clients do while the test sleeps: each takes one command.
abbrev runs : Client toy → Quotes toy → Option (Client toy × List Text)
runs c quotes = do
  w ← c.tx
  w' ← on_recv toy (some quotes) w w.queue
  some (record c { tx = some w' }, w'.calls)

abbrev test_add_and_remove_client : Bool
test_add_and_remove_client = passes (do
  server ← create_test_quote_server
  (s, added) ← add_client toy reads (codes "AAPL" ∷ []) takes server
  client_id ← unwrap added
  (s, updated) ← update_quotes toy in_order attempts draws s
  _ ← unwrap updated
  (s, notified) ← notify_clients toy reads s
  _ ← unwrap notified
  c ← get client_id s.clients
  (c', messages) ← runs c s.quotes
  (s, removed) ←
      remove_client toy reads client_id (record s { clients = insert client_id c' s.clients })
  _ ← unwrap removed
  some (eqb (length messages) 1 && contains (last messages) (codes "ticker:AAPL")))

-- The tests of the clients.
abbrev sends_one_update : List Text → Quotes toy → Option (List Text)
sends_one_update tickers quotes = do
  (client, sent) ← Client.send toy reads update (Client.start toy (Client.new toy tickers takes)).0
  _ ← unwrap sent
  (client, result) ← runs client quotes
  (client, stopped) ← Client.send toy reads shutdown client
  _ ← unwrap stopped
  some result

abbrev single_quote : StockQuote toy
single_quote = record { ticker = aapl; price = 150000000; volume = 1000; timestamp = 123456 }

abbrev test_client_receives_updates_and_calls_callback : Bool
test_client_receives_updates_and_calls_callback = passes (do
  result ← sends_one_update (aapl ∷ []) ((aapl, single_quote) ∷ [])
  let msg = last result
  some (
      eqb (length result) 1
      && contains msg (codes "ticker:AAPL")
      && contains msg (codes "price:150000000")
      && contains msg (codes "volume:1000")
      && contains msg (codes "timestamp:123456")))

abbrev fresh_quote : Text → StockQuote toy
fresh_quote ticker = StockQuote.new toy (samples 0).0 (samples 0).1 ticker

abbrev test_client_filters_unrelated_tickers : Bool
test_client_filters_unrelated_tickers = passes (do
  result ←
      sends_one_update (codes "MSFT" ∷ [])
        ((aapl, fresh_quote aapl) ∷ (codes "MSFT", fresh_quote (codes "MSFT")) ∷ [])
  some (eqb (length result) 1 && contains (last result) (codes "ticker:MSFT")))

abbrev test_client_shutdown : Bool
test_client_shutdown = passes (do
  (client, stopped) ← Client.send toy reads shutdown (Client.start toy (Client.new toy [] takes)).0
  _ ← unwrap stopped
  some true)

-- The tests of the generator.
abbrev test_quote : Text → ℕ → Draw toy × StockQuote toy
test_quote ticker price =
    (draw, record { ticker = ticker; price = toy.literal price 0; volume = 0; timestamp = 0 })

abbrev create_test_quotes : List (Draw toy × StockQuote toy)
create_test_quotes =
    test_quote (codes "AAPL") 150
    ∷ test_quote (codes "MSFT") 300
    ∷ test_quote (codes "TSLA") 700
    ∷ test_quote (codes "GOOG") 2800
    ∷ []

abbrev has_moved : List (Draw toy × StockQuote toy) → List (Draw toy × StockQuote toy) → Bool
has_moved [] [] = true
has_moved ((d, q) ∷ qs) ((d', q') ∷ qs') =
    not (eqb q'.price q.price) && ltb 0 q'.volume && ltb 0 q'.timestamp && has_moved qs qs'
has_moved _ _ = false

abbrev test_update_vec : Bool
test_update_vec = passes (do
  generator ← unwrap (Generator.new toy (toy.literal 1 1))
  let (result, quotes) = Generator.update_quotes toy in_order generator create_test_quotes
  _ ← unwrap result
  some (has_moved create_test_quotes quotes))

-- The same on the values of a map; of the time nothing is asserted.
abbrev test_update_hashmap : Bool
test_update_hashmap = passes (do
  generator ← unwrap (Generator.new toy (toy.literal 2 1))
  let before = map (λ x. (x.1.ticker, x.1)) create_test_quotes
  let (result, quotes) = Generator.update_quotes toy in_order generator (drawn toy draws before)
  _ ← unwrap result
  some (has_moved (drawn toy draws before) quotes))

abbrev is_invalid_volatility : Result (QuoteGeneratorError toy) (QuoteGenerator toy) → Bool
is_invalid_volatility (err (invalid_volatility _)) = true
is_invalid_volatility _ = false

abbrev test_invalid_volatility : Bool
test_invalid_volatility = is_invalid_volatility (Generator.new toy (toy.literal 0 0))

ping_pong_passes : test_ping_pong ≡ true
unfolding from_config Generator.new handle_connection is_empty trim is_whitespace starts_with
    handle_ping
ping_pong_passes = refl

invalid_command_passes : test_invalid_command ≡ true
unfolding from_config Generator.new handle_connection is_empty trim is_whitespace starts_with
    handle_invalid
invalid_command_passes = refl

stream_passes : test_stream_registers_client ≡ true
unfolding from_config Generator.new handle_connection is_empty trim is_whitespace starts_with
    handle_stream split_whitespace add_client Client.start get
stream_passes = refl

stop_passes : test_stop_removes_client ≡ true
unfolding from_config Generator.new handle_connection is_empty trim is_whitespace starts_with
    handle_stream split_whitespace add_client Client.start get handle_stop remove_client insert
    Client.send enqueue join Client.drop remove
stop_passes = refl

config_passes : (test_from_config_valid_file ≡ true) × (test_from_config_invalid_file ≡ true)
unfolding from_config Generator.new contains_key is_empty to_uppercase trim is_whitespace
    uppercase_char insert
config_passes = (refl, refl)

add_and_remove_passes : test_add_and_remove_client ≡ true
unfolding from_config Generator.new Client.new add_client Client.start get update_quotes
    Generator.update_quotes is_empty to_uppercase trim is_whitespace uppercase_char insert
    Generator.update_item Generator.update_single_quote Generator.new_volume notify_clients
    Client.send Client.drop remove_client remove enqueue on_recv call join starts_with to_decimal
    StockQuote.new
add_and_remove_passes = refl

client_passes :
    (test_client_receives_updates_and_calls_callback ≡ true)
    × (test_client_filters_unrelated_tickers ≡ true)
    × (test_client_shutdown ≡ true)
unfolding Client.send Client.start enqueue on_recv Client.new get call join starts_with to_decimal
    StockQuote.new
client_passes = (refl, refl, refl)

generator_passes :
    (test_update_vec ≡ true) × (test_update_hashmap ≡ true) × (test_invalid_volatility ≡ true)
unfolding drawn Generator.new Generator.update_quotes Generator.update_item
    Generator.update_single_quote Generator.new_volume
generator_passes = (refl, refl, refl)
