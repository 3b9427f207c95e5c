-- ===== src/Tests/Server.antt =====
-- The theorems on clients and on the quote server at concrete inputs.
use rust_quote_streamer.Base.{
  ℕ, zero, suc, ◌+◌, ◌*◌, ◌≤◌, ◌≡◌, ◌⊎◌, refl, true, false, List, [], ◌∷◌, ◌++◌, none, some, ok,
  arith, nat_key,
}
use rust_quote_streamer.HashMap.{contains_key}
use rust_quote_streamer.HashMap.Entries.{Entries}
use rust_quote_streamer.Text.{Text, codes, text_key}
use rust_quote_streamer.Generator
use rust_quote_streamer.Generator.{Draw, in_order, in_order-IsTryForEach}
use rust_quote_streamer.Client.{Client, send}
use rust_quote_streamer.Client.Thread.{
  update, shutdown, Callee, returned, closure, call, Quotes, Reads, Worker, process, stop,
  disconnect,
}
use rust_quote_streamer.Client.Delivery.{accepted, messages, process_lem}
use rust_quote_streamer.Client.Join.{batches}
use rust_quote_streamer.Client.Shutdown.{started, send-shutdown-batches}
use rust_quote_streamer.Server.State.{QuoteServer, at_test, at_sleep, at_update, ended}
use rust_quote_streamer.Server.Registry.Valid.{IsValid}
use rust_quote_streamer.Server.Registry.Removal.{IsWithout, NotThere, LetGo, remove_client_lem}
use rust_quote_streamer.Server.Update.{Attempt, write_quotes}
use rust_quote_streamer.Server.Update.Loop.{
  Sleeps, BusyBefore, Written, TimedOut, update_quotes_lem,
}
use rust_quote_streamer.Server.Update.Tickers.{CarriesKeys, write_quotes-CarriesKeys}
use rust_quote_streamer.Server.Background.{Surroundings, background_steps, start}
use rust_quote_streamer.Server.Background
use rust_quote_streamer.Server.Background.Loop.{start_after_shutdown, shutdown_lem}
use rust_quote_streamer.Server.Config.{Fresh, from_config}
use rust_quote_streamer.Server.Config.Loaded.{all_read, names, IsInitial, from_config_lem}
use rust_quote_streamer.Tests.Toy.{toy, aapl, quote}
use rust_quote_streamer.Tests.Data.{draw, generator}

-- A callback that takes every message, and a thread that has two updates to process.
abbrev pub takes_all : Callee
takes_all m = returned (ok tt)

abbrev pub quotes : Quotes toy
quotes = (aapl, quote) ∷ []

abbrev pub reads : Reads toy
reads i = some quotes

abbrev pub busy_worker : Worker toy
busy_worker = record {
  tickers = aapl ∷ codes "MSFT" ∷ [];
  callback = closure takes_all;
  queue = update ∷ update ∷ [];
  connected = true;
  running = true;
  calls = [];
}

abbrev pub busy_client : Client toy
busy_client = record {
  tickers = aapl ∷ codes "MSFT" ∷ [];
  callback = closure takes_all;
  tx = some busy_worker;
  thread_handle = true;
  past = [];
}

send-shutdown-batches_example :
    send toy reads shutdown busy_client
    ≡ some (
      record busy_client {
        tx = none;
        thread_handle = false;
        past =
            disconnect toy (
              stop toy (record busy_worker {
                calls =
                    []
                    ++ batches toy reads 0 busy_worker.tickers (busy_worker.queue ++ shutdown ∷ []);
              }))
            ∷ [];
      },
      ok tt,
    )
send-shutdown-batches_example =
    send-shutdown-batches toy reads busy_client busy_worker refl refl refl
      (unfold call in (λ m. (ok tt, refl)))

process_example : process toy takes_all quotes (aapl ∷ codes "MSFT" ∷ []) [] 0 ≡ record {
  calls = [] ++ messages toy quotes (aapl ∷ codes "MSFT" ∷ []);
  processed_count = 0 + accepted takes_all (messages toy quotes (aapl ∷ codes "MSFT" ∷ []));
  has_panicked = false;
}
process_example =
    process_lem toy takes_all quotes (aapl ∷ codes "MSFT" ∷ []) [] 0 (λ m. (ok tt, refl))

-- A server with one client, which has the number 0.
abbrev pub server : QuoteServer toy
server = record {
  quotes = quotes;
  generator = generator;
  clients = (0, busy_client) ∷ [];
  clients_poisoned = false;
  clients_count = 1;
  bg_thread = some at_update;
  bg_thread_poisoned = false;
  shutdown_flag = false;
  retired = [];
}

pub server-IsValid : IsValid toy server
server-IsValid = record { registered = ((omega arith, started busy_worker refl refl), tt) }

remove_client_example :
    (s : QuoteServer toy) × IsWithout toy 0 server s
    × (NotThere toy reads 0 server s ⊎ LetGo toy reads 0 server s)
remove_client_example = remove_client_lem toy reads 0 server server-IsValid refl

-- The lock is taken in the first two rounds.
abbrev pub attempts : ℕ → Attempt
attempts k = record { elapsed = k * 10000000; free = elim k [ zero ↦ false | suc j ↦ true ] }

pub attempts-Sleeps : Sleeps attempts
attempts-Sleeps k = omega arith

abbrev pub draws : Text → Draw toy
draws ticker = draw

update_quotes_example :
    (n : ℕ) × (n ≤ 100)
    × BusyBefore attempts n
    × (Written toy in_order attempts draws server n ⊎ TimedOut toy in_order attempts draws server n)
update_quotes_example = update_quotes_lem toy in_order attempts draws server attempts-Sleeps

write_quotes-CarriesKeys_example :
    ((t : Text)
      → contains_key t (write_quotes toy in_order draws server).0.quotes ≡ contains_key t quotes)
    × CarriesKeys toy (write_quotes toy in_order draws server).0.quotes
write_quotes-CarriesKeys_example =
    write_quotes-CarriesKeys toy in_order in_order-IsTryForEach draws server (refl, tt)

abbrev pub worlds : ℕ → Surroundings toy
worlds i = record { attempts = attempts; draws = draws; reads = reads }

shutdown_example :
    (t : QuoteServer toy) × (Background.shutdown toy in_order worlds server ≡ some (t, some ended))
    × (t.shutdown_flag ≡ true)
    × (t.bg_thread ≡ none)
    × (t.clients_count ≡ 1)
    × IsValid toy t
shutdown_example =
    shutdown_lem toy in_order worlds server at_update (λ j. attempts-Sleeps) server-IsValid refl
      refl

start_after_shutdown_example :
    (t u : QuoteServer toy) × (Background.shutdown toy in_order worlds
        (record server { bg_thread = some at_sleep })
      ≡ some (t, some ended))
    × (start toy t ≡ (u, ok tt))
    × (u.bg_thread ≡ some at_test)
    × (background_steps toy in_order worlds 8 0 u at_test ≡ some (u, ended))
start_after_shutdown_example =
    start_after_shutdown toy in_order worlds 7 0 (record server { bg_thread = some at_sleep })
      at_sleep (λ j. attempts-Sleeps) (record { registered = server-IsValid.registered }) refl refl

abbrev pub samples : Fresh toy
samples i = (500000, ok 99)

abbrev pub config : List Text
config = codes "aapl" ∷ [] ∷ codes " MSFT " ∷ []

from_config_example :
    (s : QuoteServer toy) × (from_config toy samples (ok (all_read toy config)) ≡ ok s)
    × ((t : Text) → contains_key t s.quotes ≡ names toy config t)
    × Entries (IsInitial toy) s.quotes
    × IsValid toy s
    × (s.bg_thread ≡ none)
    × (s.bg_thread_poisoned ≡ false)
    × (s.shutdown_flag ≡ false)
    × (s.clients_poisoned ≡ false)
    × (s.clients_count ≡ 0)
from_config_example = from_config_lem toy samples config generator (unfold Generator.new in refl)
