-- ===== src/Tests/Simulated.antt =====
-- The registry and its locks at concrete inputs.
use rust_quote_streamer.Base.{refl, map, List, [], ◌∷◌, arith}
use rust_quote_streamer.HashMap.{get}
use rust_quote_streamer.Client.Thread.{closure}
use rust_quote_streamer.Server.State.{QuoteServer}
use rust_quote_streamer.Server.Registry.Valid.{IsValid}
use rust_quote_streamer.Server.Registry.Refines.{RegistryCall, add, remove, notify, view, Refines}
use rust_quote_streamer.System.Locks.Defs.{Locks, idle, move, no_threads}
use rust_quote_streamer.System.Locks.Agrees.{IsIdle, Agrees}
use rust_quote_streamer.System.Locks.Walk.{Walk}
use rust_quote_streamer.System.Locks.Refined.{
  next_after, call_of, no_clients-Agrees, registry-Simulated,
}
use rust_quote_streamer.Tests.Toy.{toy, aapl}
use rust_quote_streamer.Tests.Server.{server, reads, takes_all}

abbrev empty_server : QuoteServer toy
empty_server = record server { clients = []; clients_count = 0 }

empty-IsValid : IsValid toy empty_server
empty-IsValid = record { registered = tt }

abbrev some_calls : List (RegistryCall toy)
some_calls =
    add reads (aapl ∷ []) (closure takes_all)
    ∷ notify reads
    ∷ add reads [] (closure takes_all)
    ∷ remove reads 0
    ∷ remove reads 9
    ∷ []

abbrev one_caller : Locks
one_caller = move no_threads 4 idle

registry-Simulated_example :
    (refines : Refines toy some_calls empty_server) × (m : Locks) × Walk 4 one_caller
      (map (call_of toy) some_calls)
      m
    × IsIdle 4 m
    × Agrees toy (view toy refines.end) (next_after toy some_calls 0 (view toy empty_server)) m
unfolding get
registry-Simulated_example =
    let (r, free, agrees) = no_clients-Agrees toy 4 in
    registry-Simulated toy 4 one_caller some_calls empty_server empty-IsValid refl (omega arith) r
      free agrees
