-- ===== src/System/Locks/Refined.antt =====
-- Sequences of calls of the registry of src/quote_server.rs as runs of the smaller steps at the locks.
use mathlib.Core.Option
use rust_quote_streamer.Base.{
  ℕ, ◌+◌, ◌^◌, ◌<◌, ◌≡◌, refl, sym, subst, false, List, [], ◌∷◌, ◌++◌, map, append-nil,
  append_assoc, none, some, length, nat_key, arith,
}
use rust_quote_streamer.HashMap.{get, get-insert_self}
use rust_quote_streamer.Platform.{Platform}
use rust_quote_streamer.Server.State.{QuoteServer}
use rust_quote_streamer.Server.Registry.Valid.{IsValid, new_client, told}
use rust_quote_streamer.Server.Registry.Refines.{
  RegistryCall, add, remove, notify, put, View, view, replay, Refines, registry-Refines,
}
use rust_quote_streamer.System.Locks.Defs.{
  Call, adds, removes, notifies, Locks, contains, move, idle, no_threads, arrives, Reachable,
  starts, begins,
}
use rust_quote_streamer.System.Locks.Agrees.{IsIdle, Agrees}
use rust_quote_streamer.System.Locks.Walk.{Walk, stands, Walked}
use rust_quote_streamer.System.Locks.Implements.{
  Simulated, adds-Simulated, removes-Simulated, notifies-Simulated,
}

module _ (p : Platform) where
  -- The number of the next client after the calls.
  abbrev pub next_after : List (RegistryCall p) → ℕ → View p → ℕ
  next_after calls next f = next + length (replay p calls next f).1

  -- The calls of the registry at the locks.
  abbrev pub call_of : RegistryCall p → Call
  call_of (add reads tickers callback) = adds
  call_of (remove reads id) = removes id
  call_of (notify reads) = notifies

  replay-Simulated :
      (c : ℕ) (o : Locks) (made : List Call) (calls : List (RegistryCall p)) (next : ℕ) (f : View p)
      → Simulated p c o made f next
      → Simulated p c o
          (made ++ map call_of calls)
          (replay p calls next f).0
          (next_after calls next f)
  replay-Simulated c o made [] next f (l, w, free, agrees) =
      subst (Simulated p c o (made ++ []) f) (omega arith)
        (l, subst (λ xs. Walked c o xs l) (sym (append-nil made)) w, free, agrees)
  replay-Simulated c o made (add reads tickers callback ∷ calls) next f (l, w, free, agrees) =
      let g : View p = put p next (some (new_client p tickers callback)) f in
      subst (Simulated p c o (made ++ adds ∷ map call_of calls) (replay p calls (next + 1) g).0)
        (omega arith)
        (subst
          (λ xs. Simulated p c o xs (replay p calls (next + 1) g).0 (next_after calls (next + 1) g))
          (append_assoc made (adds ∷ []) (map call_of calls))
          (replay-Simulated c o (made ++ adds ∷ []) calls (next + 1) g
            (adds-Simulated p c o made f next l w free agrees tickers callback)))
  replay-Simulated c o made (remove reads id ∷ calls) next f (l, w, free, agrees) =
      let g : View p = put p id none f in
      subst (λ xs. Simulated p c o xs (replay p calls next g).0 (next_after calls next g))
        (append_assoc made (removes id ∷ []) (map call_of calls))
        (replay-Simulated c o (made ++ removes id ∷ []) calls next g
          (removes-Simulated p c o made f next l w free agrees id))
  replay-Simulated c o made (notify reads ∷ calls) next f (l, w, free, agrees) =
      let g : View p = λ id. Option.map (told p) (f id) in
      subst (λ xs. Simulated p c o xs (replay p calls next g).0 (next_after calls next g))
        (append_assoc made (notifies ∷ []) (map call_of calls))
        (replay-Simulated c o (made ++ notifies ∷ []) calls next g
          (notifies-Simulated p c o made f next l w free agrees))

  -- A server without clients, and one caller.
  pub no_clients-Agrees :
      (c : ℕ)
      → Reachable (move no_threads c idle)
        × IsIdle c (move no_threads c idle)
        × Agrees p (λ id. none) 0 (move no_threads c idle)
  unfolding get contains
  no_clients-Agrees c = (
    begins starts (arrives c refl),
    record { clients_free = refl; quotes_free = refl; caller = get-insert_self c idle [] },
    record { there = λ id x found. cc; gone = λ id out. refl; distinct = tt; count = refl },
  )

  -- The calls of the registry, each of which is one step of the detailed model, are runs of the
  -- smaller steps at the locks: if a state of the locks can be reached, in which no lock is held and
  -- a caller is idle, and which says of the clients and their threads what a valid server says, whose
  -- lock is not poisoned and whose count does not wrap around, then any sequence of calls of
  -- `add_client`, `remove_client` and `notify_clients` that the caller makes on the server returns,
  -- and from that state of the locks on there is a run in which that caller begins exactly these
  -- calls, in order, and nobody else begins anything, to a state that is idle again and says of the
  -- clients and their threads what the server says then.
  pub registry-Simulated :
      (c : ℕ) (l : Locks) (calls : List (RegistryCall p)) (s : QuoteServer p)
      → IsValid p s
      → s.clients_poisoned ≡ false
      → s.clients_count + length calls < 2 ^ 64
      → Reachable l
      → IsIdle c l
      → Agrees p (view p s) s.clients_count l
      → (refines : Refines p calls s) × (m : Locks) × Walk c l (map call_of calls) m
        × IsIdle c m
        × Agrees p (view p refines.end) (next_after calls s.clients_count (view p s)) m
  registry-Simulated c l calls s valid lock room r free agrees =
      let refines = registry-Refines p calls s valid lock room in
      let (m, w, free', agrees') =
        replay-Simulated c l [] calls s.clients_count (view p s) (l, (r, stands), free, agrees) in
      (
        refines,
        m,
        w.1,
        free',
        subst (λ f. Agrees p f (next_after calls s.clients_count (view p s)) m)
            (sym refines.same_view) agrees',
      )
