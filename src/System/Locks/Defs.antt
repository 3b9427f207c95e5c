-- ===== src/System/Locks/Defs.antt =====
-- The two locks of a `QuoteServer` in src/quote_server.rs, in steps as small as its threads can be seen
-- to make: what is taken, held, waited for and given back. `clients` is a `Mutex`, `quotes` a `RwLock`.
-- Only the keys of the map of the clients and the commands in their channels are kept of the data; no
-- lock is poisoned, and the numbers of the clients stay below 2 ^ 64.
use rust_quote_streamer.Base.{
  ℕ, zero, suc, ◌+◌, ◌≡◌, ◌≢◌, ◌||◌, Bool, true, false, List, [], ◌∷◌, ◌++◌, Option, none, some,
  eqb, if◌then◌else◌, nat_key,
}
use rust_quote_streamer.HashMap.{get, insert}
use rust_quote_streamer.Client.Thread.{ClientCommand, update, shutdown}
use rust_quote_streamer.Server.Update.{update_fuel}

pub data Call : Type 0 where
  adds : Call
  removes : ℕ → Call
  notifies : Call

-- Where a thread stands that calls the server: it waits for `clients`, or holds `clients` and adds a
-- client, removes one, waits for the end of its thread, or has clients left to notify; or it tries to
-- write, or writes the quotes.
pub data Place : Type 0 where
  idle : Place
  at_lock : Call → Place
  in_add : Place
  in_remove : ℕ → Place
  joining : ℕ → Place
  in_notify : List ℕ → Place
  at_write : ℕ → Place
  in_write : Place

-- Where the thread of a client stands: it waits for a command, waits for the lock of the quotes,
-- reads them, or has ended.
pub data Stage : Type 0 where
  at_recv at_read in_read over : Stage

pub record Thread : Type 0 where
  pub queue : List ClientCommand
  pub stage : Stage

-- The guards say which caller holds the mutex of the clients and which one writes the quotes.
pub record Locks : Type 0 where
  pub callers : List (ℕ × Place)
  pub threads : List (ℕ × Thread)
  pub clients : List ℕ
  pub clients_count : ℕ
  pub clients_guard : Option ℕ
  pub quotes_guard : Option ℕ

-- What follows once the mutex is taken: the clients are iterated as they are then.
abbrev pub begin_call : Call → List ℕ → Place
begin_call adds clients = in_add
begin_call (removes id) clients = in_remove id
begin_call notifies clients = in_notify clients

-- `Sender::send` fails if the thread has ended.
abbrev pub push_at : Stage → ClientCommand → List ClientCommand → List ClientCommand
push_at over command queue = queue
push_at at_recv command queue = queue ++ command ∷ []
push_at at_read command queue = queue ++ command ∷ []
push_at in_read command queue = queue ++ command ∷ []

abbrev pub push : ClientCommand → Thread → Thread
push command t = record t { queue = push_at t.stage command t.queue }

abbrev tell_found : ℕ → ClientCommand → List (ℕ × Thread) → Option Thread → List (ℕ × Thread)
tell_found id command threads none = threads
tell_found id command threads (some t) = insert id (push command t) threads

unfoldable pub tell : ℕ → ClientCommand → List (ℕ × Thread) → List (ℕ × Thread)
tell id command threads = tell_found id command threads (get id threads)

unfoldable pub contains : ℕ → List ℕ → Bool
contains id [] = false
contains id (j ∷ ids) = eqb j id || contains id ids

unfoldable pub without : ℕ → List ℕ → List ℕ
without id [] = []
without id (j ∷ ids) = let rest = without id ids in if eqb j id then rest else j ∷ rest

abbrev pub fresh_thread : Thread
fresh_thread = record { queue = []; stage = at_recv }

-- `try_write` gives the lock of the quotes.
pub record IsFree (s : Locks) : Type 0 where
  pub unwritten : s.quotes_guard ≡ none
  pub unread : (id : ℕ) (t : Thread) → get id s.threads ≡ some t → t.stage ≢ in_read

module _ (s : Locks) where
  -- One caller goes on to another place.
  abbrev pub move : ℕ → Place → Locks
  move c place = record s { callers = insert c place s.callers }

  abbrev pub unlock : ℕ → Locks
  unlock c = record (move c idle) { clients_guard = none }

  abbrev pub move_thread : ℕ → Thread → Locks
  move_thread id t = record s { threads = insert id t s.threads }

  abbrev pub insert_client : ℕ → Locks
  insert_client c = record (unlock c) {
    threads = insert s.clients_count fresh_thread s.threads;
    clients = s.clients ++ s.clients_count ∷ [];
    clients_count = s.clients_count + 1;
  }

  abbrev pub take_client : ℕ → ℕ → Locks
  take_client c id = record (move c (joining id)) {
    threads = tell id shutdown s.threads;
    clients = without id s.clients;
  }

-- One step of a thread that has something to do.
pub data LockStep (s : Locks) : Locks → Type 0 where
  -- `self.clients.lock()` waits until the mutex is free.
  lock :
      (c : ℕ) (call : Call)
      → get c s.callers ≡ some (at_lock call)
      → s.clients_guard ≡ none
      → LockStep s (record (move s c (begin_call call s.clients)) { clients_guard = some c })
  -- `add_client`: the client is started and inserted.
  adding : (c : ℕ) → get c s.callers ≡ some in_add → LockStep s (insert_client s c)
  -- `remove_client`: there is no such client ...
  missing :
      (c id : ℕ)
      → get c s.callers ≡ some (in_remove id)
      → contains id s.clients ≡ false
      → LockStep s (unlock s c)
  -- ... or it is taken out and told to shut down ...
  removing :
      (c id : ℕ)
      → get c s.callers ≡ some (in_remove id)
      → contains id s.clients ≡ true
      → LockStep s (take_client s c id)
  -- ... and the mutex is held until its thread has ended; if it had ended before, `send` fails, and the
  -- client is dropped, which joins the thread as well.
  joined :
      (c id : ℕ) (t : Thread)
      → get c s.callers ≡ some (joining id)
      → get id s.threads ≡ some t
      → t.stage ≡ over
      → LockStep s (unlock s c)
  -- `notify_clients`: one client is notified ...
  notifying :
      (c id : ℕ) (ids : List ℕ)
      → get c s.callers ≡ some (in_notify (id ∷ ids))
      → LockStep s (record (move s c (in_notify ids)) { threads = tell id update s.threads })
  -- ... until all are.
  notified : (c : ℕ) → get c s.callers ≡ some (in_notify []) → LockStep s (unlock s c)
  -- `update_quotes`: an attempt succeeds, or finds the lock taken and sleeps, or the time is over; the
  -- background thread goes on to notify the clients in either case.
  writing :
      (c k : ℕ)
      → get c s.callers ≡ some (at_write (suc k))
      → IsFree s
      → LockStep s (record (move s c in_write) { quotes_guard = some c })
  busy :
      (c k : ℕ)
      → get c s.callers ≡ some (at_write (suc k))
      → ¬ IsFree s
      → LockStep s (move s c (at_write k))
  late : (c k : ℕ) → get c s.callers ≡ some (at_write k) → LockStep s (move s c (at_lock notifies))
  written :
      (c : ℕ)
      → get c s.callers ≡ some in_write
      → LockStep s (record (move s c (at_lock notifies)) { quotes_guard = none })
  -- The thread of a client: `rx.recv()` waits for a command ...
  receive_update :
      (id : ℕ) (queue : List ClientCommand)
      → get id s.threads ≡ some (record { queue = update ∷ queue; stage = at_recv })
      → LockStep s (move_thread s id (record { queue = queue; stage = at_read }))
  receive_shutdown :
      (id : ℕ) (queue : List ClientCommand)
      → get id s.threads ≡ some (record { queue = shutdown ∷ queue; stage = at_recv })
      → LockStep s (move_thread s id (record { queue = []; stage = over }))
  -- ... `quotes.read()` waits while the quotes are written ...
  reading :
      (id : ℕ) (queue : List ClientCommand)
      → get id s.threads ≡ some (record { queue = queue; stage = at_read })
      → s.quotes_guard ≡ none
      → LockStep s (move_thread s id (record { queue = queue; stage = in_read }))
  -- ... and the callback returns for each message, or panics.
  processed :
      (id : ℕ) (queue : List ClientCommand)
      → get id s.threads ≡ some (record { queue = queue; stage = in_read })
      → LockStep s (move_thread s id (record { queue = queue; stage = at_recv }))
  panicked :
      (id : ℕ) (queue : List ClientCommand)
      → get id s.threads ≡ some (record { queue = queue; stage = in_read })
      → LockStep s (move_thread s id (record { queue = []; stage = over }))

-- A thread begins something new: a new thread comes up, or one that has nothing to do calls
-- `add_client` or `remove_client`, or the background thread begins a round.
pub data LockBegin (s : Locks) : Locks → Type 0 where
  arrives : (c : ℕ) → get c s.callers ≡ none → LockBegin s (move s c idle)
  calls :
      (c : ℕ) (call : Call) → get c s.callers ≡ some idle → LockBegin s (move s c (at_lock call))
  ticks : (c : ℕ) → get c s.callers ≡ some idle → LockBegin s (move s c (at_write update_fuel))

abbrev pub no_threads : Locks
no_threads = record {
  callers = [];
  threads = [];
  clients = [];
  clients_count = 0;
  clients_guard = none;
  quotes_guard = none;
}

pub data Reachable : Locks → Type 0 where
  starts : Reachable no_threads
  begins : {s t : Locks} → Reachable s → LockBegin s t → Reachable t
  steps : {s t : Locks} → Reachable s → LockStep s t → Reachable t

-- A number of steps, in any order of the threads.
pub data Run : ℕ → Locks → Locks → Type 0 where
  here : {s : Locks} → Run zero s s
  more : {n : ℕ} {s t u : Locks} → LockStep s t → Run n t u → Run (suc n) s u
