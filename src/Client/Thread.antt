-- ===== src/Client/Thread.antt =====
-- The thread that `Client::start` of src/client.rs spawns: the loop over the commands of its channel.
use rust_quote_streamer.Base.{
  ℕ, zero, suc, ◌+◌, Bool, true, false, List, [], ◌∷◌, ◌++◌, Option, none, some, ◌>>=◌, Result, ok,
  err, if◌then◌else◌, length,
}
use rust_quote_streamer.HashMap.{get}
use rust_quote_streamer.Text.{Text, codes, text_key, as_bytes}
use rust_quote_streamer.Platform.{Platform, string, float, uint}
use rust_quote_streamer.Errors.{ClientError}
use rust_quote_streamer.StockQuote.{StockQuote}

pub data ClientCommand : Type 0 where
  update shutdown : ClientCommand

-- How a call of the callback ends.
pub data CallOutcome : Type 0 where
  returned : Result ClientError (Unit {0}) → CallOutcome
  panicked : CallOutcome

-- A closure, as it is called.
abbrev pub Callee : Type 0
Callee = Text → CallOutcome

-- What the callback was called with, how many calls returned `Ok`, and whether one panicked.
pub record Processed : Type 0 where
  pub calls : List Text
  pub processed_count : ℕ
  pub has_panicked : Bool

-- The rest of the loop is made unless the call panicked; an error is only logged.
unfoldable pub after_call : CallOutcome → (List Text → ℕ → Processed) → List Text → ℕ → Processed
after_call (returned (ok _)) rest calls count = rest calls (count + 1)
after_call (returned (err e)) rest calls count = rest calls count
after_call panicked rest calls count = record {
  calls = calls;
  processed_count = count;
  has_panicked = true;
}

-- The callback of a client: any closure, or the one that `handle_stream` makes, which captures the
-- UDP address.
pub data Callback (p : Platform) : Type 0 where
  closure : Callee → Callback p
  send_datagram : p.SocketAddr → Callback p

module _ (p : Platform) where
  -- `let _ = udp_clone.send_to(json.as_bytes(), udp_addr); Ok(())`: what the send returns is not looked
  -- at.
  unfoldable pub call : Callback p → Callee
  call (closure f) m = f m
  call (send_datagram address) m = returned (ok tt)

  -- The calls of `send_to` on the UDP socket that the call makes; the callback ignores what they
  -- give, so that a datagram of them may never be sent.
  unfoldable pub send_calls : Callback p → Text → List (p.SocketAddr × List ℕ)
  send_calls (closure f) m = []
  send_calls (send_datagram address) m = (address, as_bytes m) ∷ []

  abbrev pub Quotes : Type 0
  Quotes = List (Text × StockQuote p)

  -- What `quotes.read()` gives at the n-th command from now on: `none` if the lock is poisoned.
  abbrev pub Reads : Type 0
  Reads = ℕ → Option Quotes

  unfoldable pub message : StockQuote p → Text
  message q = p.show_json (
      (codes "ticker", string q.ticker)
      ∷ (codes "price", float q.price)
      ∷ (codes "volume", uint q.volume)
      ∷ (codes "timestamp", uint q.timestamp)
      ∷ [])

  -- The loop over the tickers.
  unfoldable pub process : Callee → Quotes → List Text → List Text → ℕ → Processed
  unfolding after_call message
  process callback quotes [] calls count = record {
    calls = calls;
    processed_count = count;
    has_panicked = false;
  }
  process callback quotes (ticker ∷ tickers) calls count = elim (get ticker quotes) [
    | none ↦ process callback quotes tickers calls count
    | some q ↦
        after_call (callback (message q)) (process callback quotes tickers)
          (calls ++ message q ∷ []) count
  ]

  -- The channel and the thread: the commands that wait, whether the sender is there, whether the loop
  -- runs, and all calls of the callback so far. A thread that has ended has dropped its receiver.
  pub record Worker : Type 0 where
    pub tickers : List Text
    pub callback : Callback p
    pub queue : List ClientCommand
    pub connected : Bool
    pub running : Bool
    pub calls : List Text

  unfoldable pub fresh : List Text → Callback p → Worker
  fresh tickers callback = record {
    tickers = tickers;
    callback = callback;
    queue = [];
    connected = true;
    running = true;
    calls = [];
  }

  unfoldable pub stop : Worker → Worker
  stop w = record w { queue = []; running = false }

  abbrev pub disconnect : Worker → Worker
  disconnect w = record w { connected = false }

  -- `Sender::send`: `none` is the error that there is no receiver any more.
  unfoldable pub enqueue : ClientCommand → Worker → Option Worker
  enqueue command w =
      if w.running then some (record w { queue = w.queue ++ command ∷ [] }) else none

  unfoldable pub finish_update : Worker → Processed → Worker
  unfolding stop
  finish_update w done =
      let w' = record w { calls = w.calls ++ done.calls } in
      if done.has_panicked then stop w' else w'

  unfoldable pub on_update : Worker → Option Quotes → Worker
  unfolding process finish_update
  on_update w none = w
  on_update w (some quotes) = finish_update w (process (call w.callback) quotes w.tickers [] 0)

  -- One `recv` and what follows it; `none` while the thread waits for a command.
  unfoldable pub on_recv : Option Quotes → Worker → List ClientCommand → Option Worker
  unfolding on_update stop
  on_recv reading w (update ∷ queue) = some (on_update (record w { queue = queue }) reading)
  on_recv reading w (shutdown ∷ queue) = some (stop w)
  on_recv reading w [] = if w.connected then none else some (stop w)

  -- The rounds of the loop until the thread has ended. The fuel of `join` is enough, since each
  -- round but the last takes a command off the queue.
  unfoldable pub rounds : Reads → ℕ → ℕ → Worker → Option Worker
  unfolding on_recv
  rounds reads zero i w = if w.running then none else some w
  rounds reads (suc fuel) i w = elim w.running [
    | true ↦ on_recv (reads i) w w.queue >>= rounds reads fuel (i + 1)
    | false ↦ some w
  ]

  -- `JoinHandle::join`: the thread as it has ended, or `none` if it never ends by itself.
  unfoldable pub join : Reads → Worker → Option Worker
  unfolding rounds
  join reads w = rounds reads (suc (length w.queue)) 0 w
