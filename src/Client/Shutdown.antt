-- ===== src/Client/Shutdown.antt =====
-- `send` and `Drop` of src/client.rs.
use rust_quote_streamer.Base.{
  ◌≡◌, refl, List, [], ◌∷◌, ◌++◌, none, some, Result, ok, err, arith, true, false, Bool-cases, inl,
  inr,
}
use rust_quote_streamer.Text.{Text}
use rust_quote_streamer.Platform.{Platform}
use rust_quote_streamer.Errors.{ClientError}
use rust_quote_streamer.Client.Thread.{
  ClientCommand, update, shutdown, Callback, call, Reads, Worker, enqueue, disconnect, stop,
}
use rust_quote_streamer.Client.Delivery.{Returns}
use rust_quote_streamer.Client.Join.{
  Stops-append, HasEnded, batches, join-HasEnded, join-batches, join_ended,
}
use rust_quote_streamer.Client.{Client, new, start, send, drop, not_started, closed_channel}

module _ (p : Platform) where
  -- A client that was started and not shut down: it has the sender and the handle.
  pub record IsStarted (c : Client p) : Type 0 where
    pub worker : Worker p
    pub tx : c.tx ≡ some worker
    pub thread_handle : c.thread_handle ≡ true

  -- A client whose thread is gone.
  pub record IsShutDown (c : Client p) : Type 0 where
    pub tx : c.tx ≡ none
    pub thread_handle : c.thread_handle ≡ false
    pub last : Worker p
    pub others : List (Worker p)
    pub past : c.past ≡ last ∷ others
    pub ended : HasEnded p last

  pub start-IsStarted : (c : Client p) → IsStarted (start p c).0
  unfolding start
  start-IsStarted c = record { worker = _; tx = refl; thread_handle = refl }

  enqueue_running :
      (command : ClientCommand) (w : Worker p)
      → w.running ≡ true
      → enqueue p command w ≡ some (record w { queue = w.queue ++ command ∷ [] })
  unfolding enqueue
  enqueue_running command w on = ground arith

  enqueue_ended :
      (command : ClientCommand) (w : Worker p) → w.running ≡ false → enqueue p command w ≡ none
  unfolding enqueue
  enqueue_ended command w off = ground arith

  -- Sending `Shutdown` to a started client whose thread runs returns `Ok`, whatever the thread still
  -- reads, and then the thread has ended and the client has neither sender nor handle.
  pub send-shutdown :
      (reads : Reads p) (c : Client p) (w : Worker p)
      → c.tx ≡ some w
      → c.thread_handle ≡ true
      → w.running ≡ true
      → (c' : Client p) × (send p reads shutdown c ≡ some (c', ok tt)) × IsShutDown c'
  unfolding send
  send-shutdown reads c w tx handle on =
      let told = record w { queue = w.queue ++ shutdown ∷ [] } in
      let (w', joined, ended) = join-HasEnded p reads told on (Stops-append w.queue) in
      (
        record c { tx = none; thread_handle = false; past = disconnect p w' ∷ c.past },
        ground (arith, enqueue_running shutdown w on, joined),
        record {
          tx = refl;
          thread_handle = refl;
          last = disconnect p w';
          others = c.past;
          past = refl;
          ended = record { left = ended.left; dropped = ended.dropped };
        },
      )

  -- Sending `Shutdown` to a started client whose thread runs, and no call of whose callback panics,
  -- returns `Ok`. Each `Update` that was sent before has been processed by then, in order, once: the
  -- callback was called with the messages of each, and with nothing else; the thread has ended, and the
  -- client has neither sender nor handle.
  pub send-shutdown-batches :
      (reads : Reads p) (c : Client p) (w : Worker p)
      → c.tx ≡ some w
      → c.thread_handle ≡ true
      → w.running ≡ true
      → Returns (call p w.callback)
      → send p reads shutdown c
        ≡ some (
          record c {
            tx = none;
            thread_handle = false;
            past =
                disconnect p (
                  stop p (record w {
                    calls = w.calls ++ batches p reads 0 w.tickers (w.queue ++ shutdown ∷ []);
                  }))
                ∷ c.past;
          },
          ok tt,
        )
  unfolding send stop
  send-shutdown-batches reads c w tx handle on total =
      let told = record w { queue = w.queue ++ shutdown ∷ [] } in
      ground (
        arith,
        enqueue_running shutdown w on,
        join-batches p reads told total on (Stops-append w.queue),
      )

  -- An `Update` is put at the end of the channel of a running thread and the call returns at once.
  pub send-update :
      (reads : Reads p) (c : Client p) (w : Worker p)
      → c.tx ≡ some w
      → w.running ≡ true
      → send p reads update c
        ≡ some (record c { tx = some (record w { queue = w.queue ++ update ∷ [] }) }, ok tt)
  unfolding send
  send-update reads c w tx on = ground (arith, enqueue_running update w on)

  -- A thread that has ended by a panic takes no command: the call returns an error and leaves the
  -- client as it was.
  pub send_ended :
      (reads : Reads p) (command : ClientCommand) (c : Client p) (w : Worker p)
      → c.tx ≡ some w
      → w.running ≡ false
      → send p reads command c ≡ some (c, err closed_channel)
  unfolding send
  send_ended reads command c w tx off = ground (arith, enqueue_ended command w off)

  pub send-not_started :
      (reads : Reads p) (command : ClientCommand) (c : Client p)
      → c.tx ≡ none
      → send p reads command c ≡ some (c, err not_started)
  unfolding send
  send-not_started reads command c tx = ground arith

  -- A client as the methods leave it: sender and handle are both there, or both gone.
  pub data IsSound (c : Client p) : Type 0 where
    started : (w : Worker p) → c.tx ≡ some w → c.thread_handle ≡ true → IsSound c
    down : c.tx ≡ none → c.thread_handle ≡ false → IsSound c

  pub new-IsSound : (tickers : List Text) (callback : Callback p) → IsSound (new p tickers callback)
  unfolding new
  new-IsSound tickers callback = down refl refl

  pub start-IsSound : (c : Client p) → IsSound (start p c).0
  unfolding start
  start-IsSound c = started _ refl refl

  -- A call of `send` that returns: a sound client and a result.
  abbrev pub Sends : Reads p → ClientCommand → Client p → Type 0
  Sends reads command c =
      (c' : Client p) × (r : Result ClientError (Unit {0})) × (send p reads command c
        ≡ some (c', r))
      × IsSound c'

  send_running :
      (reads : Reads p) (command : ClientCommand) (c : Client p) (w : Worker p)
      → c.tx ≡ some w
      → c.thread_handle ≡ true
      → w.running ≡ true
      → Sends reads command c
  send_running reads update c w tx handle on =
      (_, _, send-update reads c w tx on, started _ refl handle)
  send_running reads shutdown c w tx handle on =
      let (c', returns, s) = send-shutdown reads c w tx handle on in
      (c', ok tt, returns, down s.tx s.thread_handle)

  -- `send` returns on every sound client, with every command, whatever the thread reads: the join of
  -- a `Shutdown` never waits for ever. The client stays sound.
  pub send_returns :
      (reads : Reads p) (command : ClientCommand) (c : Client p) → IsSound c → Sends reads command c
  send_returns reads command c (down tx handle) =
      (c, err not_started, send-not_started reads command c tx, down tx handle)
  send_returns reads command c (started w tx handle) = elim (Bool-cases w.running) [
    | inl on ↦ send_running reads command c w tx handle on
    | inr off ↦ (c, err closed_channel, send_ended reads command c w tx off, started w tx handle)
  ]

  -- No thread of the client is left to run.
  abbrev pub IsReleased : Client p → Type 0
  IsReleased c = (c.tx ≡ none) × (c.thread_handle ≡ false)

  drop_running :
      (reads : Reads p) (c : Client p) (w : Worker p)
      → c.tx ≡ some w
      → c.thread_handle ≡ true
      → w.running ≡ true
      → (c' : Client p) × (drop p reads c ≡ some c') × IsShutDown c'
  unfolding drop
  drop_running reads c w tx handle on =
      let told = record w { queue = w.queue ++ shutdown ∷ [] } in
      let (w', joined, ended) = join-HasEnded p reads told on (Stops-append w.queue) in
      (
        record c { tx = none; thread_handle = false; past = disconnect p w' ∷ c.past },
        ground (arith, enqueue_running shutdown w on, joined),
        record {
          tx = refl;
          thread_handle = refl;
          last = disconnect p w';
          others = c.past;
          past = refl;
          ended = record { left = ended.left; dropped = ended.dropped };
        },
      )

  drop_ended :
      (reads : Reads p) (c : Client p) (w : Worker p)
      → c.tx ≡ some w
      → c.thread_handle ≡ true
      → w.running ≡ false
      → drop p reads c
        ≡ some (record c { tx = none; thread_handle = false; past = disconnect p w ∷ c.past })
  unfolding drop
  drop_ended reads c w tx handle off =
      ground (arith, enqueue_ended shutdown w off, join_ended p reads w off)

  pub drop_down :
      (reads : Reads p) (c : Client p)
      → c.tx ≡ none
      → c.thread_handle ≡ false
      → drop p reads c ≡ some c
  unfolding drop
  drop_down reads c tx handle = ground arith

  -- Dropping a sound client returns, and no sender and no handle is left.
  pub drop_returns :
      (reads : Reads p) (c : Client p)
      → IsSound c
      → (c' : Client p) × (drop p reads c ≡ some c') × IsReleased c'
  drop_returns reads c (down tx handle) = (c, drop_down reads c tx handle, (tx, handle))
  drop_returns reads c (started w tx handle) = elim (Bool-cases w.running) [
    | inl on ↦
        let (c', returns, s) = drop_running reads c w tx handle on in
        (c', returns, (s.tx, s.thread_handle))
    | inr off ↦ (_, drop_ended reads c w tx handle off, (refl, refl))
  ]
