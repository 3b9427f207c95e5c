-- ===== src/Client.antt =====
-- src/client.rs: a client with the thread that serves it. `Thread` is the channel with the thread
-- behind it, `Client` is the struct with its methods and `Drop`.
pub mod Thread
pub mod Delivery
pub mod Join
pub mod Shutdown
pub mod Mailbox
use rust_quote_streamer.Base.{
  ℕ, suc, ◌≡◌, Bool, true, false, List, [], ◌∷◌, ◌++◌, Option, none, some, ◌>>=◌, Result, ok, err,
  if◌then◌else◌, length,
}
use rust_quote_streamer.Text.{Text, codes}
use rust_quote_streamer.Platform.{Platform}
use rust_quote_streamer.Errors.{ClientError}
use Thread.{
  Callback, ClientCommand, update, shutdown, Reads, Worker, fresh, enqueue, join, disconnect,
}

abbrev pub not_started : ClientError
not_started = ClientError.initialization_error (codes "Client loop not started or already shutdown")

-- The print of the error of `Sender::send`.
abbrev pub closed_channel : ClientError
closed_channel =
    ClientError.initialization_error
      (codes "Failed to send command: " ++ codes "sending on a closed channel")

module _ (p : Platform) where
  -- `tx` is the sender with the channel and the thread behind it; `thread_handle` says whether the
  -- handle is there. `past` holds the threads that the client has let go, last first.
  pub record Client : Type 0 where
    pub tickers : List Text
    pub callback : Callback p
    pub tx : Option (Worker p)
    pub thread_handle : Bool
    pub past : List (Worker p)

  unfoldable pub new : List Text → Callback p → Client
  new tickers callback = record {
    tickers = tickers;
    callback = callback;
    tx = none;
    thread_handle = false;
    past = [];
  }

  -- Overwriting `tx` drops the sender of the channel before, if there is one.
  abbrev pub let_go : Option (Worker p) → List (Worker p) → List (Worker p)
  let_go none past = past
  let_go (some w) past = disconnect p w ∷ past

  unfoldable pub start : Client → Client × Result ClientError (Unit {0})
  unfolding fresh
  start c = (
    record c {
      tx = some (fresh p c.tickers c.callback);
      thread_handle = true;
      past = let_go c.tx c.past;
    },
    ok tt,
  )

  -- The thread is joined if the handle is there. `none`: the caller waits for ever.
  unfoldable pub join_handle : Reads p → Bool → Worker p → Option (Worker p)
  join_handle reads true w = join p reads w
  join_handle reads false w = some w

  unfoldable pub sent :
      Reads p
      → ClientCommand
      → Client
      → Option (Worker p)
      → Option (Client × Result ClientError (Unit {0}))
  unfolding join_handle
  sent reads command c none = some (c, err closed_channel)
  sent reads update c (some w) = some (record c { tx = some w }, ok tt)
  sent reads shutdown c (some w) = do
    w' ← join_handle reads c.thread_handle w
    some (record c { tx = none; thread_handle = false; past = disconnect p w' ∷ c.past }, ok tt)

  unfoldable pub send_to :
      Reads p
      → ClientCommand
      → Client
      → Option (Worker p)
      → Option (Client × Result ClientError (Unit {0}))
  unfolding sent
  send_to reads command c none = some (c, err not_started)
  send_to reads command c (some w) = sent reads command c (enqueue p command w)

  -- `none` means that the call does not return.
  unfoldable pub send :
      Reads p → ClientCommand → Client → Option (Client × Result ClientError (Unit {0}))
  unfolding send_to
  send reads command c = send_to reads command c c.tx

  -- What `let _ = tx.send(Shutdown)` leaves.
  abbrev pub enqueued : Worker p → Option (Worker p) → Worker p
  enqueued w none = w
  enqueued w (some w') = w'

  unfoldable pub drop_tx : Reads p → Client → Option (Worker p) → Option Client
  unfolding join_handle
  drop_tx reads c none = some (record c { thread_handle = false })
  drop_tx reads c (some w) = do
    w' ← join_handle reads c.thread_handle (enqueued w (enqueue p shutdown w))
    some (record c { tx = none; thread_handle = false; past = disconnect p w' ∷ c.past })

  -- `impl Drop`
  unfoldable pub drop : Reads p → Client → Option Client
  unfolding drop_tx
  drop reads c = drop_tx reads c c.tx
