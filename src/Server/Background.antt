-- ===== src/Server/Background.antt =====
-- `start`, `shutdown` and the loop of the background thread: src/quote_server.rs.
pub mod Loop
pub mod Rounds
use rust_quote_streamer.Base.{
  ℕ, zero, suc, ◌+◌, Bool, true, false, List, Option, none, some, ◌>>=◌, Result, ok, err,
  if◌then◌else◌,
}
use rust_quote_streamer.Text.{Text, codes}
use rust_quote_streamer.Platform.{Platform}
use rust_quote_streamer.Errors.{QuoteServerError, initialization_error}
use rust_quote_streamer.Generator.{Draw}
use rust_quote_streamer.Client.Thread.{Reads}
use rust_quote_streamer.Server.State.{
  QuoteServer, Phase, at_test, at_sleep, at_update, at_notify, ended,
}
use rust_quote_streamer.Server.Registry.{notify_clients}
use rust_quote_streamer.Server.Update.{Rayon, Attempt, update_quotes}

module _ (p : Platform) where
  -- What one step of the thread meets outside: the rounds of the lock, what the updates draw, and what
  -- the threads of the clients read.
  pub record Surroundings : Type 0 where
    pub attempts : ℕ → Attempt
    pub draws : Text → Draw p
    pub reads : Reads p

  -- One step of the loop. An error is logged and the loop goes on; `none` means that a call does not
  -- return.
  unfoldable pub background_step :
      Rayon p → Surroundings → QuoteServer p → Phase → Option (QuoteServer p × Phase)
  background_step run world s at_test = some (s, if s.shutdown_flag then ended else at_sleep)
  background_step run world s at_sleep = some (s, at_update)
  background_step run world s at_update = do
    (s', _) ← update_quotes p run world.attempts world.draws s
    some (s', at_notify)
  background_step run world s at_notify = do
    (s', _) ← notify_clients p world.reads s
    some (s', at_test)
  background_step run world s ended = some (s, ended)

  -- A number of steps, each with its surroundings.
  unfoldable pub background_steps :
      Rayon p → (ℕ → Surroundings) → ℕ → ℕ → QuoteServer p → Phase → Option (QuoteServer p × Phase)
  unfolding background_step
  background_steps run worlds zero i s phase = some (s, phase)
  background_steps run worlds (suc n) i s phase = do
    (s', phase') ← background_step run (worlds i) s phase
    background_steps run worlds n (i + 1) s' phase'

  unfoldable pub spawn : QuoteServer p → Option Phase → QuoteServer p
  spawn s none = record s { bg_thread = some at_test }
  spawn s (some running) = s

  unfoldable pub start : QuoteServer p → QuoteServer p × Result QuoteServerError (Unit {0})
  unfolding spawn
  start s =
      if s.bg_thread_poisoned
      then (s, err (initialization_error (codes "poisoned lock: another task failed inside")))
      else (spawn s s.bg_thread, ok tt)

  -- The flag is set, so that the thread ends at its next test: four steps at most.
  abbrev pub steps_to_end : ℕ
  steps_to_end = 4

  unfoldable pub join_background :
      Rayon p
      → (ℕ → Surroundings)
      → QuoteServer p
      → Option Phase
      → Option (QuoteServer p × Option Phase)
  unfolding background_steps
  join_background run worlds s none = some (s, none)
  join_background run worlds s (some phase) = do
    (s', phase') ← background_steps run worlds steps_to_end 0 (record s { bg_thread = none }) phase
    some (s', some phase')

  -- The new state, and where the thread stood when it was joined.
  unfoldable pub shutdown :
      Rayon p → (ℕ → Surroundings) → QuoteServer p → Option (QuoteServer p × Option Phase)
  unfolding join_background
  shutdown run worlds s =
      let s' = record s { shutdown_flag = true } in
      if s.bg_thread_poisoned then some (s', none) else join_background run worlds s' s.bg_thread
