-- ===== src/Server/Background/Rounds.antt =====
-- Any number of rounds of the background thread: src/quote_server.rs, the loop in `start`.
use rust_quote_streamer.Base.{
  ℕ, zero, suc, ◌+◌, ◌≡◌, refl, ap, ◌∙◌, false, List, some, Result, ok, arith,
}
use rust_quote_streamer.HashMap.{map_values}
use rust_quote_streamer.Platform.{Platform}
use rust_quote_streamer.Errors.{QuoteServerError}
use rust_quote_streamer.Client.{Client}
use rust_quote_streamer.Server.State.{QuoteServer, at_test}
use rust_quote_streamer.Server.Registry.{notify_clients}
use rust_quote_streamer.Server.Registry.Valid.{IsValid, told, notify_clients_lem}
use rust_quote_streamer.Server.Update.{Rayon, update_quotes}
use rust_quote_streamer.Server.Update.Loop.{Sleeps}
use rust_quote_streamer.Server.Background.{Surroundings, background_steps}
use rust_quote_streamer.Server.Background.Loop.{update_returns}

-- The steps of a number of rounds: four for each.
abbrev pub steps_of : ℕ → ℕ
steps_of zero = 0
steps_of (suc n) = suc (suc (suc (suc (steps_of n))))

module _ (p : Platform) (run : Rayon p) where
  round_steps :
      (worlds : ℕ → Surroundings p) (m i : ℕ) (s t u : QuoteServer p)
      (updated notified : Result QuoteServerError (Unit {0}))
      → s.shutdown_flag ≡ false
      → update_quotes p run (worlds (i + 1 + 1)).attempts (worlds (i + 1 + 1)).draws s
        ≡ some (t, updated)
      → notify_clients p (worlds (i + 1 + 1 + 1)).reads t ≡ some (u, notified)
      → background_steps p run worlds (suc (suc (suc (suc m)))) i s at_test
        ≡ background_steps p run worlds m (i + 1 + 1 + 1 + 1) u at_test
  unfolding background_steps
  round_steps worlds m i s t u updated notified flag e f = ground arith

  -- The clients after a number of notifications: each running thread has so many `Update`s more at the
  -- end of its channel.
  abbrev pub told_times : ℕ → List (ℕ × Client p) → List (ℕ × Client p)
  told_times zero clients = clients
  told_times (suc n) clients = told_times n (map_values (λ _ c. told p c) clients)

  -- Where a number of rounds lead.
  pub record IsRounded (n : ℕ) (s t : QuoteServer p) : Type 0 where
    pub valid : IsValid p t
    pub clients : t.clients ≡ told_times n s.clients
    pub count : t.clients_count ≡ s.clients_count
    pub flag : t.shutdown_flag ≡ false

  -- While the shutdown flag is not set, the background thread makes round after round, whatever its
  -- calls return: on a valid server whose lock of the clients is not poisoned, if each sleep of the
  -- lock loop takes at least its period, `n` rounds lead back to the test of the flag, the server is
  -- valid with the same count of clients, and each client is where it was, with `n` `Update`s more at
  -- the end of its channel if its thread runs.
  pub background_rounds :
      (worlds : ℕ → Surroundings p) (n i : ℕ) (s : QuoteServer p)
      → ((j : ℕ) → Sleeps (worlds j).attempts)
      → IsValid p s
      → s.clients_poisoned ≡ false
      → s.shutdown_flag ≡ false
      → (t : QuoteServer p) × (background_steps p run worlds (steps_of n) i s at_test
          ≡ some (t, at_test))
        × IsRounded n s t
  unfolding background_steps
  background_rounds worlds zero i s sleeps v lock flag =
      (s, refl, record { valid = v; clients = refl; count = refl; flag = flag })
  background_rounds worlds (suc n) i s sleeps v lock flag =
      let (quotes, r, e) = update_returns p run (worlds (i + 1 + 1)) s (sleeps (i + 1 + 1)) in
      let (u, f, same, valid) =
        notify_clients_lem p (worlds (i + 1 + 1 + 1)).reads (record s { quotes = quotes })
          (record { registered = v.registered }) lock in
      let (t, steps, done) =
        background_rounds worlds n (i + 1 + 1 + 1 + 1) u sleeps valid
          (ap (λ (x : QuoteServer p). x.clients_poisoned) same ∙ lock)
          (ap (λ (x : QuoteServer p). x.shutdown_flag) same ∙ flag) in
      (
        t,
        round_steps worlds (steps_of n) i s (record s { quotes = quotes }) u r (ok tt) flag e f
            ∙ steps,
        record {
          valid = done.valid;
          clients = done.clients ∙ ap (λ (x : QuoteServer p). told_times n x.clients) same;
          count = done.count ∙ ap (λ (x : QuoteServer p). x.clients_count) same;
          flag = done.flag;
        },
      )
