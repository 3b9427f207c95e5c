-- ===== src/Server/Background/Loop.antt =====
-- `shutdown`, and `start` after it: src/quote_server.rs.
use rust_quote_streamer.Base.{
  ℕ, zero, suc, ◌+◌, ◌≡◌, refl, ap, ◌∙◌, inl, inr, true, false, none, some, Result, ok, err, arith,
  Bool-cases,
}
use rust_quote_streamer.Text.{codes}
use rust_quote_streamer.Platform.{Platform}
use rust_quote_streamer.Errors.{QuoteServerError, update_quote_error}
use rust_quote_streamer.Client.Thread.{Quotes}
use rust_quote_streamer.Server.State.{
  QuoteServer, Phase, at_test, at_sleep, at_update, at_notify, ended,
}
use rust_quote_streamer.Server.Registry.{notify_clients}
use rust_quote_streamer.Server.Registry.Valid.{IsValid, notify_clients_lem}
use rust_quote_streamer.Server.Update.{Rayon, write_quotes, update_quotes, timed_out}
use rust_quote_streamer.Server.Update.Loop.{Sleeps, update_quotes_lem}
use rust_quote_streamer.Server.Background.{Surroundings, background_steps, start, shutdown}

module _ (p : Platform) (run : Rayon p) where
  ended_stays :
      (worlds : ℕ → Surroundings p) (n i : ℕ) (s : QuoteServer p)
      → background_steps p run worlds n i s ended ≡ some (s, ended)
  unfolding background_steps
  ended_stays worlds zero i s = refl
  ended_stays worlds (suc n) i s = ended_stays worlds n (i + 1) s

  stops_at_test :
      (worlds : ℕ → Surroundings p) (n i : ℕ) (s : QuoteServer p)
      → s.shutdown_flag ≡ true
      → background_steps p run worlds (suc n) i s at_test ≡ some (s, ended)
  unfolding background_steps
  stops_at_test worlds n i s flag = ground (arith, ended_stays worlds n (i + 1) s)

  pub update_returns :
      (world : Surroundings p) (s : QuoteServer p)
      → Sleeps world.attempts
      → (quotes : Quotes p) × (r : Result QuoteServerError (Unit {0})) × (update_quotes p run
            world.attempts world.draws s
          ≡ some (record s { quotes = quotes }, r))
  unfolding write_quotes
  update_returns world s sleeps =
      let (n, few, busy, how) = update_quotes_lem p run world.attempts world.draws s sleeps in
      elim how [ inl (early, free, e) ↦ (_, _, e) | inr (late, e) ↦ (s.quotes, err timed_out, e) ]

  -- A state that the loop leads to: valid, and with the flag as before.
  pub record IsAfter (s t : QuoteServer p) : Type 0 where
    pub valid : IsValid p t
    pub flag : t.shutdown_flag ≡ s.shutdown_flag
    pub bg_thread : t.bg_thread ≡ s.bg_thread
    pub open_lock : t.bg_thread_poisoned ≡ s.bg_thread_poisoned
    pub count : t.clients_count ≡ s.clients_count

  pub notify_returns :
      (world : Surroundings p) (s : QuoteServer p)
      → IsValid p s
      → (t : QuoteServer p) × (r : Result QuoteServerError (Unit {0})) × (notify_clients p
            world.reads s
          ≡ some (t, r))
        × IsAfter s t
  notify_returns world s v = elim (Bool-cases s.clients_poisoned) [
    | inl bad ↦ (
      s,
      err (update_quote_error (codes "Failed to lock clients")),
      unfold notify_clients in ground arith,
      record { valid = v; flag = refl; bg_thread = refl; open_lock = refl; count = refl },
    )
    | inr good ↦
        let (t, e, same, valid) = notify_clients_lem p world.reads s v good in
        (
          t,
          ok tt,
          e,
          record {
            valid = valid;
            flag = ap (λ (u : QuoteServer p). u.shutdown_flag) same;
            bg_thread = ap (λ (u : QuoteServer p). u.bg_thread) same;
            open_lock = ap (λ (u : QuoteServer p). u.bg_thread_poisoned) same;
            count = ap (λ (u : QuoteServer p). u.clients_count) same;
          },
        )
  ]

  -- The thread ends from a phase, in a state after `s`, if it makes so many steps.
  abbrev EndsIn : (ℕ → Surroundings p) → ℕ → ℕ → QuoteServer p → Phase → Type 0
  EndsIn worlds n i s phase =
      (t : QuoteServer p) × (background_steps p run worlds n i s phase ≡ some (t, ended))
      × IsAfter s t

  end_from_notify :
      (worlds : ℕ → Surroundings p) (n i : ℕ) (s : QuoteServer p)
      → IsValid p s
      → s.shutdown_flag ≡ true
      → EndsIn worlds (suc (suc n)) i s at_notify
  unfolding background_steps
  end_from_notify worlds n i s v flag =
      let (t, r, e, after) = notify_returns (worlds i) s v in
      (t, rw (e, background_steps) (stops_at_test worlds n (i + 1) t (after.flag ∙ flag)), after)

  end_from_update :
      (worlds : ℕ → Surroundings p) (n i : ℕ) (s : QuoteServer p)
      → ((j : ℕ) → Sleeps (worlds j).attempts)
      → IsValid p s
      → s.shutdown_flag ≡ true
      → EndsIn worlds (suc (suc (suc n))) i s at_update
  unfolding background_steps
  end_from_update worlds n i s sleeps v flag =
      let (quotes, r, e) = update_returns (worlds i) s (sleeps i) in
      let (t, steps, after) =
        end_from_notify worlds n (i + 1) (record s { quotes = quotes })
          (record { registered = v.registered }) flag in
      (
        t,
        rw (e, background_steps) steps,
        record {
          valid = after.valid;
          flag = after.flag;
          bg_thread = after.bg_thread;
          open_lock = after.open_lock;
          count = after.count;
        },
      )

  end_from :
      (worlds : ℕ → Surroundings p) (i : ℕ) (s : QuoteServer p) (phase : Phase)
      → ((j : ℕ) → Sleeps (worlds j).attempts)
      → IsValid p s
      → s.shutdown_flag ≡ true
      → EndsIn worlds 4 i s phase
  unfolding background_steps
  end_from worlds i s at_test sleeps v flag = (
    s,
    stops_at_test worlds 3 i s flag,
    record { valid = v; flag = refl; bg_thread = refl; open_lock = refl; count = refl },
  )
  end_from worlds i s at_sleep sleeps v flag = end_from_update worlds 0 (i + 1) s sleeps v flag
  end_from worlds i s at_update sleeps v flag = end_from_update worlds 1 i s sleeps v flag
  end_from worlds i s at_notify sleeps v flag = end_from_notify worlds 2 i s v flag
  end_from worlds i s ended sleeps v flag = (
    s,
    ended_stays worlds 4 i s,
    record { valid = v; flag = refl; bg_thread = refl; open_lock = refl; count = refl },
  )

  -- If each sleep of the lock loop takes at least its period, then `shutdown` of a valid server whose
  -- background thread stands anywhere in its loop returns: the thread has ended, the flag is set, the
  -- handle is gone, and the server is valid with the same count of clients.
  pub shutdown_lem :
      (worlds : ℕ → Surroundings p) (s : QuoteServer p) (phase : Phase)
      → ((j : ℕ) → Sleeps (worlds j).attempts)
      → IsValid p s
      → s.bg_thread_poisoned ≡ false
      → s.bg_thread ≡ some phase
      → (t : QuoteServer p) × (shutdown p run worlds s ≡ some (t, some ended))
        × (t.shutdown_flag ≡ true)
        × (t.bg_thread ≡ none)
        × (t.clients_count ≡ s.clients_count)
        × IsValid p t
  unfolding shutdown
  shutdown_lem worlds s phase sleeps v open_lock there =
      let (t, steps, after) =
        end_from worlds 0 (record s { shutdown_flag = true; bg_thread = none }) phase sleeps
          (record { registered = v.registered }) refl in
      (t, ground (arith, steps), after.flag, after.bg_thread, after.count, after.valid)

  -- A call of `start` after a `shutdown` returns `Ok` and makes a new thread, but that thread ends at
  -- its first test: if each sleep of the lock loop takes at least its period, then from a valid
  -- server whose background thread stands anywhere in its loop, `shutdown` returns, `start` puts a
  -- thread at its test into the state that is left, and however many steps that thread makes, it has
  -- ended, and the state is as `start` left it: no quote is updated and no client notified any more.
  pub start_after_shutdown :
      (worlds : ℕ → Surroundings p) (n i : ℕ) (s : QuoteServer p) (phase : Phase)
      → ((j : ℕ) → Sleeps (worlds j).attempts)
      → IsValid p s
      → s.bg_thread_poisoned ≡ false
      → s.bg_thread ≡ some phase
      → (t u : QuoteServer p) × (shutdown p run worlds s ≡ some (t, some ended))
        × (start p t ≡ (u, ok tt))
        × (u.bg_thread ≡ some at_test)
        × (background_steps p run worlds (suc n) i u at_test ≡ some (u, ended))
  unfolding shutdown start
  start_after_shutdown worlds n i s phase sleeps v open_lock there =
      let (t, steps, after) =
        end_from worlds 0 (record s { shutdown_flag = true; bg_thread = none }) phase sleeps
          (record { registered = v.registered }) refl in
      (
        t,
        record t { bg_thread = some at_test },
        ground (arith, steps),
        ground (arith, after.bg_thread, after.open_lock),
        refl,
        stops_at_test worlds n i (record t { bg_thread = some at_test }) after.flag,
      )
