-- ===== src/Server/Update/Loop.antt =====
-- The lock loop of `update_quotes` in src/quote_server.rs.
use native.Mathlib.Decide.{dec_lt}
use rust_quote_streamer.Base.{
  ℕ, zero, suc, ◌+◌, ◌*◌, ◌≤◌, ◌<◌, ◌≡◌, refl, ◌∙◌, subst, ◌⊎◌, inl, inr, true, false, some, err,
  arith, Bool-cases,
}
use rust_quote_streamer.Text.{Text}
use rust_quote_streamer.Platform.{Platform}
use rust_quote_streamer.Generator.{Draw}
use rust_quote_streamer.Server.State.{QuoteServer}
use rust_quote_streamer.Server.Update.{
  Attempt, timeout, retry_period, update_fuel, timed_out, Rayon, write_quotes, try_update,
  update_quotes,
}

-- `thread::sleep` sleeps at least as long as it is told to.
abbrev pub Sleeps : (ℕ → Attempt) → Type 0
Sleeps attempts = (k : ℕ) → (attempts k).elapsed + retry_period ≤ (attempts (k + 1)).elapsed

-- Each round before the `k`-th was within the timeout and found the lock taken.
abbrev pub BusyBefore : (ℕ → Attempt) → ℕ → Type 0
BusyBefore attempts k =
    (j : ℕ) → j < k → ((attempts j).elapsed < timeout) × ((attempts j).free ≡ false)

module _ (p : Platform) (run : Rayon p) (attempts : ℕ → Attempt) (draws : Text → Draw p)
    (s : QuoteServer p) where
  -- The lock is free in the `k`-th round, within the timeout, and the quotes are written then ...
  abbrev pub Written : ℕ → Type 0
  Written k =
      ((attempts k).elapsed < timeout)
      × ((attempts k).free ≡ true)
      × (update_quotes p run attempts draws s ≡ some (write_quotes p run draws s))

  -- ... or the timeout is over in the `k`-th round, and nothing is changed.
  abbrev pub TimedOut : ℕ → Type 0
  TimedOut k =
      (timeout ≤ (attempts k).elapsed)
      × (update_quotes p run attempts draws s ≡ some (s, err timed_out))

  try_update_done :
      (fuel k : ℕ)
      → timeout ≤ (attempts k).elapsed
      → try_update p run attempts draws (suc fuel) k s ≡ some (s, err timed_out)
  unfolding try_update
  try_update_done fuel k late = ground arith

  try_update_free :
      (fuel k : ℕ)
      → (attempts k).elapsed < timeout
      → (attempts k).free ≡ true
      → try_update p run attempts draws (suc fuel) k s ≡ some (write_quotes p run draws s)
  unfolding try_update
  try_update_free fuel k early free = ground arith

  try_update_busy :
      (fuel k : ℕ)
      → (attempts k).elapsed < timeout
      → (attempts k).free ≡ false
      → try_update p run attempts draws (suc fuel) k s
        ≡ try_update p run attempts draws fuel (k + 1) s
  unfolding try_update
  try_update_busy fuel k early busy = ground arith

  BusyBefore-next :
      (k : ℕ)
      → BusyBefore attempts k
      → (attempts k).elapsed < timeout
      → (attempts k).free ≡ false
      → BusyBefore attempts (k + 1)
  BusyBefore-next k before early busy j lt = elim (dec_lt j k) [
    | yes below ↦ before j below
    | no last ↦
        let e : k ≡ j = omega arith in
        subst (λ i. ((attempts i).elapsed < timeout) × ((attempts i).free ≡ false)) e (early, busy)
  ]

  try_update_lem :
      Sleeps attempts
      → (fuel k : ℕ) → k + fuel ≡ update_fuel
      → k ≤ 100
      → k * retry_period ≤ (attempts k).elapsed
      → BusyBefore attempts k
      → update_quotes p run attempts draws s ≡ try_update p run attempts draws fuel k s
      → (n : ℕ) × (n ≤ 100) × BusyBefore attempts n × (Written n ⊎ TimedOut n)
  try_update_lem sleeps zero k sum few slept before e = absurd (omega arith)
  try_update_lem sleeps (suc fuel) k sum few slept before e =
      elim (dec_lt (attempts k).elapsed timeout) [
        | no late ↦
            (k, omega arith, before, inr (omega arith, e ∙ try_update_done fuel k (omega arith)))
        | yes early ↦ elim (Bool-cases (attempts k).free) [
          | inl free ↦
              (k, omega arith, before, inl (early, free, e ∙ try_update_free fuel k early free))
          | inr busy ↦
              try_update_lem sleeps fuel (k + 1) (omega arith) (omega arith)
                (omega (arith, sleeps k)) (BusyBefore-next k before early busy)
                (e ∙ try_update_busy fuel k early busy)
        ]
      ]

  -- If each sleep takes at least the period it is told, then `update_quotes` returns after at most
  -- 101 rounds. The lock was taken in every round before the last. In the last round either the lock
  -- is free before the timeout and the result is that of writing the quotes, or the timeout is over
  -- and the result is the timeout error with the state unchanged.
  pub update_quotes_lem :
      Sleeps attempts → (n : ℕ) × (n ≤ 100) × BusyBefore attempts n × (Written n ⊎ TimedOut n)
  unfolding update_quotes
  update_quotes_lem sleeps =
      try_update_lem sleeps update_fuel 0 refl (omega arith) (omega arith)
        (λ j lt. absurd (omega arith)) refl
