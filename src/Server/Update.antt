-- ===== src/Server/Update.antt =====
-- `QuoteServer::update_quotes` of src/quote_server.rs: the loop that tries to take the write lock.
pub mod AnyOrder
pub mod Loop
pub mod Moved
pub mod Tickers
use rust_quote_streamer.Base.{
  ℕ, zero, suc, ◌+◌, ◌*◌, Bool, List, [], ◌∷◌, Option, none, some, Result, err, map_err, ltb,
  if◌then◌else◌,
}
use rust_quote_streamer.Text.{Text, codes}
use rust_quote_streamer.Platform.{Platform}
use rust_quote_streamer.Errors.{QuoteServerError, QuoteGeneratorError, update_quote_error}
use rust_quote_streamer.Defs.{write_timeout_ms, quote_update_retry_period_msec}
use rust_quote_streamer.StockQuote.{StockQuote}
use rust_quote_streamer.Generator
use rust_quote_streamer.Generator.{TryForEach, Draw}
use rust_quote_streamer.Client.Thread.{Quotes}
use rust_quote_streamer.Server.State.{QuoteServer}

-- One round of the loop: the time since the start in nanoseconds, and whether `try_write` gives the
-- lock, which it does not while another thread holds it or when it is poisoned.
pub record Attempt : Type 0 where
  pub elapsed : ℕ
  pub free : Bool

abbrev pub timeout : ℕ
timeout = write_timeout_ms * 1000000

abbrev pub retry_period : ℕ
retry_period = quote_update_retry_period_msec * 1000000

-- A round sleeps at least 10 ms, so that the 101st round is past the timeout.
abbrev pub update_fuel : ℕ
update_fuel = 101

abbrev pub timed_out : QuoteServerError
timed_out = update_quote_error (codes "Timeout after 1s")

abbrev pub not_updated : QuoteServerError
not_updated = update_quote_error (codes "Failed to update quotes")

module _ (p : Platform) where
  abbrev pub Rayon : Type 0
  Rayon = TryForEach (Draw p × StockQuote p) (QuoteGeneratorError p)

  -- `values_mut`, each value with what its update draws.
  unfoldable pub drawn : (Text → Draw p) → Quotes p → List (Draw p × StockQuote p)
  drawn draws [] = []
  drawn draws ((ticker, q) ∷ quotes) = (draws ticker, q) ∷ drawn draws quotes

  -- The values are changed in place, under their keys.
  unfoldable pub write_back : Quotes p → List (Draw p × StockQuote p) → Quotes p
  write_back [] items = []
  write_back ((ticker, q) ∷ quotes) [] = (ticker, q) ∷ quotes
  write_back ((ticker, q) ∷ quotes) ((draw, q') ∷ items) = (ticker, q') ∷ write_back quotes items

  -- What is done under the lock.
  unfoldable pub write_quotes :
      Rayon → (Text → Draw p) → QuoteServer p → QuoteServer p × Result QuoteServerError (Unit {0})
  unfolding drawn write_back
  write_quotes run draws s =
      let (result, items) = Generator.update_quotes p run s.generator (drawn draws s.quotes) in
      (
        record s { quotes = write_back s.quotes items },
        map_err (λ (e : QuoteGeneratorError p). not_updated) result,
      )

  -- The rounds from the `k`-th on; `none` means that the fuel has run out.
  unfoldable pub try_update :
      Rayon
      → (ℕ → Attempt)
      → (Text → Draw p)
      → ℕ
      → ℕ
      → QuoteServer p
      → Option (QuoteServer p × Result QuoteServerError (Unit {0}))
  unfolding write_quotes
  try_update run attempts draws zero k s = none
  try_update run attempts draws (suc fuel) k s =
      let retry = try_update run attempts draws fuel (k + 1) s in
      if ltb (attempts k).elapsed timeout
      then if (attempts k).free then some (write_quotes run draws s) else retry
      else some (s, err timed_out)

  unfoldable pub update_quotes :
      Rayon
      → (ℕ → Attempt)
      → (Text → Draw p)
      → QuoteServer p
      → Option (QuoteServer p × Result QuoteServerError (Unit {0}))
  unfolding try_update
  update_quotes run attempts draws s = try_update run attempts draws update_fuel 0 s
