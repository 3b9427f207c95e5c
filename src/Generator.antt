-- ===== src/Generator.antt =====
-- src/quote_generator.rs: random updates of quotes, made in parallel by `rayon`.
mod Parallel
pub mod Bounds
pub mod Updates
unfoldable pub use Parallel.*
use rust_quote_streamer.Base.{
  ℕ, ◌+◌, ◌^◌, ◌%◌, List, map, Bool, ◌||◌, Result, ok, err, and_then, map_err, ◌==◌, ◌*◌,
  if◌then◌else◌,
}
use rust_quote_streamer.Text.{Text, codes, text_key}
use rust_quote_streamer.Platform.{Platform}
use rust_quote_streamer.Errors.{
  QuoteGeneratorError, invalid_volatility, time_error, from_normal_error,
}
use rust_quote_streamer.StockQuote.{StockQuote, Clock}

module _ (p : Platform) where
  pub record QuoteGenerator : Type 0 where
    pub volatility : p.F64

  unfoldable pub new : p.F64 → Result (QuoteGeneratorError p) QuoteGenerator
  new volatility =
      if p.le volatility (p.literal 0 0) || p.lt (p.literal 1 0) volatility
      then err (invalid_volatility volatility)
      else ok (record { volatility = volatility })

  -- What one update takes from outside: the seeded generator, the value of `rand::random` and the
  -- clock.
  pub record Draw : Type 0 where
    pub rng : p.StdRng
    pub random : p.F64
    pub now : Clock

  unfoldable pub is_heavy : Text → Bool
  is_heavy ticker = ticker == codes "AAPL" || ticker == codes "MSFT" || ticker == codes "TSLA"

  -- The sum of two `u32`.
  unfoldable pub new_volume : Text → p.F64 → ℕ
  unfolding is_heavy
  new_volume ticker random =
      if is_heavy ticker
      then (1000 + p.as_u32 (p.mul random (p.literal 5000 0))) % 2 ^ 32
      else (100 + p.as_u32 (p.mul random (p.literal 1000 0))) % 2 ^ 32

  -- The last of the three assignments can fail; the other two have been made by then.
  unfoldable pub set_timestamp :
      Clock → StockQuote p → Result (QuoteGeneratorError p) (Unit {0}) × StockQuote p
  set_timestamp (ok ms) quote = (ok tt, record quote { timestamp = ms % 2 ^ 64 })
  set_timestamp (err e) quote = (err (time_error e), quote)

  unfoldable pub update_single_quote :
      p.LogNormal → Draw → StockQuote p → Result (QuoteGeneratorError p) (Unit {0}) × StockQuote p
  unfolding set_timestamp
  update_single_quote log_normal draw quote = set_timestamp draw.now (record quote {
    price = p.mul quote.price (p.sample log_normal draw.rng);
    volume = new_volume quote.ticker draw.random;
  })

  -- One call of the closure of `try_for_each`, on a quote with what the call draws.
  unfoldable pub update_item :
      p.LogNormal
      → Draw × StockQuote p
      → Result (QuoteGeneratorError p) (Unit {0}) × (Draw × StockQuote p)
  update_item log_normal (draw, quote) =
      let (result, quote') = update_single_quote log_normal draw quote in (result, (draw, quote'))

  -- `rayon` is an argument.
  unfoldable pub update_all :
      TryForEach (Draw × StockQuote p) (QuoteGeneratorError p)
      → Result p.NormalError p.LogNormal
      → List (Draw × StockQuote p)
      → Result (QuoteGeneratorError p) (Unit {0}) × List (Draw × StockQuote p)
  update_all try_for_each (err e) quotes = (err (from_normal_error p e), quotes)
  update_all try_for_each (ok log_normal) quotes = try_for_each (update_item log_normal) quotes

  unfoldable pub update_quotes :
      TryForEach (Draw × StockQuote p) (QuoteGeneratorError p)
      → QuoteGenerator
      → List (Draw × StockQuote p)
      → Result (QuoteGeneratorError p) (Unit {0}) × List (Draw × StockQuote p)
  unfolding update_all
  update_quotes try_for_each generator quotes =
      update_all try_for_each (p.log_normal (p.literal 0 0) generator.volatility) quotes
