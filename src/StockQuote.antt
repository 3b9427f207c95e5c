-- ===== src/StockQuote.antt =====
-- src/stock_quote.rs: a quote, its text form `ticker|price|volume|timestamp`, and the parser.
pub mod RoundTrip
pub mod Sound
use mathlib.Core.Option
use rust_quote_streamer.Base.{
  ℕ, ◌*◌, ◌-◌, ◌^◌, ◌%◌, List, [], ◌∷◌, ◌++◌, Option, none, some, ◌>>=◌, Result, ok, err,
}
use rust_quote_streamer.Text.{Text, split, to_decimal, parse_uint, as_bytes}
use rust_quote_streamer.Platform.{Platform}

abbrev pub u32_max : ℕ
u32_max = 2 ^ 32 - 1

abbrev pub u64_max : ℕ
u64_max = 2 ^ 64 - 1

-- `SystemTime::now().duration_since(UNIX_EPOCH)`: the milliseconds, or the error of a clock that
-- stands before the epoch.
abbrev pub Clock : Type 0
Clock = Result Text ℕ

module _ (p : Platform) where
  pub record StockQuote : Type 0 where
    pub ticker : Text
    pub price : p.F64
    pub volume : ℕ
    pub timestamp : ℕ

  -- `unwrap_or_default().as_millis() as u64`
  unfoldable pub millis_or_default : Clock → ℕ
  millis_or_default (ok ms) = ms % 2 ^ 64
  millis_or_default (err e) = 0

  -- `random` is the value of `rand::random::<f64>()`.
  unfoldable pub new : p.F64 → Clock → Text → StockQuote
  unfolding millis_or_default
  new random now ticker = record {
    ticker = ticker;
    price = p.mul random (p.literal 1000 0);
    volume = 0;
    timestamp = millis_or_default now;
  }

  unfoldable pub from_parts : List Text → Option StockQuote
  from_parts (ticker ∷ price ∷ volume ∷ timestamp ∷ []) = do
    price ← p.parse_f64 price
    volume ← parse_uint u32_max volume
    timestamp ← parse_uint u64_max timestamp
    some (record { ticker = ticker; price = price; volume = volume; timestamp = timestamp })
  from_parts parts = none

  unfoldable pub from_string : Text → Option StockQuote
  unfolding from_parts
  from_string s = from_parts (split b'|' s)

  -- `impl Display`
  unfoldable pub to_string : StockQuote → Text
  to_string q =
      q.ticker
      ++ b'|'
        ∷ (p.show_f64 q.price ++ b'|' ∷ (to_decimal q.volume ++ b'|' ∷ to_decimal q.timestamp))

  unfoldable pub to_bytes : StockQuote → List ℕ
  to_bytes q =
      ((((([] ++ as_bytes q.ticker) ++ b'|' ∷ []) ++ as_bytes (p.show_f64 q.price)) ++ b'|' ∷ [])
        ++ as_bytes (to_decimal q.volume))
      ++ b'|' ∷ []
      ++ as_bytes (to_decimal q.timestamp)
