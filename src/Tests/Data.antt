-- ===== src/Tests/Data.antt =====
-- The theorems on quotes and on their updates at concrete inputs.
use rust_quote_streamer.Base.{◌≡◌, ◌⊎◌, refl, List, [], ◌∷◌, some, ok, err, arith}
use rust_quote_streamer.Text.{codes, text_key}
use rust_quote_streamer.Errors.{time_error}
use rust_quote_streamer.StockQuote.{StockQuote, from_string, to_string}
use rust_quote_streamer.StockQuote.RoundTrip.{from_string-to_string}
use rust_quote_streamer.Generator.{
  Draw, QuoteGenerator, in_order, in_order-IsTryForEach, update_single_quote, update_quotes,
  update_item, new_volume,
}
use rust_quote_streamer.Generator.Updates.{update_quotes_err, DistributionFailed, TimeFailed}
use rust_quote_streamer.Tests.Toy.{toy, toy-PrintsFloats, IsU64, quote}

from_string-to_string_example : from_string toy (to_string toy quote) ≡ some quote
from_string-to_string_example =
    from_string-to_string toy {IsNumber = IsU64} toy-PrintsFloats quote
      (refl, (refl, (refl, (refl, tt)))) (omega arith) (omega arith) (omega arith)

abbrev pub draw : Draw toy
draw = record { rng = 5; random = 500000; now = ok 99 }

half_volume : (update_single_quote toy 3 draw quote).1.volume ≡ 3500
unfolding update_single_quote new_volume
half_volume = refl

abbrev pub generator : QuoteGenerator toy
generator = record { volatility = 82 }

-- The second quote meets a clock that fails.
abbrev bad : List (Draw toy × StockQuote toy)
bad = (draw, quote) ∷ (record draw { now = err (codes "clock") }, quote) ∷ []

update_quotes_err_example :
    DistributionFailed toy in_order in_order-IsTryForEach generator bad (time_error (codes "clock"))
    ⊎ TimeFailed toy in_order in_order-IsTryForEach generator bad (time_error (codes "clock"))
update_quotes_err_example =
    update_quotes_err toy in_order in_order-IsTryForEach generator bad (time_error (codes "clock"))
      (unfold update_quotes update_item update_single_quote in refl)
