-- ===== src/Server/Config.antt =====
-- `QuoteServer::from_config` of src/quote_server.rs.
pub mod Loaded
use rust_quote_streamer.Base.{
  ℕ, ◌+◌, false, List, [], ◌∷◌, Option, none, Result, ok, err, and_then, map_err, if◌then◌else◌,
}
use rust_quote_streamer.HashMap.{insert}
use rust_quote_streamer.Text.{Text, codes, trim, to_uppercase, is_empty, text_key}
use rust_quote_streamer.Platform.{Platform}
use rust_quote_streamer.Errors.{
  QuoteServerError, invalid_config, initialization_error, QuoteGeneratorError,
}
use rust_quote_streamer.Defs.{volatility}
use rust_quote_streamer.StockQuote
use rust_quote_streamer.StockQuote.{Clock}
use rust_quote_streamer.Generator
use rust_quote_streamer.Generator.{QuoteGenerator}
use rust_quote_streamer.Client.Thread.{Quotes}
use rust_quote_streamer.Server.State.{QuoteServer}

module _ (p : Platform) where
  -- The random number and the clock of the n-th line, from which `StockQuote::new` is made.
  abbrev pub Fresh : Type 0
  Fresh = ℕ → p.F64 × Clock

  unfoldable pub ticker_of : Text → Text
  ticker_of line = to_uppercase p.upper (trim line)

  -- One ticker more, unless the line is blank.
  unfoldable pub add_ticker : Fresh → ℕ → Text → Quotes p × ℕ → Quotes p × ℕ
  add_ticker fresh i ticker (hashmap, ticker_count) =
      if is_empty ticker then (hashmap, ticker_count) else (
        insert ticker (StockQuote.new p (fresh i).0 (fresh i).1 ticker) hashmap,
        ticker_count + 1,
      )

  -- The lines of the file, each as it is read. The first one that cannot be read ends the loop.
  unfoldable pub load :
      Fresh → ℕ → List (Result Text Text) → Quotes p × ℕ → Result QuoteServerError (Quotes p × ℕ)
  unfolding add_ticker ticker_of
  load fresh i [] loaded = ok loaded
  load fresh i (err e ∷ lines) loaded = err (invalid_config e)
  load fresh i (ok line ∷ lines) loaded =
      load fresh (i + 1) lines (add_ticker fresh i (ticker_of line) loaded)

  abbrev pub no_generator : QuoteServerError
  no_generator = initialization_error (codes "Failed to create Quote Generator")

  unfoldable pub initial : Quotes p → QuoteGenerator p → QuoteServer p
  initial quotes generator = record {
    quotes = quotes;
    generator = generator;
    clients = [];
    clients_poisoned = false;
    clients_count = 0;
    bg_thread = none;
    bg_thread_poisoned = false;
    shutdown_flag = false;
    retired = [];
  }

  -- `file` is what `File::open` gives: an error, or the lines.
  unfoldable pub from_config :
      Fresh → Result Text (List (Result Text Text)) → Result QuoteServerError (QuoteServer p)
  unfolding load initial
  from_config fresh file = and_then (map_err invalid_config file) (λ lines.
      and_then (load fresh 0 lines ([], 0)) (λ loaded.
        and_then
          (map_err (λ (e : QuoteGeneratorError p). no_generator) (Generator.new p (volatility p)))
          (λ generator. ok (initial loaded.0 generator))))
