-- ===== src/Generator/Bounds.antt =====
-- The new volume of `update_single_quote` in src/quote_generator.rs.
use rust_quote_streamer.Text.{Text}
use rust_quote_streamer.Platform.{Platform}
use rust_quote_streamer.StockQuote.{StockQuote}
