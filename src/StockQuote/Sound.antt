-- ===== src/StockQuote/Sound.antt =====
-- What `from_string` of src/stock_quote.rs accepts.
use rust_quote_streamer.Base.{◌≤◌, ◌≡◌, subst, List, [], ◌∷◌, some, arith, All}
use rust_quote_streamer.Text.{Text, Lacks, split, parse_uint, parse_uint-le, All-Lacks-split}
use rust_quote_streamer.Platform.{Platform}
use rust_quote_streamer.StockQuote.{StockQuote, u32_max, u64_max, from_string, from_parts}

module _ (p : Platform) where
  -- The four fields of a text of which a quote was read.
  pub record Fields (parts : List Text) (q : StockQuote p) : Type 0 where
    pub price : Text
    pub volume : Text
    pub timestamp : Text
    pub four : parts ≡ q.ticker ∷ price ∷ volume ∷ timestamp ∷ []
    pub price_read : p.parse_f64 price ≡ some q.price
    pub volume_read : parse_uint u32_max volume ≡ some q.volume
    pub timestamp_read : parse_uint u64_max timestamp ≡ some q.timestamp

  from_parts-Fields :
      (parts : List Text) (q : StockQuote p) → from_parts p parts ≡ some q → Fields parts q
  unfolding from_parts
  from_parts-Fields (a ∷ b ∷ c ∷ d ∷ []) q h = record {
    price = b;
    volume = c;
    timestamp = d;
    four = ground arith;
    price_read = ground arith;
    volume_read = ground arith;
    timestamp_read = ground arith;
  }
  from_parts-Fields _ q h = cc

  -- A quote is read only of a text with exactly four fields between the bars, of which the last three
  -- are read as a float, a `u32` and a `u64`; its ticker holds no bar, and its numbers fit their types.
  from_string_sound :
      (s : Text) (q : StockQuote p)
      → from_string p s ≡ some q
      → Fields (split b'|' s) q
        × Lacks b'|' q.ticker
        × (q.volume ≤ u32_max)
        × (q.timestamp ≤ u64_max)
  unfolding from_string
  from_string_sound s q h =
      let f = from_parts-Fields (split b'|' s) q h in
      (
        f,
        (subst (All (Lacks b'|')) f.four (All-Lacks-split b'|' s)).0,
        parse_uint-le u32_max f.volume f.volume_read,
        parse_uint-le u64_max f.timestamp f.timestamp_read,
      )
