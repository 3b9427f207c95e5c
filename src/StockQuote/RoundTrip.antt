-- ===== src/StockQuote/RoundTrip.antt =====
-- The text form of a quote against its parser and its bytes: src/stock_quote.rs.
use rust_quote_streamer.Base.{ℕ, ◌≤◌, ◌≡◌, refl, [], ◌∷◌, some, arith, append_assoc}
use rust_quote_streamer.Text.{
  Text, Lacks, split, split-append, split-Lacks, to_decimal, to_decimal-IsDigits, IsDigits,
  parse_uint-to_decimal, as_bytes, as_bytes-append, utf8_char,
}
use rust_quote_streamer.Platform.{Platform, PrintsFloats}
use rust_quote_streamer.StockQuote.{
  StockQuote, u32_max, u64_max, from_string, from_parts, to_string, to_bytes,
}

IsDigits-Lacks : (s : Text) → IsDigits s → Lacks b'|' s
IsDigits-Lacks [] h = tt
IsDigits-Lacks (c ∷ s) (hc, hs) = (ground arith, IsDigits-Lacks s hs)

pub to_decimal-Lacks : (n : ℕ) → Lacks b'|' (to_decimal n)
to_decimal-Lacks n = IsDigits-Lacks (to_decimal n) (to_decimal-IsDigits n)

module _ (p : Platform) {IsNumber : p.F64 → Type 0} (floats : PrintsFloats p IsNumber) where
  open floats use {no_bar, reads_back}

  split-to_string :
      (q : StockQuote p)
      → Lacks b'|' q.ticker
      → split b'|' (to_string p q)
        ≡ q.ticker ∷ p.show_f64 q.price ∷ to_decimal q.volume ∷ to_decimal q.timestamp ∷ []
  unfolding to_string
  split-to_string q h = rw (
    split-append b'|' q.ticker _ h,
    split-append b'|' _ _ (no_bar q.price),
    split-append b'|' _ _ (to_decimal-Lacks q.volume),
    split-Lacks b'|' _ (to_decimal-Lacks q.timestamp),
  )

  -- A quote is read back from its text form, if the ticker holds no `|`, the price is a number, and
  -- the volume and the timestamp fit their types.
  pub from_string-to_string :
      (q : StockQuote p)
      → Lacks b'|' q.ticker
      → IsNumber q.price
      → q.volume ≤ u32_max
      → q.timestamp ≤ u64_max
      → from_string p (to_string p q) ≡ some q
  unfolding from_string
  from_string-to_string q no_sep number fits_volume fits_timestamp = rw (
    split-to_string q no_sep,
    from_parts,
    reads_back q.price number,
    parse_uint-to_decimal u32_max q.volume fits_volume,
    parse_uint-to_decimal u64_max q.timestamp fits_timestamp,
  )

-- What is sent as bytes is the UTF-8 encoding of the text form.
to_bytes-to_string : (p : Platform) (q : StockQuote p) → to_bytes p q ≡ as_bytes (to_string p q)
unfolding to_bytes to_string
to_bytes-to_string p q = simp (as_bytes-append, append_assoc, bar)
  where
    bar : (s : Text) → as_bytes (b'|' ∷ s) ≡ b'|' ∷ as_bytes s
    bar s = unfold as_bytes utf8_char in refl
