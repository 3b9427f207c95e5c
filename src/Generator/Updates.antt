-- ===== src/Generator/Updates.antt =====
-- What `update_quotes` of src/quote_generator.rs does to the quotes, with either result.
use rust_quote_streamer.Base.{
  ℕ, ◌%◌, ◌^◌, ◌≡◌, refl, ◌⊎◌, inl, inr, List, [], ◌∷◌, map, Result, ok, err, arith, Zip, end, both,
}
use rust_quote_streamer.Text.{Text}
use rust_quote_streamer.Platform.{Platform}
use rust_quote_streamer.Errors.{
  QuoteGeneratorError, time_error, distribution_error, from_normal_error,
}
use rust_quote_streamer.StockQuote.{StockQuote, Clock}
use rust_quote_streamer.Generator.{
  TryForEach, IsTryForEach, Touched, Succeeds, FailsWith, Draw, QuoteGenerator, new_volume,
  set_timestamp, update_single_quote, update_item, update_all, update_quotes,
}

module _ (p : Platform) where
  -- The quote `r` is `q` with a price and a volume drawn by `d`.
  pub record IsMoved (l : p.LogNormal) (d : Draw p) (q r : StockQuote p) : Type 0 where
    pub ticker : r.ticker ≡ q.ticker
    pub price : r.price ≡ p.mul q.price (p.sample l d.rng)
    pub volume : r.volume ≡ new_volume p q.ticker d.random

  -- So, and its time is that of the clock, in 64 bits.
  pub record IsUpdated (l : p.LogNormal) (x y : Draw p × StockQuote p) : Type 0 where
    pub moved : IsMoved l x.0 x.1 y.1
    pub ms : ℕ
    pub clock : x.0.now ≡ ok ms
    pub timestamp : y.1.timestamp ≡ ms % 2 ^ 64

  set_timestamp-IsMoved :
      (l : p.LogNormal) (d : Draw p) (q r : StockQuote p) (now : Clock)
      → IsMoved l d q r
      → IsMoved l d q (set_timestamp p now r).1
  unfolding set_timestamp
  set_timestamp-IsMoved l d q r (ok ms) m = record {
    ticker = m.ticker;
    price = m.price;
    volume = m.volume;
  }
  set_timestamp-IsMoved l d q r (err e) m = m

  update_item-IsMoved :
      (l : p.LogNormal) (x : Draw p × StockQuote p) → IsMoved l x.0 x.1 (update_item p l x).1.1
  unfolding update_item update_single_quote
  update_item-IsMoved l (d, q) =
      set_timestamp-IsMoved l d q _ d.now (record { ticker = refl; price = refl; volume = refl })

  set_timestamp_ok :
      (now : Clock) (q : StockQuote p)
      → (set_timestamp p now q).0 ≡ ok tt
      → (ms : ℕ) × (now ≡ ok ms) × ((set_timestamp p now q).1.timestamp ≡ ms % 2 ^ 64)
  unfolding set_timestamp
  set_timestamp_ok (ok ms) q h = (ms, refl, refl)
  set_timestamp_ok (err e) q h = cc

  update_item-IsUpdated :
      (l : p.LogNormal) (x : Draw p × StockQuote p)
      → (update_item p l x).0 ≡ ok tt
      → IsUpdated l x (update_item p l x).1
  unfolding update_item update_single_quote
  update_item-IsUpdated l (d, q) h =
      let (ms, clock, timestamp) = set_timestamp_ok d.now _ h in
      record {
        moved = unfold update_item in update_item-IsMoved l (d, q);
        ms = ms;
        clock = clock;
        timestamp = timestamp;
      }

  map-IsUpdated :
      (l : p.LogNormal) (xs : List (Draw p × StockQuote p))
      → Succeeds (update_item p l) xs
      → Zip (IsUpdated l) xs (map (λ x. (update_item p l x).1) xs)
  map-IsUpdated l [] h = end
  map-IsUpdated l (x ∷ xs) (hx, hxs) = both (update_item-IsUpdated l x hx) (map-IsUpdated l xs hxs)

  -- A quote is as before, or has moved: the two outcomes when an update fails half-way.
  abbrev pub IsKeptOrMoved : p.LogNormal → Draw p × StockQuote p → Draw p × StockQuote p → Type 0
  IsKeptOrMoved l x y = (y ≡ x) ⊎ IsMoved l x.0 x.1 y.1

  pub Touched-IsKeptOrMoved :
      (l : p.LogNormal) (xs ys : List (Draw p × StockQuote p))
      → Touched (update_item p l) xs ys
      → Zip (IsKeptOrMoved l) xs ys
  Touched-IsKeptOrMoved l [] [] h = end
  Touched-IsKeptOrMoved l [] (y ∷ ys) h = absurd h
  Touched-IsKeptOrMoved l (x ∷ xs) [] h = absurd h
  Touched-IsKeptOrMoved l (x ∷ xs) (y ∷ ys) (inl kept, rest) =
      both (inl kept) (Touched-IsKeptOrMoved l xs ys rest)
  Touched-IsKeptOrMoved l (x ∷ xs) (y ∷ ys) (inr done, rest) =
      both (inr (rw done (update_item-IsMoved l x))) (Touched-IsKeptOrMoved l xs ys rest)

  -- The clock of one of the draws failed with the error.
  abbrev pub ClockFailed : QuoteGeneratorError p → List (Draw p × StockQuote p) → Type 0
  ClockFailed e [] = ⊥
  ClockFailed e (x ∷ xs) = ((t : Text) × (x.0.now ≡ err t) × (e ≡ time_error t)) ⊎ ClockFailed e xs

  set_timestamp_err :
      (now : Clock) (q : StockQuote p) (e : QuoteGeneratorError p)
      → (set_timestamp p now q).0 ≡ err e
      → (t : Text) × (now ≡ err t) × (e ≡ time_error t)
  unfolding set_timestamp
  set_timestamp_err (ok ms) q e h = cc
  set_timestamp_err (err t) q e h = (t, refl, ground arith)

  FailsWith-ClockFailed :
      (l : p.LogNormal) (xs : List (Draw p × StockQuote p)) (e : QuoteGeneratorError p)
      → FailsWith (update_item p l) e xs
      → ClockFailed e xs
  unfolding update_item update_single_quote
  FailsWith-ClockFailed l [] e h = absurd h
  FailsWith-ClockFailed l ((d, q) ∷ xs) e (inl h) = inl (set_timestamp_err d.now _ e h)
  FailsWith-ClockFailed l (x ∷ xs) e (inr h) = inr (FailsWith-ClockFailed l xs e h)

  module _ (run : TryForEach (Draw p × StockQuote p) (QuoteGeneratorError p))
      (rayon : IsTryForEach run) where
    open rayon use {touched, complete, failure}

    update_all_ok :
        (made : Result p.NormalError p.LogNormal) (xs : List (Draw p × StockQuote p))
        → (update_all p run made xs).0 ≡ ok tt
        → (l : p.LogNormal) × (made ≡ ok l) × Zip (IsUpdated l) xs (update_all p run made xs).1
    unfolding update_all
    update_all_ok (ok l) xs h =
        let (good, all) = complete (update_item p l) xs h in
        (l, refl, rw all (map-IsUpdated l xs good))
    update_all_ok (err e) xs h = cc

    -- If the update of all quotes succeeds, then the distribution could be made and every quote has
    -- its price multiplied by its own sample, a new volume and the time of the clock, and keeps its
    -- ticker; no quote is lost or added.
    update_quotes_ok :
        (g : QuoteGenerator p) (xs : List (Draw p × StockQuote p))
        → (update_quotes p run g xs).0 ≡ ok tt
        → (l : p.LogNormal) × (p.log_normal (p.literal 0 0) g.volatility ≡ ok l)
          × Zip (IsUpdated l) xs (update_quotes p run g xs).1
    unfolding update_quotes
    update_quotes_ok g xs h = update_all_ok (p.log_normal (p.literal 0 0) g.volatility) xs h

    -- How an update fails: the distribution could not be made, and no quote has changed ...
    abbrev pub DistributionFailed :
        QuoteGenerator p → List (Draw p × StockQuote p) → QuoteGeneratorError p → Type 0
    DistributionFailed g xs e =
        (n : p.NormalError) × (p.log_normal (p.literal 0 0) g.volatility ≡ err n)
        × (e ≡ distribution_error n)
        × ((update_quotes p run g xs).1 ≡ xs)

    -- ... or a clock failed, and each quote is as before or has moved.
    abbrev pub TimeFailed :
        QuoteGenerator p → List (Draw p × StockQuote p) → QuoteGeneratorError p → Type 0
    TimeFailed g xs e =
        (l : p.LogNormal) × (p.log_normal (p.literal 0 0) g.volatility ≡ ok l)
        × ClockFailed e xs
        × Zip (IsKeptOrMoved l) xs (update_quotes p run g xs).1

    -- If the update fails with an error, then either the distribution could not be made, the error
    -- says so, and no quote has changed; or the clock failed for one of the quotes, the error is that
    -- of the clock, and each quote either is as before or has a new price and volume and its old
    -- ticker.
    pub update_quotes_err :
        (g : QuoteGenerator p) (xs : List (Draw p × StockQuote p)) (e : QuoteGeneratorError p)
        → (update_quotes p run g xs).0 ≡ err e
        → DistributionFailed g xs e ⊎ TimeFailed g xs e
    unfolding update_quotes update_all from_normal_error
    update_quotes_err g xs e h = go (p.log_normal (p.literal 0 0) g.volatility) refl h
      where
        go :
            (made : Result p.NormalError p.LogNormal)
            → p.log_normal (p.literal 0 0) g.volatility ≡ made
            → (update_all p run made xs).0 ≡ err e
            → DistributionFailed g xs e ⊎ TimeFailed g xs e
        go (ok l) m k = inr (
          l,
          m,
          FailsWith-ClockFailed l xs e (failure _ xs e k),
          rw (m, update_all) (Touched-IsKeptOrMoved l xs _ (touched _ xs)),
        )
        go (err n) m k = inl (n, m, ground arith, rw (m, update_all))
