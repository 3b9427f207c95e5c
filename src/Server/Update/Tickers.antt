-- ===== src/Server/Update/Tickers.antt =====
-- The keys of the quotes under `update_quotes` of src/quote_server.rs.
use rust_quote_streamer.Base.{
  ◌≡◌, refl, ap, ◌∙◌, inl, inr, ◌||◌, List, [], ◌∷◌, Result, ok, err, Zip, end, both, ◌==◌,
}
use rust_quote_streamer.HashMap.{contains_key}
use rust_quote_streamer.HashMap.Entries.{Entries}
use rust_quote_streamer.Text.{Text, text_key}
use rust_quote_streamer.Platform.{Platform}
use rust_quote_streamer.StockQuote.{StockQuote}
use rust_quote_streamer.Generator
use rust_quote_streamer.Generator.{
  IsTryForEach, Touched, Draw, QuoteGenerator, update_item, update_all,
}
use rust_quote_streamer.Generator.Updates.{IsKeptOrMoved, Touched-IsKeptOrMoved}
use rust_quote_streamer.Client.Thread.{Quotes}
use rust_quote_streamer.Server.State.{QuoteServer}
use rust_quote_streamer.Server.Update.{Rayon, drawn, write_back, write_quotes}

module _ (p : Platform) where
  abbrev pub SameTicker : Draw p × StockQuote p → Draw p × StockQuote p → Type 0
  SameTicker x y = y.1.ticker ≡ x.1.ticker

  KeptOrMoved-SameTicker :
      (l : p.LogNormal) {xs ys : List (Draw p × StockQuote p)}
      → Zip (IsKeptOrMoved p l) xs ys
      → Zip SameTicker xs ys
  KeptOrMoved-SameTicker l end = end
  KeptOrMoved-SameTicker l (both (inl kept) rest) = both (rw kept) (KeptOrMoved-SameTicker l rest)
  KeptOrMoved-SameTicker l (both (inr moved) rest) =
      both moved.ticker (KeptOrMoved-SameTicker l rest)

  Zip-refl : (xs : List (Draw p × StockQuote p)) → Zip SameTicker xs xs
  Zip-refl [] = end
  Zip-refl (x ∷ xs) = both refl (Zip-refl xs)

  module _ (run : Rayon p) (rayon : IsTryForEach run) where
    update_all-SameTicker :
        (made : Result p.NormalError p.LogNormal) (xs : List (Draw p × StockQuote p))
        → Zip SameTicker xs (update_all p run made xs).1
    unfolding update_all
    update_all-SameTicker (ok l) xs =
        KeptOrMoved-SameTicker l
          (Touched-IsKeptOrMoved p l xs _ (rayon.touched (update_item p l) xs))
    update_all-SameTicker (err e) xs = Zip-refl xs

    update_quotes-SameTicker :
        (g : QuoteGenerator p) (xs : List (Draw p × StockQuote p))
        → Zip SameTicker xs (Generator.update_quotes p run g xs).1
    unfolding Generator.update_quotes
    update_quotes-SameTicker g xs =
        update_all-SameTicker (p.log_normal (p.literal 0 0) g.volatility) xs

  -- Each quote carries its key as ticker.
  abbrev pub CarriesKeys : Quotes p → Type 0
  CarriesKeys = Entries λ ticker (q : StockQuote p). q.ticker ≡ ticker

  pub write_back-contains_key :
      (t : Text) (quotes : Quotes p) (items : List (Draw p × StockQuote p))
      → contains_key t (write_back p quotes items) ≡ contains_key t quotes
  unfolding contains_key write_back
  write_back-contains_key t [] items = refl
  write_back-contains_key t ((ticker, q) ∷ quotes) [] = refl
  write_back-contains_key t ((ticker, q) ∷ quotes) ((d, q') ∷ items) =
      ap (λ b. ticker == t || b) (write_back-contains_key t quotes items)

  write_back-CarriesKeys :
      (draws : Text → Draw p) (quotes : Quotes p) (items : List (Draw p × StockQuote p))
      → Zip SameTicker (drawn p draws quotes) items
      → CarriesKeys quotes
      → CarriesKeys (write_back p quotes items)
  unfolding write_back drawn
  write_back-CarriesKeys draws [] items same h = tt
  write_back-CarriesKeys draws ((ticker, q) ∷ quotes) [] same h = elim same [ ]
  write_back-CarriesKeys draws ((ticker, q) ∷ quotes) ((d, q') ∷ items) (both same rest) (hq, hs) =
      (same ∙ hq, write_back-CarriesKeys draws quotes items rest hs)

  -- Whether the update succeeds or fails half-way, the same keys have quotes afterwards, and each
  -- quote still carries its key as ticker.
  pub write_quotes-CarriesKeys :
      (run : Rayon p)
      → IsTryForEach run
      → (draws : Text → Draw p) (s : QuoteServer p) → CarriesKeys s.quotes
      → ((t : Text)
          → contains_key t (write_quotes p run draws s).0.quotes ≡ contains_key t s.quotes)
        × CarriesKeys (write_quotes p run draws s).0.quotes
  unfolding write_quotes
  write_quotes-CarriesKeys run rayon draws s h = (
    (λ t. write_back-contains_key t s.quotes _),
    write_back-CarriesKeys draws s.quotes _
        (update_quotes-SameTicker run rayon s.generator (drawn p draws s.quotes)) h,
  )
