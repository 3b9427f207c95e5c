-- ===== src/Server/Update/Moved.antt =====
-- Each quote under `update_quotes` of src/quote_server.rs, in whatever order `rayon` takes the quotes.
use mathlib.Core.Option
use rust_quote_streamer.Base.{
  ℕ, ◌%◌, ◌^◌, ◌≡◌, refl, sym, ap, ◌∙◌, [], ◌∷◌, map, Option, none, some, Result, ok, err,
  map_err-ok, Option-cases, inl, inr, subst,
}
use rust_quote_streamer.HashMap.{get, map_values, get-map_values}
use rust_quote_streamer.HashMap.Entries.{Entries, Entries-get}
use rust_quote_streamer.Text.{Text, text_key}
use rust_quote_streamer.Platform.{Platform}
use rust_quote_streamer.StockQuote.{StockQuote, Clock}
use rust_quote_streamer.Generator
use rust_quote_streamer.Generator.{
  IsTryForEach, Succeeds, Draw, QuoteGenerator, new_volume, set_timestamp, update_single_quote,
  update_item, update_all,
}
use rust_quote_streamer.Client.Thread.{Quotes}
use rust_quote_streamer.Server.State.{QuoteServer}
use rust_quote_streamer.Server.Update.{Rayon, drawn, write_back, write_quotes}

module _ (p : Platform) where
  -- The quote that an update makes of `q` with the draw `d` at the time `ms`.
  abbrev pub updated : p.LogNormal → Draw p → ℕ → StockQuote p → StockQuote p
  updated l d ms q = record {
    ticker = q.ticker;
    price = p.mul q.price (p.sample l d.rng);
    volume = new_volume p q.ticker d.random;
    timestamp = ms % 2 ^ 64;
  }

  -- What becomes of the quote of a ticker: no quote stays none, and a quote is updated.
  abbrev pub Moves : p.LogNormal → Draw p → Option (StockQuote p) → Option (StockQuote p) → Type 0
  Moves l d none after = after ≡ none
  Moves l d (some q) after = (ms : ℕ) × (d.now ≡ ok ms) × (after ≡ some (updated l d ms q))

  abbrev moved : p.LogNormal → (Text → Draw p) → Text → StockQuote p → StockQuote p
  moved l draws ticker q = (update_single_quote p l (draws ticker) q).1

  write_back-map :
      (l : p.LogNormal) (draws : Text → Draw p) (quotes : Quotes p)
      → write_back p quotes (map (λ x. (update_item p l x).1) (drawn p draws quotes))
        ≡ map_values (moved l draws) quotes
  unfolding write_back drawn map_values update_item
  write_back-map l draws [] = refl
  write_back-map l draws ((ticker, q) ∷ quotes) =
      ap (λ m. (ticker, moved l draws ticker q) ∷ m) (write_back-map l draws quotes)

  -- The update of the quote does not fail.
  abbrev pub HasMoved : p.LogNormal → (Text → Draw p) → Text → StockQuote p → Type 0
  HasMoved l draws ticker q = (update_single_quote p l (draws ticker) q).0 ≡ ok tt

  Succeeds-Entries :
      (l : p.LogNormal) (draws : Text → Draw p) (quotes : Quotes p)
      → Succeeds (update_item p l) (drawn p draws quotes)
      → Entries (HasMoved l draws) quotes
  unfolding drawn update_item
  Succeeds-Entries l draws [] good = tt
  Succeeds-Entries l draws ((ticker, q) ∷ quotes) (first, good) =
      (first, Succeeds-Entries l draws quotes good)

  set_timestamp-eq :
      (now : Clock) (q : StockQuote p)
      → (set_timestamp p now q).0 ≡ ok tt
      → (ms : ℕ) × (now ≡ ok ms)
        × ((set_timestamp p now q).1 ≡ record q { timestamp = ms % 2 ^ 64 })
  unfolding set_timestamp
  set_timestamp-eq (ok ms) q h = (ms, refl, refl)
  set_timestamp-eq (err e) q h = cc

  update_single_quote-updated :
      (l : p.LogNormal) (d : Draw p) (q : StockQuote p)
      → (update_single_quote p l d q).0 ≡ ok tt
      → (ms : ℕ) × (d.now ≡ ok ms) × ((update_single_quote p l d q).1 ≡ updated l d ms q)
  unfolding update_single_quote
  update_single_quote-updated l d q h = set_timestamp-eq d.now _ h

  moved-Moves :
      (l : p.LogNormal) (draws : Text → Draw p) (quotes : Quotes p) (t : Text)
      → Entries (HasMoved l draws) quotes
      → Moves l (draws t) (get t quotes) (Option.map (moved l draws t) (get t quotes))
  moved-Moves l draws quotes t good = elim (Option-cases (get t quotes)) [
    | inl e ↦ rw e refl
    | inr (q, e) ↦
        let (ms, clock, same) =
          update_single_quote-updated l (draws t) q
            (Entries-get (HasMoved l draws) t q quotes good e) in
        rw e (ms, clock, ap some same)
  ]

  module _ (run : Rayon p) (rayon : IsTryForEach run) where
    pub update_all-map_values :
        (made : Result p.NormalError p.LogNormal) (draws : Text → Draw p) (quotes : Quotes p)
        → (update_all p run made (drawn p draws quotes)).0 ≡ ok tt
        → (l : p.LogNormal) × (made ≡ ok l)
          × Entries (HasMoved l draws) quotes
          × (write_back p quotes (update_all p run made (drawn p draws quotes)).1
              ≡ map_values (moved l draws) quotes)
    unfolding update_all
    update_all-map_values (ok l) draws quotes h =
        let (good, all) = rayon.complete (update_item p l) (drawn p draws quotes) h in
        (
          l,
          refl,
          Succeeds-Entries l draws quotes good,
          ap (write_back p quotes) all ∙ write_back-map l draws quotes,
        )
    update_all-map_values (err e) draws quotes h = cc

    -- Whatever order a `rayon` that keeps its documentation takes the quotes in: if the update
    -- succeeds, then the distribution could be made; a ticker without a quote has none afterwards; and
    -- the quote of each other ticker keeps its ticker, has its price multiplied by its own sample, a
    -- new volume, and the time of its clock, which did not fail, in 64 bits.
    pub write_quotes_ok :
        (draws : Text → Draw p) (s : QuoteServer p)
        → (write_quotes p run draws s).1 ≡ ok tt
        → (l : p.LogNormal) × (p.log_normal (p.literal 0 0) s.generator.volatility ≡ ok l)
          × ((t : Text)
              → Moves l (draws t) (get t s.quotes) (get t (write_quotes p run draws s).0.quotes))
    unfolding write_quotes Generator.update_quotes
    write_quotes_ok draws s h =
        let (l, made, good, all) =
          update_all-map_values (p.log_normal (p.literal 0 0) s.generator.volatility) draws s.quotes
            (map_err-ok _ _ h) in
        (
          l,
          made,
          λ t.
              subst (Moves l (draws t) (get t s.quotes))
                (sym (ap (get t) all ∙ get-map_values (moved l draws) t s.quotes))
                (moved-Moves l draws s.quotes t good),
        )
