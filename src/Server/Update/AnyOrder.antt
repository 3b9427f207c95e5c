-- ===== src/Server/Update/AnyOrder.antt =====
-- `update_quotes` of src/quote_server.rs does not depend on the order of a map.
use rust_quote_streamer.Base.{
  ℕ, ◌≡◌, sym, ap, ◌∙◌, [], ◌∷◌, Option, none, some, Result, ok, map_err, map_err-ok, subst,
}
use rust_quote_streamer.HashMap.{get}
use rust_quote_streamer.HashMap.Entries.{Entries, Entries-get, Entries_mono, IsMap}
use rust_quote_streamer.Text.{Text, text_key}
use rust_quote_streamer.Platform.{Platform}
use rust_quote_streamer.StockQuote.{StockQuote, Clock}
use rust_quote_streamer.Generator
use rust_quote_streamer.Generator.{
  IsTryForEach, Succeeds, Draw, QuoteGenerator, new_volume, set_timestamp, update_single_quote,
  update_item, update_all,
}
use rust_quote_streamer.Client.Thread.{Quotes}
use rust_quote_streamer.Server.State.{QuoteServer}
use rust_quote_streamer.Server.Update.{Rayon, drawn, write_quotes}
use rust_quote_streamer.Server.Update.Moved.{
  updated, Moves, HasMoved, update_all-map_values, write_quotes_ok,
}

module _ (p : Platform) where
  Moves-eq :
      (l : p.LogNormal) (d : Draw p) (before after after' : Option (StockQuote p))
      → Moves p l d before after
      → Moves p l d before after'
      → after ≡ after'
  Moves-eq l d none after after' e e' = e ∙ sym e'
  Moves-eq l d (some q) after after' (ms, clock, e) (ms', clock', e') =
      e ∙ ap (λ n. some (updated p l d n q)) (ok_eq ms ms' (sym clock ∙ clock')) ∙ sym e'
    where
      ok_eq : (a b : ℕ) → ◌≡◌ {A = Clock} (ok a) (ok b) → a ≡ b
      ok_eq a b e = cc

  Entries-Succeeds :
      (l : p.LogNormal) (draws : Text → Draw p) (quotes : Quotes p)
      → Entries (HasMoved p l draws) quotes
      → Succeeds (update_item p l) (drawn p draws quotes)
  unfolding drawn update_item
  Entries-Succeeds l draws [] good = tt
  Entries-Succeeds l draws ((ticker, q) ∷ quotes) (first, good) =
      (first, Entries-Succeeds l draws quotes good)

  -- Every quote of one map is in the other.
  HasMoved-other :
      (l : p.LogNormal) (draws : Text → Draw p) (quotes quotes' : Quotes p)
      → ((t : Text) → get t quotes' ≡ get t quotes)
      → IsMap quotes'
      → Entries (HasMoved p l draws) quotes
      → Entries (HasMoved p l draws) quotes'
  HasMoved-other l draws quotes quotes' same distinct good =
      Entries_mono
        (λ t q found. Entries-get (HasMoved p l draws) t q quotes good (sym (same t) ∙ found))
        quotes' distinct

  module _ (run run' : Rayon p) (rayon : IsTryForEach run) (rayon' : IsTryForEach run') where
    write_quotes_succeeds :
        (draws : Text → Draw p) (s s' : QuoteServer p)
        → s'.generator ≡ s.generator
        → ((t : Text) → get t s'.quotes ≡ get t s.quotes)
        → IsMap s'.quotes
        → (write_quotes p run draws s).1 ≡ ok tt
        → (write_quotes p run' draws s').1 ≡ ok tt
    unfolding write_quotes Generator.update_quotes
    write_quotes_succeeds draws s s' generator same distinct h =
        let made = p.log_normal (p.literal 0 0) s.generator.volatility in
        let (l, e, good, all) =
          update_all-map_values p run rayon made draws s.quotes (map_err-ok _ _ h) in
        let e' =
          ap (λ (g : QuoteGenerator p). p.log_normal (p.literal 0 0) g.volatility) generator ∙ e in
        rw (e', update_all)
          (ap (map_err _) (
            rayon'.no_failure _ _ (
              Entries-Succeeds l draws s'.quotes
                (HasMoved-other l draws s.quotes s'.quotes same distinct good))))

    -- The order in which a map is iterated, and the order in which a `rayon` that keeps its
    -- documentation makes the updates, do not matter to a successful update: if two servers have one
    -- generator and the same quote for each ticker, however the entries are arranged, the second has
    -- no two entries for a ticker, each ticker draws the same in both, and the update succeeds on the
    -- first, then it succeeds on the second, and both have the same quote for each ticker again.
    pub write_quotes_any_order :
        (draws : Text → Draw p) (s s' : QuoteServer p)
        → s'.generator ≡ s.generator
        → ((t : Text) → get t s'.quotes ≡ get t s.quotes)
        → IsMap s'.quotes
        → (write_quotes p run draws s).1 ≡ ok tt
        → ((write_quotes p run' draws s').1 ≡ ok tt)
          × ((t : Text)
              → get t (write_quotes p run' draws s').0.quotes
                ≡ get t (write_quotes p run draws s).0.quotes)
    write_quotes_any_order draws s s' generator same distinct h =
        let generators =
          ap (λ (g : QuoteGenerator p). p.log_normal (p.literal 0 0) g.volatility) generator in
        let h' = write_quotes_succeeds draws s s' generator same distinct h in
        let (l, made, moves) = write_quotes_ok p run rayon draws s h in
        let (l', made', moves') = write_quotes_ok p run' rayon' draws s' h' in
        let one_law : l' ≡ l = made_once l' l (sym made' ∙ generators ∙ made) in
        (
          h',
          λ t.
              Moves-eq l (draws t) (get t s.quotes) _ _
                (subst
                  (λ (x : p.LogNormal × Option (StockQuote p)).
                    Moves p x.0 (draws t) x.1 (get t (write_quotes p run' draws s').0.quotes))
                  (pair_eq one_law (same t)) (moves' t))
                (moves t),
        )
      where
        pair_eq :
            {a b : p.LogNormal} {c d : Option (StockQuote p)}
            → a ≡ b
            → c ≡ d
            → ◌≡◌ {A = p.LogNormal × Option (StockQuote p)} (a, c) (b, d)
        pair_eq e f = cc

        made_once :
            (a b : p.LogNormal) → ◌≡◌ {A = Result p.NormalError p.LogNormal} (ok a) (ok b) → a ≡ b
        made_once a b e = cc
