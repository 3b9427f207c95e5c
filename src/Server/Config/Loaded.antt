-- ===== src/Server/Config/Loaded.antt =====
-- Which quotes a configuration gives: `from_config` of src/quote_server.rs.
use rust_quote_streamer.Base.{
  ℕ, ◌+◌, ◌≡◌, refl, ap, ◌∙◌, Bool, false, ◌||◌, List, [], ◌∷◌, ◌++◌, none, Result, ok, err, arith,
  inl, inr, Bool-cases, if◌then◌else◌, ◌==◌,
}
use rust_quote_streamer.HashMap.{contains_key, contains_key-insert}
use rust_quote_streamer.HashMap.Entries.{Entries, Entries-insert}
use rust_quote_streamer.Text.{Text, is_empty, text_key, trim, to_uppercase}
use rust_quote_streamer.Platform.{Platform}
use rust_quote_streamer.Errors.{invalid_config}
use rust_quote_streamer.Defs.{volatility}
use rust_quote_streamer.StockQuote
use rust_quote_streamer.StockQuote.{StockQuote}
use rust_quote_streamer.Generator
use rust_quote_streamer.Generator.{QuoteGenerator}
use rust_quote_streamer.Client.Thread.{Quotes}
use rust_quote_streamer.Server.State.{QuoteServer}
use rust_quote_streamer.Server.Config.{Fresh, ticker_of, add_ticker, load, initial, from_config}
use rust_quote_streamer.Server.Registry.Valid.{IsValid}

module _ (p : Platform) where
  -- The trimmed line in upper case.
  abbrev pub upper_cased : Text → Text
  upper_cased line = to_uppercase p.upper (trim line)

  -- One of the lines is not blank and gives the ticker.
  abbrev pub names : List Text → Text → Bool
  names [] ticker = false
  names (line ∷ lines) ticker =
      (if is_empty (upper_cased line) then false else upper_cased line == ticker)
      || names lines ticker

  -- A quote as the configuration makes it: it carries its key, and no volume.
  abbrev pub IsInitial : Text → StockQuote p → Type 0
  IsInitial ticker q = (q.ticker ≡ ticker) × (q.volume ≡ 0)

  -- The lines up to the first that cannot be read.
  abbrev pub all_read : List Text → List (Result Text Text)
  all_read [] = []
  all_read (line ∷ lines) = ok line ∷ all_read lines

  add_ticker-contains_key :
      (fresh : Fresh p) (i : ℕ) (t ticker : Text) (loaded : Quotes p × ℕ)
      → contains_key ticker (add_ticker p fresh i t loaded).0
        ≡ ((if is_empty t then false else t == ticker) || contains_key ticker loaded.0)
  unfolding add_ticker
  add_ticker-contains_key fresh i t ticker (m, n) = elim (Bool-cases (is_empty t)) [
    | inl blank ↦ rw blank
    | inr full ↦ rw full (contains_key-insert t ticker _ m)
  ]

  add_ticker-IsInitial :
      (fresh : Fresh p) (i : ℕ) (t : Text) (loaded : Quotes p × ℕ)
      → Entries IsInitial loaded.0
      → Entries IsInitial (add_ticker p fresh i t loaded).0
  unfolding add_ticker StockQuote.new
  add_ticker-IsInitial fresh i t (m, n) h = elim (Bool-cases (is_empty t)) [
    | inl blank ↦ rw blank h
    | inr full ↦ rw full (Entries-insert IsInitial t _ m (refl, refl) h)
  ]

  -- What `load` has made of lines that can all be read.
  pub record IsLoaded (lines : List Text) (old new : Quotes p) : Type 0 where
    pub keys : (t : Text) → contains_key t new ≡ (names lines t || contains_key t old)
    pub initial_quotes : Entries IsInitial new

  or_swap : (a b c : Bool) → (a || (b || c)) ≡ ((b || a) || c)
  or_swap a b c = ground arith

  load-IsLoaded :
      (fresh : Fresh p) (i : ℕ) (lines : List Text) (loaded : Quotes p × ℕ)
      → Entries IsInitial loaded.0
      → (loaded' : Quotes p × ℕ) × (load p fresh i (all_read lines) loaded ≡ ok loaded')
        × IsLoaded lines loaded.0 loaded'.0
  unfolding load ticker_of
  load-IsLoaded fresh i [] loaded h =
      (loaded, refl, record { keys = λ t. refl; initial_quotes = h })
  load-IsLoaded fresh i (line ∷ lines) loaded h =
      let (loaded', e, l) =
        load-IsLoaded fresh (i + 1) lines (add_ticker p fresh i (upper_cased line) loaded)
          (add_ticker-IsInitial fresh i (upper_cased line) loaded h) in
      (
        loaded',
        e,
        record {
          keys = λ ticker.
              l.keys ticker
              ∙ ap (λ b. names lines ticker || b)
                  (add_ticker-contains_key fresh i (upper_cased line) ticker loaded)
              ∙ or_swap (names lines ticker)
                  (if is_empty (upper_cased line) then false else upper_cased line == ticker)
                  (contains_key ticker loaded.0);
          initial_quotes = l.initial_quotes;
        },
      )

  initial-IsValid :
      (quotes : Quotes p) (generator : QuoteGenerator p) → IsValid p (initial p quotes generator)
  unfolding initial
  initial-IsValid quotes generator = record { registered = tt }

  -- A configuration whose lines can all be read, with a volatility that the generator takes, gives a
  -- valid server: its tickers are exactly the trimmed and upper-cased lines that are not blank, each
  -- quote carries its own key as ticker and has volume 0, there is no background thread and no
  -- request to shut down, no lock is poisoned, and no client was ever counted.
  pub from_config_lem :
      (fresh : Fresh p) (lines : List Text) (g : QuoteGenerator p)
      → Generator.new p (volatility p) ≡ ok g
      → (s : QuoteServer p) × (from_config p fresh (ok (all_read lines)) ≡ ok s)
        × ((t : Text) → contains_key t s.quotes ≡ names lines t)
        × Entries IsInitial s.quotes
        × IsValid p s
        × (s.bg_thread ≡ none)
        × (s.bg_thread_poisoned ≡ false)
        × (s.shutdown_flag ≡ false)
        × (s.clients_poisoned ≡ false)
        × (s.clients_count ≡ 0)
  unfolding from_config contains_key
  from_config_lem fresh lines g made =
      let (loaded, e, l) = load-IsLoaded fresh 0 lines ([], 0) tt in
      (
        initial p loaded.0 g,
        rw (e, made),
        (λ t. unfold initial in (l.keys t ∙ or_false (names lines t))),
        unfold initial in l.initial_quotes,
        initial-IsValid loaded.0 g,
        unfold initial in refl,
        unfold initial in refl,
        unfold initial in refl,
        unfold initial in refl,
        unfold initial in refl,
      )
    where
      or_false : (b : Bool) → (b || false) ≡ b
      or_false b = ground arith

  load-err :
      (fresh : Fresh p) (i : ℕ) (lines : List Text) (e : Text) (rest : List (Result Text Text))
      (loaded : Quotes p × ℕ)
      → load p fresh i (all_read lines ++ err e ∷ rest) loaded ≡ err (invalid_config e)
  unfolding load ticker_of
  load-err fresh i [] e rest loaded = refl
  load-err fresh i (line ∷ lines) e rest loaded =
      load-err fresh (i + 1) lines e rest (add_ticker p fresh i (upper_cased line) loaded)

  -- The configuration is refused as invalid, with the message of the system, if the file cannot be
  -- opened or if some line of it cannot be read, whatever stands before and behind that line.
  pub from_config-err :
      (fresh : Fresh p) (lines : List Text) (e : Text) (rest : List (Result Text Text))
      → (from_config p fresh (err e) ≡ err (invalid_config e))
        × (from_config p fresh (ok (all_read lines ++ err e ∷ rest)) ≡ err (invalid_config e))
  unfolding from_config
  from_config-err fresh lines e rest = (refl, rw (load-err fresh 0 lines e rest ([], 0)))
