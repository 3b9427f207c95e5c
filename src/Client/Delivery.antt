-- ===== src/Client/Delivery.antt =====
-- The loop of one `Update` in src/client.rs against its specification.
use mathlib.Core.Option
use mathlib.Core.List.{filter_map}
use rust_quote_streamer.Base.{
  ℕ, ◌+◌, ◌≡◌, ap, List, [], ◌∷◌, ◌++◌, Result, ok, err, inl, inr, arith, append-nil, append_assoc,
  Option-cases, false,
}
use rust_quote_streamer.HashMap.{get}
use rust_quote_streamer.Text.{Text, text_key}
use rust_quote_streamer.Platform.{Platform}
use rust_quote_streamer.Errors.{ClientError}
use rust_quote_streamer.Client.Thread.{
  Callee, CallOutcome, returned, panicked, Processed, Quotes, message, process, after_call,
}

-- Every call of the callback returns.
abbrev pub Returns : Callee → Type 0
Returns callback = (m : Text) → (r : Result ClientError (Unit {0})) × (callback m ≡ returned r)

abbrev pub is_ok : CallOutcome → ℕ
is_ok (returned (ok _)) = 1
is_ok (returned (err e)) = 0
is_ok panicked = 0

-- How many of the messages the callback takes.
abbrev pub accepted : Callee → List Text → ℕ
accepted callback [] = 0
accepted callback (m ∷ ms) = is_ok (callback m) + accepted callback ms

module _ (p : Platform) where
  -- One message for each subscribed ticker that has a quote, in the order of the subscription.
  abbrev pub messages : Quotes p → List Text → List Text
  messages quotes = filter_map (λ ticker. Option.map (message p) (get ticker quotes))

  process-after_call :
      (callback : Callee) (m : Text) (rest : List Text → ℕ → Processed) (calls : List Text)
      (count : ℕ)
      → Returns callback
      → after_call (callback m) rest calls count ≡ rest calls (count + is_ok (callback m))
  unfolding after_call
  process-after_call callback m rest calls count total = go (total m).0 (total m).1
    where
      go :
          (r : Result ClientError (Unit {0}))
          → callback m ≡ returned r
          → after_call (callback m) rest calls count ≡ rest calls (count + is_ok (callback m))
      go (ok x) e = rw e
      go (err x) e = rw e (ap (rest calls) (omega arith))

  -- If no call of the callback panics, then the callback is called once for each subscribed ticker
  -- that has a quote, in the order of the subscription, with the message of that quote; a call that
  -- returns an error stops nothing; and the calls that returned `Ok` are counted.
  pub process_lem :
      (callback : Callee) (quotes : Quotes p) (tickers calls : List Text) (count : ℕ)
      → Returns callback
      → process p callback quotes tickers calls count ≡ record {
        calls = calls ++ messages quotes tickers;
        processed_count = count + accepted callback (messages quotes tickers);
        has_panicked = false;
      }
  unfolding process filter_map
  process_lem callback quotes [] calls count total = ground (arith, append-nil calls)
  process_lem callback quotes (ticker ∷ tickers) calls count total =
      elim (Option-cases (get ticker quotes)) [
        | inl e ↦ rw (e, process) (process_lem callback quotes tickers calls count total)
        | inr (q, e) ↦
            rw (e, process)
              (rw
                (process-after_call callback (message p q) (process p callback quotes tickers)
                  (calls ++ message p q ∷ []) count total)
                (rw
                  (process_lem callback quotes tickers (calls ++ message p q ∷ [])
                    (count + is_ok (callback (message p q))) total)
                  (ground
                    (arith, append_assoc calls (message p q ∷ []) (messages quotes tickers)))))
      ]
