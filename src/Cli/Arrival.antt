-- ===== src/Cli/Arrival.antt =====
-- What the listener of bins/client/main.rs prints of the datagrams of src/client.rs.
use rust_quote_streamer.Base.{ℕ, ◌+◌, ◌≤◌, ◌≡◌, ◌⊎◌, List, [], ◌∷◌, map, Option, All, length}
use rust_quote_streamer.Text.{Text, as_bytes, IsChar, text_key}
use rust_quote_streamer.Platform.{Platform}
use rust_quote_streamer.StockQuote.{StockQuote}
use rust_quote_streamer.Cli.Exchange.{Exchange}
use rust_quote_streamer.Cli.UdpListener.{Received, datagram, pretty_json, update_text, buffer_size}

-- A text of characters whose bytes fit into the buffer.
abbrev pub Fits : Text → Type 0
Fits m = All IsChar m × (length (as_bytes m) ≤ buffer_size)

-- The datagrams that reach the listener; they show one sender.
abbrev pub arrivals : List (List ℕ) → Text → List Received
arrivals [] src = []
arrivals (bytes ∷ received) src = datagram bytes src ∷ arrivals received src

abbrev pub IsAmong : {A : Type 0} → A → List A → Type 0
IsAmong x [] = ⊥
IsAmong x (y ∷ ys) = (y ≡ x) ⊎ IsAmong x ys

module _ {Value : Type 0} (from_str : Text → Option Value) (to_string_pretty : Value → Option Text)
    (src : Text) where
  -- The messages as they are printed, numbered behind `n`.
  abbrev pub shown : ℕ → List Text → List Text
  shown n [] = []
  shown n (m ∷ ms) =
      update_text (n + 1) src (pretty_json from_str to_string_pretty m (from_str m))
      ∷ shown (n + 1) ms

  abbrev arrived : List Text → List Received
  arrived ms = arrivals (map as_bytes ms) src
