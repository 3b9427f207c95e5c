-- ===== src/Tests/Quotes.antt =====
-- The update of the quotes and their way to the screen at concrete inputs.
use rust_quote_streamer.Base.{
  ℕ, ◌≡◌, refl, List, subst, inl, inr, true, ◌&&◌, Bool, [], ◌∷◌, ok, ltb, Bool-cases, ◌==◌,
}
use rust_quote_streamer.HashMap.{get}
use rust_quote_streamer.HashMap.Entries.{IsMap}
use rust_quote_streamer.Text.{Text, codes, text_key, as_bytes, text_beq_iff}
use rust_quote_streamer.StockQuote.{StockQuote}
use rust_quote_streamer.Generator.{
  Draw, in_order, in_order-IsTryForEach, update_single_quote, update_item, update_all,
}
use rust_quote_streamer.Generator
use rust_quote_streamer.Server.State.{QuoteServer}
use rust_quote_streamer.Server.Update.{drawn, write_quotes}
use rust_quote_streamer.Server.Update.Moved.{Moves, write_quotes_ok}
use rust_quote_streamer.Server.Update.AnyOrder.{write_quotes_any_order}
use rust_quote_streamer.Client.Thread.{message}
use rust_quote_streamer.Cli.Delivery.{Reaches}
use rust_quote_streamer.Cli.UdpListener.{Listener}
use rust_quote_streamer.Tests.Connection.{session}
use rust_quote_streamer.Tests.Programs.{exchange}
use rust_quote_streamer.Tests.Traces.{typed_round, typed_round-IsTyped}
use rust_quote_streamer.Tests.Toy.{toy, aapl, quote}
use rust_quote_streamer.Tests.Data.{draw}
use rust_quote_streamer.Tests.Server.{server, reads, quotes}

abbrev msft : Text
msft = codes "MSFT"

abbrev other : StockQuote toy
other = record quote { ticker = msft; price = 300000000 }

abbrev draws : Text → Draw toy
draws ticker = draw

-- Two servers with two quotes, in either order.
abbrev one_way : QuoteServer toy
one_way = record server { quotes = (aapl, quote) ∷ (msft, other) ∷ [] }

abbrev other_way : QuoteServer toy
other_way = record server { quotes = (msft, other) ∷ (aapl, quote) ∷ [] }

one_way_written : (write_quotes toy in_order draws one_way).1 ≡ ok tt
unfolding write_quotes Generator.update_quotes update_all update_item update_single_quote drawn
one_way_written = refl

write_quotes_ok_example :
    (l : ℕ) × (toy.log_normal (toy.literal 0 0) one_way.generator.volatility ≡ ok l)
    × ((t : Text)
        → Moves toy l draw
            (get t one_way.quotes)
            (get t (write_quotes toy in_order draws one_way).0.quotes))
write_quotes_ok_example =
    write_quotes_ok toy in_order in_order-IsTryForEach draws one_way one_way_written

other_way_same : (t : Text) → get t other_way.quotes ≡ get t one_way.quotes
unfolding get
other_way_same t = elim (Bool-cases (msft == t)) [
  | inl hit ↦
      subst (λ u. get u other_way.quotes ≡ get u one_way.quotes) ((text_beq_iff msft t).0 hit) refl
  | inr miss ↦ rw miss refl
]

other_way-IsMap : IsMap other_way.quotes
unfolding get
other_way-IsMap = (refl, (refl, tt))

write_quotes_any_order_example :
    ((write_quotes toy in_order draws other_way).1 ≡ ok tt)
    × ((t : Text)
        → get t (write_quotes toy in_order draws other_way).0.quotes
          ≡ get t (write_quotes toy in_order draws one_way).0.quotes)
write_quotes_any_order_example =
    write_quotes_any_order toy in_order in_order in_order-IsTryForEach in_order-IsTryForEach draws
      one_way other_way refl other_way_same other_way-IsMap one_way_written

abbrev is_ascii : Text → Bool
is_ascii [] = true
is_ascii (c ∷ s) = ltb c 0x80 && is_ascii s

abbrev listener : Listener
listener = record { message_count = 0; printed = [] }

abbrev sender : Text
sender = codes "127.0.0.1:9"

abbrev Reached : Type 0
Reached =
    Reaches toy server session (exchange (codes "STREAM OK\n")) typed_round typed_round-IsTyped
      reads quotes

-- The one message arrives twice.
abbrev twice : List (List ℕ)
twice = as_bytes (message toy quote) ∷ as_bytes (message toy quote) ∷ []
