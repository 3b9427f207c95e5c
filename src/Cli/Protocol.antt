-- ===== src/Cli/Protocol.antt =====
-- The exchanges of bins/client/main.rs against the handlers of src/tcp_server.rs.
use rust_quote_streamer.Base.{◌≡◌, refl, ap, ◌∙◌, List, [], ◌∷◌, ◌++◌, none, some, ok, arith}
use rust_quote_streamer.Text.{
  Text, codes, trim, trim_start, trim_end, is_empty, is_whitespace, starts_with, spaced, text_key,
  text_beq_iff,
}
use rust_quote_streamer.Platform.{Platform}
use rust_quote_streamer.Tcp.Service.{QuoteService}
use rust_quote_streamer.Tcp.Handlers.{Session, write_all, reply, handle_ping}
use rust_quote_streamer.Tcp.Connection.{
  line, Round, goes_on, dispatch, propagate, on_message, on_reading, handle_round,
}
use rust_quote_streamer.Tcp.Stream.{stream_line}
use rust_quote_streamer.Cli.Exchange.{Exchange, send_command, send_ping}

-- No write and no flush of an exchange fails.
pub record Writes (x : Exchange) : Type 0 where
  pub command : x.command_error ≡ none
  pub newline : x.newline_error ≡ none
  pub flush : x.flush_error ≡ none

-- A `PING` is carried out if the writes succeed and the response, without the white space around it, is
-- `PONG`; it fails with an error if the stream has ended or the response is anything else.
send_ping_lem :
    (x : Exchange) (response : Text)
    → Writes x
    → x.reply ≡ ok response
    → ((trim response ≡ codes "PONG") → (send_ping x).1 ≡ ok tt)
      × ((send_ping x).1 ≡ ok tt → trim response ≡ codes "PONG")
unfolding send_ping trim trim_start trim_end is_empty
send_ping_lem x [] w reply = ((λ e. cc), (λ e. absurd (ended e)))
  where
    ended : (send_ping x).1 ≡ ok tt → ⊥
    ended e = ground (arith, w.command, w.flush, reply)
send_ping_lem x (c ∷ s) w reply =
    ground (arith, w.command, w.flush, reply, text_beq_iff (trim (c ∷ s)) (codes "PONG"))

send_ping_text : (x : Exchange) → Writes x → (send_ping x).0 ≡ codes "PING\n"
unfolding send_ping
send_ping_text x w = rw (w.command, w.flush)

module _ (p : Platform) (q : QuoteService p) where
  open q use {State}

  trim_ping : trim (codes "PING\n") ≡ codes "PING"
  unfolding trim trim_start trim_end is_whitespace is_empty
  trim_ping = refl

  pub ping_answer :
      (r : Round p) (s : State) (session : Session)
      → r.reading ≡ line (codes "PING\n")
      → r.io.write_error ≡ none
      → handle_round p q r s session
        ≡ some (
          s,
          record session { last_ping = r.now; written = session.written ++ codes "PONG\n" ∷ [] },
          goes_on,
        )
  unfolding handle_round on_reading on_message dispatch propagate handle_ping reply write_all trim
      trim_start trim_end is_whitespace is_empty starts_with
  ping_answer r s session reading write = rw (reading, write)

  -- What the client writes for a `PING`, read by the server as one line, is answered by one line that
  -- the client takes as the answer to its `PING`; the server sets the time of the last line and
  -- changes nothing else.
  ping_pong :
      (x : Exchange) (r : Round p) (s : State) (session : Session)
      → Writes x
      → r.reading ≡ line (send_ping x).0
      → r.io.write_error ≡ none
      → (answer : Text) × (handle_round p q r s session
          ≡ some (
            s,
            record session { last_ping = r.now; written = session.written ++ answer ∷ [] },
            goes_on,
          ))
        × (x.reply ≡ ok answer → (send_ping x).1 ≡ ok tt)
  ping_pong x r s session w reading write = (
    codes "PONG\n",
    ping_answer r s session (reading ∙ ap line (send_ping_text x w)) write,
    (λ reply. (send_ping_lem x (codes "PONG\n") w reply).0 pong),
  )
    where
      pong : trim (codes "PONG\n") ≡ codes "PONG"
      pong = unfold trim trim_start trim_end is_whitespace is_empty in refl

-- A command `STREAM` that the client sends is the text that the server reads as one.
pub send_command-stream :
    (x : Exchange) (address : Text) (tickers : List Text)
    → Writes x
    → (send_command x (codes "STREAM" ++ spaced (address ∷ tickers))).0
      ≡ stream_line address tickers (codes "\n")
unfolding send_command
send_command-stream x address tickers w = rw (w.command, w.newline, w.flush)
