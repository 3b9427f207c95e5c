-- ===== src/Tests/Turns.antt =====
-- The exchanges over several streams at a concrete input.
use rust_quote_streamer.Base.{some, none, false, List, [], ◌∷◌}
use rust_quote_streamer.Text.{Text, codes}
use rust_quote_streamer.Cli.Exchange.{IoError, system, Connecting, closed}
use rust_quote_streamer.Cli.Reconnection.{Ask, command, ping, Pause, Talk, Turn, talks, pauses}
use rust_quote_streamer.Tests.Toy.{toy}
use rust_quote_streamer.Tests.Connection.{io}

-- The first attempt is refused.
abbrev attempts : List Connecting
attempts =
    record { connect_error = some closed; timeout_error = none; clone_error = none }
    ∷ record { connect_error = none; timeout_error = none; clone_error = none }
    ∷ []

abbrev late : IoError
late = system (codes "Resource temporarily unavailable")

abbrev talk_of : Ask → Text → Talk toy
talk_of ask rest = record {
  ask = ask;
  lost = [];
  now = 7;
  io = io;
  rest = rest;
  after = [];
  gives_up = false;
  late = late;
  attempts = attempts;
  start = 20;
}

abbrev pause_of : Text → Pause toy
pause_of part = record { now = 8; io = io; part = part }

-- The `PING` is cut behind its command, so that the server reads a blank line, and the client its
-- error; the malformed `STREAM` makes the server return; the `STOP` is said on the next stream.
abbrev exchanges : List (Turn toy)
exchanges =
    talks (
      talk_of (command (codes "STREAM 127.0.0.1:34254 AAPL"))
        (codes "STREAM 127.0.0.1:34254 AAPL\n"))
    ∷ talks (record (talk_of ping (codes "\n")) { lost = pause_of (codes "PING") ∷ [] })
    ∷ talks (talk_of (command (codes "STREAM 127.0.0.1:34254")) (codes "STREAM 127.0.0.1:34254\n"))
    ∷ pauses (pause_of [])
    ∷ talks (record (talk_of ping (codes "PING\n")) { after = pause_of [] ∷ [] })
    ∷ talks (talk_of (command (codes "STOP")) (codes "STOP\n"))
    ∷ []
