-- ===== src/Cli/Exchange.antt =====
-- `send_command`, `send_ping`, `connect` and `reconnect` of bins/client/main.rs.
use rust_quote_streamer.Base.{
  ℕ, suc, List, [], ◌∷◌, ◌++◌, Option, none, some, Result, ok, err, ◌==◌, if◌then◌else◌,
}
use rust_quote_streamer.Text.{Text, codes, trim, is_empty, text_key}

pub data IoError : Type 0 where
  system : Text → IoError
  unexpected_eof : Text → IoError
  invalid_data : Text → IoError

-- What the calls on the stream give in one exchange: the errors of the writes and of the flush, if any,
-- and what `read_line` gives, which reads no byte exactly if the text is empty.
pub record Exchange : Type 0 where
  pub command_error : Option IoError
  pub newline_error : Option IoError
  pub flush_error : Option IoError
  pub reply : Result IoError Text

abbrev pub closed : IoError
closed = unexpected_eof (codes "Server closed connection")

-- What was written, and the result.
abbrev pub Exchanged : Type 0 → Type 0
Exchanged A = Text × Result IoError A

-- One call of `write_all` or `flush` before the rest; the text is added if the call succeeds.
abbrev pub writing : {A : Type 0} → Option IoError → Text → Exchanged A → Exchanged A
writing none text (written, result) = (text ++ written, result)
writing (some e) text rest = ([], err e)

unfoldable pub take_reply : Result IoError Text → Result IoError Text
take_reply (ok buf) = if is_empty buf then err closed else ok buf
take_reply (err e) = err e

unfoldable pub send_command : Exchange → Text → Exchanged Text
unfolding take_reply
send_command x command =
    writing x.command_error command
      (writing x.newline_error (codes "\n") (writing x.flush_error [] ([], take_reply x.reply)))

unfoldable pub check_pong : Result IoError Text → Result IoError (Unit {0})
check_pong (ok buf) =
    if trim buf == codes "PONG"
    then ok tt
    else err (invalid_data (codes "Expected PONG, got: " ++ buf))
check_pong (err e) = err e

unfoldable pub send_ping : Exchange → Exchanged (Unit {0})
unfolding check_pong take_reply
send_ping x =
    writing x.command_error (codes "PING\n")
      (writing x.flush_error [] ([], check_pong (take_reply x.reply)))

-- `connect`: the errors of connecting, of setting the timeout and of cloning, if any; a stream is
-- known by its number.
pub record Connecting : Type 0 where
  pub connect_error : Option IoError
  pub timeout_error : Option IoError
  pub clone_error : Option IoError

unfoldable pub first_error : Option IoError → Result IoError (Unit {0}) → Result IoError (Unit {0})
first_error none rest = rest
first_error (some e) rest = err e

unfoldable pub connect : Connecting → Result IoError (Unit {0})
unfolding first_error
connect c =
    first_error c.connect_error (first_error c.timeout_error (first_error c.clone_error (ok tt)))

unfoldable pub tried : Result IoError (Unit {0}) → Option ℕ → ℕ → Option ℕ
tried (ok _) later n = some n
tried (err e) later n = later

-- The number of the attempt that succeeds; `none` as long as none has.
unfoldable pub reconnect : List Connecting → ℕ → Option ℕ
unfolding tried
reconnect [] n = none
reconnect (c ∷ attempts) n = let later = reconnect attempts (suc n) in tried (connect c) later n
