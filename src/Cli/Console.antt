-- ===== src/Cli/Console.antt =====
-- The interactive loop of bins/client/main.rs.
pub mod Commands
use rust_quote_streamer.Base.{
  ℕ, ◌+◌, List, [], ◌∷◌, ◌++◌, Option, none, some, ◌>>=◌, Result, ok, err, if◌then◌else◌,
}
use rust_quote_streamer.Text.{Text, codes, trim, is_empty, eq_ignore_ascii_case}
use rust_quote_streamer.Errors.{CliError, general_error}
use rust_quote_streamer.Cli.Exchange.{
  Exchange, Exchanged, IoError, Connecting, send_command, reconnect,
}

-- What one turn of the loop meets: the flush of the prompt, the line of the standard input (empty at
-- its end), the locks of the stream and the reader, the exchange, and the attempts to reconnect.
pub record Turn : Type 0 where
  pub flush_error : Option Text
  pub input : Result Text Text
  pub lock_error : Option Text
  pub exchange : Exchange
  pub attempts : List Connecting

-- How often the stream was replaced, what was written to it, and what was printed.
pub record Console : Type 0 where
  pub reconnects : ℕ
  pub sent : List Text
  pub printed : List Text

pub data Turned : Type 0 where
  stays : Turned
  leaves : Result CliError (Unit {0}) → Turned

-- A failed command makes the client reconnect; `none` while no attempt has succeeded.
unfoldable pub exchanged : List Connecting → Console → Exchanged Text → Option (Console × Turned)
exchanged attempts c (bytes, ok response) =
    some (record c { sent = c.sent ++ bytes ∷ []; printed = c.printed ++ response ∷ [] }, stays)
exchanged attempts c (bytes, err e) = do
  _ ← reconnect attempts 0
  some (record c { sent = c.sent ++ bytes ∷ []; reconnects = c.reconnects + 1 }, stays)

unfoldable pub locked : Turn → Text → Console → Option Text → Option (Console × Turned)
unfolding exchanged
locked t command c (some e) = some (c, leaves (err (general_error e)))
locked t command c none = exchanged t.attempts c (send_command t.exchange command)

unfoldable pub on_command : Turn → Text → Console → Option (Console × Turned)
unfolding locked
on_command t command c =
    if is_empty command
    then some (c, stays)
    else if eq_ignore_ascii_case command (codes "EXIT")
    then some (record c { printed = c.printed ++ codes "Exiting client.\n" ∷ [] }, leaves (ok tt))
    else locked t command c t.lock_error

unfoldable pub on_input : Turn → Console → Result Text Text → Option (Console × Turned)
unfolding on_command
on_input t c (err e) = some (c, leaves (err (general_error e)))
on_input t c (ok text) = on_command t (trim text) c

unfoldable pub prompted : Turn → Console → Option Text → Option (Console × Turned)
unfolding on_input
prompted t c (some e) = some (c, leaves (err (general_error e)))
prompted t c none = on_input t c t.input

abbrev pub prompt : Text
prompt = codes "quote-client> "

unfoldable pub turn : Turn → Console → Option (Console × Turned)
unfolding prompted
turn t c = prompted t (record c { printed = c.printed ++ prompt ∷ [] }) t.flush_error

abbrev pub unless_left :
    (Console → Option (Console × Turned)) → Console × Turned → Option (Console × Turned)
unless_left rest (c, stays) = rest c
unless_left rest (c, leaves result) = some (c, leaves result)

-- The turns so far.
unfoldable pub console_loop : List Turn → Console → Option (Console × Turned)
unfolding turn
console_loop [] c = some (c, stays)
console_loop (t ∷ turns) c = turn t c >>= unless_left (console_loop turns)
