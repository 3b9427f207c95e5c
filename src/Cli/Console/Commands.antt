-- ===== src/Cli/Console/Commands.antt =====
-- Commands, the end of the input and reconnections on the console of bins/client/main.rs.
use rust_quote_streamer.Base.{
  ℕ, suc, ◌+◌, ◌≡◌, refl, ap, ◌∙◌, List, [], ◌∷◌, ◌++◌, none, some, ◌>>=◌, ok, err, true, false,
  arith, append_assoc, append-nil, All, length,
}
use rust_quote_streamer.Text.{
  Text, codes, trim, trim_start, trim_end, is_empty, eq_ignore_ascii_case,
}
use rust_quote_streamer.Cli.Exchange.{IoError, Connecting, send_command, connect, reconnect}
use rust_quote_streamer.Cli.Console.{
  Turn, Console, stays, leaves, prompt, turn, unless_left, console_loop,
}

-- A turn in which `read_line` finds the standard input at its end.
pub record IsAtEnd (t : Turn) : Type 0 where
  pub flushed : t.flush_error ≡ none
  pub end : t.input ≡ ok []

turn-IsAtEnd :
    (t : Turn) (c : Console)
    → IsAtEnd t
    → turn t c ≡ some (record c { printed = c.printed ++ prompt ∷ [] }, stays)
unfolding turn trim trim_start trim_end is_empty
turn-IsAtEnd t c h = rw (h.flushed, h.end)

abbrev pub prompts : List Turn → List Text
prompts [] = []
prompts (t ∷ turns) = prompt ∷ prompts turns

-- At the end of the standard input the loop goes on for ever: however many turns it makes, if the flush
-- of the prompt succeeds in each, it has sent nothing, has printed one prompt for each turn and nothing
-- else, has not reconnected, and has not left.
pub console_loop-IsAtEnd :
    (turns : List Turn) (c : Console)
    → All IsAtEnd turns
    → console_loop turns c ≡ some (record c { printed = c.printed ++ prompts turns }, stays)
unfolding console_loop
console_loop-IsAtEnd [] c h = ground (arith, append-nil c.printed)
console_loop-IsAtEnd (t ∷ turns) c (ht, hs) =
    ap (λ call. call >>= unless_left (console_loop turns)) (turn-IsAtEnd t c ht)
    ∙ console_loop-IsAtEnd turns _ hs
    ∙ ground (arith, append_assoc c.printed (prompt ∷ []) (prompts turns))

-- A turn with a command that is neither blank nor `EXIT`, in which the locks are taken and no call
-- fails.
pub record IsCommand (t : Turn) : Type 0 where
  pub text : Text
  pub response : Text
  pub flushed : t.flush_error ≡ none
  pub input : t.input ≡ ok text
  pub not_blank : is_empty (trim text) ≡ false
  pub not_exit : eq_ignore_ascii_case (trim text) (codes "EXIT") ≡ false
  pub lock : t.lock_error ≡ none
  pub command : t.exchange.command_error ≡ none
  pub newline : t.exchange.newline_error ≡ none
  pub flush : t.exchange.flush_error ≡ none
  pub reply : t.exchange.reply ≡ ok response
  pub some_reply : is_empty response ≡ false

-- The turns with the commands and the responses.
abbrev pub Commands : List Turn → Type 0
Commands = All IsCommand

abbrev pub lines_of : (turns : List Turn) → Commands turns → List Text
lines_of [] h = []
lines_of (t ∷ turns) (ht, hs) = (trim ht.text ++ codes "\n") ∷ lines_of turns hs

abbrev pub screen_of : (turns : List Turn) → Commands turns → List Text
screen_of [] h = []
screen_of (t ∷ turns) (ht, hs) = prompt ∷ ht.response ∷ screen_of turns hs

turn-IsCommand :
    (t : Turn) (c : Console) (h : IsCommand t)
    → turn t c
      ≡ some (
        record c {
          sent = c.sent ++ (trim h.text ++ codes "\n") ∷ [];
          printed = (c.printed ++ prompt ∷ []) ++ h.response ∷ [];
        },
        stays,
      )
unfolding turn send_command
turn-IsCommand t c h = rw (
  h.flushed, h.input, h.not_blank, h.not_exit, h.lock, h.command, h.newline, h.flush, h.reply,
  h.some_reply,
)

-- As long as commands are typed that are neither blank nor `EXIT`, and no call fails, the loop sends
-- each trimmed command with a line's end, once and in order, prints a prompt and the response for each,
-- and goes on; and an `EXIT` in any case of letters after them, whatever follows it, ends the loop with
-- `Ok` and sends nothing.
pub console_loop_lem :
    (turns : List Turn) (h : Commands turns) (exit : Turn) (text : Text) (rest : List Turn)
    (c : Console)
    → exit.flush_error ≡ none
    → exit.input ≡ ok text
    → is_empty (trim text) ≡ false
    → eq_ignore_ascii_case (trim text) (codes "EXIT") ≡ true
    → console_loop (turns ++ exit ∷ rest) c
      ≡ some (
        record c {
          sent = c.sent ++ lines_of turns h;
          printed = (c.printed ++ screen_of turns h) ++ prompt ∷ codes "Exiting client.\n" ∷ [];
        },
        leaves (ok tt),
      )
unfolding console_loop
console_loop_lem [] h exit text rest c flushed input full exits =
    ap (λ call. call >>= unless_left (console_loop rest)) leave
    ∙ ground (
      arith,
      append-nil c.sent,
      append-nil c.printed,
      append_assoc c.printed (prompt ∷ []) (codes "Exiting client.\n" ∷ []),
    )
  where
    leave :
        turn exit c
        ≡ some (
          record c { printed = (c.printed ++ prompt ∷ []) ++ codes "Exiting client.\n" ∷ [] },
          leaves (ok tt),
        )
    leave = unfold turn in rw (flushed, input, full, exits)
console_loop_lem (t ∷ turns) (ht, hs) exit text rest c flushed input full exits =
    ap (λ call. call >>= unless_left (console_loop (turns ++ exit ∷ rest))) (turn-IsCommand t c ht)
    ∙ console_loop_lem turns hs exit text rest _ flushed input full exits
    ∙ ground (
      arith,
      append_assoc c.sent ((trim ht.text ++ codes "\n") ∷ []) (lines_of turns hs),
      append_assoc c.printed (prompt ∷ []) (ht.response ∷ []),
      append_assoc c.printed (prompt ∷ ht.response ∷ []) (screen_of turns hs),
    )

-- An attempt that fails.
abbrev pub Fails : Connecting → Type 0
Fails a = (e : IoError) × (connect a ≡ err e)

-- A reconnection ends with the first attempt that succeeds, after any number that fail, and does not
-- end before.
reconnect_lem :
    (failing : List Connecting) (good : Connecting) (rest : List Connecting) (n : ℕ)
    → All Fails failing
    → connect good ≡ ok tt
    → (reconnect failing n ≡ none)
      × (reconnect (failing ++ good ∷ rest) n ≡ some (length failing + n))
unfolding reconnect
reconnect_lem [] good rest n h works = (refl, rw works (ground arith))
reconnect_lem (a ∷ failing) good rest n ((e, bad), hs) works =
    let (before, first) = reconnect_lem failing good rest (suc n) hs works in
    (rw bad before, rw bad (first ∙ ap some (omega arith)))
