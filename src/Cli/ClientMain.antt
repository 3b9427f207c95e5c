-- ===== src/Cli/ClientMain.antt =====
-- `main` of bins/client/main.rs, from the options on.
use rust_quote_streamer.Base.{
  ◌≡◌, true, false, List, [], ◌∷◌, ◌++◌, Option, none, some, Result, ok, err, ◌>>=◌, ap, Bool,
  map_err,
}
use rust_quote_streamer.Text.{Text, codes, trim, is_empty, eq_ignore_ascii_case}
use rust_quote_streamer.Errors.{CliError, general_error}
use rust_quote_streamer.Cli.Exchange.{IoError, Connecting, connect}
use rust_quote_streamer.Cli.Console.{prompt, Turn, Console, Turned, leaves, console_loop}
use rust_quote_streamer.Cli.Console.Commands.{Commands, lines_of, screen_of, console_loop_lem}

-- The errors of binding the UDP socket, of setting its timeout and of cloning it, if any.
pub record Socket : Type 0 where
  pub bind_error : Option Text
  pub timeout_error : Option Text
  pub clone_error : Option Text

unfoldable pub unless_failed : Option Text → Result CliError (Unit {0}) → Result CliError (Unit {0})
unless_failed none rest = rest
unless_failed (some e) rest = err (general_error e)

abbrev pub new_console : Console
new_console = record { reconnects = 0; sent = []; printed = [] }

-- Which threads the program has spawned: they run until it returns.
pub record Threads : Type 0 where
  pub keep_alive : Bool
  pub listener : Bool

abbrev pub no_threads : Threads
no_threads = record { keep_alive = false; listener = false }

abbrev pub Ready : Type 0
Ready = Threads × Result CliError (Unit {0})

abbrev pub Ended : Type 0
Ended = Threads × Console × Turned

-- The listener is spawned once the socket is there.
unfoldable pub spawn_listener : Threads → Result CliError (Unit {0}) → Ready
spawn_listener threads (ok r) = (record threads { listener = true }, ok r)
spawn_listener threads (err e) = (threads, err e)

-- The keep-alive thread is spawned once there is a connection, before the socket is bound.
unfoldable pub spawn_keep_alive : Socket → Result CliError (Unit {0}) → Ready
unfolding unless_failed spawn_listener
spawn_keep_alive socket (ok _) =
    spawn_listener (record no_threads { keep_alive = true })
      (unless_failed socket.bind_error
        (unless_failed socket.timeout_error (unless_failed socket.clone_error (ok tt))))
spawn_keep_alive socket (err e) = (no_threads, err e)

module _ (show_error : IoError → Text) where
  unfoldable pub set_up : Connecting → Socket → Ready
  unfolding spawn_keep_alive
  set_up connecting socket =
      spawn_keep_alive socket (map_err (λ e. general_error (show_error e)) (connect connecting))

  unfoldable pub run_console : List Turn → Ready → Option Ended
  run_console turns (threads, ok _) = do
    (c, turned) ← console_loop turns new_console
    some (threads, c, turned)
  run_console turns (threads, err e) = some (threads, new_console, leaves (err e))

  -- The threads, what the console has sent and printed, and the result.
  unfoldable pub client_main : Connecting → Socket → List Turn → Option Ended
  unfolding set_up run_console
  client_main connecting socket turns = run_console turns (set_up connecting socket)

  -- If a connection is made and the socket is bound, and commands are typed that are neither blank
  -- nor `EXIT` and are carried out, with an `EXIT` after them, then the program has spawned both
  -- threads and returns `Ok`, and its console has sent exactly the commands and has printed the
  -- responses, each behind a prompt. If the connection fails, the program returns that error,
  -- whatever the socket and the console would do, and no thread was spawned. If the socket cannot be
  -- bound, it returns that error, and the keep-alive thread was spawned, but the listener was not. In
  -- both cases the console has sent and printed nothing.
  pub client_main_lem :
      (connecting refused : Connecting) (socket taken : Socket) (cause : IoError) (in_use : Text)
      (turns : List Turn) (h : Commands turns) (exit : Turn) (text : Text) (rest : List Turn)
      → connect connecting ≡ ok tt
      → connect refused ≡ err cause
      → socket.bind_error ≡ none
      → socket.timeout_error ≡ none
      → socket.clone_error ≡ none
      → taken.bind_error ≡ some in_use
      → exit.flush_error ≡ none
      → exit.input ≡ ok text
      → is_empty (trim text) ≡ false
      → eq_ignore_ascii_case (trim text) (codes "EXIT") ≡ true
      → (client_main connecting socket (turns ++ exit ∷ rest)
          ≡ some (
            record { keep_alive = true; listener = true },
            record {
              reconnects = 0;
              sent = lines_of turns h;
              printed = screen_of turns h ++ prompt ∷ codes "Exiting client.\n" ∷ [];
            },
            leaves (ok tt),
          ))
        × (client_main refused socket (turns ++ exit ∷ rest)
            ≡ some (no_threads, new_console, leaves (err (general_error (show_error cause)))))
        × (client_main connecting taken (turns ++ exit ∷ rest)
            ≡ some (
              record { keep_alive = true; listener = false },
              new_console,
              leaves (err (general_error in_use)),
            ))
  unfolding client_main
  client_main_lem connecting refused socket taken cause in_use turns h exit text rest made not_made
        bound timed cloned not_bound flushed input full exits =
      (
        rw (made, bound, timed, cloned)
            (ap with_threads
              (console_loop_lem turns h exit text rest new_console flushed input full exits)),
        rw not_made,
        rw (made, not_bound),
      )
    where
      with_threads : Option (Console × Turned) → Option Ended
      with_threads call = do
        (c, turned) ← call
        some (record { keep_alive = true; listener = true }, c, turned)
