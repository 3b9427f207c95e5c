-- ===== src/Cli/Reconnection.antt =====
-- The threads of bins/client/main.rs on one stream after the other: an exchange that fails makes its
-- thread reconnect, and src/tcp_server.rs handles the new connection.
pub mod Rounds
pub mod Turns
use rust_quote_streamer.Base.{
  ℕ, ◌≡◌, Bool, true, false, List, [], ◌∷◌, ◌++◌, map, Option, none, some, ◌>>=◌, Result, ok, err,
  length, ◌+◌, if◌then◌else◌,
}
use rust_quote_streamer.Text.{Text}
use rust_quote_streamer.Platform.{Platform}
use rust_quote_streamer.Tcp.Service.{QuoteService}
use rust_quote_streamer.Tcp.Handlers.{Session, Io}
use rust_quote_streamer.Tcp.Connection.{
  line, timed_out, After, Round, Flow, goes_on, returns, new_session, serve,
}
use rust_quote_streamer.Cli.Exchange.{
  IoError, Exchange, Connecting, send_command, send_ping, reconnect,
}

-- The stream that the client has: the server handles it, or has returned and closed it.
pub data Link : Type 0 where
  attached : Session → Link
  detached : Link

abbrev pub link_of : Session → Flow → Link
link_of session goes_on = attached session
link_of session (returns r) = detached

-- What the console or the keep-alive thread asks.
pub data Ask : Type 0 where
  command : Text → Ask
  ping : Ask

-- What a thread of the client gets from its exchange.
pub data Heard : Type 0 where
  response : Result IoError Text → Heard
  pinged : Result IoError (Unit {0}) → Heard

-- An exchange whose writes succeed.
abbrev quiet : Result IoError Text → Exchange
quiet reply = record {
  command_error = none;
  newline_error = none;
  flush_error = none;
  reply = reply;
}

-- All bytes that the exchange writes, and what it makes of what `read_line` gives.
abbrev pub sent_by : Ask → Text
sent_by (command text) = (send_command (quiet (ok [])) text).0
sent_by ping = (send_ping (quiet (ok []))).0

abbrev pub hears : Ask → Result IoError Text → Heard
hears (command text) reply = response (send_command (quiet reply) text).1
hears ping reply = pinged (send_ping (quiet reply)).1

-- The exchange gave an error.
abbrev pub has_failed : Heard → Bool
has_failed (response (ok m)) = false
has_failed (response (err e)) = true
has_failed (pinged (ok r)) = false
has_failed (pinged (err e)) = true

-- `read_line` of the client: `late` is the error of a read that takes more than five seconds, which
-- it is if the server has written nothing and has not returned, and can be in any case.
abbrev pub read_line : Bool → IoError → Flow → List Text → Result IoError Text
read_line true late flow written = err late
read_line false late flow (m ∷ ms) = ok m
read_line false late goes_on [] = err late
read_line false late (returns r) [] = ok []

abbrev pub rest_of : List Text → List Text
rest_of [] = []
rest_of (m ∷ ms) = ms

module _ (p : Platform) where
  -- A read of the server that times out, with the part of a line that was there.
  pub record Pause : Type 0 where
    pub now : ℕ
    pub io : Io p
    pub part : Text

  -- One exchange. The bytes can reach the server in parts, with timeouts of its reads in between:
  -- `lost` are those, `rest` is what it reads after the last, up to the end of the line, and `after`
  -- are the timeouts until the client has read. `gives_up` says that the answer comes too late. If
  -- the exchange fails, the attempts to connect follow, and `start` is the time at which the server
  -- accepts.
  pub record Talk : Type 0 where
    pub ask : Ask
    pub lost : List Pause
    pub now : ℕ
    pub io : Io p
    pub rest : Text
    pub after : List Pause
    pub gives_up : Bool
    pub late : IoError
    pub attempts : List Connecting
    pub start : ℕ

  -- An exchange, or a timeout of the server between two.
  pub data Turn : Type 0 where
    talks : Talk → Turn
    pauses : Pause → Turn

  abbrev pub parts_of : List Pause → Text
  parts_of [] = []
  parts_of (x ∷ xs) = x.part ++ parts_of xs

  -- Nothing else reaches the server than what was written, in order.
  abbrev pub Arrives : Talk → Type 0
  Arrives u = parts_of u.lost ++ u.rest ≡ sent_by u.ask

  abbrev pub pause_round : Pause → Round p
  pause_round x = record { now = x.now; reading = timed_out x.part; io = x.io }

  abbrev pub line_round : Talk → Round p
  line_round u = record { now = u.now; reading = line u.rest; io = u.io }

  abbrev pub rounds_of : Talk → List (Round p)
  rounds_of u = map pause_round u.lost ++ line_round u ∷ map pause_round u.after

  module _ (q : QuoteService p) where
    open q use {State}

    abbrev pub Turned : Type 0
    Turned = State × Link × List Heard

    -- `none` while no attempt has succeeded. What the server does with the stream before is not
    -- followed.
    abbrev pub reattach : Talk → State → Heard → Option Turned
    reattach u s heard = do
      _ ← reconnect u.attempts 0
      some (s, attached (new_session u.start), heard ∷ [])

    abbrev pub settle : Talk → State → Link → Heard → Option Turned
    settle u s link heard =
        let again = reattach u s heard in
        if has_failed heard then again else some (s, link, heard ∷ [])

    abbrev pub after_rounds : Talk → After p q → Option Turned
    after_rounds u (t, session, flow) =
        settle u t (link_of (record session { written = rest_of session.written }) flow)
          (hears u.ask (read_line u.gives_up u.late flow session.written))

    abbrev pub after_pause : After p q → Option Turned
    after_pause (t, session, flow) = some (t, link_of session flow, [])

    -- Nothing is read from a stream that the server has closed.
    unfoldable pub take_turn : Turn → State → Link → Option Turned
    take_turn (talks u) s (attached session) = serve p q (rounds_of u) s session >>= after_rounds u
    take_turn (talks u) s detached =
        settle u s detached (hears u.ask (read_line u.gives_up u.late (returns (ok tt)) []))
    take_turn (pauses x) s (attached session) =
        serve p q (pause_round x ∷ []) s session >>= after_pause
    take_turn (pauses x) s detached = some (s, detached, [])

    -- What each turn hears, and the stream that it leaves.
    abbrev pub Rest : Type 0
    Rest = State × Link × List (Link × List Heard)

    abbrev pub then_rest : (State → Link → Option Rest) → Turned → Option Rest
    then_rest rest (s, link, heard) = do
      (t, link', later) ← rest s link
      some (t, link', (link, heard) ∷ later)

    unfoldable pub take_turns : List Turn → State → Link → Option Rest
    unfolding take_turn
    take_turns [] s link = some (s, link, [])
    take_turns (u ∷ us) s link = take_turn u s link >>= then_rest (take_turns us)
