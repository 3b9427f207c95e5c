-- ===== src/Cli/Reconnection/Turns.antt =====
-- Any number of exchanges of bins/client/main.rs with src/tcp_server.rs, over any number of streams.
use rust_quote_streamer.Base.{
  ℕ, ◌+◌, ◌≡◌, ◌⊎◌, true, List, [], ◌∷◌, Option, some, ok, err, length, take,
}
use rust_quote_streamer.Text.{Text, trim, is_empty}
use rust_quote_streamer.Platform.{Platform}
use rust_quote_streamer.Tcp.Service.{QuoteService}
use rust_quote_streamer.Tcp.Connection.{new_session}
use rust_quote_streamer.Tcp.Reply.{answer}
use rust_quote_streamer.Cli.Exchange.{reconnect}
use rust_quote_streamer.Cli.Reconnection.{
  Link, attached, detached, Heard, hears, has_failed, Talk, Turn, talks, pauses, Arrives, rounds_of,
  Turned,
}

module _ (p : Platform) where
  -- The bytes of an exchange reach the server, and some attempt to connect succeeds if one is needed.
  abbrev pub CanTalk : Turn p → Type 0
  CanTalk (pauses x) = Unit {0}
  CanTalk (talks u) = Arrives p u × ((n : ℕ) × (reconnect u.attempts 0 ≡ some n))

  -- The rounds of the server in a turn.
  abbrev pub rounds_in : Turn p → ℕ
  rounds_in (pauses x) = 1
  rounds_in (talks u) = length (rounds_of p u)

  abbrev pub rounds_in_all : List (Turn p) → ℕ
  rounds_in_all [] = 0
  rounds_in_all (u ∷ us) = rounds_in u + rounds_in_all us

  abbrev pub own_answer : Talk p → Text
  own_answer u = answer (trim u.rest)

  abbrev pub renewed : Talk p → Link
  renewed u = attached (new_session u.start)

  -- What an exchange hears: the answer to what the server has read of its own line; or, if the server
  -- has returned and closed the stream, at most a beginning of that answer; or the timeout error, if
  -- the answer came too late or what the server has read was blank.
  abbrev pub IsAnswered : Talk p → Link → Heard → Type 0
  IsAnswered u link heard = heard ≡ hears u.ask (ok (own_answer u))

  abbrev pub IsCutShort : Talk p → Link → Heard → Type 0
  IsCutShort u link heard =
      ((n : ℕ) × (heard ≡ hears u.ask (ok (take n (own_answer u)))))
      × ((link ≡ detached) ⊎ (link ≡ renewed u))

  abbrev pub IsTimedOut : Talk p → Link → Heard → Type 0
  IsTimedOut u link heard =
      (heard ≡ hears u.ask (err u.late))
      × ((u.gives_up ≡ true) ⊎ (is_empty (trim u.rest) ≡ true))
      × (link ≡ renewed u)

  abbrev pub IsHeard : Turn p → Link × List Heard → Type 0
  IsHeard (pauses x) (link, heard) = heard ≡ []
  IsHeard (talks u) (link, heard) =
      (h : Heard) × (heard ≡ h ∷ [])
      × (IsAnswered u link h ⊎ IsCutShort u link h ⊎ IsTimedOut u link h)
      × (has_failed h ≡ true → link ≡ renewed u)

  -- Nothing is left to read on the stream.
  abbrev pub IsRead : Link → Type 0
  IsRead (attached session) = session.written ≡ []
  IsRead detached = Unit {0}

  module _ (q : QuoteService p) where
    open q use {State}

    abbrev Settles : Turn p → State → Option (Turned p q) → Type 0
    Settles u s call =
        (link : Link) × (heard : List Heard) × (call ≡ some (s, link, heard))
        × IsRead link
        × IsHeard u (link, heard)
