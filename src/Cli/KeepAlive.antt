-- ===== src/Cli/KeepAlive.antt =====
-- The keep-alive of the two programs together: the `PING`s of bins/client/main.rs against
-- `handle_connection` of src/tcp_server.rs.
use rust_quote_streamer.Base.{
  ℕ, ◌-◌, ◌<◌, ◌≡◌, refl, sym, ap, ◌∙◌, List, [], ◌∷◌, ◌++◌, none, some, ◌>>=◌, arith, append-nil,
  append_assoc,
}
use rust_quote_streamer.Text.{Text, codes}
use rust_quote_streamer.Platform.{Platform}
use rust_quote_streamer.Tcp.Service.{QuoteService}
use rust_quote_streamer.Tcp.Handlers.{Session}
use rust_quote_streamer.Tcp.Connection.{
  line, timed_out, Round, goes_on, on_reading, handle_round, unless_returned, serve,
}
use rust_quote_streamer.Tcp.KeepAlive.{keep_alive_limit}
use rust_quote_streamer.Cli.Protocol.{ping_answer}

module _ (p : Platform) (q : QuoteService p) where
  open q use {State}

  -- A round that reads a `PING`, and one that times out at most so long after the last line.
  abbrev pub IsPing : Round p → Type 0
  IsPing r = (r.reading ≡ line (codes "PING\n")) × (r.io.write_error ≡ none)

  abbrev pub IsPause : ℕ → Round p → Type 0
  IsPause last r = (part : Text) × (r.reading ≡ timed_out part) × (r.now - last < keep_alive_limit)

  -- Rounds of a connection on which `PING`s come in time, the last line at the time `last`.
  pub data IsFed : ℕ → List (Round p) → Type 0 where
    over : {last : ℕ} → IsFed last []
    pings :
        {last : ℕ} (r : Round p) {rounds : List (Round p)}
        → IsPing r
        → IsFed r.now rounds
        → IsFed last (r ∷ rounds)
    pauses :
        {last : ℕ} (r : Round p) {rounds : List (Round p)}
        → IsPause last r
        → IsFed last rounds
        → IsFed last (r ∷ rounds)

  abbrev pub pongs : {last : ℕ} {rounds : List (Round p)} → IsFed last rounds → List Text
  pongs over = []
  pongs (pings r h rest) = codes "PONG\n" ∷ pongs rest
  pongs (pauses r h rest) = pongs rest

  serve_step :
      (r : Round p) (rounds : List (Round p)) (s : State) (session session' : Session)
      → handle_round p q r s session ≡ some (s, session', goes_on)
      → serve p q (r ∷ rounds) s session ≡ serve p q rounds s session'
  unfolding serve
  serve_step r rounds s session session' e =
      ap (λ call. call >>= unless_returned p q (serve p q rounds)) e

  pause_goes_on :
      (r : Round p) (s : State) (session : Session)
      → IsPause session.last_ping r
      → handle_round p q r s session ≡ some (s, session, goes_on)
  unfolding handle_round on_reading
  pause_goes_on r s session (part, reading, early) = ground arith

  -- A connection on which the client's `PING`s come in time is kept: as long as less than six seconds
  -- pass between a `PING` and any later read that times out before the next one, the connection never
  -- returns, keeps its client, leaves the quote server alone, and answers each `PING` once, in order.
  pub pings_keep_alive :
      {last : ℕ} {rounds : List (Round p)} (fed : IsFed last rounds) (s : State) (session : Session)
      → session.last_ping ≡ last
      → (session' : Session) × (serve p q rounds s session ≡ some (s, session', goes_on))
        × (session'.client_id ≡ session.client_id)
        × (session'.written ≡ session.written ++ pongs fed)
  pings_keep_alive over s session e =
      (session, unfold serve in refl, refl, sym (append-nil session.written))
  pings_keep_alive (pings r {rounds} (reading, write) rest) s session e =
      let after : Session = record session {
        last_ping = r.now;
        written = session.written ++ codes "PONG\n" ∷ [];
      } in
      let (session', served, own, written) = pings_keep_alive rest s after refl in
      (
        session',
        serve_step r rounds s session after (ping_answer p q r s session reading write) ∙ served,
        own,
        written ∙ append_assoc session.written (codes "PONG\n" ∷ []) (pongs rest),
      )
  pings_keep_alive (pauses r {rounds} (part, reading, early) rest) s session e =
      let (session', served, own, written) = pings_keep_alive rest s session e in
      (
        session',
        serve_step r rounds s session session
              (pause_goes_on r s session (part, reading, rw e early))
            ∙ served,
        own,
        written,
      )
