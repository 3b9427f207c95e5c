-- ===== src/Tcp/Leaks.antt =====
-- Connections that end or go on in unusual ways: src/tcp_server.rs.
use rust_quote_streamer.Base.{
  ℕ, suc, ◌≡◌, refl, sym, subst, ap, ◌∙◌, ◌≢◌, List, ◌∷◌, Option, none, some, ◌>>=◌, Result, ok,
  arith, length,
}
use rust_quote_streamer.Platform.{Platform}
use rust_quote_streamer.Errors.{TcpServerError}
use rust_quote_streamer.Client.{Client}
use rust_quote_streamer.Client.Thread.{send_datagram}
use rust_quote_streamer.Server.Registry.Valid.{new_client}
use rust_quote_streamer.Tcp.Service.{QuoteService, IsService}
use rust_quote_streamer.Tcp.Handlers.{Session}
use rust_quote_streamer.Tcp.Connection.{
  eof, Round, Flow, goes_on, returns, on_reading, handle_round, unless_returned, serve,
  handle_connection, new_session,
}
use rust_quote_streamer.Tcp.Stream.{IsStream, stream_registers}
use rust_quote_streamer.Tcp.Session.{serve-Leads}

module _ (p : Platform) (q : QuoteService p) (service : IsService p q) where
  open q use {State, add_client, remove_client, find}
  open service use {IsReady, HasRoom, less_room, added, removed}

  serve-goes_on :
      (r : Round p) (rounds : List (Round p)) (s t : State) (session session' : Session)
      → handle_round p q r s session ≡ some (t, session', goes_on)
      → serve p q (r ∷ rounds) s session ≡ serve p q rounds t session'
  unfolding serve
  serve-goes_on r rounds s t session session' e =
      ap (λ call. call >>= unless_returned p q (serve p q rounds)) e

  serve-returns :
      (r : Round p) (rounds : List (Round p)) (s t : State) (session session' : Session)
      (result : Result TcpServerError (Unit {0}))
      → handle_round p q r s session ≡ some (t, session', returns result)
      → serve p q (r ∷ rounds) s session ≡ some (t, session', returns result)
  unfolding serve
  serve-returns r rounds s t session session' result e =
      ap (λ call. call >>= unless_returned p q (serve p q rounds)) e

  handle_round-eof :
      (r : Round p) (s : State) (session : Session)
      → r.reading ≡ eof
      → handle_round p q r s session ≡ some (s, session, returns (ok tt))
  unfolding handle_round on_reading
  handle_round-eof r s session e = rw e

  -- The client of a connection outlives it: if the first thing that a connection reads is a command
  -- `STREAM` that is carried out, and the second is the end of the stream, then the connection returns
  -- `Ok`, and the client that the command registered is still there, started and with its callback.
  disconnect_leaks :
      (first second : Round p) (i : IsStream p first) (rounds : List (Round p)) (start n : ℕ)
      (s : State)
      → second.reading ≡ eof
      → IsReady s
      → HasRoom (suc n) s
      → (t : State) × (id : ℕ) × (session : Session) × (handle_connection p q none start
            (first ∷ second ∷ rounds)
            s
          ≡ some (t, session, returns (ok tt)))
        × (session.client_id ≡ some id)
        × (find id s ≡ none)
        × (find id t ≡ some (new_client p (i.ticker ∷ i.tickers) (send_datagram i.address)))
  unfolding handle_connection
  disconnect_leaks first second i rounds start n s end ready room =
      let (t, id, e, fresh, found, same, ready', room') =
        stream_registers p q service first i n s (new_session start) ready room in
      (
        t,
        id,
        _,
        serve-goes_on first (second ∷ rounds) s t (new_session start) _ e
            ∙ serve-returns second rounds t t _ _ (ok tt) (handle_round-eof second t _ end),
        refl,
        fresh,
        found,
      )

  -- A second `STREAM` on a connection orphans the client of the first: whatever the connection reads
  -- afterwards, `STOP` and timeouts included, the old client stays registered as it was.
  pub second_stream_orphans :
      (r : Round p) (i : IsStream p r) (rounds : List (Round p)) (old : ℕ) (c : Client p)
      (s : State) (session : Session)
      → session.client_id ≡ some old
      → find old s ≡ some c
      → IsReady s
      → HasRoom (suc (length rounds)) s
      → (t : State) × (session' : Session) × (flow : Flow) × (serve p q (r ∷ rounds) s session
          ≡ some (t, session', flow))
        × (find old t ≡ some c)
  second_stream_orphans r i rounds old c s session own there ready room =
      let (t, id, e, fresh, found, same, ready', room') =
        stream_registers p q service r i (length rounds) s session ready room in
      let other = other_number id fresh in
      let (u, session', flow, e', ready'', others) =
        serve-Leads p q service rounds t _ ready' room' in
      (
        u,
        session',
        flow,
        serve-goes_on r rounds s t session _ e ∙ e',
        others old c (same old (λ h. other (sym h)) ∙ there) (λ h. other (some_eq id old h)),
      )
    where
      some_eq : (a b : ℕ) → ◌≡◌ {A = Option ℕ} (some a) (some b) → a ≡ b
      some_eq a b h = ground arith

      other_number : (id : ℕ) → find id s ≡ none → id ≢ old
      other_number id fresh h = cc (sym there ∙ subst (λ k. find k s ≡ none) h fresh)
