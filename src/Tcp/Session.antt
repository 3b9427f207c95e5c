-- ===== src/Tcp/Session.antt =====
-- What a connection does to the clients of others: src/tcp_server.rs.
use rust_quote_streamer.Base.{
  ℕ, suc, ◌-◌, ◌≡◌, refl, List, [], ◌∷◌, Option, none, some, ◌>>=◌, Result, ok, err, inl, inr,
  Bool-cases, length, ltb,
}
use rust_quote_streamer.Text.{Text, codes, trim, is_empty, starts_with, split_whitespace}
use rust_quote_streamer.Platform.{Platform}
use rust_quote_streamer.Errors.{TcpServerError, QuoteServerError, client_io_error}
use rust_quote_streamer.Client.Thread.{send_datagram}
use rust_quote_streamer.Defs.{client_keep_alive_sec}
use rust_quote_streamer.Tcp.Service.{QuoteService, IsService}
use rust_quote_streamer.Tcp.Handlers.{
  Session, Io, Handled, handle_ping, handle_invalid, bound, addressed, with_parts, handle_stream,
  stopped, stop_client, handle_stop,
}
use rust_quote_streamer.Tcp.Connection.{
  ReadLine, eof, line, timed_out, failed, Round, Flow, goes_on, returns, as_secs, propagate,
  dispatch, on_message, removal, clean_up, on_reading, handle_round, unless_returned, serve,
}
use rust_quote_streamer.Tcp.Kept.{
  KeepsOthers, IsKept, Handles, Leads, IsKept-same, reply-Handles, IsKept-added, IsKept-removed,
}

module _ (p : Platform) (q : QuoteService p) (service : IsService p q) where
  open q use {State, add_client, remove_client, find}
  open service use {IsReady, HasRoom, less_room, added, removed}

  bound-Handles :
      (io : Io p) (address : p.SocketAddr) (tickers : List Text) (n : ℕ) (s : State)
      (session : Session) (e : Option Text)
      → IsReady s
      → HasRoom (suc n) s
      → Handles p q service n s session (bound p q io address tickers s session e)
  unfolding bound
  bound-Handles io address tickers n s session (some e) ready room =
      (s, session, _, refl, IsKept-same p q service n s session session ready room refl)
  bound-Handles io address tickers n s session none ready room =
      let (t, id, e, fresh, found, same, ready', room') =
        added io.reads tickers (send_datagram address) n s ready room in
      rw (e, bound)
        (reply-Handles p q service io (codes "STREAM OK\n") n s t session
          (record session { client_id = some id })
          (IsKept-added p q service n id s t session ready' room' fresh (_, found) same))

  addressed-Handles :
      (io : Io p) (address : Option p.SocketAddr) (tickers : List Text) (n : ℕ) (s : State)
      (session : Session)
      → IsReady s
      → HasRoom (suc n) s
      → Handles p q service n s session (addressed p q io address tickers s session)
  unfolding addressed
  addressed-Handles io none tickers n s session ready room =
      (s, session, _, refl, IsKept-same p q service n s session session ready room refl)
  addressed-Handles io (some address) tickers n s session ready room =
      bound-Handles io address tickers n s session io.udp_error ready room

  with_parts-Handles :
      (io : Io p) (parts : List Text) (n : ℕ) (s : State) (session : Session)
      → IsReady s
      → HasRoom (suc n) s
      → Handles p q service n s session (with_parts p q io parts s session)
  unfolding with_parts
  with_parts-Handles io (command ∷ address ∷ ticker ∷ tickers) n s session ready room =
      addressed-Handles io (p.parse_addr address) (ticker ∷ tickers) n s session ready room
  with_parts-Handles io _ n s session ready room =
      (s, session, _, refl, IsKept-same p q service n s session session ready room refl)

  stop_client-Handles :
      (io : Io p) (own : Option ℕ) (n : ℕ) (s : State) (session : Session)
      → session.client_id ≡ own
      → IsReady s
      → HasRoom (suc n) s
      → Handles p q service n s session (stop_client p q io own s session)
  unfolding stop_client
  stop_client-Handles io none n s session own ready room =
      reply-Handles p q service io (codes "STOP OK\n") n s s session session
        (IsKept-same p q service n s session session ready room refl)
  stop_client-Handles io (some id) n s session own ready room =
      let (t, r, e, gone, same, ready', room') =
        removed io.reads id n s ready (less_room n s room) in
      rw (e, stop_client)
        (stopped-Handles io r n s t session
          (IsKept-removed p q service n id s t session own ready' room' same))
    where
      stopped-Handles :
          (io : Io p) (r : Result QuoteServerError (Unit {0})) (n : ℕ) (s t : State)
          (session : Session)
          → IsKept p q service n s session t (record session { client_id = none })
          → Handles p q service n s session
              (some (stopped p q io (record session { client_id = none }) (t, r)))
      stopped-Handles io (ok x) n s t session k =
          reply-Handles p q service io (codes "STOP OK\n") n s t session _ k
      stopped-Handles io (err x) n s t session k = (t, _, _, refl, k)

  propagate-Leads :
      (n : ℕ) (s : State) (session : Session) (call : Option (Handled State))
      → Handles p q service n s session call
      → Leads p q service n s session (call >>= λ handled. some (propagate p q handled))
  propagate-Leads n s session call (t, session', r, e, k) = rw e (one r)
    where
      one :
          (r : Result TcpServerError (Unit {0}))
          → Leads p q service n s session (some (propagate p q (t, session', r)))
      one (ok x) = unfold propagate in (t, session', goes_on, refl, k)
      one (err x) = unfold propagate in (t, session', returns (err x), refl, k)

  dispatch-Handles :
      (io : Io p) (msg : Text) (n : ℕ) (s : State) (session : Session)
      → IsReady s
      → HasRoom (suc n) s
      → Handles p q service n s session (dispatch p q io msg s session)
  unfolding dispatch handle_ping handle_stream handle_stop handle_invalid
  dispatch-Handles io msg n s session ready room =
      let same = IsKept-same p q service n s session session ready room refl in
      elim (Bool-cases (starts_with msg (codes "PING"))) [
        | inl a ↦ rw a (reply-Handles p q service io (codes "PONG\n") n s s session session same)
        | inr a ↦ elim (Bool-cases (starts_with msg (codes "STREAM "))) [
          | inl b ↦ rw (a, b) (with_parts-Handles io (split_whitespace msg) n s session ready room)
          | inr b ↦ elim (Bool-cases (starts_with msg (codes "STOP"))) [
            | inl c ↦
                rw (a, b, c) (stop_client-Handles io session.client_id n s session refl ready room)
            | inr c ↦
                rw (a, b, c)
                  (reply-Handles p q service io (codes "ERR Invalid command\n") n s s session
                    session same)
          ]
        ]
      ]

  on_message-Leads :
      (io : Io p) (msg : Text) (n : ℕ) (s : State) (session : Session)
      → IsReady s
      → HasRoom (suc n) s
      → Leads p q service n s session (on_message p q io msg s session)
  unfolding on_message
  on_message-Leads io msg n s session ready room = elim (Bool-cases (is_empty msg)) [
    | inl blank ↦
        rw blank
          (s, session, goes_on, refl, IsKept-same p q service n s session session ready room refl)
    | inr full ↦
        rw full (propagate-Leads n s session _ (dispatch-Handles io msg n s session ready room))
  ]

  clean_up-Leads :
      (io : Io p) (result : Result TcpServerError (Unit {0})) (own : Option ℕ) (n : ℕ) (s : State)
      (session : Session)
      → session.client_id ≡ own
      → IsReady s
      → HasRoom (suc n) s
      → Leads p q service n s session (clean_up p q io result own s session)
  unfolding clean_up
  clean_up-Leads io result none n s session own ready room = (
    s,
    session,
    returns result,
    refl,
    IsKept-same p q service n s session session ready room refl,
  )
  clean_up-Leads io result (some id) n s session own ready room =
      let (t, r, e, gone, same, ready', room') =
        removed io.reads id n s ready (less_room n s room) in
      rw (e, clean_up)
        (removal-Leads r t (IsKept-removed p q service n id s t session own ready' room' same))
    where
      removal-Leads :
          (r : Result QuoteServerError (Unit {0})) (t : State)
          → IsKept p q service n s session t (record session { client_id = none })
          → Leads p q service n s session
              (some (removal p q result (record session { client_id = none }) (t, r)))
      removal-Leads (ok x) t k = (t, _, _, refl, k)
      removal-Leads (err x) t k = (t, _, _, refl, k)

  on_reading-Leads :
      (io : Io p) (now : ℕ) (reading : ReadLine) (n : ℕ) (s : State) (session : Session)
      → IsReady s
      → HasRoom (suc n) s
      → Leads p q service n s session (on_reading p q io now reading s session)
  unfolding on_reading
  on_reading-Leads io now eof n s session ready room = (
    s,
    session,
    returns (ok tt),
    refl,
    IsKept-same p q service n s session session ready room refl,
  )
  on_reading-Leads io now (line text) n s session ready room =
      let (t, session', flow, e, k) =
        on_message-Leads io (trim text) n s (record session { last_ping = now }) ready room in
      (
        t,
        session',
        flow,
        e,
        record {
          ready = k.ready;
          room = k.room;
          others = k.others;
          owns = k.owns;
          origin = k.origin;
        },
      )
  on_reading-Leads io now (timed_out part) n s session ready room =
      elim (Bool-cases (ltb client_keep_alive_sec (as_secs (now - session.last_ping)))) [
        | inl late ↦
            rw late (clean_up-Leads io (ok tt) session.client_id n s session refl ready room)
        | inr early ↦
            rw early (
              s,
              session,
              goes_on,
              refl,
              IsKept-same p q service n s session session ready room refl,
            )
      ]
  on_reading-Leads io now (failed x) n s session ready room =
      clean_up-Leads io (err (client_io_error x)) session.client_id n s session refl ready room

  -- A round of a connection returns, on a quote server that keeps its contract and has room for one
  -- client more, whatever is read and whatever fails; and every client that is not that of the
  -- connection stays as it is and does not become that of the connection.
  pub handle_round-Leads :
      (r : Round p) (n : ℕ) (s : State) (session : Session)
      → IsReady s
      → HasRoom (suc n) s
      → Leads p q service n s session (handle_round p q r s session)
  unfolding handle_round
  handle_round-Leads r n s session ready room =
      on_reading-Leads r.io r.now r.reading n s session ready room

  -- So it is for any number of rounds, with room for a client in each.
  pub serve-Leads :
      (rounds : List (Round p)) (s : State) (session : Session)
      → IsReady s
      → HasRoom (length rounds) s
      → (t : State) × (session' : Session) × (flow : Flow) × (serve p q rounds s session
          ≡ some (t, session', flow))
        × IsReady t
        × KeepsOthers p q service s session t
  unfolding serve
  serve-Leads [] s session ready room =
      (s, session, goes_on, refl, ready, (λ id c found other. found))
  serve-Leads (r ∷ rounds) s session ready room =
      let (t, session', flow, e, k) = handle_round-Leads r (length rounds) s session ready room in
      rw (e, serve) (rest flow t session' k (serve-Leads rounds t session' k.ready k.room))
    where
      rest :
          (flow : Flow) (t : State) (session' : Session)
          → IsKept p q service (length rounds) s session t session'
          → ((u : State) × (session'' : Session) × (flow' : Flow) × (serve p q rounds t session'
                ≡ some (u, session'', flow'))
              × IsReady u
              × KeepsOthers p q service t session' u)
          → (u : State) × (session'' : Session) × (flow' : Flow) × (unless_returned p q
                (serve p q rounds)
                (t, session', flow)
              ≡ some (u, session'', flow'))
            × IsReady u
            × KeepsOthers p q service s session u
      rest goes_on t session' k (u, session'', flow', e, ready', others) = (
        u,
        session'',
        flow',
        e,
        ready',
        (λ id c found other. others id c (k.others id c found other) (k.owns id c found other)),
      )
      rest (returns x) t session' k later = (t, session', returns x, refl, k.ready, k.others)
