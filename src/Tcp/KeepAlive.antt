-- ===== src/Tcp/KeepAlive.antt =====
-- The keep-alive check of `handle_connection` in src/tcp_server.rs, and failing reads.
use rust_quote_streamer.Base.{
  ℕ, ◌+◌, ◌-◌, ◌*◌, ◌≤◌, ◌<◌, ◌≡◌, refl, ap, ◌∙◌, Option, none, some, ◌>>=◌, Result, ok, err, arith,
}
use rust_quote_streamer.Text.{Text}
use rust_quote_streamer.Platform.{Platform}
use rust_quote_streamer.Errors.{
  QuoteServerError, TcpServerError, quote_server_error, client_io_error,
}
use rust_quote_streamer.Defs.{client_keep_alive_sec}
use rust_quote_streamer.Tcp.Service.{QuoteService, IsService, SameBut}
use rust_quote_streamer.Tcp.Handlers.{Session, Io}
use rust_quote_streamer.Tcp.Connection.{
  timed_out, failed, Round, Flow, goes_on, returns, After, removal, clean_up, on_reading,
  handle_round,
}

-- Six seconds in nanoseconds.
abbrev pub keep_alive_limit : ℕ
keep_alive_limit = (client_keep_alive_sec + 1) * 1000000000

module _ (p : Platform) (q : QuoteService p) (service : IsService p q) where
  open q use {State, add_client, remove_client, find}
  open service use {IsReady, HasRoom, less_room, added, removed}

  -- The flow after the removal of the client returned.
  abbrev pub ends_with :
      Result TcpServerError (Unit {0}) → Result QuoteServerError (Unit {0}) → Flow
  ends_with result (ok _) = returns result
  ends_with result (err e) = returns (err (quote_server_error e))

  removal_lem :
      (result : Result TcpServerError (Unit {0})) (session : Session) (t : State)
      (r : Result QuoteServerError (Unit {0}))
      → removal p q result session (t, r) ≡ (t, session, ends_with result r)
  unfolding removal
  removal_lem result session t (ok x) = refl
  removal_lem result session t (err x) = refl

  -- A connection that ends with its client removed.
  abbrev pub EndsClean :
      ℕ → State → Session → Result TcpServerError (Unit {0}) → Option (After p q) → Type 0
  EndsClean id s session result call =
      (t : State) × (r : Result QuoteServerError (Unit {0})) × (call
        ≡ some (t, record session { client_id = none }, ends_with result r))
      × (find id t ≡ none)
      × SameBut p q id s t

  clean_up-EndsClean :
      (io : Io p) (result : Result TcpServerError (Unit {0})) (id n : ℕ) (s : State)
      (session : Session)
      → session.client_id ≡ some id
      → IsReady s
      → HasRoom n s
      → EndsClean id s session result (clean_up p q io result session.client_id s session)
  clean_up-EndsClean io result id n s session own ready room =
      let (t, r, e, gone, same, ready', room') = removed io.reads id n s ready room in
      (
        t,
        r,
        ap (λ o. clean_up p q io result o s session) own
            ∙ unfold clean_up in
              (ap
                  (λ call. call >>= λ removed.
                    some (removal p q result (record session { client_id = none }) removed))
                  e
                ∙ ap some (removal_lem result (record session { client_id = none }) t r)),
        gone,
        same,
      )

  -- When a read times out, the connection goes on as it was if less than six seconds have passed since
  -- the last line, whatever its client; and if six seconds or more have passed, a connection with a
  -- client returns, that client has been removed and every other client is as before. The result is
  -- `Ok` unless the removal returned an error, which is passed on.
  pub keep_alive :
      (r : Round p) (part : Text) (id n : ℕ) (s : State) (session : Session)
      → r.reading ≡ timed_out part
      → session.client_id ≡ some id
      → IsReady s
      → HasRoom n s
      → (r.now - session.last_ping < keep_alive_limit
          → handle_round p q r s session ≡ some (s, session, goes_on))
        × (keep_alive_limit ≤ r.now - session.last_ping
            → EndsClean id s session (ok tt) (handle_round p q r s session))
  unfolding handle_round on_reading
  keep_alive r part id n s session reading own ready room = (
    (λ early. ground arith),
    (λ late.
        let (t, res, e, gone, same) =
          clean_up-EndsClean r.io (ok tt) id n s session own ready room in
        (t, res, ground (arith, e), gone, same)),
  )

  -- A read that fails for another reason ends the connection with that error, and with its client
  -- removed; an error of the removal is returned instead.
  read_failure :
      (r : Round p) (x : Text) (id n : ℕ) (s : State) (session : Session)
      → r.reading ≡ failed x
      → session.client_id ≡ some id
      → IsReady s
      → HasRoom n s
      → EndsClean id s session (err (client_io_error x)) (handle_round p q r s session)
  unfolding handle_round on_reading
  read_failure r x id n s session reading own ready room =
      let (t, res, e, gone, same) =
        clean_up-EndsClean r.io (err (client_io_error x)) id n s session own ready room in
      (t, res, ground (arith, e), gone, same)
