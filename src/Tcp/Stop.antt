-- ===== src/Tcp/Stop.antt =====
-- The command `STOP`: `handle_stop` of src/tcp_server.rs.
use rust_quote_streamer.Base.{
  ℕ, ◌≡◌, refl, ap, ◌∙◌, [], ◌∷◌, ◌++◌, none, some, ◌>>=◌, Result, ok, err,
}
use rust_quote_streamer.Text.{codes}
use rust_quote_streamer.Platform.{Platform}
use rust_quote_streamer.Errors.{QuoteServerError, TcpServerError, quote_server_error}
use rust_quote_streamer.Tcp.Service.{QuoteService, IsService, SameBut}
use rust_quote_streamer.Tcp.Handlers.{
  Session, Io, write_all, reply, stopped, stop_client, handle_stop,
}

module _ (p : Platform) (q : QuoteService p) (service : IsService p q) where
  open q use {State, add_client, remove_client, find}
  open service use {IsReady, HasRoom, less_room, added, removed}

  -- The session after a `STOP` with the result of the removal, if the reply can be written: the reply
  -- is written only if the removal returned `Ok`.
  abbrev pub stop_session : Session → Result QuoteServerError (Unit {0}) → Session
  stop_session session (ok _) = record session {
    client_id = none;
    written = session.written ++ codes "STOP OK\n" ∷ [];
  }
  stop_session session (err e) = record session { client_id = none }

  abbrev pub stop_result : Result QuoteServerError (Unit {0}) → Result TcpServerError (Unit {0})
  stop_result (ok _) = ok tt
  stop_result (err e) = err (quote_server_error e)

  stopped_lem :
      (io : Io p) (session : Session) (t : State) (r : Result QuoteServerError (Unit {0}))
      → io.write_error ≡ none
      → stopped p q io (record session { client_id = none }) (t, r)
        ≡ (t, stop_session session r, stop_result r)
  unfolding stopped reply write_all
  stopped_lem io session t (ok x) write = rw write
  stopped_lem io session t (err x) write = refl

  -- `STOP` on a connection with a client returns: that client is removed, every other client stays as
  -- it is, the connection has no client any more, and the reply is `STOP OK` unless the removal
  -- returned an error, which is passed on. A second `STOP` then is answered by `STOP OK` and changes
  -- nothing else.
  pub handle_stop_lem :
      (io io' : Io p) (id n : ℕ) (s : State) (session : Session)
      → session.client_id ≡ some id
      → io.write_error ≡ none
      → io'.write_error ≡ none
      → IsReady s
      → HasRoom n s
      → (t : State) × (r : Result QuoteServerError (Unit {0})) × (handle_stop p q io s session
          ≡ some (t, stop_session session r, stop_result r))
        × (find id t ≡ none)
        × SameBut p q id s t
        × IsReady t
        × (handle_stop p q io' t (stop_session session r)
            ≡ some (
              t,
              record (stop_session session r) {
                written = (stop_session session r).written ++ codes "STOP OK\n" ∷ [];
              },
              ok tt,
            ))
  unfolding handle_stop
  handle_stop_lem io io' id n s session own write write' ready room =
      let (t, r, e, gone, same, ready', room') = removed io.reads id n s ready room in
      (
        t,
        r,
        ap (λ o. stop_client p q io o s session) own ∙ first t r e,
        gone,
        same,
        ready',
        ap (λ o. stop_client p q io' o t (stop_session session r)) (no_client r)
            ∙ unfold stop_client reply write_all in rw write',
      )
    where
      no_client :
          (r : Result QuoteServerError (Unit {0})) → (stop_session session r).client_id ≡ none
      no_client (ok x) = refl
      no_client (err x) = refl

      first :
          (t : State) (r : Result QuoteServerError (Unit {0}))
          → remove_client io.reads id s ≡ some (t, r)
          → stop_client p q io (some id) s session ≡ some (t, stop_session session r, stop_result r)
      first t r e =
          unfold stop_client in
          (ap
              (λ call. call >>= λ removed.
                some (stopped p q io (record session { client_id = none }) removed))
              e
            ∙ ap some (stopped_lem io session t r write))
