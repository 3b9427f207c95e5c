-- ===== src/System/Orphans.antt =====
-- Clients that no connection has any more: src/tcp_server.rs on src/quote_server.rs.
use rust_quote_streamer.Base.{
  Bool, true, false, ℕ, suc, ◌+◌, ◌≡◌, ◌≢◌, ap, ◌∙◌, inl, inr, some, ok, nat_key,
}
use rust_quote_streamer.HashMap.{get, insert, contains_key, get-insert_there}
use rust_quote_streamer.Text.{Text, text_key}
use rust_quote_streamer.Platform.{Platform}
use rust_quote_streamer.Server.State.{QuoteServer}
use rust_quote_streamer.Server.Update.{Rayon}
use rust_quote_streamer.Tcp.Handlers.{Session}
use rust_quote_streamer.Tcp.Connection.{eof, Round, Flow, returns, on_reading, handle_round}
use rust_quote_streamer.Tcp.Implements.{quote_server}
use rust_quote_streamer.System.Defs.{
  Connection, running, returned, begun, after_flow, System, Step, accept, round, tick, receive,
  Steps, here, more,
}
use rust_quote_streamer.System.Owned.{
  Owns, IsThere, Owns-insert_cases, begun-client_id, after_flow-client_id,
}
use rust_quote_streamer.System.Calls.{up-IsService, round-IsKept}
use rust_quote_streamer.System.Tick.{tick-AfterTick}
use rust_quote_streamer.System.Sound.{IsRunning, Step-IsRunning, Steps-IsRunning}
use rust_quote_streamer.System.Safety.{IsStarted, IsStarted-IsRunning}

module _ (p : Platform) (run : Rayon p) (tickers : Text → Bool) where
  -- A client that is registered and that no running connection has.
  pub record IsOrphan (id : ℕ) (s : System p) : Type 0 where
    pub there : IsThere p id s.server.clients
    pub nobody : (i : ℕ) → Owns p i id s.connections → ⊥

  round-IsOrphan :
      (n i id : ℕ) (s : System p) (r : Round p) (session session' : Session) (t : QuoteServer p)
      (flow : Flow)
      → get i s.connections ≡ some (running session)
      → handle_round p (quote_server p) r s.server session ≡ some (t, session', flow)
      → IsRunning p run tickers (suc n) s
      → IsOrphan id s
      → IsOrphan id
          (record { server = t; connections = insert i (after_flow session' flow) s.connections })
  unfolding up-IsService
  round-IsOrphan n i id s r session session' t flow standing e h o =
      let k = round-IsKept p s.server r n s.server t session session' flow h.up h.room e in
      let (c, found) = o.there in
      let not_own : session.client_id ≢ some id = λ has. o.nobody i (session, standing, has) in
      record {
        there = (c, k.others id c found not_own);
        nobody = λ j own.
            elim (Owns-insert_cases p i (after_flow session' flow) s.connections j id own) [
              | inl (same, session'', runs, has) ↦
                  k.owns id c found not_own
                    (after_flow-client_id p flow session' session'' id runs has)
              | inr (other, own') ↦ o.nobody j own'
            ];
      }

  Step-IsOrphan :
      {s t : System p} (n id : ℕ)
      → Step p run s t
      → IsRunning p run tickers (suc n) s
      → IsOrphan id s
      → IsOrphan id t
  Step-IsOrphan {s} n id (accept i start setup free) h o = record {
    there = o.there;
    nobody = λ j own. elim (Owns-insert_cases p i (begun setup start) s.connections j id own) [
      | inl (same, session, runs, has) ↦ begun-client_id p setup start session id runs has
      | inr (other, own') ↦ o.nobody j own'
    ];
  }
  Step-IsOrphan {s} n id (round i r session session' t flow standing e) h o =
      round-IsOrphan n i id s r session session' t flow standing e h o
  Step-IsOrphan {s} n id (tick world phase phase' t at e) h o =
      let (awake, up, count, keeps, keys) =
        tick-AfterTick p run world phase phase' s.server t (λ over. h.awake (at ∙ ap some over))
          h.up e in
      record { there = keeps id o.there; nobody = o.nobody }
  Step-IsOrphan {s} n id (receive j c w w' reading found tx on e) h o =
      let (d, there) = o.there in
      record {
        there = get-insert_there j id (record c { tx = some w' }) d s.server.clients there;
        nobody = o.nobody;
      }

  Steps-IsOrphan :
      {m : ℕ} {s t : System p} (id : ℕ)
      → Steps p run m s t
      → IsRunning p run tickers m s
      → IsOrphan id s
      → IsOrphan id t
  Steps-IsOrphan id here h o = o
  Steps-IsOrphan id (more {n} step steps) h o =
      Steps-IsOrphan id steps (Step-IsRunning p run tickers n step h) (Step-IsOrphan n id step h o)

module _ (p : Platform) (run : Rayon p) where
  eof_round :
      (s : QuoteServer p) (r : Round p) (session : Session)
      → r.reading ≡ eof
      → handle_round p (quote_server p) r s session ≡ some (s, session, returns (ok tt))
  unfolding handle_round on_reading
  eof_round s r session reading = rw reading

  returned-IsOrphan :
      (tickers : Text → Bool) (n i id : ℕ) (s : System p) (session : Session)
      → get i s.connections ≡ some (running session)
      → session.client_id ≡ some id
      → IsRunning p run tickers n s
      → IsOrphan p run tickers id
          (record s { connections = insert i (returned session (ok tt)) s.connections })
  returned-IsOrphan tickers n i id s session standing own h = record {
    there = h.owned.there i id (session, standing, own);
    nobody = λ j has.
        elim (Owns-insert_cases p i (returned session (ok tt)) s.connections j id has) [
          | inl (same, session', runs, has') ↦ not_running runs
          | inr (other, has') ↦ other (h.owned.apart i j id (session, standing, own) has')
        ];
  }
    where
      is_running : Connection → Bool
      is_running (running session) = true
      is_running (returned session result) = false

      not_running : {session' : Session} → returned session (ok tt) ≡ running session' → ⊥
      not_running e = cc

  -- A client whose peer closes the connection is never removed again: in every state that the program
  -- reaches, if a running connection with a client meets the end of its stream, its round returns
  -- `Ok` and changes nothing of the server; and after any number of further steps of any of the
  -- threads, as long as there is room for the clients, the client is still registered, and no running
  -- connection has it, so that no `STOP` and no timeout can remove it.
  pub disconnected_for_ever :
      {n m : ℕ} {s t u : System p} (start : IsStarted p run (n + suc m) s)
      (steps : Steps p run n s t) (i id : ℕ) (r : Round p) (session : Session)
      → get i t.connections ≡ some (running session)
      → session.client_id ≡ some id
      → r.reading ≡ eof
      → Steps p run m
          (record t { connections = insert i (returned session (ok tt)) t.connections })
          u
      → (handle_round p (quote_server p) r t.server session
          ≡ some (t.server, session, returns (ok tt)))
        × IsThere p id u.server.clients
        × ((j : ℕ) → Owns p j id u.connections → ⊥)
  disconnected_for_ever {n} {m} {s} {t} {u} start steps i id r session standing own reading later =
      let tickers : Text → Bool = λ x. contains_key x s.server.quotes in
      let e = eof_round t.server r session reading in
      let h : IsRunning p run tickers (suc m) t =
        Steps-IsRunning p run tickers (suc m) steps
          (IsStarted-IsRunning p run (n + suc m) s start) in
      let h' =
        Step-IsRunning p run tickers m
          (round i r session session t.server (returns (ok tt)) standing e) h in
      let o =
        Steps-IsOrphan p run tickers id later h'
          (returned-IsOrphan tickers (suc m) i id t session standing own h) in
      (e, o.there, o.nobody)
