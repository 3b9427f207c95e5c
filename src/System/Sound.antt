-- ===== src/System/Sound.antt =====
-- The invariant of the running program, and that each step keeps it.
use rust_quote_streamer.Base.{
  Bool, subst, ℕ, suc, ◌+◌, ◌^◌, ◌<◌, ◌≡◌, ◌≢◌, refl, sym, ap, ◌∙◌, inl, inr, true, none, some,
  Option, arith, some-eq, nat_key,
}
use rust_quote_streamer.System.Tick.{tick-AfterTick}
use rust_quote_streamer.HashMap.{contains_key, get, insert, get-insert_there}
use rust_quote_streamer.HashMap.Entries.{Entries-insert, Entries-get}
use rust_quote_streamer.Text.{Text, text_key}
use rust_quote_streamer.Platform.{Platform}
use rust_quote_streamer.Client.{Client}
use rust_quote_streamer.Client.Thread.{Worker}
use rust_quote_streamer.Client.Shutdown.{IsSound, started, down}
use rust_quote_streamer.Server.State.{QuoteServer, Phase, ended}
use rust_quote_streamer.Server.Registry.Valid.{IsRegistered}
use rust_quote_streamer.Server.Update.{Rayon}
use rust_quote_streamer.Server.Background.{Surroundings, background_step}
use rust_quote_streamer.Tcp.Handlers.{Session}
use rust_quote_streamer.Tcp.Connection.{Round, Flow, handle_round}
use rust_quote_streamer.Tcp.Kept.{IsKept}
use rust_quote_streamer.Tcp.Implements.{quote_server}
use rust_quote_streamer.System.Calls.{IsUp, up-IsService, round-IsKept}
use rust_quote_streamer.System.Defs.{
  running, begun, after_flow, System, Step, accept, round, tick, receive, Steps, here, more,
}
use rust_quote_streamer.System.Owned.{
  IsOwned, IsThere, Owns, insert-IsOwned, after_flow-client_id, IsOwned-clients, begun-IsOwned,
}

module _ (p : Platform) (run : Rayon p) (tickers : Text → Bool) where
  -- The server is in use with these tickers, its thread has not ended, there is room for `n` clients
  -- more, and every running connection has its client to itself.
  pub record IsRunning (n : ℕ) (s : System p) : Type 0 where
    pub up : IsUp p s.server s.server
    pub carries : (x : Text) → contains_key x s.server.quotes ≡ tickers x
    pub awake : s.server.bg_thread ≢ some ended
    pub room : s.server.clients_count + n < 2 ^ 64
    pub owned : IsOwned p s.server.clients s.connections

  accept-IsRunning :
      (n i start : ℕ) (setup : Option Text) (s : System p)
      → get i s.connections ≡ none
      → IsRunning (suc n) s
      → IsRunning n (record s { connections = insert i (begun setup start) s.connections })
  accept-IsRunning n i start setup s free h = record {
    up = h.up;
    carries = h.carries;
    awake = h.awake;
    room = omega (arith, h.room);
    owned = begun-IsOwned p i start setup s.server.clients s.connections free h.owned;
  }

  round-IsOwned :
      (n i : ℕ) (s : System p) (session session' : Session) (t : QuoteServer p) (flow : Flow)
      → get i s.connections ≡ some (running session)
      → IsOwned p s.server.clients s.connections
      → IsKept p (quote_server p) (up-IsService p s.server) n s.server session t session'
      → IsOwned p t.clients (insert i (after_flow session' flow) s.connections)
  round-IsOwned n i s session session' t flow standing owned k =
      insert-IsOwned p i (after_flow session' flow) s.connections s.server.clients t.clients owned
        (λ j id other own.
          let (c, found) = owned.there j id own in
          (c, k.others id c found (λ e. other (owned.apart i j id (session, standing, e) own))))
        (λ session'' id e has. mine id (after_flow-client_id p flow session' session'' id e has))
    where
      mine :
          (id : ℕ)
          → session'.client_id ≡ some id
          → IsThere p id t.clients × ((j : ℕ) → Owns p j id s.connections → i ≡ j)
      mine id has = elim (k.origin id has) [
        | inl (before, same) ↦
            let (c, found) = owned.there i id (session, standing, before) in
            ((c, same ∙ found), (λ j own. owned.apart i j id (session, standing, before) own))
        | inr (fresh, c, found) ↦
            ((c, found), (λ j own. let (d, there) = owned.there j id own in cc (sym fresh ∙ there)))
      ]

  round-IsRunning :
      (n i : ℕ) (s : System p) (r : Round p) (session session' : Session) (t : QuoteServer p)
      (flow : Flow)
      → get i s.connections ≡ some (running session)
      → handle_round p (quote_server p) r s.server session ≡ some (t, session', flow)
      → IsRunning (suc n) s
      → IsRunning n
          (record { server = t; connections = insert i (after_flow session' flow) s.connections })
  unfolding up-IsService
  round-IsRunning n i s r session session' t flow standing e h =
      let k = round-IsKept p s.server r n s.server t session session' flow h.up h.room e in
      record {
        up = record {
          valid = k.ready.valid;
          lock = k.ready.lock;
          flag = k.ready.flag;
          thread = refl;
          quotes = refl;
        };
        carries = λ x. ap (contains_key x) k.ready.quotes ∙ h.carries x;
        awake = λ over. h.awake (sym k.ready.thread ∙ over);
        room = k.room;
        owned = round-IsOwned n i s session session' t flow standing h.owned k;
      }

  -- The threads of the clients change under their numbers.
  receive-IsRunning :
      (n id : ℕ) (s : System p) (c : Client p) (w w' : Worker p)
      → get id s.server.clients ≡ some c
      → c.tx ≡ some w
      → IsRunning (suc n) s
      → IsRunning n (record s {
        server = record s.server {
          clients = insert id (record c { tx = some w' }) s.server.clients;
        };
      })
  receive-IsRunning n id s c w w' found tx h =
      let registered =
        Entries-get (IsRegistered p s.server.clients_count) id c s.server.clients
          h.up.valid.registered found in
      record {
        up = record {
          valid = record {
            registered =
                Entries-insert (IsRegistered p s.server.clients_count) id
                  (record c { tx = some w' }) s.server.clients
                  (registered.0, started w' refl (has_handle registered.1)) h.up.valid.registered;
          };
          lock = h.up.lock;
          flag = h.up.flag;
          thread = refl;
          quotes = refl;
        };
        carries = h.carries;
        awake = h.awake;
        room = omega (arith, h.room);
        owned = IsOwned-clients p s.server.clients _ s.connections still_there h.owned;
      }
    where
      has_handle : IsSound p c → c.thread_handle ≡ true
      has_handle (started v e handle) = handle
      has_handle (down e handle) = cc (sym tx ∙ e)

      still_there :
          (j : ℕ)
          → IsThere p j s.server.clients
          → IsThere p j (insert id (record c { tx = some w' }) s.server.clients)
      still_there j (d, there) =
          get-insert_there id j (record c { tx = some w' }) d s.server.clients there

  tick-IsRunning :
      (n : ℕ) (world : Surroundings p) (phase phase' : Phase) (s : System p) (t : QuoteServer p)
      → s.server.bg_thread ≡ some phase
      → background_step p run world s.server phase ≡ some (t, phase')
      → IsRunning (suc n) s
      → IsRunning n (record s { server = record t { bg_thread = some phase' } })
  tick-IsRunning n world phase phase' s t there e h =
      let (awake, up, count, keeps, keys) =
        tick-AfterTick p run world phase phase' s.server t (λ over. h.awake (there ∙ ap some over))
          h.up e in
      record {
        up = record {
          valid = record { registered = up.valid.registered };
          lock = up.lock;
          flag = up.flag;
          thread = refl;
          quotes = refl;
        };
        carries = λ x. keys x ∙ h.carries x;
        awake = λ over. awake (some-eq phase' ended over);
        room = omega (arith, h.room, count);
        owned = IsOwned-clients p s.server.clients t.clients s.connections keeps h.owned;
      }

  -- Every step keeps the invariant, and takes room for one client at most.
  pub Step-IsRunning :
      {s t : System p} (n : ℕ) → Step p run s t → IsRunning (suc n) s → IsRunning n t
  Step-IsRunning n (accept i start setup free) h = accept-IsRunning n i start setup _ free h
  Step-IsRunning n (round i r session session' t flow standing e) h =
      round-IsRunning n i _ r session session' t flow standing e h
  Step-IsRunning n (tick world phase phase' t there e) h =
      tick-IsRunning n world phase phase' _ t there e h
  Step-IsRunning n (receive id c w w' reading found tx on e) h =
      receive-IsRunning n id _ c w w' found tx h

  -- So it is after any number of steps, each of which takes room for one client at most.
  pub Steps-IsRunning :
      {n : ℕ} {s t : System p} (m : ℕ) → Steps p run n s t → IsRunning (n + m) s → IsRunning m t
  Steps-IsRunning {s} m here h = subst (λ k. IsRunning k s) (omega arith) h
  Steps-IsRunning {s} m (more {n} step steps) h =
      Steps-IsRunning m steps
        (Step-IsRunning (n + m) step (subst (λ k. IsRunning k s) (omega arith) h))
