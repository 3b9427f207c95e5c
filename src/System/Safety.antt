-- ===== src/System/Safety.antt =====
-- What holds in every state of the running program: src/tcp_server.rs on src/quote_server.rs.
use rust_quote_streamer.Base.{
  ℕ, ◌+◌, ◌^◌, ◌<◌, ◌≡◌, ◌≢◌, refl, sym, ◌∙◌, ap, false, some, [], nat_key, some-eq,
}
use rust_quote_streamer.Text.{Text, text_key}
use rust_quote_streamer.HashMap.{contains_key, get}
use rust_quote_streamer.Platform.{Platform}
use rust_quote_streamer.Server.State.{QuoteServer, Phase, ended}
use rust_quote_streamer.Server.Registry.Valid.{IsValid}
use rust_quote_streamer.Server.Update.{Rayon}
use rust_quote_streamer.Tcp.Handlers.{Session}
use rust_quote_streamer.Tcp.Connection.{Round, Flow, handle_round}
use rust_quote_streamer.Tcp.Implements.{quote_server}
use rust_quote_streamer.System.Defs.{running, System, Steps}
use rust_quote_streamer.System.Owned.{Owns, IsThere}
use rust_quote_streamer.System.Calls.{up-IsService, round-IsKept}
use rust_quote_streamer.System.Sound.{IsRunning, Steps-IsRunning}

module _ (p : Platform) (run : Rayon p) where
  -- The program before the first connection: the server was started and has room for `n` clients more.
  pub record IsStarted (n : ℕ) (s : System p) : Type 0 where
    pub valid : IsValid p s.server
    pub lock : s.server.clients_poisoned ≡ false
    pub flag : s.server.shutdown_flag ≡ false
    pub phase : Phase
    pub thread : s.server.bg_thread ≡ some phase
    pub awake : phase ≢ ended
    pub room : s.server.clients_count + n < 2 ^ 64
    pub no_connections : s.connections ≡ []

  pub IsStarted-IsRunning :
      (n : ℕ) (s : System p)
      → IsStarted n s
      → IsRunning p run (λ x. contains_key x s.server.quotes) n s
  unfolding get
  IsStarted-IsRunning n s h = record {
    up = record { valid = h.valid; lock = h.lock; flag = h.flag; thread = refl; quotes = refl };
    carries = λ x. refl;
    awake = λ over. h.awake (some-eq h.phase ended (sym h.thread ∙ over));
    room = h.room;
    owned = record {
      there = λ i id own. absurd (nobody i id own);
      apart = λ i j id own own'. absurd (nobody i id own);
    };
  }
    where
      nobody : (i id : ℕ) → Owns p i id s.connections → ⊥
      nobody i id (session, found, own) = cc (sym found ∙ ap (get i) h.no_connections)

  module _ {n : ℕ} {s t : System p} (start : IsStarted (n + 1) s) (steps : Steps p run n s t) where
    pub reached : IsRunning p run (λ x. contains_key x s.server.quotes) 1 t
    reached =
        Steps-IsRunning p run (λ x. contains_key x s.server.quotes) 1 steps
          (IsStarted-IsRunning (n + 1) s start)

    -- In every state that the program reaches, however its threads are interleaved, as long as there is
    -- room for the clients, the client of a running connection is registered, and no other running
    -- connection has it.
    clients_apart :
        (i id : ℕ)
        → Owns p i id t.connections
        → IsThere p id t.server.clients × ((j : ℕ) → Owns p j id t.connections → i ≡ j)
    clients_apart i id own =
        let owned = reached.owned in (owned.there i id own, (λ j own'. owned.apart i j id own own'))

    -- In every state that the program reaches, the tickers that have a quote are those of the start.
    pub tickers_stay : (x : Text) → contains_key x t.server.quotes ≡ contains_key x s.server.quotes
    tickers_stay = reached.carries

    -- In every state that the program reaches, the background thread has not ended and nothing has
    -- asked it to: no call of the program shuts the server down.
    never_shuts_down : (t.server.shutdown_flag ≡ false) × (t.server.bg_thread ≢ some ended)
    never_shuts_down = (reached.up.flag, reached.awake)

    -- In every state that the program reaches with room for one client more, a round of a connection,
    -- whatever it reads, leaves the client of every other running connection as it is, and does not
    -- make it its own.
    pub round_spares_others :
        (i j id : ℕ) (r : Round p) (session session' : Session) (u : QuoteServer p) (flow : Flow)
        → get i t.connections ≡ some (running session)
        → handle_round p (quote_server p) r t.server session ≡ some (u, session', flow)
        → i ≢ j
        → Owns p j id t.connections
        → (get id u.clients ≡ get id t.server.clients) × (session'.client_id ≢ some id)
    unfolding up-IsService
    round_spares_others i j id r session session' u flow standing e other own =
        let k =
          round-IsKept p t.server r 0 t.server u session session' flow reached.up reached.room e in
        let (c, found) = reached.owned.there j id own in
        let not_own : session.client_id ≢ some id =
          λ has. other (reached.owned.apart i j id (session, standing, has) own) in
        (k.others id c found not_own ∙ sym found, k.owns id c found not_own)
