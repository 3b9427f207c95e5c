-- ===== src/System/Defs.antt =====
-- The states and the steps of the running program.
use rust_quote_streamer.Base.{
  ℕ, zero, suc, ◌≡◌, List, Option, none, some, true, Result, err, nat_key,
}
use rust_quote_streamer.HashMap.{get, insert}
use rust_quote_streamer.Text.{Text}
use rust_quote_streamer.Platform.{Platform}
use rust_quote_streamer.Errors.{TcpServerError, client_io_error}
use rust_quote_streamer.Client.{Client}
use rust_quote_streamer.Client.Thread.{Quotes, Worker, on_recv}
use rust_quote_streamer.Server.State.{QuoteServer, Phase}
use rust_quote_streamer.Server.Update.{Rayon}
use rust_quote_streamer.Server.Background.{Surroundings, background_step}
use rust_quote_streamer.Tcp.Handlers.{Session}
use rust_quote_streamer.Tcp.Connection.{Round, Flow, goes_on, returns, new_session, handle_round}
use rust_quote_streamer.Tcp.Implements.{quote_server}

-- The thread of a connection: in its loop, or returned.
pub data Connection : Type 0 where
  running : Session → Connection
  returned : Session → Result TcpServerError (Unit {0}) → Connection

-- `setup` is the error of cloning the stream or of setting its timeout, if any.
abbrev pub begun : Option Text → ℕ → Connection
begun none start = running (new_session start)
begun (some e) start = returned (new_session start) (err (client_io_error e))

abbrev pub after_flow : Session → Flow → Connection
after_flow session goes_on = running session
after_flow session (returns result) = returned session result

module _ (p : Platform) where
  -- The connections by number, in the order in which they were accepted.
  pub record System : Type 0 where
    pub server : QuoteServer p
    pub connections : List (ℕ × Connection)

  module _ (run : Rayon p) where
    -- One step of one thread; what it meets outside is free.
    pub data Step (s : System) : System → Type 0 where
      accept :
          (i start : ℕ) (setup : Option Text)
          → get i s.connections ≡ none
          → Step s (record s { connections = insert i (begun setup start) s.connections })
      round :
          (i : ℕ) (r : Round p) (session session' : Session) (t : QuoteServer p) (flow : Flow)
          → get i s.connections ≡ some (running session)
          → handle_round p (quote_server p) r s.server session ≡ some (t, session', flow)
          → Step s (record {
            server = t;
            connections = insert i (after_flow session' flow) s.connections;
          })
      tick :
          (world : Surroundings p) (phase phase' : Phase) (t : QuoteServer p)
          → s.server.bg_thread ≡ some phase
          → background_step p run world s.server phase ≡ some (t, phase')
          → Step s (record s { server = record t { bg_thread = some phase' } })
      receive :
          (id : ℕ) (c : Client p) (w w' : Worker p) (reading : Option (Quotes p))
          → get id s.server.clients ≡ some c
          → c.tx ≡ some w
          → w.running ≡ true
          → on_recv p reading w w.queue ≡ some w'
          → Step s (record s {
            server = record s.server {
              clients = insert id (record c { tx = some w' }) s.server.clients;
            };
          })

    -- A number of steps.
    pub data Steps : ℕ → System → System → Type 0 where
      here : {s : System} → Steps zero s s
      more : {n : ℕ} {s t u : System} → Step s t → Steps n t u → Steps (suc n) s u
