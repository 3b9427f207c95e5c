-- ===== src/System/Progress.antt =====
-- Every call that a thread of the running program can make returns: src/tcp_server.rs,
-- src/quote_server.rs and src/client.rs.
use rust_quote_streamer.Base.{◌<◌, ◌^◌, ℕ, ◌+◌, ◌≡◌, refl, some, Option, List, ◌∷◌, nat_key}
use rust_quote_streamer.HashMap.{get}
use rust_quote_streamer.Platform.{Platform}
use rust_quote_streamer.Client.{Client}
use rust_quote_streamer.Client.Thread.{
  ClientCommand, update, shutdown, Quotes, Worker, on_recv, on_update, stop,
}
use rust_quote_streamer.Server.State.{
  QuoteServer, Phase, at_test, at_sleep, at_update, at_notify, ended,
}
use rust_quote_streamer.Server.Update.{Rayon}
use rust_quote_streamer.Server.Update.Loop.{Sleeps}
use rust_quote_streamer.Server.Background.{Surroundings, background_step}
use rust_quote_streamer.Server.Background.Loop.{update_returns, notify_returns}
use rust_quote_streamer.Tcp.Handlers.{Session}
use rust_quote_streamer.Tcp.Connection.{Round, Flow, handle_round}
use rust_quote_streamer.Tcp.Session.{handle_round-Leads}
use rust_quote_streamer.Tcp.Implements.{quote_server}
use rust_quote_streamer.System.Defs.{running, System, Steps}
use rust_quote_streamer.System.Calls.{IsUp, up-IsService}
use rust_quote_streamer.System.Safety.{IsStarted, reached}

module _ (p : Platform) (run : Rayon p) where
  -- The calls of the three kinds of thread return.
  abbrev pub RoundReturns : QuoteServer p → Round p → Session → Type 0
  RoundReturns s r session =
      (t : QuoteServer p) × (session' : Session) × (flow : Flow) × (handle_round p (quote_server p)
          r s session
        ≡ some (t, session', flow))

  abbrev pub StepReturns : QuoteServer p → Surroundings p → Phase → Type 0
  StepReturns s world phase =
      (t : QuoteServer p) × (phase' : Phase) × (background_step p run world s phase
        ≡ some (t, phase'))

  abbrev pub ReceiveReturns : Worker p → Option (Quotes p) → Type 0
  ReceiveReturns w reading = (w' : Worker p) × (on_recv p reading w w.queue ≡ some w')

  round-RoundReturns :
      (s : QuoteServer p) (r : Round p) (session : Session)
      → IsUp p s s
      → s.clients_count + 1 < 2 ^ 64
      → RoundReturns s r session
  unfolding up-IsService
  round-RoundReturns s r session up room =
      let (t, session', flow, e, k) =
        handle_round-Leads p (quote_server p) (up-IsService p s) r 0 s session up room in
      (t, session', flow, e)

  background_step-StepReturns :
      (world : Surroundings p) (s : QuoteServer p) (phase : Phase)
      → Sleeps world.attempts
      → IsUp p s s
      → StepReturns s world phase
  unfolding background_step
  background_step-StepReturns world s at_test sleeps up = (_, _, refl)
  background_step-StepReturns world s at_sleep sleeps up = (_, _, refl)
  background_step-StepReturns world s at_update sleeps up =
      let (quotes, r, e) = update_returns p run world s sleeps in
      (record s { quotes = quotes }, at_notify, rw (e, background_step))
  background_step-StepReturns world s at_notify sleeps up =
      let (t, r, e, after) = notify_returns p run world s up.valid in
      (t, at_test, rw (e, background_step))
  background_step-StepReturns world s ended sleeps up = (_, _, refl)

  on_recv-ReceiveReturns :
      (reading : Option (Quotes p)) (w : Worker p) (command : ClientCommand)
      (queue : List ClientCommand)
      → w.queue ≡ command ∷ queue
      → ReceiveReturns w reading
  unfolding on_recv
  on_recv-ReceiveReturns reading w update queue e =
      (on_update p (record w { queue = queue }) reading, rw (e, on_recv))
  on_recv-ReceiveReturns reading w shutdown queue e = (stop p w, rw (e, on_recv))

  module _ {n : ℕ} {s t : System p} (start : IsStarted p run (n + 1) s)
      (steps : Steps p run n s t) where
    -- No thread of the program is ever stuck, however the threads are interleaved: in every state
    -- that it reaches with room for one client more, a round of a running connection returns,
    -- whatever it reads; a step of the background thread returns, if each sleep of its lock loop
    -- takes at least its period; and a thread of a client that has a command in its channel processes
    -- it.
    pub no_thread_hangs :
        ((i : ℕ) (r : Round p) (session : Session)
          → get i t.connections ≡ some (running session)
          → RoundReturns t.server r session)
        × ((world : Surroundings p) (phase : Phase)
            → Sleeps world.attempts
            → t.server.bg_thread ≡ some phase
            → StepReturns t.server world phase)
        × ((id : ℕ) (c : Client p) (w : Worker p) (reading : Option (Quotes p))
              (command : ClientCommand) (queue : List ClientCommand)
            → get id t.server.clients ≡ some c
            → c.tx ≡ some w
            → w.queue ≡ command ∷ queue
            → ReceiveReturns w reading)
    no_thread_hangs =
        let h = reached p run start steps in
        (
          (λ i r session standing. round-RoundReturns t.server r session h.up h.room),
          (λ world phase sleeps there.
              background_step-StepReturns world t.server phase sleeps h.up),
          (λ id c w reading command queue found tx e.
              on_recv-ReceiveReturns reading w command queue e),
        )
