-- ===== src/Tcp/Live.antt =====
-- A connection on the quote server itself: src/tcp_server.rs and src/quote_server.rs.
use rust_quote_streamer.Base.{
  ℕ, ◌+◌, ◌^◌, ◌<◌, ◌≡◌, refl, false, List, Option, none, some, length, err, nat_key,
}
use rust_quote_streamer.HashMap.{get}
use rust_quote_streamer.Text.{Text}
use rust_quote_streamer.Platform.{Platform}
use rust_quote_streamer.Errors.{client_io_error}
use rust_quote_streamer.Client.{Client}
use rust_quote_streamer.Server.State.{QuoteServer}
use rust_quote_streamer.Server.Registry.Valid.{IsValid}
use rust_quote_streamer.Tcp.Handlers.{Session}
use rust_quote_streamer.Tcp.Connection.{Round, Flow, returns, handle_connection, new_session}
use rust_quote_streamer.Tcp.Session.{serve-Leads}
use rust_quote_streamer.Tcp.Implements.{quote_server, quote_server-IsService}

module _ (p : Platform) where
  -- What a connection leaves of the server on which it began.
  abbrev pub LeavesServer : QuoteServer p → QuoteServer p → Type 0
  LeavesServer s t =
      IsValid p t
      × ((id : ℕ) (c : Client p) → get id s.clients ≡ some c → get id t.clients ≡ some c)

  -- On a valid quote server whose lock is not poisoned and whose count does not wrap around, a
  -- connection returns from all that it calls, whatever it reads, whatever fails and however many
  -- rounds it makes; the server stays valid, and every client that was there when the connection began
  -- is there as it was.
  pub connection_lem :
      (setup : Option Text) (start : ℕ) (rounds : List (Round p)) (s : QuoteServer p)
      → IsValid p s
      → s.clients_poisoned ≡ false
      → s.clients_count + length rounds < 2 ^ 64
      → (t : QuoteServer p) × (session : Session) × (flow : Flow) × (handle_connection p
            (quote_server p)
            setup
            start
            rounds
            s
          ≡ some (t, session, flow))
        × LeavesServer s t
  unfolding handle_connection quote_server-IsService
  connection_lem (some e) start rounds s valid lock room = (
    s,
    new_session start,
    returns (err (client_io_error e)),
    refl,
    (valid, (λ id c found. found)),
  )
  connection_lem none start rounds s valid lock room =
      let (t, session, flow, e, (valid', lock'), others) =
        serve-Leads p (quote_server p) (quote_server-IsService p) rounds s (new_session start)
          (valid, lock) room in
      (t, session, flow, e, (valid', (λ id c found. others id c found (λ h. cc))))
