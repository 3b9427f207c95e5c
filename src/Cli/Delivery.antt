-- ===== src/Cli/Delivery.antt =====
-- From the command that is typed in bins/client/main.rs to the datagrams that the client's thread of
-- src/client.rs hands to `send_to`.
use mathlib.Core.Option
use rust_quote_streamer.Base.{
  ℕ, ◌+◌, ◌^◌, ◌<◌, ◌≡◌, refl, ap, ◌∙◌, true, false, List, [], ◌∷◌, ◌++◌, map, All, none, some, ok,
  nat_key,
}
use rust_quote_streamer.HashMap.{get, get-map_values}
use rust_quote_streamer.Text.{Text, codes, as_bytes, IsWord, IsBlank, spaced, is_whitespace}
use rust_quote_streamer.Platform.{Platform}
use rust_quote_streamer.Client
use rust_quote_streamer.Client.{Client}
use rust_quote_streamer.Client.Thread.{
  Callback, send_datagram, call, send_calls, fresh, update, Quotes, Reads, Worker, on_recv,
}
use rust_quote_streamer.Client.Delivery.{Returns, messages}
use rust_quote_streamer.Client.Join.{on_update-Returns}
use rust_quote_streamer.Server.State.{QuoteServer}
use rust_quote_streamer.Server.Registry.{notify_clients}
use rust_quote_streamer.Server.Registry.Valid.{IsValid, new_client, told, notify_clients_lem}
use rust_quote_streamer.Tcp.Handlers.{Session}
use rust_quote_streamer.Tcp.Connection.{line, Round, goes_on, handle_round}
use rust_quote_streamer.Tcp.Stream.{IsStream, stream_registers}
use rust_quote_streamer.Tcp.Implements.{quote_server, quote_server-IsService}
use rust_quote_streamer.Cli.Exchange.{Exchange, send_command}
use rust_quote_streamer.Cli.Protocol.{Writes, send_command-stream}

module _ (p : Platform) where
  -- What the calls of a callback hand to `send_to`.
  abbrev pub handed_by : Callback p → List Text → List (p.SocketAddr × List ℕ)
  handed_by callback [] = []
  handed_by callback (m ∷ ms) = send_calls p callback m ++ handed_by callback ms

  handed_by-send_datagram :
      (address : p.SocketAddr) (ms : List Text)
      → handed_by (send_datagram address) ms ≡ map (λ m. (address, as_bytes m)) ms
  unfolding send_calls
  handed_by-send_datagram address [] = refl
  handed_by-send_datagram address (m ∷ ms) =
      ap (λ l. (address, as_bytes m) ∷ l) (handed_by-send_datagram address ms)

  -- A command `STREAM` as it is typed, and the round of the server that reads it.
  pub record IsTyped (x : Exchange) (r : Round p) : Type 0 where
    pub address_text : Text
    pub address : p.SocketAddr
    pub ticker : Text
    pub tickers : List Text
    pub address_word : IsWord address_text
    pub ticker_word : IsWord ticker
    pub ticker_words : All IsWord tickers
    pub parsed : p.parse_addr address_text ≡ some address
    pub writes : Writes x
    pub read :
        r.reading
        ≡ line (send_command x (codes "STREAM" ++ spaced (address_text ∷ ticker ∷ tickers))).0
    pub socket : r.io.udp_error ≡ none
    pub write : r.io.write_error ≡ none

  newline-IsBlank : IsBlank (codes "\n")
  unfolding is_whitespace
  newline-IsBlank = (refl, tt)

  IsTyped-IsStream : (x : Exchange) (r : Round p) → IsTyped x r → IsStream p r
  IsTyped-IsStream x r i = record {
    address_text = i.address_text;
    address = i.address;
    ticker = i.ticker;
    tickers = i.tickers;
    tail = codes "\n";
    address_word = i.address_word;
    ticker_word = i.ticker_word;
    ticker_words = i.ticker_words;
    blank = newline-IsBlank;
    parsed = i.parsed;
    read = i.read ∙ ap line (send_command-stream x i.address_text (i.ticker ∷ i.tickers) i.writes);
    socket = i.socket;
    write = i.write;
  }

  abbrev notified_worker : List Text → Callback p → Worker p
  notified_worker tickers callback = record {
    tickers = tickers;
    callback = callback;
    queue = update ∷ [];
    connected = true;
    running = true;
    calls = [];
  }

  told-new_client :
      (tickers : List Text) (callback : Callback p)
      → (told p (new_client p tickers callback)).tx ≡ some (notified_worker tickers callback)
  unfolding Client.start Client.new fresh
  told-new_client tickers callback = refl

  call-Returns : (address : p.SocketAddr) → Returns (call p (send_datagram address))
  unfolding call
  call-Returns address m = (ok tt, refl)

  receive-notified :
      (tickers : List Text) (address : p.SocketAddr) (quotes : Quotes p)
      → on_recv p (some quotes) (notified_worker tickers (send_datagram address)) (update ∷ [])
        ≡ some (record (notified_worker tickers (send_datagram address)) {
          queue = [];
          calls = messages p quotes tickers;
        })
  unfolding on_recv
  receive-notified tickers address quotes = ap some (
      on_update-Returns p (record (notified_worker tickers (send_datagram address)) { queue = [] })
        (some quotes) (call-Returns address))

  -- What is left after the command: a new client under a number, its thread, and what the thread sends
  -- when it processes the first notification.
  pub record Reaches (s : QuoteServer p) (session : Session) (x : Exchange) (r : Round p)
      (i : IsTyped x r) (reads : Reads p) (quotes : Quotes p) : Type 0 where
    pub registered : QuoteServer p
    pub id : ℕ
    pub session' : Session
    pub handled : handle_round p (quote_server p) r s session ≡ some (registered, session', goes_on)
    pub owns : session'.client_id ≡ some id
    pub notified : QuoteServer p
    pub notifies : notify_clients p reads registered ≡ some (notified, ok tt)
    pub client : Client p
    pub found : get id notified.clients ≡ some client
    pub before : Worker p
    pub thread : client.tx ≡ some before
    pub after : Worker p
    pub receives : on_recv p (some quotes) before before.queue ≡ some after
    pub hands :
        handed_by after.callback after.calls
        ≡ map (λ m. (i.address, as_bytes m)) (messages p quotes (i.ticker ∷ i.tickers))

  -- A command `STREAM` that is typed at the console of the client, and is written and read without an
  -- error, leads to its quotes: the round of the server that reads it registers a client of
  -- the connection; the next notification returns and reaches the thread of that client; and the thread
  -- then calls `send_to`, whose result it ignores, with the address of the command and the JSON of each
  -- ticker of the command that has a quote, in the order of the command, once, and with nothing else.
  pub quotes_reach_client :
      (s : QuoteServer p) (session : Session) (x : Exchange) (r : Round p) (i : IsTyped x r)
      (reads : Reads p) (quotes : Quotes p)
      → IsValid p s
      → s.clients_poisoned ≡ false
      → s.clients_count + 1 < 2 ^ 64
      → Reaches s session x r i reads quotes
  unfolding quote_server-IsService IsTyped-IsStream
  quotes_reach_client s session x r i reads quotes valid lock room =
      let (t, id, e, fresh, found, same, (valid', lock'), room') =
        stream_registers p (quote_server p) (quote_server-IsService p) r (IsTyped-IsStream x r i) 0
          s session (valid, lock) room in
      let (u, notifies, told_all, valid'') = notify_clients_lem p reads t valid' lock' in
      record {
        registered = t;
        id = id;
        session' = _;
        handled = e;
        owns = refl;
        notified = u;
        notifies = notifies;
        client = told p (new_client p (i.ticker ∷ i.tickers) (send_datagram i.address));
        found =
            ap (λ (y : QuoteServer p). get id y.clients) told_all
            ∙ get-map_values (λ _ c. told p c) id t.clients
            ∙ ap (Option.map (told p)) found;
        before = notified_worker (i.ticker ∷ i.tickers) (send_datagram i.address);
        thread = told-new_client (i.ticker ∷ i.tickers) (send_datagram i.address);
        after = _;
        receives = receive-notified (i.ticker ∷ i.tickers) i.address quotes;
        hands = handed_by-send_datagram i.address (messages p quotes (i.ticker ∷ i.tickers));
      }
