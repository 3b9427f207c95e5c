-- ===== src/Server/Registry/Valid.antt =====
-- The invariant of the map of clients, `add_client` and `notify_clients`: src/quote_server.rs.
use rust_quote_streamer.Base.{
  ℕ, ◌+◌, ◌^◌, ◌<◌, ◌≡◌, refl, ◌∙◌, ◌≢◌, false, List, [], ◌∷◌, ◌++◌, Option, none, some, Result, ok,
  err, arith, inl, inr, Option-cases, Bool-cases, if◌then◌else◌, nat_key,
}
use rust_quote_streamer.HashMap.{get, insert, map_values, get-insert, get-insert_self}
use rust_quote_streamer.HashMap.Entries.{Entries, Entries-insert, Entries-get, Entries-map_values}
use rust_quote_streamer.Text.{Text}
use rust_quote_streamer.Platform.{Platform}
use rust_quote_streamer.Errors.{ClientError}
use rust_quote_streamer.Client
use rust_quote_streamer.Client.{Client, not_started, closed_channel}
use rust_quote_streamer.Client.Thread.{Callback, Reads, Worker, update}
use rust_quote_streamer.Client.Shutdown.{
  IsSound, started, down, start-IsSound, send-update, send_ended, send-not_started,
}
use rust_quote_streamer.Server.State.{QuoteServer}
use rust_quote_streamer.Server.Registry.{add_client, notify_all, notify_clients}

module _ (p : Platform) where
  -- A client in the map: its number was given out before, and its sender and handle are both there or
  -- both gone.
  abbrev pub IsRegistered : ℕ → ℕ → Client p → Type 0
  IsRegistered count id client = (id < count) × IsSound p client

  pub record IsValid (s : QuoteServer p) : Type 0 where
    pub registered : Entries (IsRegistered s.clients_count) s.clients

  -- No client has the next number.
  pub get-clients_count : (s : QuoteServer p) → IsValid s → get s.clients_count s.clients ≡ none
  get-clients_count s v = elim (Option-cases (get s.clients_count s.clients)) [
    | inl e ↦ e
    | inr (c, e) ↦ absurd (
        omega (
          arith,
          (Entries-get (IsRegistered s.clients_count) s.clients_count c s.clients v.registered e).0,
        ))
  ]

  Entries-later :
      (n : ℕ) (m : List (ℕ × Client p))
      → Entries (IsRegistered n) m
      → Entries (IsRegistered (n + 1)) m
  Entries-later n [] h = tt
  Entries-later n ((id, c) ∷ m) ((lt, sound), hs) = ((omega arith, sound), Entries-later n m hs)

  abbrev pub new_client : List Text → Callback p → Client p
  new_client tickers callback = (Client.start p (Client.new p tickers callback)).0

  abbrev pub added : List Text → Callback p → QuoteServer p → QuoteServer p
  added tickers callback s = record s {
    clients = insert s.clients_count (new_client tickers callback) s.clients;
    clients_count = s.clients_count + 1;
  }

  added-IsValid :
      (tickers : List Text) (callback : Callback p) (s : QuoteServer p)
      → IsValid s
      → IsValid (added tickers callback s)
  added-IsValid tickers callback s v = record {
    registered =
        Entries-insert (IsRegistered (s.clients_count + 1)) s.clients_count
          (new_client tickers callback) s.clients
          (omega arith, start-IsSound p (Client.new p tickers callback))
          (Entries-later s.clients_count s.clients v.registered);
  }

  -- While the lock is not poisoned and the count does not wrap around, a client is added under the
  -- next number, which no client in the map has: the call returns that number, the map holds a
  -- started client with the tickers and the callback there, every other number means what it meant,
  -- the rest of the state but the count is as before, and the server stays valid.
  pub add_client_lem :
      (reads : Reads p) (tickers : List Text) (callback : Callback p) (s : QuoteServer p)
      → IsValid s
      → s.clients_poisoned ≡ false
      → s.clients_count + 1 < 2 ^ 64
      → (add_client p reads tickers callback s
          ≡ some (added tickers callback s, ok s.clients_count))
        × (get s.clients_count s.clients ≡ none)
        × (get s.clients_count (added tickers callback s).clients
            ≡ some (new_client tickers callback))
        × ((id : ℕ)
            → id ≢ s.clients_count
            → get id (added tickers callback s).clients ≡ get id s.clients)
        × IsValid (added tickers callback s)
  unfolding add_client Client.start
  add_client_lem reads tickers callback s v open_lock small = (
    ground (arith, get-clients_count s v),
    get-clients_count s v,
    get-insert_self s.clients_count (new_client tickers callback) s.clients,
    (λ id other.
        get-insert s.clients_count id (new_client tickers callback) s.clients ∙ ground arith),
    added-IsValid tickers callback s v,
  )

  -- The client after a notification: a thread that runs has one `Update` more at the end of its
  -- channel; any other client is as before.
  abbrev pub told_by : Client p → Option (Worker p) → Client p
  told_by c none = c
  told_by c (some w) =
      if w.running then record c { tx = some (record w { queue = w.queue ++ update ∷ [] }) } else c

  abbrev pub told : Client p → Client p
  told c = told_by c c.tx

  send-told :
      (reads : Reads p) (c : Client p)
      → (r : Result ClientError (Unit {0})) × (Client.send p reads update c ≡ some (told c, r))
  send-told reads c = elim (Option-cases c.tx) [
    | inl gone ↦ (err not_started, send-not_started p reads update c gone ∙ ground arith)
    | inr (w, there) ↦ elim (Bool-cases w.running) [
      | inl on ↦ (ok tt, send-update p reads c w there on ∙ ground arith)
      | inr off ↦ (err closed_channel, send_ended p reads update c w there off ∙ ground arith)
    ]
  ]

  notify_all_lem :
      (reads : Reads p) (m : List (ℕ × Client p))
      → notify_all p reads m ≡ some (map_values (λ _ c. told c) m)
  unfolding notify_all map_values
  notify_all_lem reads [] = refl
  notify_all_lem reads ((id, c) ∷ m) =
      let (r, e) = send-told reads c in rw (e, notify_all) (rw (notify_all_lem reads m))

  told-IsSound : (c : Client p) → IsSound p c → IsSound p (told c)
  told-IsSound c (down tx handle) = down (ground arith) (ground arith)
  told-IsSound c (started w tx handle) = elim (Bool-cases w.running) [
    | inl on ↦ started (record w { queue = w.queue ++ update ∷ [] }) (ground arith) (ground arith)
    | inr off ↦ started w (ground arith) (ground arith)
  ]

  -- A notification returns `Ok`, whatever the sends return; every client stays under its number, each
  -- running thread has one `Update` more at the end of its channel, a client whose thread is gone is
  -- as before, and the server stays valid.
  pub notify_clients_lem :
      (reads : Reads p) (s : QuoteServer p)
      → IsValid s
      → s.clients_poisoned ≡ false
      → (s' : QuoteServer p) × (notify_clients p reads s ≡ some (s', ok tt))
        × (s' ≡ record s { clients = map_values (λ _ c. told c) s.clients })
        × IsValid s'
  unfolding notify_clients
  notify_clients_lem reads s v open_lock = (
    record s { clients = map_values (λ _ c. told c) s.clients },
    ground (arith, notify_all_lem reads s.clients),
    refl,
    record {
      registered =
          Entries-map_values (λ _ c. told c) (IsRegistered s.clients_count)
            (IsRegistered s.clients_count) (λ k c h. (h.0, told-IsSound c h.1)) s.clients
            v.registered;
    },
  )
