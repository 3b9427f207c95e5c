-- ===== src/Server/Registry.antt =====
-- The map of the clients in src/quote_server.rs: `add_client`, `remove_client`, `notify_clients`.
pub mod Valid
pub mod Removal
pub mod Refines
use rust_quote_streamer.Base.{
  ℕ, ◌+◌, ◌%◌, ◌^◌, List, [], ◌∷◌, Option, none, some, ◌>>=◌, Result, ok, err, map_err,
  if◌then◌else◌, nat_key,
}
use rust_quote_streamer.HashMap.{get, insert, remove}
use rust_quote_streamer.Text.{Text, codes}
use rust_quote_streamer.Platform.{Platform}
use rust_quote_streamer.Errors.{
  QuoteServerError, ClientError, client_error, update_quote_error, from_client_error,
}
use rust_quote_streamer.Client
use rust_quote_streamer.Client.{Client}
use rust_quote_streamer.Client.Thread.{Callback, Reads, update, shutdown}
use rust_quote_streamer.Server.State.{QuoteServer}

abbrev pub clients_locked : QuoteServerError
clients_locked = client_error (codes "Failed to lock clients")

module _ (p : Platform) where
  -- `HashMap::insert` drops the value that it replaces.
  unfoldable pub drop_replaced :
      Reads p → QuoteServer p → Option (Client p) → Option (QuoteServer p)
  drop_replaced reads s none = some s
  drop_replaced reads s (some client) = do
    dropped ← Client.drop p reads client
    some (record s { retired = dropped ∷ s.retired })

  -- The number of the client is the count before; `fetch_add` wraps around at 64 bits.
  unfoldable pub register : Reads p → QuoteServer p → Client p → Option (QuoteServer p × ℕ)
  unfolding drop_replaced
  register reads s client = do
    let id = s.clients_count
    s' ← drop_replaced reads s (get id s.clients)
    some
        (record s' { clients = insert id client s'.clients; clients_count = (id + 1) % 2 ^ 64 }, id)

  -- A client that could not be started is dropped.
  unfoldable pub add_started :
      Reads p
      → QuoteServer p
      → Client p × Result ClientError (Unit {0})
      → Option (QuoteServer p × Result QuoteServerError ℕ)
  unfolding register
  add_started reads s (client, err e) = do
    dropped ← Client.drop p reads client
    some (record s { retired = dropped ∷ s.retired }, err (from_client_error e))
  add_started reads s (client, ok _) = do (s', id) ← register reads s client; some (s', ok id)

  unfoldable pub add_client :
      Reads p
      → List Text
      → Callback p
      → QuoteServer p
      → Option (QuoteServer p × Result QuoteServerError ℕ)
  unfolding add_started
  add_client reads tickers callback s =
      if s.clients_poisoned
      then some (s, err clients_locked)
      else add_started reads s (Client.start p (Client.new p tickers callback))

  -- The client has left the map: it is shut down, and dropped with either result.
  unfoldable pub remove_found :
      Reads p
      → QuoteServer p
      → Option (Client p)
      → Option (QuoteServer p × Result QuoteServerError (Unit {0}))
  remove_found reads s none = some (s, ok tt)
  remove_found reads s (some client) = do
    (client', result) ← Client.send p reads shutdown client
    dropped ← Client.drop p reads client'
    some (record s { retired = dropped ∷ s.retired }, map_err from_client_error result)

  unfoldable pub remove_client :
      Reads p → ℕ → QuoteServer p → Option (QuoteServer p × Result QuoteServerError (Unit {0}))
  unfolding remove_found
  remove_client reads id s =
      if s.clients_poisoned
      then some (s, err clients_locked)
      else remove_found reads (record s { clients = remove id s.clients }) (get id s.clients)

  -- A client that cannot be told is only logged.
  unfoldable pub notify_all : Reads p → List (ℕ × Client p) → Option (List (ℕ × Client p))
  notify_all reads [] = some []
  notify_all reads ((id, client) ∷ clients) = do
    (client', _) ← Client.send p reads update client
    rest ← notify_all reads clients
    some ((id, client') ∷ rest)

  unfoldable pub notify_clients :
      Reads p → QuoteServer p → Option (QuoteServer p × Result QuoteServerError (Unit {0}))
  unfolding notify_all
  notify_clients reads s =
      if s.clients_poisoned
      then some (s, err (update_quote_error (codes "Failed to lock clients")))
      else do clients ← notify_all reads s.clients; some (record s { clients = clients }, ok tt)
