-- ===== src/System/Owned.antt =====
-- Who owns which client: the sessions of src/tcp_server.rs against the clients of src/quote_server.rs.
use rust_quote_streamer.Base.{
  ℕ, ◌≡◌, ◌≢◌, sym, ap, ◌∙◌, ◌⊎◌, inl, inr, none, some, Option, nat_key, List,
}
use rust_quote_streamer.HashMap.{get, insert, get-insert_cases}
use rust_quote_streamer.Text.{Text}
use rust_quote_streamer.Platform.{Platform}
use rust_quote_streamer.Client.{Client}
use rust_quote_streamer.Tcp.Handlers.{Session}
use rust_quote_streamer.Tcp.Connection.{Flow, goes_on, returns}
use rust_quote_streamer.System.Defs.{Connection, running, returned, begun, after_flow}

module _ (p : Platform) where
  abbrev pub Clients : Type 0
  Clients = List (ℕ × Client p)

  abbrev pub Connections : Type 0
  Connections = List (ℕ × Connection)

  -- Some client has the number.
  abbrev pub IsThere : ℕ → Clients → Type 0
  IsThere id clients = (c : Client p) × (get id clients ≡ some c)

  -- The running connection with a number, with the client that it has.
  abbrev pub Owns : ℕ → ℕ → Connections → Type 0
  Owns i id connections =
      (session : Session) × (get i connections ≡ some (running session))
      × (session.client_id ≡ some id)

  -- The client of a running connection is registered, and is the client of no other running connection.
  pub record IsOwned (clients : Clients) (connections : Connections) : Type 0 where
    pub there : (i id : ℕ) → Owns i id connections → IsThere id clients
    pub apart : (i j id : ℕ) → Owns i id connections → Owns j id connections → i ≡ j

  module _ (i : ℕ) (x : Connection) (connections : Connections) where
    pub Owns-insert_cases :
        (j id : ℕ)
        → Owns j id (insert i x connections)
        → ((i ≡ j) × (session : Session) × (x ≡ running session) × (session.client_id ≡ some id))
          ⊎ ((i ≢ j) × Owns j id connections)
    Owns-insert_cases j id (session, found, own) =
        elim (get-insert_cases i j x (running session) connections found) [
          | inl (same, e) ↦ inl (same, session, e, own)
          | inr (other, found') ↦ inr (other, (session, found', own))
        ]

    -- A connection in place of another, or a new one, on other clients.
    pub insert-IsOwned :
        (clients clients' : Clients)
        → IsOwned clients connections
        → ((j id : ℕ) → i ≢ j → Owns j id connections → IsThere id clients')
        → ((session : Session) (id : ℕ)
            → x ≡ running session
            → session.client_id ≡ some id
            → IsThere id clients' × ((j : ℕ) → Owns j id connections → i ≡ j))
        → IsOwned clients' (insert i x connections)
    insert-IsOwned clients clients' owned others mine = record {
      there = λ j id own. elim (Owns-insert_cases j id own) [
        | inl (same, session, e, has) ↦ (mine session id e has).0
        | inr (other, own') ↦ others j id other own'
      ];
      apart = λ j k id own own'. elim (Owns-insert_cases j id own) [
        | inl (same, session, e, has) ↦ elim (Owns-insert_cases k id own') [
          | inl (same', session', e', has') ↦ sym same ∙ same'
          | inr (other, own'') ↦ sym same ∙ (mine session id e has).1 k own''
        ]
        | inr (other, before) ↦ elim (Owns-insert_cases k id own') [
          | inl (same', session, e, has) ↦ sym ((mine session id e has).1 j before) ∙ same'
          | inr (other', before') ↦ owned.apart j k id before before'
        ]
      ];
    }

  -- Other clients under the same numbers.
  pub IsOwned-clients :
      (clients clients' : Clients) (connections : Connections)
      → ((id : ℕ) → IsThere id clients → IsThere id clients')
      → IsOwned clients connections
      → IsOwned clients' connections
  IsOwned-clients clients clients' connections keep owned = record {
    there = λ i id own. keep id (owned.there i id own);
    apart = owned.apart;
  }

  abbrev client_of : Connection → Option ℕ
  client_of (running session) = session.client_id
  client_of (returned session result) = none

  -- A connection that begins has no client.
  pub begun-client_id :
      (setup : Option Text) (start : ℕ) (session : Session) (id : ℕ)
      → begun setup start ≡ running session
      → session.client_id ≡ some id
      → ⊥
  begun-client_id none start session id e own = cc (ap client_of e ∙ own)
  begun-client_id (some x) start session id e own = cc (ap client_of e ∙ own)

  -- A connection that still runs has the client of its session.
  pub after_flow-client_id :
      (flow : Flow) (session session' : Session) (id : ℕ)
      → after_flow session flow ≡ running session'
      → session'.client_id ≡ some id
      → session.client_id ≡ some id
  after_flow-client_id goes_on session session' id e has = ap client_of e ∙ has
  after_flow-client_id (returns x) session session' id e has = cc (ap client_of e ∙ has)

  pub begun-IsOwned :
      (i start : ℕ) (setup : Option Text) (clients : Clients) (connections : Connections)
      → get i connections ≡ none
      → IsOwned clients connections
      → IsOwned clients (insert i (begun setup start) connections)
  begun-IsOwned i start setup clients connections free owned =
      insert-IsOwned i (begun setup start) connections clients clients owned
        (λ j id other own. owned.there j id own)
        (λ session id e own. absurd (begun-client_id setup start session id e own))
