-- ===== src/Tcp/Kept.antt =====
-- What a call of a handler leaves of the clients: src/tcp_server.rs.
use rust_quote_streamer.Base.{
  ℕ, suc, ◌≡◌, refl, sym, ap, subst, ◌∙◌, ◌≢◌, ◌⊎◌, Option, none, some, Result, arith, inl, inr,
}
use rust_quote_streamer.Text.{Text}
use rust_quote_streamer.Platform.{Platform}
use rust_quote_streamer.Errors.{TcpServerError}
use rust_quote_streamer.Client.{Client}
use rust_quote_streamer.Tcp.Service.{QuoteService, IsService, SameBut}
use rust_quote_streamer.Tcp.Handlers.{Session, Io, WriteError, Handled, write_all, reply}
use rust_quote_streamer.Tcp.Connection.{Flow, After}

module _ (p : Platform) (q : QuoteService p) (service : IsService p q) where
  open q use {State, add_client, remove_client, find}
  open service use {IsReady, HasRoom, less_room, added, removed}

  -- The clients of `s` that are not of the session are in `t` as they were.
  abbrev pub KeepsOthers : State → Session → State → Type 0
  KeepsOthers s session t =
      (id : ℕ) (c : Client p)
      → find id s ≡ some c
      → session.client_id ≢ some id
      → find id t ≡ some c

  -- A client of `s` that is not of the session is not of the session later.
  abbrev pub OwnsNoMore : State → Session → Session → Type 0
  OwnsNoMore s session session' =
      (id : ℕ) (c : Client p)
      → find id s ≡ some c
      → session.client_id ≢ some id
      → session'.client_id ≢ some id

  -- The client that a session has after a call is the one that it had, as it was, or a new one.
  abbrev pub Origin : State → Session → State → Session → Type 0
  Origin s session t session' =
      (id : ℕ)
      → session'.client_id ≡ some id
      → ((session.client_id ≡ some id) × (find id t ≡ find id s))
        ⊎ ((find id s ≡ none) × (c : Client p) × (find id t ≡ some c))

  -- The state and the session that a call leaves, with room for `n` clients.
  pub record IsKept (n : ℕ) (s : State) (session : Session) (t : State) (session' : Session)
      : Type 0 where
    pub ready : IsReady t
    pub room : HasRoom n t
    pub others : KeepsOthers s session t
    pub owns : OwnsNoMore s session session'
    pub origin : Origin s session t session'

  -- A call of a handler that returns and keeps the others.
  abbrev pub Handles : ℕ → State → Session → Option (Handled State) → Type 0
  Handles n s session call =
      (t : State) × (session' : Session) × (r : Result TcpServerError (Unit {0})) × (call
        ≡ some (t, session', r))
      × IsKept n s session t session'

  abbrev pub Leads : ℕ → State → Session → Option (After p q) → Type 0
  Leads n s session call =
      (t : State) × (session' : Session) × (flow : Flow) × (call ≡ some (t, session', flow))
      × IsKept n s session t session'

  pub IsKept-same :
      (n : ℕ) (s : State) (session session' : Session)
      → IsReady s
      → HasRoom (suc n) s
      → session'.client_id ≡ session.client_id
      → IsKept n s session s session'
  IsKept-same n s session session' ready room same = record {
    ready = ready;
    room = less_room n s room;
    others = λ id c found other. found;
    owns = λ id c found other e. other (sym same ∙ e);
    origin = λ id e. inl (sym same ∙ e, refl);
  }

  pub write_all-client_id :
      (e : Option WriteError) (text : Text) (session : Session)
      → (write_all e text session).0.client_id ≡ session.client_id
  unfolding write_all
  write_all-client_id none text session = refl
  write_all-client_id (some (n, e)) text session = refl

  -- A reply changes nothing but what was written.
  pub IsKept-reply :
      (io : Io p) (text : Text) (n : ℕ) (s t : State) (session session' : Session)
      → IsKept n s session t session'
      → IsKept n s session t (write_all io.write_error text session').0
  IsKept-reply io text n s t session session' k = record {
    ready = k.ready;
    room = k.room;
    others = k.others;
    owns = λ id c found other e.
        k.owns id c found other (sym (write_all-client_id io.write_error text session') ∙ e);
    origin = λ id e. k.origin id (sym (write_all-client_id io.write_error text session') ∙ e);
  }

  pub reply-Handles :
      (io : Io p) (text : Text) (n : ℕ) (s t : State) (session session' : Session)
      → IsKept n s session t session'
      → Handles n s session (some (reply p q io text t session'))
  unfolding reply
  reply-Handles io text n s t session session' k =
      (t, _, _, refl, IsKept-reply io text n s t session session' k)

  pub IsKept-added :
      (n id : ℕ) (s t : State) (session : Session)
      → IsReady t
      → HasRoom n t
      → find id s ≡ none
      → (c : Client p) × (find id t ≡ some c)
      → SameBut p q id s t
      → IsKept n s session t (record session { client_id = some id })
  IsKept-added n id s t session ready room fresh (new, there) same = record {
    ready = ready;
    room = room;
    others = λ j c found other. same j (not_fresh j c found) ∙ found;
    owns = λ j c found other e. not_fresh j c found (sym (some_eq id j e));
    origin = λ j e. inr (
      subst (λ i. find i s ≡ none) (some_eq id j e) fresh,
      new,
      subst (λ i. find i t ≡ some new) (some_eq id j e) there,
    );
  }
    where
      some_eq : (a b : ℕ) → ◌≡◌ {A = Option ℕ} (some a) (some b) → a ≡ b
      some_eq a b e = ground arith

      not_fresh : (j : ℕ) (c : Client p) → find j s ≡ some c → j ≢ id
      not_fresh j c found e = cc (sym found ∙ subst (λ i. find i s ≡ none) (sym e) fresh)

  pub IsKept-removed :
      (n id : ℕ) (s t : State) (session : Session)
      → session.client_id ≡ some id
      → IsReady t
      → HasRoom n t
      → SameBut p q id s t
      → IsKept n s session t (record session { client_id = none })
  IsKept-removed n id s t session own ready room same = record {
    ready = ready;
    room = room;
    others = λ j c found other. same j (λ e. other (own ∙ ap some (sym e))) ∙ found;
    owns = λ j c found other e. cc;
    origin = λ j e. cc;
  }
