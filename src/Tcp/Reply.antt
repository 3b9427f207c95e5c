-- ===== src/Tcp/Reply.antt =====
-- What a connection of src/tcp_server.rs writes for a line that it reads.
use rust_quote_streamer.Base.{
  ℕ, ◌≡◌, refl, sym, ap, ◌∙◌, false, List, [], ◌∷◌, ◌++◌, ◌⊎◌, take, Option, none, some, ◌>>=◌,
  >>=-eq-some, some-eq, subst, inl, inr, Result, ok, err, if◌then◌else◌, Bool-cases,
}
use rust_quote_streamer.Text.{Text, codes, trim, is_empty, starts_with, split_whitespace}
use rust_quote_streamer.Platform.{Platform}
use rust_quote_streamer.Errors.{TcpServerError, QuoteServerError, client_io_error}
use rust_quote_streamer.Client.Thread.{send_datagram}
use rust_quote_streamer.Tcp.Service.{QuoteService}
use rust_quote_streamer.Tcp.Handlers.{
  Session, Io, WriteError, Handled, usage, bad_address, write_all, reply, handle_ping,
  handle_invalid, registered, bound, addressed, with_parts, handle_stream, stopped, stop_client,
  handle_stop,
}
use rust_quote_streamer.Tcp.Connection.{
  line, Round, Flow, goes_on, returns, After, propagate, dispatch, on_message, on_reading,
  handle_round,
}

-- The answer to a command, by its first letters.
abbrev pub answer : Text → Text
answer msg =
    if starts_with msg (codes "PING")
    then codes "PONG\n"
    else if starts_with msg (codes "STREAM ")
    then codes "STREAM OK\n"
    else if starts_with msg (codes "STOP")
    then codes "STOP OK\n"
    else codes "ERR Invalid command\n"

-- Nothing was written, or a beginning of the text.
abbrev pub WroteSome : Text → Session → Session → Type 0
WroteSome m session session' =
    (session'.written ≡ session.written)
    ⊎ ((n : ℕ) × (session'.written ≡ session.written ++ take n m ∷ []))

-- A handler has written the text, or there was an error and at most a beginning was written.
abbrev pub Answered : Text → Session → Session → Result TcpServerError (Unit {0}) → Type 0
Answered m session session' (ok _) = session'.written ≡ session.written ++ m ∷ []
Answered m session session' (err _) = WroteSome m session session'

-- The same of a round, which does not return `Ok`.
abbrev pub Spoke : Text → Session → Session → Flow → Type 0
Spoke m session session' goes_on = session'.written ≡ session.written ++ m ∷ []
Spoke m session session' (returns (err _)) = WroteSome m session session'
Spoke m session session' (returns (ok _)) = ⊥

module _ (p : Platform) (q : QuoteService p) where
  open q use {State, add_client, remove_client}

  abbrev Answers : Text → Session → Option (Handled State) → Type 0
  Answers m session call =
      (t : State) (session' : Session) (r : Result TcpServerError (Unit {0}))
      → call ≡ some (t, session', r)
      → Answered m session session' r

  Answers-some :
      (m : Text) (session : Session) (x : Handled State)
      → Answered m session x.1 x.2
      → Answers m session (some x)
  Answers-some m session x h t session' r e =
      subst (λ (y : Handled State). Answered m session y.1 y.2) (some-eq x (t, session', r) e) h

  Answers->>= :
      {A : Type 0} (m : Text) (session : Session) (o : Option A) (k : A → Handled State)
      → ((a : A) → Answered m session (k a).1 (k a).2)
      → Answers m session (o >>= λ a. some (k a))
  Answers->>= m session o k h t session' r e =
      let (a, made, rest) = >>=-eq-some o (λ a. some (k a)) e in
      Answers-some m session (k a) (h a) t session' r rest

  -- The reply may be given after the session has changed its client.
  reply-Answered :
      (io : Io p) (m : Text) (s : State) (session session' : Session)
      → session'.written ≡ session.written
      → Answered m session (reply p q io m s session').1 (reply p q io m s session').2
  unfolding reply
  reply-Answered io m s session session' same = write_all-Answered io.write_error
    where
      write_all-Answered :
          (e : Option WriteError)
          → Answered m session (write_all e m session').0 (write_all e m session').1
      write_all-Answered none = unfold write_all in ap (λ l. l ++ m ∷ []) same
      write_all-Answered (some (n, e)) =
          unfold write_all in inr (n, ap (λ l. l ++ take n m ∷ []) same)

  registered-Answered :
      (io : Io p) (session : Session) (x : State × Result QuoteServerError ℕ)
      → Answered
          (codes "STREAM OK\n")
          session
          (registered p q io session x).1
          (registered p q io session x).2
  unfolding registered
  registered-Answered io session (s, err e) = inl refl
  registered-Answered io session (s, ok id) =
      reply-Answered io (codes "STREAM OK\n") s session (record session { client_id = some id })
        refl

  stopped-Answered :
      (io : Io p) (session : Session) (x : State × Result QuoteServerError (Unit {0}))
      → Answered
          (codes "STOP OK\n")
          session
          (stopped p q io session x).1
          (stopped p q io session x).2
  unfolding stopped
  stopped-Answered io session (s, err e) = inl refl
  stopped-Answered io session (s, ok _) =
      reply-Answered io (codes "STOP OK\n") s session session refl

  bound-Answers :
      (io : Io p) (address : p.SocketAddr) (tickers : List Text) (s : State) (session : Session)
      (e : Option Text)
      → Answers (codes "STREAM OK\n") session (bound p q io address tickers s session e)
  unfolding bound
  bound-Answers io address tickers s session (some e) =
      Answers-some _ session (s, session, err (client_io_error e)) (inl refl)
  bound-Answers io address tickers s session none =
      Answers->>= _ session (add_client io.reads tickers (send_datagram address) s)
        (registered p q io session) (registered-Answered io session)

  addressed-Answers :
      (io : Io p) (address : Option p.SocketAddr) (tickers : List Text) (s : State)
      (session : Session)
      → Answers (codes "STREAM OK\n") session (addressed p q io address tickers s session)
  unfolding addressed
  addressed-Answers io none tickers s session =
      Answers-some _ session (s, session, err bad_address) (inl refl)
  addressed-Answers io (some address) tickers s session =
      bound-Answers io address tickers s session io.udp_error

  with_parts-Answers :
      (io : Io p) (parts : List Text) (s : State) (session : Session)
      → Answers (codes "STREAM OK\n") session (with_parts p q io parts s session)
  unfolding with_parts
  with_parts-Answers io (command ∷ address ∷ ticker ∷ tickers) s session =
      addressed-Answers io (p.parse_addr address) (ticker ∷ tickers) s session
  with_parts-Answers io _ s session = Answers-some _ session (s, session, err usage) (inl refl)

  stop_client-Answers :
      (io : Io p) (own : Option ℕ) (s : State) (session : Session)
      → Answers (codes "STOP OK\n") session (stop_client p q io own s session)
  unfolding stop_client
  stop_client-Answers io none s session =
      Answers-some _ session (reply p q io (codes "STOP OK\n") s session)
        (reply-Answered io _ s session session refl)
  stop_client-Answers io (some id) s session =
      Answers->>= _ session (remove_client io.reads id s)
        (stopped p q io (record session { client_id = none }))
        (λ x. stopped-Answered io (record session { client_id = none }) x)

  dispatch-Answers :
      (io : Io p) (msg : Text) (s : State) (session : Session)
      → Answers (answer msg) session (dispatch p q io msg s session)
  unfolding dispatch handle_ping handle_stream handle_stop handle_invalid
  dispatch-Answers io msg s session = elim (Bool-cases (starts_with msg (codes "PING"))) [
    | inl a ↦ rw a (
        Answers-some _ session (reply p q io (codes "PONG\n") s session)
          (reply-Answered io _ s session session refl))
    | inr a ↦ elim (Bool-cases (starts_with msg (codes "STREAM "))) [
      | inl b ↦ rw (a, b) (with_parts-Answers io (split_whitespace msg) s session)
      | inr b ↦ elim (Bool-cases (starts_with msg (codes "STOP"))) [
        | inl c ↦ rw (a, b, c) (stop_client-Answers io session.client_id s session)
        | inr c ↦
            rw (a, b, c)
              (Answers-some _ session (reply p q io (codes "ERR Invalid command\n") s session)
                (reply-Answered io _ s session session refl))
      ]
    ]
  ]

  propagate-Spoke :
      (m : Text) (session : Session) (call : Option (Handled State)) (t : State)
      (session' : Session) (flow : Flow)
      → Answers m session call
      → (call >>= λ handled. some (propagate p q handled)) ≡ some (t, session', flow)
      → Spoke m session session' flow
  unfolding propagate
  propagate-Spoke m session call t session' flow h e =
      let (x, made, rest) = >>=-eq-some call (λ handled. some (propagate p q handled)) e in
      one x made rest
    where
      one :
          (x : Handled State)
          → call ≡ some x
          → some (propagate p q x) ≡ some (t, session', flow)
          → Spoke m session session' flow
      one (u, session'', ok _) made rest =
          subst (λ (y : After p q). Spoke m session y.1 y.2)
            (some-eq (u, session'', goes_on) (t, session', flow) rest) (h u session'' _ made)
      one (u, session'', err x) made rest =
          subst (λ (y : After p q). Spoke m session y.1 y.2)
            (some-eq (u, session'', returns (err x)) (t, session', flow) rest)
            (h u session'' _ made)

  -- A round that reads a line that is not blank either goes on, and has then written one line, which
  -- depends on nothing but how the line begins: `PONG` for `PING`, `STREAM OK` for `STREAM` and a
  -- blank, `STOP OK` for `STOP`, and `ERR Invalid command` for anything else; or it returns an
  -- error, and has then written nothing or a beginning of that line. So it is for every quote server
  -- and whatever fails.
  pub round_answers :
      (r : Round p) (text : Text) (s t : State) (session session' : Session) (flow : Flow)
      → r.reading ≡ line text
      → is_empty (trim text) ≡ false
      → handle_round p q r s session ≡ some (t, session', flow)
      → Spoke (answer (trim text)) session session' flow
  unfolding handle_round on_reading on_message
  round_answers r text s t session session' flow reading full e =
      propagate-Spoke (answer (trim text)) session
        (dispatch p q r.io (trim text) s (record session { last_ping = r.now })) t session' flow
        (dispatch-Answers r.io (trim text) s (record session { last_ping = r.now }))
        (sym (rw (reading, full)) ∙ e)
