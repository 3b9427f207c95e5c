-- ===== src/Cli/Reconnection/Rounds.antt =====
-- The rounds of src/tcp_server.rs in one exchange of bins/client/main.rs: what they write.
use rust_quote_streamer.Base.{
  ℕ, zero, suc, ◌+◌, ◌-◌, ◌≡◌, refl, sym, ap, subst, ◌∙◌, ◌⊎◌, inl, inr, true, List, [], ◌∷◌, ◌++◌,
  map, Option, none, some, ◌>>=◌, >>=-eq-some, some-eq, Result, ok, err, length, arith, take,
  take-short, append-nil, Bool-cases, ltb,
}
use rust_quote_streamer.Text.{Text, trim, is_empty}
use rust_quote_streamer.Platform.{Platform}
use rust_quote_streamer.Errors.{TcpServerError, QuoteServerError}
use rust_quote_streamer.Defs.{client_keep_alive_sec}
use rust_quote_streamer.Tcp.Service.{QuoteService, IsService}
use rust_quote_streamer.Tcp.Handlers.{Session, Io}
use rust_quote_streamer.Tcp.Connection.{
  After, Round, Flow, goes_on, returns, handle_round, on_reading, on_message, clean_up, removal,
  as_secs, unless_returned, serve,
}
use rust_quote_streamer.Tcp.Session.{handle_round-Leads}
use rust_quote_streamer.Tcp.Reply.{answer, Spoke, round_answers}
use rust_quote_streamer.Cli.Reconnection.{Pause, Talk, pause_round, line_round, rounds_of}

module _ (p : Platform) (q : QuoteService p) where
  open q use {State}

  -- A clean-up writes nothing.
  clean_up-written :
      (io : Io p) (result : Result TcpServerError (Unit {0})) (own : Option ℕ) (s t : State)
      (session session' : Session) (flow : Flow)
      → clean_up p q io result own s session ≡ some (t, session', flow)
      → session'.written ≡ session.written
  unfolding clean_up removal
  clean_up-written io result none s t session session' flow e = sym (
      ap (λ (x : After p q). x.1.written)
        (some-eq (s, session, returns result) (t, session', flow) e))
  clean_up-written io result (some id) s t session session' flow e =
      let ((u, r), made, rest) =
        >>=-eq-some _ (λ x. some (removal p q result (record session { client_id = none }) x)) e in
      by_result r u rest
    where
      by_result :
          (r : Result QuoteServerError (Unit {0})) (u : State)
          → some (removal p q result (record session { client_id = none }) (u, r))
            ≡ some (t, session', flow)
          → session'.written ≡ session.written
      by_result (ok x) u e =
          sym (ap (λ (x : After p q). x.1.written) (some-eq _ (t, session', flow) e))
      by_result (err x) u e =
          sym (ap (λ (x : After p q). x.1.written) (some-eq _ (t, session', flow) e))

  -- Nor does a timeout.
  pause-written :
      (x : Pause p) (s t : State) (session session' : Session) (flow : Flow)
      → handle_round p q (pause_round p x) s session ≡ some (t, session', flow)
      → session'.written ≡ session.written
  unfolding handle_round on_reading
  pause-written x s t session session' flow e =
      elim (Bool-cases (ltb client_keep_alive_sec (as_secs (x.now - session.last_ping)))) [
        | inl late ↦
            clean_up-written x.io (ok tt) session.client_id s t session session' flow
              (sym (rw late) ∙ e)
        | inr early ↦ sym (
            ap (λ (x : After p q). x.1.written)
              (some-eq (s, session, goes_on) (t, session', flow) (sym (rw early) ∙ e)))
      ]

  -- What an exchange has made the server write: the answer to what it read, if the server goes on,
  -- unless that was blank; and at most a beginning of that answer, if it has returned.
  abbrev pub Spoken : Text → Session → Flow → Type 0
  Spoken rest session goes_on =
      ((session.written ≡ answer (trim rest) ∷ []))
      ⊎ ((session.written ≡ []) × (is_empty (trim rest) ≡ true))
  Spoken rest session (returns r) =
      (session.written ≡ []) ⊎ ((n : ℕ) × (session.written ≡ take n (answer (trim rest)) ∷ []))

  module _ (service : IsService p q) where
    open service use {IsReady, HasRoom, less_room}

    pub rooms : (k n : ℕ) (s : State) → HasRoom (k + n) s → HasRoom n s
    rooms zero n s room = subst (λ m. HasRoom m s) (omega arith) room
    rooms (suc k) n s room =
        rooms k n s (less_room (k + n) s (subst (λ m. HasRoom m s) (omega arith) room))

    -- The rounds return, with a session and a flow of this kind, and leave room.
    abbrev pub Serves : (Session → Flow → Type 0) → ℕ → List (Round p) → State → Session → Type 0
    Serves Good n rounds s session =
        (t : State) × (session' : Session) × (flow : Flow) × (serve p q rounds s session
          ≡ some (t, session', flow))
        × Good session' flow
        × IsReady t
        × HasRoom n t

    -- One round more.
    Serves-∷ :
        (Good : Session → Flow → Type 0) (n : ℕ) (r : Round p) (rounds : List (Round p)) (s : State)
        (session : Session)
        → IsReady s
        → HasRoom (suc (length rounds) + n) s
        → ((t : State) (session' : Session) (x : Result TcpServerError (Unit {0}))
            → handle_round p q r s session ≡ some (t, session', returns x)
            → Good session' (returns x))
        → ((t : State) (session' : Session)
            → handle_round p q r s session ≡ some (t, session', goes_on)
            → IsReady t
            → HasRoom (length rounds + n) t
            → Serves Good n rounds t session')
        → Serves Good n (r ∷ rounds) s session
    unfolding serve
    Serves-∷ Good n r rounds s session ready room ends later =
        let (t, session', flow, e, k) =
          handle_round-Leads p q service r (length rounds + n) s session ready
            (subst (λ m. HasRoom m s) (omega arith) room) in
        by_flow flow t session' e k.ready k.room
      where
        by_flow :
            (flow : Flow) (t : State) (session' : Session)
            → handle_round p q r s session ≡ some (t, session', flow)
            → IsReady t
            → HasRoom (length rounds + n) t
            → Serves Good n (r ∷ rounds) s session
        by_flow goes_on t session' e ready' room' =
            let (u, session'', flow, e', good, last, left) = later t session' e ready' room' in
            (
              u,
              session'',
              flow,
              ap (λ o. o >>= unless_returned p q (serve p q rounds)) e ∙ e',
              good,
              last,
              left,
            )
        by_flow (returns x) t session' e ready' room' = (
          t,
          session',
          returns x,
          ap (λ o. o >>= unless_returned p q (serve p q rounds)) e,
          ends t session' x e,
          ready',
          rooms (length rounds) n t room',
        )

    -- Timeouts keep what was written.
    pauses-Serves :
        (Good : Session → Flow → Type 0) (n : ℕ) (w : List Text) (xs : List (Pause p))
        (rest : List (Round p)) (s : State) (session : Session)
        → session.written ≡ w
        → IsReady s
        → HasRoom (length (map (pause_round p) xs ++ rest) + n) s
        → ((session' : Session) (x : Result TcpServerError (Unit {0}))
            → session'.written ≡ w
            → Good session' (returns x))
        → ((t : State) (session' : Session)
            → session'.written ≡ w
            → IsReady t
            → HasRoom (length rest + n) t
            → Serves Good n rest t session')
        → Serves Good n (map (pause_round p) xs ++ rest) s session
    pauses-Serves Good n w [] rest s session clear ready room ends later =
        later s session clear ready room
    pauses-Serves Good n w (x ∷ xs) rest s session clear ready room ends later =
        Serves-∷ Good n (pause_round p x) (map (pause_round p) xs ++ rest) s session ready room
          (λ t session' r e.
            ends session' r (pause-written x s t session session' (returns r) e ∙ clear))
          (λ t session' e ready' room'.
            pauses-Serves Good n w xs rest t session'
              (pause-written x s t session session' goes_on e ∙ clear) ready' room' ends later)

    line-goes_on :
        (u : Talk p) (s t : State) (session session' : Session)
        → session.written ≡ []
        → handle_round p q (line_round p u) s session ≡ some (t, session', goes_on)
        → Spoken u.rest session' goes_on
    unfolding handle_round on_reading on_message
    line-goes_on u s t session session' clear e = elim (Bool-cases (is_empty (trim u.rest))) [
      | inl blank ↦
          let same =
            ap (λ (x : After p q). x.1.written)
              (some-eq (s, record session { last_ping = u.now }, goes_on) (t, session', goes_on)
                (sym (rw blank) ∙ e)) in
          inr (sym same ∙ clear, blank)
      | inr full ↦ inl (
          round_answers p q (line_round p u) u.rest s t session session' goes_on refl full e
          ∙ ap (λ l. l ++ answer (trim u.rest) ∷ []) clear)
    ]

    line-returns :
        (u : Talk p) (s t : State) (session session' : Session)
        (x : Result TcpServerError (Unit {0}))
        → session.written ≡ []
        → handle_round p q (line_round p u) s session ≡ some (t, session', returns x)
        → Spoken u.rest session' (returns x)
    unfolding handle_round on_reading on_message
    line-returns u s t session session' x clear e = elim (Bool-cases (is_empty (trim u.rest))) [
      | inl blank ↦ absurd (
          stays (
            some-eq (s, record session { last_ping = u.now }, goes_on) (t, session', returns x)
              (sym (rw blank) ∙ e)))
      | inr full ↦
          by_result x
            (round_answers p q (line_round p u) u.rest s t session session' (returns x) refl full e)
    ]
      where
        stays :
            ◌≡◌ {A = After p q}
              (s, record session { last_ping = u.now }, goes_on)
              (t, session', returns x)
            → ⊥
        stays e = absurd (flows (ap (λ (y : After p q). y.2) e))
          where
            flows : goes_on ≡ returns x → ⊥
            flows e = cc

        by_result :
            (x : Result TcpServerError (Unit {0}))
            → Spoke (answer (trim u.rest)) session session' (returns x)
            → Spoken u.rest session' (returns x)
        by_result (ok y) h = absurd h
        by_result (err y) (inl same) = inl (same ∙ clear)
        by_result (err y) (inr (n, same)) =
            inr (n, same ∙ ap (λ l. l ++ take n (answer (trim u.rest)) ∷ []) clear)

    silent-Serves :
        (n : ℕ) (u : Talk p) (s : State) (session : Session)
        → Spoken u.rest session goes_on
        → IsReady s
        → HasRoom (length (map (pause_round p) u.after) + n) s
        → Serves (Spoken u.rest) n (map (pause_round p) u.after) s session
    unfolding serve
    silent-Serves n u s session spoken ready room =
        subst (λ rounds. Serves (Spoken u.rest) n rounds s session) (append-nil _)
          (pauses-Serves (Spoken u.rest) n session.written u.after [] s session refl ready
            (subst (λ rounds. HasRoom (length rounds + n) s) (sym (append-nil _)) room)
            (λ session' x same. ended spoken session' x same)
            (λ t session' same ready' room'. (
              t,
              session',
              goes_on,
              refl,
              again spoken session' same,
              ready',
              subst (λ m. HasRoom m t) (omega arith) room',
            )))
      where
        again :
            Spoken u.rest session goes_on
            → (session' : Session) → session'.written ≡ session.written
            → Spoken u.rest session' goes_on
        again (inl one) session' same = inl (same ∙ one)
        again (inr (nothing, blank)) session' same = inr (same ∙ nothing, blank)

        ended :
            Spoken u.rest session goes_on
            → (session' : Session) (x : Result TcpServerError (Unit {0}))
            → session'.written ≡ session.written
            → Spoken u.rest session' (returns x)
        ended (inl one) session' x same =
            let m = answer (trim u.rest) in
            inr (
              length m,
              same ∙ one ∙ ap (λ l. l ∷ []) (sym (take-short (length m) m (omega arith))),
            )
        ended (inr (nothing, blank)) session' x same = inl (same ∙ nothing)

    -- So it is for all rounds of an exchange.
    pub talk-Serves :
        (n : ℕ) (u : Talk p) (s : State) (session : Session)
        → session.written ≡ []
        → IsReady s
        → HasRoom (length (rounds_of p u) + n) s
        → Serves (Spoken u.rest) n (rounds_of p u) s session
    talk-Serves n u s session clear ready room =
        pauses-Serves (Spoken u.rest) n [] u.lost (line_round p u ∷ map (pause_round p) u.after) s
          session clear ready room (λ session' x same. inl same)
          (λ t session' same ready' room'.
            Serves-∷ (Spoken u.rest) n (line_round p u) (map (pause_round p) u.after) t session'
              ready' room' (λ t' session'' x e. line-returns u t t' session' session'' x same e)
              (λ t' session'' e ready'' room''.
                silent-Serves n u t' session'' (line-goes_on u t t' session' session'' same e)
                  ready'' room''))

    -- And for one timeout.
    pub pause-Serves :
        (n : ℕ) (x : Pause p) (s : State) (session : Session)
        → session.written ≡ []
        → IsReady s
        → HasRoom (suc n) s
        → Serves (λ session' flow. session'.written ≡ []) n (pause_round p x ∷ []) s session
    unfolding serve
    pause-Serves n x s session clear ready room =
        pauses-Serves _ n [] (x ∷ []) [] s session clear ready
          (subst (λ m. HasRoom m s) (omega arith) room) (λ session' r same. same)
          (λ t session' same ready' room'. (
            t,
            session',
            goes_on,
            refl,
            same,
            ready',
            subst (λ m. HasRoom m t) (omega arith) room',
          ))
