-- ===== src/Server/Registry/Removal.antt =====
-- `remove_client` of src/quote_server.rs.
use rust_quote_streamer.Base.{
  ℕ, ◌≡◌, refl, ◌∙◌, ◌≢◌, true, false, List, ◌∷◌, none, some, Result, ok, map_err, arith, inl, inr,
  ◌⊎◌, Option-cases, nat_key,
}
use rust_quote_streamer.HashMap.{get, remove, get-remove, get-remove_self}
use rust_quote_streamer.HashMap.Entries.{Entries-remove, Entries-get}
use rust_quote_streamer.Platform.{Platform}
use rust_quote_streamer.Errors.{QuoteServerError, from_client_error}
use rust_quote_streamer.Client.{Client}
use rust_quote_streamer.Client.Thread.{Reads, Worker, shutdown}
use rust_quote_streamer.Client.Shutdown.{
  IsReleased, IsShutDown, send_returns, drop_returns, drop_down, send-shutdown,
}
use rust_quote_streamer.Server.State.{QuoteServer}
use rust_quote_streamer.Server.Registry.{remove_client}
use rust_quote_streamer.Server.Registry.Valid.{IsRegistered, IsValid}

module _ (p : Platform) where
  -- The state after a removal: the number is gone from the map, and what was dropped is noted.
  abbrev pub removed : ℕ → List (Client p) → QuoteServer p → QuoteServer p
  removed id dropped s = record s { clients = remove id s.clients; retired = dropped }

  removed-IsValid :
      (id : ℕ) (dropped : List (Client p)) (s : QuoteServer p)
      → IsValid p s
      → IsValid p (removed id dropped s)
  removed-IsValid id dropped s v = record {
    registered = Entries-remove (IsRegistered p s.clients_count) id s.clients v.registered;
  }

  -- What every removal gives: a state in which the number is free and each other number means what it
  -- meant, with the same count, and valid.
  pub record IsWithout (id : ℕ) (s s' : QuoteServer p) : Type 0 where
    pub gone : get id s'.clients ≡ none
    pub others : (j : ℕ) → j ≢ id → get j s'.clients ≡ get j s.clients
    pub count : s'.clients_count ≡ s.clients_count
    pub quotes : s'.quotes ≡ s.quotes
    pub lock : s'.clients_poisoned ≡ s.clients_poisoned
    pub flag : s'.shutdown_flag ≡ s.shutdown_flag
    pub bg_thread : s'.bg_thread ≡ s.bg_thread
    pub valid : IsValid p s'

  removed-IsWithout :
      (id : ℕ) (dropped : List (Client p)) (s : QuoteServer p)
      → IsValid p s
      → IsWithout id s (removed id dropped s)
  removed-IsWithout id dropped s v = record {
    gone = get-remove_self id s.clients;
    others = λ j other. get-remove id j s.clients ∙ ground arith;
    count = refl;
    quotes = refl;
    lock = refl;
    flag = refl;
    bg_thread = refl;
    valid = removed-IsValid id dropped s v;
  }

  -- What `remove_client` does: nothing but freeing the number, if no client has it ...
  abbrev pub NotThere : Reads p → ℕ → QuoteServer p → QuoteServer p → Type 0
  NotThere reads id s s' =
      (get id s.clients ≡ none)
      × (remove_client p reads id s ≡ some (s', ok tt))
      × (s'.retired ≡ s.retired)

  -- ... or letting the client go.
  abbrev pub LetGo : Reads p → ℕ → QuoteServer p → QuoteServer p → Type 0
  LetGo reads id s s' =
      (c : Client p) × (dropped : Client p) × (r : Result QuoteServerError (Unit {0})) × (get id
          s.clients
        ≡ some c)
      × (remove_client p reads id s ≡ some (s', r))
      × (s'.retired ≡ dropped ∷ s.retired)
      × IsReleased p dropped

  let_go :
      (reads : Reads p) (id : ℕ) (s : QuoteServer p) (c : Client p)
      → IsValid p s
      → s.clients_poisoned ≡ false
      → get id s.clients ≡ some c
      → (s' : QuoteServer p) × IsWithout id s s' × LetGo reads id s s'
  unfolding remove_client
  let_go reads id s c v open_lock found =
      let (c', r, sends, sound) =
        send_returns p reads shutdown c
          (Entries-get (IsRegistered p s.clients_count) id c s.clients v.registered found).1 in
      let (dropped, drops, released) = drop_returns p reads c' sound in
      (
        removed id (dropped ∷ s.retired) s,
        removed-IsWithout id (dropped ∷ s.retired) s v,
        (
          c,
          dropped,
          map_err from_client_error r,
          found,
          ground (arith, sends, drops),
          refl,
          released,
        ),
      )

  -- On a valid server whose lock is not poisoned, `remove_client` returns, whatever the threads still
  -- read: it never waits for ever. Afterwards no client has the number, each other number means what
  -- it meant, and the server is valid. If no client had the number, the call returns `Ok`; if a
  -- client had, that client has been dropped, with neither a sender nor a handle left.
  pub remove_client_lem :
      (reads : Reads p) (id : ℕ) (s : QuoteServer p)
      → IsValid p s
      → s.clients_poisoned ≡ false
      → (s' : QuoteServer p) × IsWithout id s s' × (NotThere reads id s s' ⊎ LetGo reads id s s')
  unfolding remove_client
  remove_client_lem reads id s v open_lock = elim (Option-cases (get id s.clients)) [
    | inl missing ↦ (
      removed id s.retired s,
      removed-IsWithout id s.retired s v,
      inl (missing, ground arith, refl),
    )
    | inr (c, found) ↦
        let (s', without, gone) = let_go reads id s c v open_lock found in (s', without, inr gone)
  ]

  -- Removing a client whose thread runs returns `Ok`, and the last client that was dropped is that
  -- client with its thread ended.
  remove_client-running :
      (reads : Reads p) (id : ℕ) (s : QuoteServer p) (c : Client p) (w : Worker p)
      → s.clients_poisoned ≡ false
      → get id s.clients ≡ some c
      → c.tx ≡ some w
      → c.thread_handle ≡ true
      → w.running ≡ true
      → (dropped : Client p) × (remove_client p reads id s
          ≡ some (removed id (dropped ∷ s.retired) s, ok tt))
        × IsShutDown p dropped
  unfolding remove_client
  remove_client-running reads id s c w open_lock found tx handle on =
      let (c', sends, ended) = send-shutdown p reads c w tx handle on in
      (c', ground (arith, sends, drop_down p reads c' ended.tx ended.thread_handle), ended)
