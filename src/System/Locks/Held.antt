-- ===== src/System/Locks/Held.antt =====
-- Who holds which lock of src/quote_server.rs, and how a caller or a thread that goes on keeps it so.
use rust_quote_streamer.Base.{
  ℕ, suc, ◌+◌, ◌<◌, ◌≡◌, ◌≢◌, refl, sym, subst, ◌∙◌, inl, inr, Bool, true, false, List, [], ◌∷◌,
  Option, none, some, some-eq, All, All-append, nat_key, arith, Option-cases,
}
use rust_quote_streamer.HashMap.{get, insert, get-insert_self, get-insert_cases}
use rust_quote_streamer.Client.Thread.{ClientCommand}
use rust_quote_streamer.System.Locks.Defs.{
  Call, adds, removes, notifies, Place, idle, at_lock, in_add, in_remove, joining, in_notify,
  at_write, in_write, in_read, Thread, Locks, begin_call, push, tell, fresh_thread, IsFree, move,
  unlock, move_thread, insert_client,
}
use rust_quote_streamer.System.Locks.Guard.{
  Guards, IsOutside, IsOutside-at, Guards-outside, Guards-taken, Guards-kept, Guards-released,
}
use rust_quote_streamer.System.Locks.Ending.{
  Ends, EndsAt, HasThread, Later, Later-refl, Later-insert, tell-Later, HasThread-Later, Below,
  Below-insert, Below-tell, Joins, Joins-insert, Joins-Later,
}

-- The places behind `self.clients.lock()`.
abbrev pub holds_clients : Place → Bool
holds_clients idle = false
holds_clients (at_lock call) = false
holds_clients in_add = true
holds_clients (in_remove id) = true
holds_clients (joining id) = true
holds_clients (in_notify ids) = true
holds_clients (at_write k) = false
holds_clients in_write = false

abbrev pub writes_quotes : Place → Bool
writes_quotes in_write = true
writes_quotes idle = false
writes_quotes (at_lock call) = false
writes_quotes in_add = false
writes_quotes (in_remove id) = false
writes_quotes (joining id) = false
writes_quotes (in_notify ids) = false
writes_quotes (at_write k) = false

-- Nobody reads while the quotes are written.
abbrev pub Excludes : Option ℕ → List (ℕ × Thread) → Type 0
Excludes guard threads =
    (c : ℕ) → guard ≡ some c → (id : ℕ) (t : Thread) → get id threads ≡ some t → t.stage ≢ in_read

pub record IsHeld (s : Locks) : Type 0 where
  pub clients_held : Guards holds_clients s.clients_guard s.callers
  pub quotes_held : Guards writes_quotes s.quotes_guard s.callers
  pub excludes : Excludes s.quotes_guard s.threads
  pub joins : Joins s.callers s.threads
  pub known : All (HasThread s.threads) s.clients
  pub below : Below s.clients_count s.threads

begin_call-holds : (call : Call) (clients : List ℕ) → holds_clients (begin_call call clients) ≡ true
begin_call-holds adds clients = refl
begin_call-holds (removes id) clients = refl
begin_call-holds notifies clients = refl

begin_call-writes :
    (call : Call) (clients : List ℕ) → writes_quotes (begin_call call clients) ≡ false
begin_call-writes adds clients = refl
begin_call-writes (removes id) clients = refl
begin_call-writes notifies clients = refl

pub Excludes-insert :
    (guard : Option ℕ) (threads : List (ℕ × Thread)) (id : ℕ) (t : Thread)
    → t.stage ≢ in_read
    → Excludes guard threads
    → Excludes guard (insert id t threads)
Excludes-insert guard threads id t out excludes c e j u found =
    elim (get-insert_cases id j t u threads found) [
      | inl (_, same) ↦ subst (λ (x : Thread). x.stage ≢ in_read) same out
      | inr (_, before) ↦ excludes c e j u before
    ]

-- A command that is sent moves no thread.
Excludes-tell :
    (guard : Option ℕ) (threads : List (ℕ × Thread)) (id : ℕ) (command : ClientCommand)
    → Excludes guard threads
    → Excludes guard (tell id command threads)
unfolding tell
Excludes-tell guard threads id command excludes c e = elim (Option-cases (get id threads)) [
  | inl none_there ↦ rw none_there (excludes c e)
  | inr (t, found) ↦
      rw found
        (Excludes-insert guard threads id (push command t) (excludes c e id t found) excludes c e)
]

begin_call-joins : (call : Call) (clients : List ℕ) (id : ℕ) → begin_call call clients ≢ joining id
begin_call-joins adds clients id e = cc
begin_call-joins (removes j) clients id e = cc
begin_call-joins notifies clients id e = cc

module _ (s : Locks) (h : IsHeld s) where
  -- A caller goes from a place outside of both locks to another one.
  pub move-IsHeld :
      (c : ℕ) (place : Place)
      → IsOutside holds_clients s.callers c
      → IsOutside writes_quotes s.callers c
      → holds_clients place ≡ false
      → writes_quotes place ≡ false
      → ((id : ℕ) → place ≢ joining id)
      → IsHeld (move s c place)
  move-IsHeld c place out out' in_clients in_quotes no_join = record {
    clients_held = Guards-outside _ _ _ c place out in_clients h.clients_held;
    quotes_held = Guards-outside _ _ _ c place out' in_quotes h.quotes_held;
    excludes = h.excludes;
    joins =
        Joins-insert s.callers s.threads s.threads c place (Later-refl s.threads)
          (λ id e. absurd (no_join id e)) h.joins;
    known = h.known;
    below = h.below;
  }

  -- A caller that holds the mutex gives it back.
  pub unlock-IsHeld :
      (c : ℕ) (old : Place)
      → get c s.callers ≡ some old
      → holds_clients old ≡ true
      → writes_quotes old ≡ false
      → IsHeld (unlock s c)
  unlock-IsHeld c old found held out = record {
    clients_held = Guards-released _ _ _ c old idle found held refl h.clients_held;
    quotes_held = Guards-outside _ _ _ c idle (IsOutside-at _ _ c old found out) refl h.quotes_held;
    excludes = h.excludes;
    joins =
        Joins-insert s.callers s.threads s.threads c idle (Later-refl s.threads) (λ id e. cc)
          h.joins;
    known = h.known;
    below = h.below;
  }

  -- A caller that holds the mutex goes on with it and sends a command.
  pub tell-IsHeld :
      (c id : ℕ) (command : ClientCommand) (old place : Place) (clients : List ℕ)
      → get c s.callers ≡ some old
      → holds_clients old ≡ true
      → writes_quotes old ≡ false
      → holds_clients place ≡ true
      → writes_quotes place ≡ false
      → ((j : ℕ) → place ≡ joining j → EndsAt (tell id command s.threads) j)
      → All (HasThread s.threads) clients
      → IsHeld (record (move s c place) { threads = tell id command s.threads; clients = clients })
  tell-IsHeld c id command old place clients found held out held' out' ends known = record {
    clients_held = Guards-kept _ _ _ c old place found held held' h.clients_held;
    quotes_held =
        Guards-outside _ _ _ c place (IsOutside-at _ _ c old found out) out' h.quotes_held;
    excludes = Excludes-tell s.quotes_guard s.threads id command h.excludes;
    joins =
        Joins-insert s.callers s.threads _ c place (tell-Later id command s.threads) ends h.joins;
    known = HasThread-Later s.threads _ clients (tell-Later id command s.threads) known;
    below = Below-tell s.clients_count id command s.threads h.below;
  }

  -- The thread of a client goes on.
  pub move_thread-IsHeld :
      (id : ℕ) (t t' : Thread)
      → get id s.threads ≡ some t
      → (Ends t → Ends t')
      → Excludes s.quotes_guard (insert id t' s.threads)
      → IsHeld (move_thread s id t')
  move_thread-IsHeld id t t' found step excludes =
      let later : Later s.threads (insert id t' s.threads) =
        Later-insert id t' s.threads
          (λ u e ends. step (subst Ends (some-eq u t (sym e ∙ found)) ends)) in
      record {
        clients_held = h.clients_held;
        quotes_held = h.quotes_held;
        excludes = excludes;
        joins = Joins-Later s.callers s.threads _ later h.joins;
        known = HasThread-Later s.threads _ s.clients later h.known;
        below = Below-insert s.clients_count id t' s.threads (h.below id t found) h.below;
      }

  pub insert_client-IsHeld : (c : ℕ) → get c s.callers ≡ some in_add → IsHeld (insert_client s c)
  insert_client-IsHeld c found =
      let new : (t : Thread) → get s.clients_count s.threads ≡ some t → Ends t → Ends fresh_thread =
        λ t e ends. absurd (below_self (h.below s.clients_count t e)) in
      let later : Later s.threads (insert s.clients_count fresh_thread s.threads) =
        Later-insert s.clients_count fresh_thread s.threads new in
      let r = unlock-IsHeld c in_add found refl refl in
      record {
        clients_held = r.clients_held;
        quotes_held = r.quotes_held;
        excludes =
            Excludes-insert s.quotes_guard s.threads s.clients_count fresh_thread (λ e. cc)
              h.excludes;
        joins = Joins-insert s.callers s.threads _ c idle later (λ id e. cc) h.joins;
        known =
            All-append (HasThread _) s.clients (s.clients_count ∷ [])
              (HasThread-Later s.threads _ s.clients later h.known)
              ((fresh_thread, get-insert_self s.clients_count fresh_thread s.threads), tt);
        below =
            Below-insert (s.clients_count + 1) s.clients_count fresh_thread s.threads (omega arith)
              (λ id t e. omega (arith, h.below id t e));
      }
    where
      below_self : {n : ℕ} → n < n → ⊥
      below_self l = omega arith

  pub lock-IsHeld :
      (c : ℕ) (call : Call)
      → get c s.callers ≡ some (at_lock call)
      → s.clients_guard ≡ none
      → IsHeld (record (move s c (begin_call call s.clients)) { clients_guard = some c })
  lock-IsHeld c call found free = record {
    clients_held =
        Guards-taken holds_clients s.callers c _ (begin_call-holds call s.clients)
          (subst (λ g. Guards holds_clients g s.callers) free h.clients_held);
    quotes_held =
        Guards-outside _ _ _ c _ (IsOutside-at _ _ c (at_lock call) found refl)
          (begin_call-writes call s.clients) h.quotes_held;
    excludes = h.excludes;
    joins =
        Joins-insert s.callers s.threads s.threads c _ (Later-refl s.threads)
          (λ id e. absurd (begin_call-joins call s.clients id e)) h.joins;
    known = h.known;
    below = h.below;
  }

  pub writing-IsHeld :
      (c k : ℕ)
      → get c s.callers ≡ some (at_write (suc k))
      → IsFree s
      → IsHeld (record (move s c in_write) { quotes_guard = some c })
  writing-IsHeld c k found free = record {
    clients_held =
        Guards-outside _ _ _ c in_write (IsOutside-at _ _ c (at_write (suc k)) found refl) refl
          h.clients_held;
    quotes_held =
        Guards-taken writes_quotes s.callers c in_write refl
          (subst (λ g. Guards writes_quotes g s.callers) free.unwritten h.quotes_held);
    excludes = λ d e. free.unread;
    joins =
        Joins-insert s.callers s.threads s.threads c in_write (Later-refl s.threads) (λ id e. cc)
          h.joins;
    known = h.known;
    below = h.below;
  }

  pub written-IsHeld :
      (c : ℕ)
      → get c s.callers ≡ some in_write
      → IsHeld (record (move s c (at_lock notifies)) { quotes_guard = none })
  written-IsHeld c found = record {
    clients_held =
        Guards-outside _ _ _ c (at_lock notifies) (IsOutside-at _ _ c in_write found refl) refl
          h.clients_held;
    quotes_held = Guards-released _ _ _ c in_write (at_lock notifies) found refl refl h.quotes_held;
    excludes = λ d e. cc;
    joins =
        Joins-insert s.callers s.threads s.threads c _ (Later-refl s.threads) (λ id e. cc) h.joins;
    known = h.known;
    below = h.below;
  }
