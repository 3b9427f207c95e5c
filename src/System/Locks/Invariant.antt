-- ===== src/System/Locks/Invariant.antt =====
-- What holds of the locks of src/quote_server.rs in every state that can be reached.
use rust_quote_streamer.Base.{ℕ, ◌≡◌, refl, subst, inl, inr, [], ◌∷◌, nat_key}
use rust_quote_streamer.HashMap.{get}
use rust_quote_streamer.Client.Thread.{update, shutdown}
use rust_quote_streamer.System.Locks.Defs.{
  notifies, idle, at_lock, in_remove, joining, in_notify, at_write, at_recv, at_read, in_read, over,
  Locks, tell, without, LockStep, lock, adding, missing, removing, joined, notifying, notified,
  writing, busy, late, written, receive_update, receive_shutdown, reading, processed, panicked,
  LockBegin, arrives, calls, ticks, no_threads, Reachable, starts, begins, steps,
}
use rust_quote_streamer.System.Locks.Guard.{IsOutside-at}
use rust_quote_streamer.System.Locks.Ending.{
  Ends, EndsAt, tell-EndsAt, HasThread-without, HasThread-contains,
}
use rust_quote_streamer.System.Locks.Held.{
  IsHeld, Excludes-insert, move-IsHeld, unlock-IsHeld, tell-IsHeld, move_thread-IsHeld,
  insert_client-IsHeld, lock-IsHeld, writing-IsHeld, written-IsHeld,
}

-- Every step keeps it.
pub LockStep-IsHeld : (s t : Locks) → IsHeld s → LockStep s t → IsHeld t
LockStep-IsHeld s _ h (lock c call found free) = lock-IsHeld s h c call found free
LockStep-IsHeld s _ h (adding c found) = insert_client-IsHeld s h c found
LockStep-IsHeld s _ h (missing c id found there) =
    unlock-IsHeld s h c (in_remove id) found refl refl
LockStep-IsHeld s _ h (removing c id found there) =
    tell-IsHeld s h c id shutdown (in_remove id) (joining id) (without id s.clients) found refl refl
      refl refl
      (λ j e.
        subst (EndsAt (tell id shutdown s.threads)) (joining_eq id j e)
          (tell-EndsAt id s.threads (HasThread-contains s.threads id s.clients h.known there)))
      (HasThread-without s.threads id s.clients h.known)
  where
    joining_eq : (i j : ℕ) → joining i ≡ joining j → i ≡ j
    joining_eq i j e = cc
LockStep-IsHeld s _ h (joined c id t found thread ended) =
    unlock-IsHeld s h c (joining id) found refl refl
LockStep-IsHeld s _ h (notifying c id ids found) =
    tell-IsHeld s h c id update (in_notify (id ∷ ids)) (in_notify ids) s.clients found refl refl
      refl refl (λ j e. cc) h.known
LockStep-IsHeld s _ h (notified c found) = unlock-IsHeld s h c (in_notify []) found refl refl
LockStep-IsHeld s _ h (writing c k found free) = writing-IsHeld s h c k found free
LockStep-IsHeld s _ h (busy c k found taken) =
    move-IsHeld s h c (at_write k) (IsOutside-at _ _ c _ found refl)
      (IsOutside-at _ _ c _ found refl) refl refl (λ id e. cc)
LockStep-IsHeld s _ h (late c k found) =
    move-IsHeld s h c (at_lock notifies) (IsOutside-at _ _ c _ found refl)
      (IsOutside-at _ _ c _ found refl) refl refl (λ id e. cc)
LockStep-IsHeld s _ h (written c found) = written-IsHeld s h c found
LockStep-IsHeld s _ h (receive_update id queue found) =
    move_thread-IsHeld s h id _ (record { queue = queue; stage = at_read }) found received
      (Excludes-insert s.quotes_guard s.threads id _ (λ e. cc) h.excludes)
  where
    received :
        Ends (record { queue = update ∷ queue; stage = at_recv })
        → Ends (record { queue = queue; stage = at_read })
    received (inl e) = cc
    received (inr e) = inr e
LockStep-IsHeld s _ h (receive_shutdown id queue found) =
    move_thread-IsHeld s h id _ (record { queue = []; stage = over }) found (λ e. inl refl)
      (Excludes-insert s.quotes_guard s.threads id _ (λ e. cc) h.excludes)
LockStep-IsHeld s _ h (reading id queue found free) =
    move_thread-IsHeld s h id _ (record { queue = queue; stage = in_read }) found at_reading
      (λ c e. cc)
  where
    at_reading :
        Ends (record { queue = queue; stage = at_read })
        → Ends (record { queue = queue; stage = in_read })
    at_reading (inl e) = cc
    at_reading (inr e) = inr e
LockStep-IsHeld s _ h (processed id queue found) =
    move_thread-IsHeld s h id _ (record { queue = queue; stage = at_recv }) found read
      (Excludes-insert s.quotes_guard s.threads id _ (λ e. cc) h.excludes)
  where
    read :
        Ends (record { queue = queue; stage = in_read })
        → Ends (record { queue = queue; stage = at_recv })
    read (inl e) = cc
    read (inr e) = inr e
LockStep-IsHeld s _ h (panicked id queue found) =
    move_thread-IsHeld s h id _ (record { queue = []; stage = over }) found (λ e. inl refl)
      (Excludes-insert s.quotes_guard s.threads id _ (λ e. cc) h.excludes)

LockBegin-IsHeld : (s t : Locks) → IsHeld s → LockBegin s t → IsHeld t
LockBegin-IsHeld s _ h (arrives c new) =
    move-IsHeld s h c idle (λ x found. cc) (λ x found. cc) refl refl (λ id e. cc)
LockBegin-IsHeld s _ h (calls c call found) =
    move-IsHeld s h c (at_lock call) (IsOutside-at _ _ c _ found refl)
      (IsOutside-at _ _ c _ found refl) refl refl (λ id e. cc)
LockBegin-IsHeld s _ h (ticks c found) =
    move-IsHeld s h c (at_write _) (IsOutside-at _ _ c _ found refl)
      (IsOutside-at _ _ c _ found refl) refl refl (λ id e. cc)

no_threads-IsHeld : IsHeld no_threads
unfolding get
no_threads-IsHeld = record {
  clients_held = record { of = λ c x e. cc; names = λ c e. cc };
  quotes_held = record { of = λ c x e. cc; names = λ c e. cc };
  excludes = λ c e. cc;
  joins = λ c id e. cc;
  known = tt;
  below = λ id t e. cc;
}

-- So it holds in every state.
pub Reachable-IsHeld : {s : Locks} → Reachable s → IsHeld s
Reachable-IsHeld starts = no_threads-IsHeld
Reachable-IsHeld (begins r b) = LockBegin-IsHeld _ _ (Reachable-IsHeld r) b
Reachable-IsHeld (steps r step) = LockStep-IsHeld _ _ (Reachable-IsHeld r) step
