-- ===== src/Tests/Locks.antt =====
-- The theorems on the locks at a concrete state.
use rust_quote_streamer.Base.{◌≤◌, refl, ◌⊎◌, [], ◌∷◌, some, none, nat_key}
use rust_quote_streamer.HashMap.{get, insert}
use rust_quote_streamer.Client.Thread.{update, shutdown}
use rust_quote_streamer.System.Locks.Defs.{
  adds, removes, notifies, idle, joining, at_recv, over, Locks, tell, contains, without, lock,
  adding, removing, joined, notifying, notified, receive_update, receive_shutdown, reading,
  processed, arrives, calls, Reachable, starts, begins, steps, Run, here, more,
}
use rust_quote_streamer.System.Locks.Work.{work}
use rust_quote_streamer.System.Locks.Progress.{IsQuiet, CanStep, locks_free}

-- A caller has added a client, notified it, and waits for the end of its thread.
abbrev waiting : Locks
waiting = record {
  callers = (0, joining 0) ∷ [];
  threads = (0, record { queue = update ∷ shutdown ∷ []; stage = at_recv }) ∷ [];
  clients = [];
  clients_count = 1;
  clients_guard = some 0;
  quotes_guard = none;
}

waiting-Reachable : Reachable waiting
unfolding get insert tell contains without
waiting-Reachable =
    let present = begins starts (arrives 0 refl) in
    let added =
      steps (steps (begins present (calls 0 adds refl)) (lock 0 adds refl refl)) (adding 0 refl) in
    let locked = steps (begins added (calls 0 notifies refl)) (lock 0 notifies refl refl) in
    let told = steps (steps locked (notifying 0 0 [] refl)) (notified 0 refl) in
    steps (steps (begins told (calls 0 (removes 0) refl)) (lock 0 (removes 0) refl refl))
      (removing 0 0 refl refl)

abbrev done : Locks
done = record waiting {
  callers = (0, idle) ∷ [];
  threads = (0, record { queue = []; stage = over }) ∷ [];
  clients_guard = none;
}

-- The thread reads the quotes, takes the `Shutdown` and ends, and the caller returns.
ending : Run 5 waiting done
unfolding get insert
ending = more (receive_update 0 _ refl) (
    more (reading 0 _ refl refl) (
      more (processed 0 _ refl)
        (more (receive_shutdown 0 _ refl) (more (joined 0 0 _ refl refl refl) here))))

locks_free_example : (5 ≤ work waiting) × (IsQuiet done ⊎ CanStep done)
locks_free_example = locks_free waiting-Reachable 5 done ending
