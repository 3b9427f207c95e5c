-- ===== src/System/Locks/Agrees.antt =====
-- The registry of src/quote_server.rs and its locks: the states in which nothing is under way.
use rust_quote_streamer.Base.{
  ℕ, ◌≡◌, ◌≢◌, refl, ◌∙◌, Bool, true, false, List, [], ◌∷◌, Option, none, some, nat_key,
}
use rust_quote_streamer.HashMap.{get, insert, get-insert_self, get-insert_other}
use rust_quote_streamer.Platform.{Platform}
use rust_quote_streamer.Client.{Client}
use rust_quote_streamer.Client.Thread.{ClientCommand, update, shutdown, Worker}
use rust_quote_streamer.System.Locks.Defs.{
  Place, idle, in_notify, Stage, at_recv, at_read, in_read, over, Thread, Locks, tell, contains,
  move, move_thread, notifying, notified, receive_update, receive_shutdown, reading, processed,
  Call,
}
use rust_quote_streamer.System.Locks.Ending.{has_shutdown}
use rust_quote_streamer.System.Locks.Walk.{Walked, go_on}
use rust_quote_streamer.System.Locks.Sets.{IsDistinct, tell_all}

abbrev pub stage_of : Bool → Stage
stage_of true = at_recv
stage_of false = over

-- The locks are free, and the caller has nothing to do.
pub record IsIdle (c : ℕ) (l : Locks) : Type 0 where
  pub clients_free : l.clients_guard ≡ none
  pub quotes_free : l.quotes_guard ≡ none
  pub caller : get c l.callers ≡ some idle

module _ (p : Platform) where
  -- The thread of a client between two commands, or ended.
  abbrev pub thread_of : Worker p → Thread
  thread_of w = record { queue = w.queue; stage = stage_of w.running }

  pub record Runs (c : Client p) (threads : List (ℕ × Thread)) (id : ℕ) : Type 0 where
    pub worker : Worker p
    pub tx : c.tx ≡ some worker
    pub thread : get id threads ≡ some (thread_of worker)

  -- The locks say of the clients what the map says.
  pub record Agrees (f : ℕ → Option (Client p)) (next : ℕ) (l : Locks) : Type 0 where
    pub there :
        (id : ℕ) (c : Client p)
        → f id ≡ some c
        → (contains id l.clients ≡ true) × Runs c l.threads id
    pub gone : (id : ℕ) → f id ≡ none → contains id l.clients ≡ false
    pub distinct : IsDistinct l.clients
    pub count : l.clients_count ≡ next

-- A thread with a `Shutdown` in its channel ends.
pub record Drained (k : ℕ) (o : Locks) (made : List Call) (l : Locks) (id : ℕ) : Type 0 where
  pub threads : List (ℕ × Thread)
  pub reach : Walked k o made (record l { threads = threads })
  pub last : Thread
  pub found : get id threads ≡ some last
  pub ended : last.stage ≡ over
  pub others : (j : ℕ) → id ≢ j → get j threads ≡ get j l.threads

pub drains :
    {k : ℕ} {o : Locks} {made : List Call} (l : Locks) (id : ℕ) (queue : List ClientCommand)
    → Walked k o made l
    → l.quotes_guard ≡ none
    → get id l.threads ≡ some (record { queue = queue; stage = at_recv })
    → has_shutdown queue ≡ true
    → Drained k o made l id
drains l id [] r free found ends = cc
drains l id (shutdown ∷ queue) r free found ends = record {
  threads = insert id (record { queue = []; stage = over }) l.threads;
  reach = go_on r (receive_shutdown id queue found);
  last = record { queue = []; stage = over };
  found = get-insert_self id _ l.threads;
  ended = refl;
  others = λ j other. get-insert_other id j _ l.threads other;
}
drains l id (update ∷ queue) r free found ends =
    let one = move_thread l id (record { queue = queue; stage = at_read }) in
    let two = move_thread one id (record { queue = queue; stage = in_read }) in
    let three = move_thread two id (record { queue = queue; stage = at_recv }) in
    let at_one : get id one.threads ≡ some (record { queue = queue; stage = at_read }) =
      get-insert_self id _ l.threads in
    let at_two : get id two.threads ≡ some (record { queue = queue; stage = in_read }) =
      get-insert_self id _ one.threads in
    let reach =
      go_on (go_on (go_on r (receive_update id queue found)) (reading id queue at_one free))
        (processed id queue at_two) in
    let d = drains three id queue reach free (get-insert_self id _ two.threads) ends in
    record {
      threads = d.threads;
      reach = d.reach;
      last = d.last;
      found = d.found;
      ended = d.ended;
      others = λ j other.
          d.others j other
          ∙ get-insert_other id j _ two.threads other
          ∙ get-insert_other id j _ one.threads other
          ∙ get-insert_other id j _ l.threads other;
    }

-- All clients are notified, one after the other.
pub notifies_all :
    {k : ℕ} {o : Locks} {made : List Call} (l : Locks) (c : ℕ) (ids : List ℕ)
    → Walked k o made l
    → get c l.callers ≡ some (in_notify ids)
    → (callers : List (ℕ × Place)) × Walked k o made
        (record l { callers = callers; threads = tell_all ids l.threads; clients_guard = none })
      × (get c callers ≡ some idle)
notifies_all l c [] r found = (_, go_on r (notified c found), get-insert_self c idle l.callers)
notifies_all l c (id ∷ ids) r found =
    notifies_all (record (move l c (in_notify ids)) { threads = tell id update l.threads }) c ids
      (go_on r (notifying c id ids found)) (get-insert_self c (in_notify ids) l.callers)
