-- ===== src/System/Locks/Work.antt =====
-- What the threads of src/quote_server.rs and src/client.rs have left to do when nothing new begins: a
-- number that each step makes smaller.
use rust_quote_streamer.Base.{
  ℕ, suc, ◌+◌, ◌*◌, ◌≤◌, ◌<◌, ◌≡◌, refl, inl, inr, List, [], ◌∷◌, ◌++◌, some, length, length-append,
  nat_key, arith, Option-cases,
}
use rust_quote_streamer.HashMap.{get, insert}
use rust_quote_streamer.Client.Thread.{ClientCommand, update, shutdown}
use rust_quote_streamer.System.Locks.Total.{total, total-insert, total-insert_new, total_mono}
use rust_quote_streamer.System.Locks.Ending.{Below, Below-new}
use rust_quote_streamer.System.Locks.Defs.{
  Call, adds, removes, notifies, Place, idle, at_lock, in_add, in_remove, joining, in_notify,
  at_write, in_write, Stage, at_recv, at_read, in_read, over, Thread, Locks, begin_call, push_at,
  push, tell, without, fresh_thread, LockStep, lock, adding, missing, removing, joined, notifying,
  notified, writing, busy, late, written, receive_update, receive_shutdown, reading, processed,
  panicked,
}

-- A caller that is about to add a client.
abbrev adding_now : Place → ℕ
adding_now (at_lock adds) = 1
adding_now in_add = 1
adding_now (at_lock (removes id)) = 0
adding_now (at_lock notifies) = 0
adding_now idle = 0
adding_now (in_remove id) = 0
adding_now (joining id) = 0
adding_now (in_notify ids) = 0
adding_now (at_write k) = 0
adding_now in_write = 0

-- How many clients there can be, when nothing new begins.
abbrev most_clients : Locks → ℕ
most_clients s = length s.clients + total adding_now s.callers

-- What a caller has left to do, and the threads by what it sends to them, with `n` clients at most.
abbrev place_work : ℕ → Place → ℕ
place_work n idle = 0
place_work n (at_lock adds) = 3
place_work n (at_lock (removes id)) = 9
place_work n (at_lock notifies) = 3 + 5 * n
place_work n in_add = 2
place_work n (in_remove id) = 8
place_work n (joining id) = 1
place_work n (in_notify ids) = 1 + 5 * length ids
place_work n (at_write k) = 5 + 5 * n + k
place_work n in_write = 4 + 5 * n

abbrev stage_work : Stage → ℕ
stage_work at_recv = 0
stage_work at_read = 2
stage_work in_read = 1
stage_work over = 0

abbrev thread_work : Thread → ℕ
thread_work t = 4 * length t.queue + stage_work t.stage

abbrev pub work : Locks → ℕ
work s = total (place_work (most_clients s)) s.callers + total thread_work s.threads

place_work_mono : (n m : ℕ) → n ≤ m → (place : Place) → place_work n place ≤ place_work m place
place_work_mono n m h idle = omega arith
place_work_mono n m h (at_lock adds) = omega arith
place_work_mono n m h (at_lock (removes id)) = omega arith
place_work_mono n m h (at_lock notifies) = omega arith
place_work_mono n m h in_add = omega arith
place_work_mono n m h (in_remove id) = omega arith
place_work_mono n m h (joining id) = omega arith
place_work_mono n m h (in_notify ids) = omega arith
place_work_mono n m h (at_write k) = omega arith
place_work_mono n m h in_write = omega arith

push_at-length :
    (stage : Stage) (command : ClientCommand) (queue : List ClientCommand)
    → length (push_at stage command queue) ≤ length queue + 1
push_at-length over command queue = omega arith
push_at-length at_recv command queue = omega (arith, length-append queue (command ∷ []))
push_at-length at_read command queue = omega (arith, length-append queue (command ∷ []))
push_at-length in_read command queue = omega (arith, length-append queue (command ∷ []))

tell_work :
    (id : ℕ) (command : ClientCommand) (threads : List (ℕ × Thread))
    → total thread_work (tell id command threads) ≤ total thread_work threads + 4
unfolding tell
tell_work id command threads = elim (Option-cases (get id threads)) [
  | inl e ↦ rw e (omega arith)
  | inr (t, e) ↦ rw e (
      omega (
        arith,
        total-insert thread_work id t (push command t) threads e,
        push_at-length t.stage command t.queue,
      ))
]

without-length : (id : ℕ) (ids : List ℕ) → length (without id ids) ≤ length ids
unfolding without
without-length id [] = omega arith
without-length id (j ∷ ids) = ground (arith, without-length id ids)

-- A caller that goes on has less to do, with what it gives to the threads.
caller_work :
    (callers : List (ℕ × Place)) (c : ℕ) (old place : Place) (clients clients' : List ℕ)
    (extra w w' : ℕ)
    → get c callers ≡ some old
    → length clients' + adding_now place ≤ length clients + adding_now old
    → place_work (length clients + total adding_now callers) place + extra
      < place_work (length clients + total adding_now callers) old
    → w' ≤ w + extra
    → total
          (place_work (length clients' + total adding_now (insert c place callers)))
          (insert c place callers)
        + w'
      < total (place_work (length clients + total adding_now callers)) callers + w
caller_work callers c old place clients clients' extra w w' found fewer less given =
    let n = length clients + total adding_now callers in
    let n' = length clients' + total adding_now (insert c place callers) in
    let adders = total-insert adding_now c old place callers found in
    let bound : n' ≤ n = omega arith in
    let mono =
      total_mono (place_work n') (place_work n) (insert c place callers)
        (place_work_mono n' n bound) in
    let moved = total-insert (place_work n) c old place callers found in omega arith

thread_goes :
    (threads : List (ℕ × Thread)) (id w : ℕ) (t t' : Thread)
    → get id threads ≡ some t
    → thread_work t' < thread_work t
    → w + total thread_work (insert id t' threads) < w + total thread_work threads
thread_goes threads id w t t' found less =
    omega (arith, total-insert thread_work id t t' threads found)

begin_call_work :
    (call : Call) (clients : List ℕ) (n : ℕ)
    → length clients ≤ n
    → place_work n (begin_call call clients) < place_work n (at_lock call)
begin_call_work adds clients n h = omega arith
begin_call_work (removes id) clients n h = omega arith
begin_call_work notifies clients n h = omega arith

begin_call-adding_now :
    (call : Call) (clients : List ℕ)
    → adding_now (begin_call call clients) ≡ adding_now (at_lock call)
begin_call-adding_now adds clients = refl
begin_call-adding_now (removes id) clients = refl
begin_call-adding_now notifies clients = refl

-- Each step leaves less to do.
pub LockStep_work : (s t : Locks) → Below s.clients_count s.threads → LockStep s t → work t < work s
LockStep_work s _ below (lock c call found free) =
    caller_work s.callers c (at_lock call) (begin_call call s.clients) s.clients s.clients 0 _ _
      found (omega (arith, begin_call-adding_now call s.clients))
      (omega (arith, begin_call_work call s.clients (most_clients s) (omega arith))) (omega arith)
LockStep_work s _ below (adding c found) =
    caller_work s.callers c in_add idle s.clients (s.clients ++ s.clients_count ∷ []) 0 _ _ found
      (omega (arith, length-append s.clients (s.clients_count ∷ []))) (omega arith)
      (omega (
        arith,
        total-insert_new thread_work s.clients_count fresh_thread s.threads
            (Below-new s.clients_count s.threads below),
      ))
LockStep_work s _ below (missing c id found there) =
    caller_work s.callers c (in_remove id) idle s.clients s.clients 0 _ _ found (omega arith)
      (omega arith) (omega arith)
LockStep_work s _ below (removing c id found there) =
    caller_work s.callers c (in_remove id) (joining id) s.clients (without id s.clients) 4 _ _ found
      (omega (arith, without-length id s.clients)) (omega arith) (tell_work id shutdown s.threads)
LockStep_work s _ below (joined c id t found thread ended) =
    caller_work s.callers c (joining id) idle s.clients s.clients 0 _ _ found (omega arith)
      (omega arith) (omega arith)
LockStep_work s _ below (notifying c id ids found) =
    caller_work s.callers c (in_notify (id ∷ ids)) (in_notify ids) s.clients s.clients 4 _ _ found
      (omega arith) (omega arith) (tell_work id update s.threads)
LockStep_work s _ below (notified c found) =
    caller_work s.callers c (in_notify []) idle s.clients s.clients 0 _ _ found (omega arith)
      (omega arith) (omega arith)
LockStep_work s _ below (writing c k found free) =
    caller_work s.callers c (at_write (suc k)) in_write s.clients s.clients 0 _ _ found
      (omega arith) (omega arith) (omega arith)
LockStep_work s _ below (busy c k found taken) =
    caller_work s.callers c (at_write (suc k)) (at_write k) s.clients s.clients 0 _ _ found
      (omega arith) (omega arith) (omega arith)
LockStep_work s _ below (late c k found) =
    caller_work s.callers c (at_write k) (at_lock notifies) s.clients s.clients 0 _ _ found
      (omega arith) (omega arith) (omega arith)
LockStep_work s _ below (written c found) =
    caller_work s.callers c in_write (at_lock notifies) s.clients s.clients 0 _ _ found
      (omega arith) (omega arith) (omega arith)
LockStep_work s _ below (receive_update id queue found) =
    thread_goes s.threads id _ _ _ found (omega arith)
LockStep_work s _ below (receive_shutdown id queue found) =
    thread_goes s.threads id _ _ _ found (omega arith)
LockStep_work s _ below (reading id queue found free) =
    thread_goes s.threads id _ _ _ found (omega arith)
LockStep_work s _ below (processed id queue found) =
    thread_goes s.threads id _ _ _ found (omega arith)
LockStep_work s _ below (panicked id queue found) =
    thread_goes s.threads id _ _ _ found (omega arith)
