-- ===== src/System/Locks/Walk.antt =====
-- Runs in which one caller makes calls of the registry of src/quote_server.rs.
use rust_quote_streamer.Base.{ℕ, ◌≡◌, List, [], ◌∷◌, ◌++◌, some, nat_key}
use rust_quote_streamer.HashMap.{get}
use rust_quote_streamer.System.Locks.Defs.{
  Call, idle, at_lock, Locks, move, LockStep, calls, Reachable, begins, steps,
}

-- From a state on: steps of any threads, and the calls that the one caller begins meanwhile, in
-- order; nobody else begins anything.
pub data Walk (c : ℕ) (o : Locks) : List Call → Locks → Type 0 where
  stands : Walk c o [] o
  walks : {made : List Call} {l m : Locks} → Walk c o made l → LockStep l m → Walk c o made m
  enters :
      {made : List Call} {l : Locks}
      → Walk c o made l
      → (call : Call) → get c l.callers ≡ some idle
      → Walk c o (made ++ call ∷ []) (move l c (at_lock call))

-- A walk from a state that can be reached.
abbrev pub Walked : ℕ → Locks → List Call → Locks → Type 0
Walked c o made l = Reachable l × Walk c o made l

abbrev pub go_on :
    {c : ℕ} {o : Locks} {made : List Call} {l m : Locks}
    → Walked c o made l
    → LockStep l m
    → Walked c o made m
go_on (r, w) step = (steps r step, walks w step)

abbrev pub call_on :
    {c : ℕ} {o : Locks} {made : List Call} {l : Locks}
    → Walked c o made l
    → (call : Call) → get c l.callers ≡ some idle
    → Walked c o (made ++ call ∷ []) (move l c (at_lock call))
call_on {c} (r, w) call free = (begins r (calls c call free), enters w call free)
