-- ===== src/LockFree/Queue/Tests.antt =====
-- Runs of the queue, and its theorems at states that are reached.
use lock_free_p2p_go.Prelude.{
  ℕ, zero, suc, List, [], ◌∷◌, ◌++◌, ◌≡◌, ◌≢◌, refl, Option, none, some, Bool, true, false,
}
use lock_free_p2p_go.LockFree.Queue.{
  System, Pc, deq_head, dequeued, faulted, Call, enqueue, dequeue, start, step, puts, takes, Reach,
  begin, call, move, initial, called, Holds, at_rest,
}
use lock_free_p2p_go.LockFree.Queue.Fifo.{fifo, never_faults}
use lock_free_p2p_go.LockFree.Queue.Progress.{SoloRun, Ends, returns_alone}
use lock_free_p2p_go.LockFree.Queue.Observations.{empty_when_read}

-- A schedule: goroutine i begins a call, or makes its next step. A call inside an operation is left
-- out.
data Event : Type 0 where
  calls : ℕ → Call ℕ → Event
  moves : ℕ → Event

record Run : Type 0 where
  ins : List (Option ℕ)
  outs : List (Option ℕ)
  last : System ℕ
  reach : Reach ins outs last

abbrev begun : Run
begun = record { ins = []; outs = []; last = initial; reach = begin }

after : Run → Event → Run
after r (moves i) = record { ins = _; outs = _; last = _; reach = move i r.reach }
after r (calls i c) = dispatch (at_rest (r.last.pc i)) refl
  where
    dispatch : (b : Bool) → at_rest (r.last.pc i) ≡ b → Run
    dispatch true e = record {
      ins = r.ins;
      outs = r.outs;
      last = called r.last i c;
      reach = call i c e r.reach;
    }
    dispatch false e = r

run : Run → List Event → Run
unfolding after
run r [] = r
run r (e ∷ es) = run (after r e) es

abbrev steps : ℕ → ℕ → List Event → List Event
steps zero i es = es
steps (suc k) i es = moves i ∷ steps k i es

-- Goroutine 0 enqueues 7 and stops before it moves `tail`; goroutine 1 enqueues 8 and helps it;
-- goroutine 2 dequeues.
abbrev helped : List Event
helped =
    calls 0 (enqueue (some 7))
    ∷ steps 4 0 (calls 1 (enqueue (some 8)) ∷ steps 9 1 (calls 2 dequeue ∷ steps 6 2 []))

helped_result :
    ((run begun helped).last.pc 2 ≡ dequeued (some 7) true)
    × ((run begun helped).ins ≡ some 7 ∷ some 8 ∷ [])
    × ((run begun helped).outs ≡ some 7 ∷ [])
unfolding run start step puts takes
helped_result = (refl, refl, refl)

-- On an empty queue Dequeue returns false.
abbrev polled : List Event
polled = calls 2 dequeue ∷ steps 2 2 []

polled_result : (run begun (calls 2 dequeue ∷ steps 4 2 [])).last.pc 2 ≡ dequeued none false
unfolding run start step puts takes
polled_result = refl

fifo_example :
    (q : List (Option ℕ)) × Holds (run begun helped).last.mem q
    × ((run begun helped).ins ≡ (run begun helped).outs ++ q)
fifo_example = fifo (run begun helped).reach

never_faults_example : (run begun helped).last.pc 2 ≢ faulted
never_faults_example = never_faults (run begun helped).reach 2

empty_when_read_example : Holds (run begun polled).last.mem []
unfolding run start step puts takes
empty_when_read_example = empty_when_read (run begun polled).reach 2 0 refl refl

-- Goroutine 0 has linked its node and stopped before it moved `tail`; goroutine 2 dequeues alone.
abbrev stopped : List Event
stopped = calls 0 (enqueue (some 7)) ∷ steps 4 0 []

returns_alone_example :
    (q : Pc ℕ) × Ends dequeue q × SoloRun 11 (run begun stopped).last.mem deq_head q
unfolding run start step puts takes
returns_alone_example = returns_alone 2 dequeue (run begun stopped).reach refl
