-- ===== src/Scheduler/Tasks.antt =====
-- The dispatcher's queue of engine/src/tasks.cpp: what it runs, and in which order.
use mathlib.Core.List.{append_assoc, append-nil}
use otx_teste.Common.{
  ℕ, zero, suc, ◌+◌, ◌%◌, ◌^◌, sym, ◌≡◌, refl, ap, ◌∙◌, false, List, [], ◌∷◌, ◌++◌, Option, none,
  some, if◌then◌else◌, Bool-cases, inl, inr, length,
}
use otx_teste.Scheduler.{
  SchedulerTask, Task, Dispatcher, running, add_task, run_next, has_expired, hand_over,
}

abbrev pub cons? : Option ℕ → List ℕ → List ℕ
cons? none fs = fs
cons? (some f) fs = f ∷ fs

-- What the dispatcher's thread runs in its next turns, all of them at one time.
unfoldable pub turns : ℕ → ℕ → Dispatcher → List ℕ
unfolding run_next
turns now zero d = []
turns now (suc n) d = let r = run_next now d in cons? r.1 (turns now n r.0)

-- The functions of the tasks that have not expired.
unfoldable pub live : ℕ → List Task → List ℕ
unfolding has_expired
live now [] = []
live now (t ∷ ts) = let rest = live now ts in if has_expired now t then rest else t.func ∷ rest

-- `addTask` for each task of a list, at the back.
unfoldable pub add_all : List Task → Dispatcher → Dispatcher
unfolding add_task
add_all [] d = d
add_all (t ∷ ts) d = add_all ts (add_task t false d)

turns_lem :
    (now : ℕ) (ts : List Task) (d : Dispatcher)
    → d.task_list ≡ ts
    → turns now (length ts) d ≡ live now ts
unfolding turns live run_next
turns_lem now [] d h = refl
turns_lem now (t ∷ ts) d h = elim (Bool-cases (has_expired now t)) [
  | inl old ↦ rw (h, old) (turns_lem now ts (record d { task_list = ts }) refl)
  | inr new ↦ rw (h, new) (ap (λ l. t.func ∷ l) (turns_lem now ts _ refl))
]

add_all-task_list :
    (ts : List Task) (d : Dispatcher)
    → d.state ≡ running
    → (add_all ts d).task_list ≡ d.task_list ++ ts
unfolding add_all add_task
add_all-task_list [] d h = sym (append-nil d.task_list)
add_all-task_list (t ∷ ts) d h = rw h (
    add_all-task_list ts
      (record {
        state = running;
        task_list = d.task_list ++ t ∷ [];
        dispatcher_cycle = d.dispatcher_cycle;
      })
      refl
    ∙ append_assoc d.task_list (t ∷ []) ts)

-- A running dispatcher to which tasks are added at the back runs what waited before and then these,
-- in the order of their arrival, each once, and leaves out those that have expired by then.
pub turns-add_all :
    (now : ℕ) (ts : List Task) (d : Dispatcher)
    → d.state ≡ running
    → turns now (length (d.task_list ++ ts)) (add_all ts d) ≡ live now (d.task_list ++ ts)
turns-add_all now ts d h =
    turns_lem now (d.task_list ++ ts) (add_all ts d) (add_all-task_list ts d h)

-- An event that the scheduler hands to a running dispatcher runs in the next turn, however late that
-- comes, and after it everything else as it would have.
pub turns-hand_over :
    (now n : ℕ) (t : SchedulerTask) (d : Dispatcher)
    → d.state ≡ running
    → turns now (suc n) (hand_over t d)
      ≡ t.func ∷ turns now n (record d { dispatcher_cycle = (d.dispatcher_cycle + 1) % 2 ^ 64 })
unfolding turns run_next hand_over add_task has_expired
turns-hand_over now n t d h = simp h refl
