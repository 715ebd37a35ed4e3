-- ===== src/Scheduler.antt =====
-- engine/src/scheduler.cpp and tasks.cpp: the events that wait for their time, and the tasks that
-- wait for the dispatcher's thread. A time is a number, and a function the number that names it.
-- Each definition is what one thread does while it holds the lock.
pub mod Held
pub mod Events
pub mod Runs
pub mod Tasks
use otx_teste.Common.{
  ℕ, zero, suc, ◌+◌, ◌%◌, ◌^◌, Bool, true, false, not, ◌&&◌, List, [], ◌∷◌, ◌++◌, Option, none,
  some, ltb, leb, ◌==◌, if◌then◌else◌,
}
use otx_teste.Common.Sets.{mem, erase}

-- `ThreadState`.
pub data ThreadState : Type 0 where
  running closing terminated : ThreadState

-- `SchedulerTask`, with the `expiration` and `func` of `Task`.
pub record SchedulerTask : Type 0 where
  pub event_id : ℕ
  pub cycle : ℕ
  pub func : ℕ

-- `Scheduler`. `event_list` is the priority queue in any order.
pub record Scheduler : Type 0 where
  pub state : ThreadState
  pub last_event_id : ℕ
  pub event_list : List SchedulerTask
  pub event_ids : List ℕ

abbrev pub is_running : ThreadState → Bool
is_running running = true
is_running closing = false
is_running terminated = false

-- `++lastEventId`, and 1 for 0.
unfoldable pub next_event_id : ℕ → ℕ
next_event_id last = let n = (last + 1) % 2 ^ 32 in if n == 0 then 1 else n

-- `eventIds.insert`.
abbrev pub insert_id : ℕ → List ℕ → List ℕ
insert_id id ids = if mem id ids then ids else id ∷ ids

-- `addEvent`: what it returns, and the scheduler after it.
unfoldable pub add_event : SchedulerTask → Scheduler → Scheduler × ℕ
unfolding next_event_id
add_event task s =
    if is_running s.state
    then (if task.event_id == 0
        then (let id = next_event_id s.last_event_id in
            (
              record s {
                last_event_id = id;
                event_ids = insert_id id s.event_ids;
                event_list = record task { event_id = id } ∷ s.event_list;
              },
              id,
            ))
        else (
          record s {
            event_ids = insert_id task.event_id s.event_ids;
            event_list = task ∷ s.event_list;
          },
          task.event_id,
        ))
    else (s, 0)

-- `stopEvent`.
unfoldable pub stop_event : ℕ → Scheduler → Scheduler × Bool
stop_event event_id s =
    if event_id == 0
    then (s, false)
    else if mem event_id s.event_ids
    then (record s { event_ids = erase event_id s.event_ids }, true)
    else (s, false)

-- `shutdown`.
unfoldable pub shutdown : Scheduler → Scheduler
shutdown s = record s { state = terminated; event_list = []; event_ids = [] }

-- The part of `threadMain` after a timeout, for the task that `top` gives and the rest of the
-- queue: the task, where it goes to the dispatcher.
unfoldable pub fire :
    SchedulerTask → List SchedulerTask → Scheduler → Scheduler × Option SchedulerTask
fire task rest s =
    let popped = record s { event_list = rest } in
    if mem task.event_id s.event_ids
    then (record popped { event_ids = erase task.event_id s.event_ids }, some task)
    else (popped, none)

-- The queue without its entry at a place.
unfoldable pub pop_at : ℕ → List SchedulerTask → Option (SchedulerTask × List SchedulerTask)
pop_at n [] = none
pop_at zero (t ∷ ts) = some (t, ts)
pop_at (suc n) (t ∷ ts) = elim (pop_at n ts) [ none ↦ none | some p ↦ some (p.0, t ∷ p.1) ]

-- `TaskComparator`: no entry of the queue is due before the task.
unfoldable pub is_top : SchedulerTask → List SchedulerTask → Bool
is_top task [] = true
is_top task (t ∷ ts) = not (ltb t.cycle task.cycle) && is_top task ts

-- A task of the dispatcher; the expiration 0 is `SYSTEM_TIME_ZERO`.
pub record Task : Type 0 where
  pub expiration : ℕ
  pub func : ℕ

-- `Dispatcher`.
pub record Dispatcher : Type 0 where
  pub state : ThreadState
  pub task_list : List Task
  pub dispatcher_cycle : ℕ

-- `hasExpired`.
unfoldable pub has_expired : ℕ → Task → Bool
has_expired now t = if t.expiration == 0 then false else ltb t.expiration now

-- `addTask`.
unfoldable pub add_task : Task → Bool → Dispatcher → Dispatcher
add_task t push_front d =
    if is_running d.state
    then record d { task_list = if push_front then t ∷ d.task_list else d.task_list ++ t ∷ [] }
    else d

-- One turn of the dispatcher's `threadMain`: the function that it runs, if any.
unfoldable pub run_next : ℕ → Dispatcher → Dispatcher × Option ℕ
unfolding has_expired
run_next now d = elim d.task_list [
  | [] ↦ (d, none)
  | t ∷ ts ↦
      let popped = record d { task_list = ts } in
      if has_expired now t
      then (popped, none)
      else (record popped { dispatcher_cycle = (d.dispatcher_cycle + 1) % 2 ^ 64 }, some t.func)
]

-- `task->setDontExpire(); g_dispatcher.addTask(task, true)`.
unfoldable pub hand_over : SchedulerTask → Dispatcher → Dispatcher
unfolding add_task
hand_over t d = add_task (record { expiration = 0; func = t.func }) true d
