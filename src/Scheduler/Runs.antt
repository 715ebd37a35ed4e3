-- ===== src/Scheduler/Runs.antt =====
-- Any sequence of what the threads do to the scheduler of engine/src/scheduler.cpp.
use otx_teste.Common.{
  ℕ, ◌+◌, ◌^◌, ◌<◌, ◌≤◌, ◌≡◌, refl, true, false, ◌&&◌, List, [], ◌∷◌, Option, none, some, ◌==◌, leb,
  length, arith, inl, inr, Bool-cases, if_either, dec_lt,
}
use otx_teste.Common.Sets.{mem, mem-erase}
use otx_teste.Scheduler.{
  Scheduler, SchedulerTask, running, add_event, stop_event, shutdown, fire, pop_at, is_top,
  next_event_id,
}
use otx_teste.Scheduler.Events.{
  Action, add, stop, expire, close, World, send, expire_top, step, run, ids, IsSound, step-IsSound,
}

-- The scheduler before anything is added.
abbrev pub started : World
started = record {
  scheduler = record { state = running; last_event_id = 0; event_list = []; event_ids = [] };
  sent = [];
}

expire_top-last :
    (now : ℕ) (w : World) (o : Option (SchedulerTask × List SchedulerTask))
    → (expire_top now w o).scheduler.last_event_id ≡ w.scheduler.last_event_id
unfolding expire_top fire
expire_top-last now w none = refl
expire_top-last now w (some p) =
    if_either (λ (v : World). v.scheduler.last_event_id ≡ w.scheduler.last_event_id)
      (is_top p.0 p.1 && leb p.0.cycle now)
      (λ _.
        if_either
          (λ (a : Scheduler × Option SchedulerTask).
            (send w.sent a).scheduler.last_event_id ≡ w.scheduler.last_event_id)
          (mem p.0.event_id w.scheduler.event_ids) (λ _. refl) λ _. refl)
      λ _. refl

last_after :
    (a : Action) (w : World)
    → w.scheduler.last_event_id + 1 < 2 ^ 32
    → (step a w).scheduler.last_event_id ≤ w.scheduler.last_event_id + 1
unfolding step add_event stop_event shutdown next_event_id
last_after (add cycle func) w fits = ground arith
last_after (stop id) w fits = ground arith
last_after (expire now place) w fits =
    omega (arith, expire_top-last now w (pop_at place w.scheduler.event_list))
last_after close w fits = omega arith

run-IsSound :
    (actions : List Action) (w : World)
    → IsSound w
    → w.scheduler.last_event_id + length actions < 2 ^ 32
    → IsSound (run actions w)
unfolding run
run-IsSound [] w s fits = s
run-IsSound (a ∷ rest) w s fits =
    run-IsSound rest (step a w) (step-IsSound a w s (omega arith))
      (omega (arith, last_after a w (omega arith)))

started-IsSound : IsSound started
unfolding mem
started-IsSound = record {
  apart = λ id. refl;
  queue_once = tt;
  sent_once = tt;
  given = λ id h. refl;
  queued = λ id. refl;
  active_once = tt;
}

-- Whatever events are added and stopped, whenever the scheduler's thread wakes, and whether it is
-- shut down: as long as fewer than 2 ^ 32 of these things happen, no event is handed to the
-- dispatcher twice, none that was handed over is in the queue still, and only entries of the queue
-- are active.
pub run-started : (actions : List Action) → length actions < 2 ^ 32 → IsSound (run actions started)
run-started actions fits = run-IsSound actions started started-IsSound (omega arith)

-- An identifier that was given out and is active no more, and not handed over.
record IsStopped (id : ℕ) (w : World) : Type 0 where
  pub old : id ≤ w.scheduler.last_event_id
  pub idle : mem id w.scheduler.event_ids ≡ false
  pub unsent : mem id (ids w.sent) ≡ false

fire-IsStopped :
    (id : ℕ) (w : World) (p : SchedulerTask × List SchedulerTask)
    → IsSound w
    → IsStopped id w
    → IsStopped id (send w.sent (fire p.0 p.1 w.scheduler))
unfolding fire mem
fire-IsStopped id w p s k =
    if_either (λ (a : Scheduler × Option SchedulerTask). IsStopped id (send w.sent a))
      (mem p.0.event_id w.scheduler.event_ids)
      (λ on. record {
        old = k.old;
        idle =
            ground (arith, mem-erase p.0.event_id id w.scheduler.event_ids s.active_once, k.idle);
        unsent = elim (Bool-cases (id == p.0.event_id)) [
          | inl same ↦
              let e : id ≡ p.0.event_id = ground arith in absurd (let off = rw e at k.idle in cc)
          | inr other ↦ ground (arith, k.unsent)
        ];
      })
      (λ off. record { old = k.old; idle = k.idle; unsent = k.unsent })

expire_top-IsStopped :
    (id now : ℕ) (w : World) (o : Option (SchedulerTask × List SchedulerTask))
    → IsSound w
    → IsStopped id w
    → IsStopped id (expire_top now w o)
unfolding expire_top
expire_top-IsStopped id now w none s k = k
expire_top-IsStopped id now w (some p) s k =
    if_either (λ v. IsStopped id v) (is_top p.0 p.1 && leb p.0.cycle now)
      (λ _. fire-IsStopped id w p s k) (λ _. k)

step-IsStopped :
    (id : ℕ) (a : Action) (w : World)
    → w.scheduler.last_event_id + 1 < 2 ^ 32
    → IsSound w
    → IsStopped id w
    → IsStopped id (step a w)
unfolding step add_event stop_event shutdown next_event_id mem
step-IsStopped id (add cycle func) w fits s k = record {
  old = ground (arith, k.old);
  idle = ground (arith, k.old, k.idle);
  unsent = k.unsent;
}
step-IsStopped id (stop other) w fits s k = record {
  old = ground (arith, k.old);
  idle = ground (arith, k.idle, mem-erase other id w.scheduler.event_ids s.active_once);
  unsent = k.unsent;
}
step-IsStopped id (expire now place) w fits s k =
    expire_top-IsStopped id now w (pop_at place w.scheduler.event_list) s k
step-IsStopped id close w fits s k = record { old = k.old; idle = refl; unsent = k.unsent }

run-IsStopped :
    (id : ℕ) (actions : List Action) (w : World)
    → w.scheduler.last_event_id + length actions < 2 ^ 32
    → IsSound w
    → IsStopped id w
    → IsStopped id (run actions w)
unfolding run
run-IsStopped id [] w fits s k = k
run-IsStopped id (a ∷ rest) w fits s k =
    run-IsStopped id rest (step a w) (omega (arith, last_after a w (omega arith)))
      (step-IsSound a w s (omega arith)) (step-IsStopped id a w (omega arith) s k)

stopped :
    (id : ℕ) (w : World)
    → IsSound w
    → (stop_event id w.scheduler).1 ≡ true
    → IsStopped id (step (stop id) w)
unfolding step stop_event
stopped id w s done =
    let active : mem id w.scheduler.event_ids ≡ true = ground arith in
    record {
      old = elim (dec_lt w.scheduler.last_event_id id) [
        | yes later ↦ absurd (ground (arith, s.given id later, s.queued id))
        | no here ↦ ground (arith, active)
      ];
      idle = ground (arith, active, mem-erase id id w.scheduler.event_ids s.active_once);
      unsent = ground (arith, s.apart id, s.queued id);
    }

-- An event that `stopEvent` says it has stopped is never handed to the dispatcher, whatever happens
-- after it, as long as the identifiers do not wrap.
pub stop_event-final :
    (id : ℕ) (w : World) (actions : List Action)
    → IsSound w
    → w.scheduler.last_event_id + length actions + 1 < 2 ^ 32
    → (stop_event id w.scheduler).1 ≡ true
    → mem id (ids (run actions (step (stop id) w)).sent) ≡ false
stop_event-final id w actions s fits done =
    let next = step-IsSound (stop id) w s (omega arith) in
    (run-IsStopped id actions (step (stop id) w)
      (omega (arith, last_after (stop id) w (omega arith))) next (stopped id w s done)).unsent
