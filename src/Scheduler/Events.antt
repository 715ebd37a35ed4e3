-- ===== src/Scheduler/Events.antt =====
-- The life of an event of engine/src/scheduler.cpp: added, then stopped or handed over, once.
use otx_teste.Common.{
  ℕ, zero, suc, ◌+◌, ◌^◌, ◌<◌, ◌≡◌, Bool, true, not, ◌&&◌, List, [], ◌∷◌, Option, none, some, leb,
  ◌==◌, if◌then◌else◌, arith, inl, inr, Bool-cases, if_either,
}
use otx_teste.Common.Sets.{mem, Distinct}
use otx_teste.Scheduler.Held.{Held, Held-add, Held-stop, Held-close, Held-drop, Held-send}
use otx_teste.Scheduler.{
  Scheduler, SchedulerTask, is_running, add_event, stop_event, shutdown, fire, pop_at, is_top,
  next_event_id,
}

-- What a thread may do next. `expire` is the scheduler's own thread at a time, with the place of the
-- entry that its queue has on top.
pub data Action : Type 0 where
  add : ℕ → ℕ → Action
  stop : ℕ → Action
  expire : ℕ → ℕ → Action
  close : Action

-- The scheduler, and the tasks that it has handed over, the last one first.
pub record World : Type 0 where
  pub scheduler : Scheduler
  pub sent : List SchedulerTask

abbrev pub send : List SchedulerTask → Scheduler × Option SchedulerTask → World
send sent (s, none) = record { scheduler = s; sent = sent }
send sent (s, some t) = record { scheduler = s; sent = t ∷ sent }

-- The queue's top goes, when its time has come.
unfoldable pub expire_top : ℕ → World → Option (SchedulerTask × List SchedulerTask) → World
unfolding fire is_top
expire_top now w none = w
expire_top now w (some p) =
    if is_top p.0 p.1 && leb p.0.cycle now then send w.sent (fire p.0 p.1 w.scheduler) else w

unfoldable pub step : Action → World → World
unfolding add_event stop_event shutdown expire_top pop_at
step (add cycle func) w = record w {
  scheduler = (add_event (record { event_id = 0; cycle = cycle; func = func }) w.scheduler).0;
}
step (stop id) w = record w { scheduler = (stop_event id w.scheduler).0 }
step (expire now place) w = expire_top now w (pop_at place w.scheduler.event_list)
step close w = record w { scheduler = shutdown w.scheduler }

unfoldable pub run : List Action → World → World
unfolding step
run [] w = w
run (a ∷ rest) w = run rest (step a w)

abbrev pub ids : List SchedulerTask → List ℕ
ids [] = []
ids (t ∷ ts) = t.event_id ∷ ids ts

abbrev pub IsSound : World → Type 0
IsSound w =
    Held w.scheduler.last_event_id (ids w.scheduler.event_list) w.scheduler.event_ids (ids w.sent)

-- What taking one entry out of a queue does to its identifiers.
pub record IsTaken (ts : List SchedulerTask) (p : SchedulerTask × List SchedulerTask) : Type 0 where
  pub rest : (id : ℕ) → mem id (ids p.1) ≡ (not (id == p.0.event_id) && mem id (ids ts))
  pub rest_once : Distinct (ids p.1)
  pub taken : mem p.0.event_id (ids ts) ≡ true

abbrev pub Taken : List SchedulerTask → Option (SchedulerTask × List SchedulerTask) → Type 0
Taken ts none = Unit {0}
Taken ts (some p) = IsTaken ts p

pub pop_at-Taken : (n : ℕ) (ts : List SchedulerTask) → Distinct (ids ts) → Taken ts (pop_at n ts)
unfolding pop_at mem
pop_at-Taken n [] d = tt
pop_at-Taken zero (t ∷ ts) d = record {
  rest = λ id. elim (Bool-cases (id == t.event_id)) [
    | inl same ↦ let e : id ≡ t.event_id = ground arith in rw e (ground (arith, d.0))
    | inr other ↦ ground arith
  ];
  rest_once = d.1;
  taken = ground arith;
}
pop_at-Taken (suc n) (t ∷ ts) d = go (pop_at n ts) (pop_at-Taken n ts d.1)
  where
    go :
        (o : Option (SchedulerTask × List SchedulerTask))
        → Taken ts o
        → Taken (t ∷ ts) (elim o [ none ↦ none | some p ↦ some (p.0, t ∷ p.1) ])
    go none k = tt
    go (some p) k = record {
      rest = λ id. elim (Bool-cases (id == t.event_id)) [
        | inl same ↦
            let e : id ≡ t.event_id = ground arith in
            rw e (ground (arith, d.0, k.taken, k.rest t.event_id))
        | inr other ↦ ground (arith, k.rest id)
      ];
      rest_once = (ground (arith, k.rest t.event_id, d.0), k.rest_once);
      taken = ground (arith, k.taken);
    }

step-add :
    (cycle func : ℕ) (w : World)
    → IsSound w
    → w.scheduler.last_event_id + 1 < 2 ^ 32
    → IsSound (step (add cycle func) w)
unfolding step add_event next_event_id
step-add cycle func w s fits =
    if_either (λ (a : Scheduler × ℕ). IsSound (record w { scheduler = a.0 }))
      (is_running w.scheduler.state)
      (λ _.
        let e : next_event_id w.scheduler.last_event_id ≡ w.scheduler.last_event_id + 1 =
          ground arith in
        rw e (Held-add s))
      λ _. s

step-stop : (id : ℕ) (w : World) → IsSound w → IsSound (step (stop id) w)
unfolding step stop_event
step-stop id w s =
    if_either (λ (a : Scheduler × Bool). IsSound (record w { scheduler = a.0 })) (id == 0) (λ _. s)
      λ _.
        if_either (λ (a : Scheduler × Bool). IsSound (record w { scheduler = a.0 }))
          (mem id w.scheduler.event_ids) (λ _. Held-stop s id) λ _. s

step-close : (w : World) → IsSound w → IsSound (step close w)
unfolding step shutdown
step-close w s = Held-close s

send-IsSound :
    (w : World) (p : SchedulerTask × List SchedulerTask)
    → IsSound w
    → IsTaken w.scheduler.event_list p
    → IsSound (send w.sent (fire p.0 p.1 w.scheduler))
unfolding fire
send-IsSound w p s k =
    if_either (λ (a : Scheduler × Option SchedulerTask). IsSound (send w.sent a))
      (mem p.0.event_id w.scheduler.event_ids)
      (λ _. Held-send s p.0.event_id (ids p.1) k.rest k.rest_once k.taken)
      (λ idle. Held-drop s p.0.event_id (ids p.1) k.rest k.rest_once idle)

expire_top-IsSound :
    (now : ℕ) (w : World) (o : Option (SchedulerTask × List SchedulerTask))
    → IsSound w
    → Taken w.scheduler.event_list o
    → IsSound (expire_top now w o)
unfolding expire_top
expire_top-IsSound now w none s k = s
expire_top-IsSound now w (some p) s k =
    if_either IsSound (is_top p.0 p.1 && leb p.0.cycle now) (λ _. send-IsSound w p s k) (λ _. s)

pub step-IsSound :
    (a : Action) (w : World)
    → IsSound w
    → w.scheduler.last_event_id + 1 < 2 ^ 32
    → IsSound (step a w)
unfolding step
step-IsSound (add cycle func) w s fits = step-add cycle func w s fits
step-IsSound (stop id) w s fits = step-stop id w s
step-IsSound (expire now place) w s fits =
    expire_top-IsSound now w _ s (pop_at-Taken place w.scheduler.event_list s.queue_once)
step-IsSound close w s fits = step-close w s
