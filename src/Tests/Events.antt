-- ===== src/Tests/Events.antt =====
-- Runs of the scheduler and the dispatcher.
use otx_teste.Common.{◌≡◌, refl, arith, false, List, [], ◌∷◌, ◌++◌}
use otx_teste.Common.Sets.{mem, erase}
use otx_teste.Scheduler.{Task, Dispatcher, running, stop_event}
use otx_teste.Scheduler.Events.{Action, add, stop, expire, step, run, ids, IsSound}
use otx_teste.Scheduler.Runs.{started, run-started, stop_event-final}
use otx_teste.Scheduler.Tasks.{live}

-- Two events, the second due first, and a third that is stopped.
abbrev day : List Action
day = add 300 7 ∷ add 200 8 ∷ add 100 9 ∷ stop 3 ∷ expire 400 0 ∷ expire 400 0 ∷ expire 400 0 ∷ []

day_sent : ids (run day started).sent ≡ 1 ∷ 2 ∷ []
unfolding run mem erase
day_sent = refl

run-started_example : IsSound (run day started)
run-started_example = run-started day (omega arith)

-- An event that is stopped before its time.
stop_event-final_example :
    mem 1 (ids (run (expire 400 0 ∷ []) (step (stop 1) (run (add 300 7 ∷ []) started))).sent)
    ≡ false
unfolding run mem stop_event
stop_event-final_example =
    stop_event-final 1 (run (add 300 7 ∷ []) started) (expire 400 0 ∷ [])
      (run-started (add 300 7 ∷ []) (omega arith)) (omega arith) refl

abbrev dispatcher : Dispatcher
dispatcher = record {
  state = running;
  task_list = record { expiration = 0; func = 1 } ∷ [];
  dispatcher_cycle = 0;
}

abbrev late : List Task
late = record { expiration = 50; func = 2 } ∷ record { expiration = 500; func = 3 } ∷ []

expired_left_out : live 100 (dispatcher.task_list ++ late) ≡ 1 ∷ 3 ∷ []
unfolding live
expired_left_out = refl
