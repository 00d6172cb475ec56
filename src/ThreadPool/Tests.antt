-- ===== src/ThreadPool/Tests.antt =====
-- Pools of numbered work, run on concrete schedules.
use libblocxx_deb.Prelude.{ℕ, ◌≤◌, ◌≡◌, ◌≢◌, refl, ◌⊎◌, true, false, List, [], ◌∷◌, ◌++◌, arith}
use libblocxx_deb.ThreadPool.Defs.{
  fixed_size, dynamic_size, notifying, finished, Pool, is_empty, queue_is_full,
}
use libblocxx_deb.ThreadPool.Steps.{
  Event, adds, adder_resumes, adder_notifies, adder_starts, worker_gets, worker_ends, shuts_down,
  closer_resumes, closer_notifies, run, create,
}
use libblocxx_deb.ThreadPool.History.{run-history, WithinLimits, run-WithinLimits}
use libblocxx_deb.ThreadPool.Closing.{shutdown_finishes}
use libblocxx_deb.ThreadPool.Wakeups.{run-asleep}
use libblocxx_deb.ThreadPool.Stranded.{IsResting, IsStranded, late, add_late-IsStranded}

-- One worker and room for one: the worker sleeps, is woken by the first work, and a second caller
-- finds the queue full until the worker takes the work.
abbrev crowd : List (Event ℕ)
crowd = worker_gets ∷ adds 7 ∷ adds 8 ∷ worker_gets ∷ adder_resumes 8 ∷ []

abbrev small : Pool ℕ
small = create fixed_size 1 1

crowd_runs : ((run crowd small).queue ≡ 8 ∷ []) × ((run crowd small).taken ≡ 7 ∷ [])
unfolding run create
crowd_runs = (refl, refl)

-- Then the pool is told to finish its work.
abbrev wind_up : List (Event ℕ)
wind_up =
    crowd ++ shuts_down true ∷ worker_ends ∷ worker_gets ∷ closer_resumes ∷ closer_notifies ∷ []

run-history_example :
    (run crowd small).accepted ≡ (run crowd small).taken ++ (run crowd small).queue
run-history_example = run-history fixed_size 1 1 crowd (omega arith)

run-WithinLimits_example :
    WithinLimits fixed_size 1 1 (run crowd small) × ((run crowd small).threads ≤ 1)
run-WithinLimits_example = run-WithinLimits fixed_size 1 1 crowd (omega arith)

shutdown_finishes_example : (run wind_up small).accepted ≡ (run wind_up small).taken
unfolding run create
shutdown_finishes_example =
    shutdown_finishes fixed_size 1 1 wind_up (omega arith)
      (tt, (tt, (tt, (tt, (tt, (refl, (tt, (tt, (tt, (tt, tt)))))))))) refl

run-asleep_example :
    (((run crowd small).sleeping_workers ≡ 0)
      ⊎ (((run crowd small).queue ≡ [])
          × (((run crowd small).shutdown ≡ false) ⊎ ((run crowd small).closer ≡ notifying))))
    × (((run crowd small).sleeping_adders ≡ 0)
        ⊎ ((queue_is_full (run crowd small) ≡ true) × ((run crowd small).closer ≢ finished)))
    × (((run crowd small).sleeping_waiters ≡ 0) ⊎ (is_empty (run crowd small).queue ≡ false))
run-asleep_example = run-asleep 1 1 crowd

-- A dynamic pool with one thread, which waits for more work.
abbrev rested : Pool ℕ
rested =
    run (adds 1 ∷ adder_notifies ∷ adder_starts ∷ worker_gets ∷ worker_ends ∷ worker_gets ∷ [])
      (create dynamic_size 1 0)

rested-IsResting : IsResting rested
unfolding run create
rested-IsResting = ground arith

add_late-IsStranded_example : IsStranded 2 (run (adds 2 ∷ late 2 rested.threads) rested)
add_late-IsStranded_example = add_late-IsStranded 2 rested rested-IsResting
