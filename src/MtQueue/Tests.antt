-- ===== src/MtQueue/Tests.antt =====
-- A queue of numbers, run on concrete schedules.
use libblocxx_deb.Prelude.{
  ℕ, ◌+◌, ◌≤◌, ◌≡◌, refl, ◌⊎◌, true, false, List, [], ◌∷◌, ◌++◌, arith, length,
}
use libblocxx_deb.MtQueue.Defs.{
  Queue, Event, pushes, pusher_resumes, pops, popper_resumes, run, create,
}
use libblocxx_deb.MtQueue.History.{run-kept}
use libblocxx_deb.MtQueue.Wakeups.{Stands, handover-Stands}

-- A popper waits, two values are pushed, the popper and another one take them.
abbrev two_values : List (Event ℕ)
two_values = pops false ∷ pushes 1 false ∷ pushes 2 false ∷ popper_resumes false ∷ pops false ∷ []

two_values_pass : (run two_values (create 5)).popped ≡ 1 ∷ 2 ∷ []
unfolding run create
two_values_pass = refl

run-kept_example :
    let s : Queue ℕ = run two_values (create 5) in
    (s.pushed ≡ s.popped ++ s.items)
    × (length s.items ≤ 5)
    × ((s.shutdown ≡ false) ⊎ (s.sleeping_pushers + s.sleeping_poppers ≡ 0))
run-kept_example = run-kept 5 two_values (omega arith)

-- Three pushes to a queue for one item: two pushers sleep.
abbrev crowded : Queue ℕ
crowded = run (pushes 7 true ∷ pushes 8 true ∷ pushes 9 true ∷ []) (create 1)

crowded-Stands : Stands (7 ∷ []) 2 0 0 0 crowded
unfolding run create
crowded-Stands = record {
  for_one = refl;
  open_queue = refl;
  holds = refl;
  pushers_asleep = refl;
  pushers_woken = refl;
  poppers_asleep = refl;
  poppers_woken = refl;
  pushers_counted = refl;
  poppers_counted = refl;
}

handover-Stands_example :
    Stands
      (8 ∷ [])
      1
      0
      1
      0
      (run (pops true ∷ pops true ∷ pusher_resumes 8 true ∷ pusher_resumes 9 true ∷ []) crowded)
handover-Stands_example = handover-Stands 7 8 9 0 crowded (omega arith) crowded-Stands
