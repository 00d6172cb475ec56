-- ===== src/RwLock/Tests.antt =====
-- A lock used by few threads, run on concrete calls.
use libblocxx_deb.Prelude.{
  ℕ, zero, suc, ◌≡◌, ◌≢◌, refl, none, some, List, [], ◌∷◌, arith, get_elem?,
}
use libblocxx_deb.RwLock.Defs.{writing, LockerInfo, reading, done, Thread, returns, waits_in}
use libblocxx_deb.RwLock.Events.{
  Event, acquires_read, acquires_write, resumes, releases_write, step, run, create,
}
use libblocxx_deb.RwLock.Exclusion.{run-alone, run-granted, written}

abbrev read_once : LockerInfo
read_once = record { read_count = 1; write_count = 0 }

abbrev write_once : LockerInfo
write_once = record { read_count = 0; write_count = 1 }

-- A writer keeps a reader waiting, which goes on after the release.
abbrev write_first : List Event
write_first = acquires_write 0 ∷ acquires_read 1 ∷ []

waits_for_writer :
    (run write_first (create 2)).threads
    ≡ returns done (some write_once) ∷ waits_in reading (returns done none) ∷ []
unfolding run create
waits_for_writer = refl

reads_after_writer :
    (run (releases_write 0 0 ∷ resumes 1 ∷ []) (run write_first (create 2))).threads
    ≡ returns done none ∷ returns done (some read_once) ∷ []
unfolding run create
reads_after_writer = refl

run-alone_example : (waits_in reading (returns done none)).info ≡ none
unfolding run create
run-alone_example =
    run-alone 2 write_first 0 1 (returns done (some write_once))
      (waits_in reading (returns done none)) write_once (omega arith) (λ e. absurd (omega arith))
      refl refl refl refl

-- Two readers, of which the second waits to upgrade.
abbrev two_readers : List Event
two_readers = acquires_read 0 ∷ acquires_read 1 ∷ acquires_write 1 ∷ []

-- One reader, and another thread that has nothing.
abbrev one_reader : List Event
one_reader = acquires_read 0 ∷ []

no_other :
    (j : ℕ) (u : Thread)
    → j ≢ 0
    → get_elem? (run one_reader (create 2)).threads j ≡ some u
    → u.info ≡ none
unfolding run create
no_other zero u n e = absurd (n refl)
no_other (suc zero) u n e = ground arith
no_other (suc (suc j)) u n e = ground arith

run-granted_example :
    get_elem? (step (acquires_write 0) (run one_reader (create 2))).threads 0
    ≡ some (returns done (some (written (some read_once))))
unfolding run create
run-granted_example =
    run-granted 2 one_reader 0 (returns done (some read_once)) (omega arith) refl refl no_other

-- A writer has come and gone.
abbrev write_over : List Event
write_over = acquires_write 0 ∷ releases_write 1 0 ∷ []

all_quiet :
    (j : ℕ) (u : Thread)
    → get_elem? (run write_over (create 2)).threads j ≡ some u
    → (u.info ≡ none) × (u.call ≢ writing)
unfolding run create
all_quiet zero u e = ground arith
all_quiet (suc zero) u e = ground arith
all_quiet (suc (suc j)) u e = ground arith
