-- ===== src/RwLock/Reopening.antt =====
-- The lock does not stay shut to readers once nobody has it or waits to write.
use libblocxx_deb.Prelude.{
  ℕ, ◌+◌, ◌^◌, ◌<◌, ◌≡◌, ◌≢◌, refl, Bool, false, Option, none, some, List, [], ◌∷◌, arith,
  get_elem?, length,
}
use libblocxx_deb.RwLock.Defs.{
  LockerInfo, Call, running, writing, upgrading, Outcome, done, Thread, Lock, returns, acquire_read,
  acquire_read_loop,
}
use libblocxx_deb.RwLock.Events.{
  resume, Event, acquires_read, acquires_write, releases_read, wakes, resumes, times_out,
  releases_write, actor, act, act_at, step, run, create,
}
use libblocxx_deb.RwLock.Tally.{tally_none, tally_member, get_elem?-set_at}
use libblocxx_deb.RwLock.Counts.{owns, upgrades, fault, Inv}
use libblocxx_deb.RwLock.Kept.{at}
use libblocxx_deb.RwLock.Exclusion.{step-Inv, create-Inv, reached}
use libblocxx_deb.RwLock.Guarded.{
  awaits, IsGuarded, put-IsGuarded, acquire_read_loop-IsGuarded, acquire_read-IsGuarded,
  release_read-IsGuarded, acquire_write_loop-IsGuarded, upgrade_loop-IsGuarded,
  acquire_write-IsGuarded, release_write-IsGuarded, time_out-IsGuarded,
}

module _ (k i : ℕ) (s : Lock) (inv : Inv k s) (v : IsGuarded s) (a : Bool) (o : Outcome) where
  resume-IsGuarded :
      (info : Option LockerInfo) (c : Call)
      → get_elem? s.threads i ≡ some (at info c a o)
      → IsGuarded (resume i (at info c a o) s)
  unfolding resume
  resume-IsGuarded none c g = ground (
    arith,
    v,
    inv,
    acquire_read_loop-IsGuarded i s v inv.single a o c g,
    acquire_write_loop-IsGuarded i s v inv.single a o c g,
  )
  resume-IsGuarded (some ti) upgrading g = ground (
    arith,
    v,
    inv,
    tally_member upgrades s.threads i (at (some ti) upgrading a o) g,
    upgrade_loop-IsGuarded i s v inv.single a o ti g,
  )
  resume-IsGuarded (some ti) _ g = ground (arith, v)

  act-IsGuarded :
      (e : Event) (info : Option LockerInfo) (c : Call)
      → get_elem? s.threads i ≡ some (at info c a o)
      → IsGuarded (act e i (at info c a o) s)
  unfolding act
  act-IsGuarded (acquires_read _) info running g =
      acquire_read-IsGuarded i s v inv.single a o info g
  act-IsGuarded (acquires_read _) info _ g = v
  act-IsGuarded (acquires_write _) info running g =
      acquire_write-IsGuarded i s v inv.single a o info g
  act-IsGuarded (acquires_write _) info _ g = v
  act-IsGuarded (releases_read _) info running g =
      release_read-IsGuarded i s v inv.single a o info g
  act-IsGuarded (releases_read _) info _ g = v
  act-IsGuarded (releases_write j _) info running g =
      release_write-IsGuarded i s v inv.single a o j info g
  act-IsGuarded (releases_write j _) info _ g = v
  act-IsGuarded (wakes _) info c g =
      ground
        (arith, put-IsGuarded i s v inv.single a o (at info c a o) (at info c false o) s g refl)
  act-IsGuarded (resumes _) info c g = resume-IsGuarded info c g
  act-IsGuarded (times_out _) info c g = time_out-IsGuarded i s v inv.single a o info c g

act_at-IsGuarded :
    (k : ℕ) (e : Event) (i : ℕ) (o : Option Thread) (s : Lock)
    → get_elem? s.threads i ≡ o
    → Inv k s
    → IsGuarded s
    → IsGuarded (act_at e i o s)
act_at-IsGuarded k e i none s g inv v = v
act_at-IsGuarded k e i (some t) s g inv v =
    act-IsGuarded k i s inv v t.asleep t.outcome e t.info t.call g

step-IsGuarded : (k : ℕ) (e : Event) (s : Lock) → Inv k s → IsGuarded s → IsGuarded (step e s)
unfolding step
step-IsGuarded k e s inv v =
    act_at-IsGuarded k e (actor e) (get_elem? s.threads (actor e)) s refl inv v

run-IsGuarded :
    (k : ℕ) (es : List Event) (s : Lock)
    → k + length es < 2 ^ 32
    → Inv k s
    → IsGuarded s
    → IsGuarded (run es s)
unfolding run
run-IsGuarded k [] s h inv v = v
run-IsGuarded k (e ∷ es) s h inv v =
    run-IsGuarded (k + 1) es (step e s) (omega arith) (step-Inv k e s (omega arith) inv)
      (step-IsGuarded k e s inv v)

create-IsGuarded : (n : ℕ) → IsGuarded (create n)
unfolding create
create-IsGuarded n = ground arith

module _ (k i : ℕ) (s : Lock) (inv : Inv k s) (v : IsGuarded s) where
  abbrev Quiet : Type 0
  Quiet =
      (j : ℕ) (u : Thread) → get_elem? s.threads j ≡ some u → (u.info ≡ none) × (u.call ≢ writing)

  counts_nothing :
      Quiet
      → (j : ℕ) (u : Thread) → get_elem? s.threads j ≡ some u
      → (owns u ≡ 0) × (upgrades u ≡ 0) × (awaits u ≡ 0)
  counts_nothing h j u g = ground (arith, inv, h j u g, tally_member fault s.threads j u g)

  admitted_at :
      (a : Bool) (o : Outcome)
      → get_elem? s.threads i ≡ some (at none running a o)
      → Quiet
      → get_elem? (acquire_read i (at none running a o) s).threads i
        ≡ some (returns done (some (record { read_count = 1; write_count = 0 })))
  unfolding acquire_read acquire_read_loop
  admitted_at a o g h = ground (
    arith,
    inv,
    v,
    get_elem?-set_at s.threads i (at none running a o)
        (returns done (some (record { read_count = 1; write_count = 0 }))) g,
    tally_none owns s.threads (λ j u e. (counts_nothing h j u e).0),
    tally_none upgrades s.threads (λ j u e. (counts_nothing h j u e).1),
    tally_none awaits s.threads (λ j u e. (counts_nothing h j u e).2),
  )

  admitted :
      (t : Thread)
      → get_elem? s.threads i ≡ some t
      → t.call ≡ running
      → Quiet
      → get_elem? (step (acquires_read i) s).threads i
        ≡ some (returns done (some (record { read_count = 1; write_count = 0 })))
  unfolding step act
  admitted t g c h = ground (arith, h i t g, admitted_at t.asleep t.outcome)

-- After any run of fewer than 2 ^ 32 events, when no thread has the lock and none waits to write, a
-- thread that asks to read gets the lock at once.
pub run-admitted :
    (n : ℕ) (es : List Event) (i : ℕ) (t : Thread)
    → length es < 2 ^ 32
    → get_elem? (run es (create n)).threads i ≡ some t
    → t.call ≡ running
    → ((j : ℕ) (u : Thread)
        → get_elem? (run es (create n)).threads j ≡ some u
        → (u.info ≡ none) × (u.call ≢ writing))
    → get_elem? (step (acquires_read i) (run es (create n))).threads i
      ≡ some (returns done (some (record { read_count = 1; write_count = 0 })))
run-admitted n es i t h =
    admitted (length es) i (run es (create n)) (reached n es h)
      (run-IsGuarded 0 es (create n) (omega arith) (create-Inv n) (create-IsGuarded n)) t
