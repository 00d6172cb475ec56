-- ===== src/RwLock/Exclusion.antt =====
-- Who can have the lock at the same time, after any run.
use libblocxx_deb.Prelude.{
  ℕ, zero, suc, ◌+◌, ◌^◌, ◌≤◌, ◌<◌, ◌≡◌, ◌≢◌, refl, Bool, true, false, Option, none, some, List, [],
  ◌∷◌, arith, get_elem?, length,
}
use libblocxx_deb.RwLock.Defs.{
  LockerInfo, is_writer, running, upgrading, Outcome, done, deadlock_exception, assertion_exception,
  Thread, Lock, put, returns, acquire_write, acquire_write_loop, upgrade_loop,
}
use libblocxx_deb.RwLock.Events.{
  Event, acquires_write, actor, act, act_at, step, run, strangers, create,
}
use libblocxx_deb.RwLock.Tally.{tally, tally_member, tally_two, tally_only, get_elem?-set_at}
use libblocxx_deb.RwLock.Counts.{reads, owns, upgrades, fault, depth, Inv}
use libblocxx_deb.RwLock.Kept.{at, act-Inv, later}

act_at-Inv :
    (k : ℕ) (e : Event) (i : ℕ) (o : Option Thread) (s : Lock)
    → k + 1 < 2 ^ 32
    → get_elem? s.threads i ≡ o
    → Inv k s
    → Inv (k + 1) (act_at e i o s)
act_at-Inv k e i none s h g v = later k i h s v false done
act_at-Inv k e i (some t) s h g v = act-Inv k i h s v t.asleep t.outcome e t.info t.call g

pub step-Inv : (k : ℕ) (e : Event) (s : Lock) → k + 1 < 2 ^ 32 → Inv k s → Inv (k + 1) (step e s)
unfolding step
step-Inv k e s h v = act_at-Inv k e (actor e) (get_elem? s.threads (actor e)) s h refl v

run-Inv :
    (k m : ℕ) (es : List Event) (s : Lock)
    → k + length es ≡ m
    → m < 2 ^ 32
    → Inv k s
    → Inv m (run es s)
unfolding run
run-Inv k m [] s e h v = ground (arith, v)
run-Inv k m (x ∷ es) s e h v =
    run-Inv (k + 1) m es (step x s) (omega arith) h (step-Inv k x s (omega arith) v)

-- Nobody has the lock at first.
strangers_lem :
    (n : ℕ)
    → (tally reads (strangers n) ≡ 0)
      × (tally owns (strangers n) ≡ 0)
      × (tally upgrades (strangers n) ≡ 0)
      × (tally fault (strangers n) ≡ 0)
      × (tally depth (strangers n) ≡ 0)
unfolding strangers
strangers_lem zero = (refl, refl, refl, refl, refl)
strangers_lem (suc n) = ground (arith, strangers_lem n)

pub create-Inv : (n : ℕ) → Inv 0 (create n)
unfolding create
create-Inv n = ground (arith, strangers_lem n)

pub reached : (n : ℕ) (es : List Event) → length es < 2 ^ 32 → Inv (length es) (run es (create n))
reached n es h = run-Inv 0 (length es) es (create n) (omega arith) h (create-Inv n)

alone :
    (k i j : ℕ) (t u : Thread) (ti : LockerInfo) (s : Lock)
    → Inv k s
    → i ≢ j
    → get_elem? s.threads i ≡ some t
    → get_elem? s.threads j ≡ some u
    → t.info ≡ some ti
    → is_writer ti ≡ true
    → u.info ≡ none
alone k i j t u ti s v n g h e w = ground (
  arith,
  tally_two owns s.threads i j t u n g h,
  tally_member reads s.threads j u h,
  tally_member upgrades s.threads j u h,
  tally_member fault s.threads j u h,
)

-- After any run of fewer than 2 ^ 32 events, while a thread has the write lock no other thread has
-- the lock in any way: the map has no entry for it.
pub run-alone :
    (n : ℕ) (es : List Event) (i j : ℕ) (t u : Thread) (ti : LockerInfo)
    → length es < 2 ^ 32
    → i ≢ j
    → get_elem? (run es (create n)).threads i ≡ some t
    → get_elem? (run es (create n)).threads j ≡ some u
    → t.info ≡ some ti
    → is_writer ti ≡ true
    → u.info ≡ none
run-alone n es i j t u ti h = alone (length es) i j t u ti (run es (create n)) (reached n es h)

sound_outcome :
    (k i : ℕ) (t : Thread) (s : Lock)
    → Inv k s
    → get_elem? s.threads i ≡ some t
    → t.outcome ≢ assertion_exception
sound_outcome k i t s v g e = absurd (ground (arith, tally_member fault s.threads i t g))

-- After any run of fewer than 2 ^ 32 events no call has ended in a failed `BLOCXX_ASSERT`, the
-- number of writers is at most one, and the numbers of readers and writers together are no more
-- than the events.
pub run-asserts :
    (n : ℕ) (es : List Event) (i : ℕ) (t : Thread)
    → length es < 2 ^ 32
    → get_elem? (run es (create n)).threads i ≡ some t
    → (t.outcome ≢ assertion_exception)
      × ((run es (create n)).num_writers ≤ 1)
      × ((run es (create n)).num_readers + (run es (create n)).num_writers ≤ length es)
run-asserts n es i t h g =
    let v = reached n es h in
    (sound_outcome (length es) i t (run es (create n)) v g, v.single, v.few)

refused :
    (k i j : ℕ) (t u : Thread) (s : Lock)
    → Inv k s
    → i ≢ j
    → get_elem? s.threads i ≡ some t
    → get_elem? s.threads j ≡ some u
    → t.call ≡ running
    → u.call ≡ upgrading
    → t.info ≢ none
    → step (acquires_write i) s ≡ put i (returns deadlock_exception t.info) s
unfolding step act acquire_write
refused k i j t u s v n g h c d e = ground (
  arith,
  tally_two upgrades s.threads i j t u n g h,
  tally_member owns s.threads i t g,
  tally_member fault s.threads i t g,
)

-- After any run of fewer than 2 ^ 32 events, while a thread waits to upgrade its read lock, another
-- thread that has the lock and asks to write gets the deadlock exception and keeps its entry, and
-- nothing else of the lock changes.
pub run-refused :
    (n : ℕ) (es : List Event) (i j : ℕ) (t u : Thread)
    → length es < 2 ^ 32
    → i ≢ j
    → get_elem? (run es (create n)).threads i ≡ some t
    → get_elem? (run es (create n)).threads j ≡ some u
    → t.call ≡ running
    → u.call ≡ upgrading
    → t.info ≢ none
    → step (acquires_write i) (run es (create n))
      ≡ put i (returns deadlock_exception t.info) (run es (create n))
run-refused n es i j t u h = refused (length es) i j t u (run es (create n)) (reached n es h)

-- The entry of a thread that takes the write lock, once more or for the first time.
abbrev pub written : Option LockerInfo → LockerInfo
written none = record { read_count = 0; write_count = 1 }
written (some ti) = record ti { write_count = ti.write_count + 1 }

module _ (k i : ℕ) (s : Lock) (v : Inv k s) (small : k + 1 < 2 ^ 32) where
  abbrev Lonely : Type 0
  Lonely = (j : ℕ) (u : Thread) → j ≢ i → get_elem? s.threads j ≡ some u → u.info ≡ none

  stays_out :
      (j : ℕ) (u : Thread)
      → get_elem? s.threads j ≡ some u
      → u.info ≡ none
      → (reads u ≡ 0) × (owns u ≡ 0) × (upgrades u ≡ 0)
  stays_out j u g e = ground (arith, tally_member fault s.threads j u g)

  granted :
      (info : Option LockerInfo) (a : Bool) (o : Outcome)
      → get_elem? s.threads i ≡ some (at info running a o)
      → Lonely
      → get_elem? (acquire_write i (at info running a o) s).threads i
        ≡ some (returns done (some (written info)))
  unfolding acquire_write acquire_write_loop upgrade_loop
  granted info a o g h =
      let t = at info running a o in
      ground (
        arith,
        get_elem?-set_at s.threads i t (returns done (some (written info))) g,
        tally_only reads s.threads i t g (λ j u n e. (stays_out j u e (h j u n e)).0),
        tally_only owns s.threads i t g (λ j u n e. (stays_out j u e (h j u n e)).1),
        tally_only upgrades s.threads i t g (λ j u n e. (stays_out j u e (h j u n e)).2),
        tally_member fault s.threads i t g,
        tally_member depth s.threads i t g,
      )

  granted_step :
      (t : Thread)
      → get_elem? s.threads i ≡ some t
      → t.call ≡ running
      → Lonely
      → get_elem? (step (acquires_write i) s).threads i
        ≡ some (returns done (some (written t.info)))
  unfolding step act
  granted_step t g c h = ground (arith, granted t.info t.asleep t.outcome)

-- After any run of fewer than 2 ^ 32 - 1 events, a thread that asks to write while no other thread
-- has the lock gets it at once: the call returns, with one more write counted in the thread's entry.
pub run-granted :
    (n : ℕ) (es : List Event) (i : ℕ) (t : Thread)
    → length es + 1 < 2 ^ 32
    → get_elem? (run es (create n)).threads i ≡ some t
    → t.call ≡ running
    → ((j : ℕ) (u : Thread)
        → j ≢ i
        → get_elem? (run es (create n)).threads j ≡ some u
        → u.info ≡ none)
    → get_elem? (step (acquires_write i) (run es (create n))).threads i
      ≡ some (returns done (some (written t.info)))
run-granted n es i t h =
    granted_step (length es) i (run es (create n)) (reached n es (omega arith)) h t
