-- ===== src/RwLock/Guarded.antt =====
-- Every call, and every end of a wait, leaves new readers let in, or a thread that writes, upgrades
-- or waits to write.
use libblocxx_deb.Prelude.{
  ℕ, ◌+◌, ◌≤◌, ◌<◌, ◌≡◌, ◌≢◌, refl, ◌⊎◌, Bool, true, false, Option, none, some, arith, get_elem?,
}
use libblocxx_deb.Prelude.Words.{inc, dec}
use libblocxx_deb.RwLock.Defs.{
  LockerInfo, Call, running, reading, writing, upgrading, Outcome, done, timeout_exception,
  deadlock_exception, lock_exception, assertion_exception, Thread, Lock, put, returns, waits_in,
  wake_reader, wake_writer, wake_at, notify_readers, notify_writers, notify_one_writer,
  acquire_read, release_read, acquire_write, release_write, acquire_read_loop, acquire_write_loop,
  upgrade_loop,
}
use libblocxx_deb.RwLock.Events.{time_out}
use libblocxx_deb.RwLock.Tally.{tally, tally-set, tally-map, tally_member}
use libblocxx_deb.RwLock.Kept.{at}

abbrev pub writing_as : Call → ℕ
writing_as writing = 1
writing_as _ = 0

abbrev pub awaits : Thread → ℕ
awaits t = writing_as t.call

-- Readers may enter, or a thread writes, upgrades or waits to write.
pub record IsGuarded (s : Lock) : Type 0 where
  pub guarded : (s.can_read ≡ true) ⊎ (0 < s.num_writers + tally awaits s.threads)

notify_readers-IsGuarded : (s : Lock) → IsGuarded s → IsGuarded (notify_readers s)
unfolding notify_readers
notify_readers-IsGuarded s v =
    ground (arith, v, tally-map awaits wake_reader s.threads (λ t. ground arith))

notify_writers-IsGuarded : (s : Lock) → IsGuarded s → IsGuarded (notify_writers s)
unfolding notify_writers
notify_writers-IsGuarded s v =
    ground (arith, v, tally-map awaits wake_writer s.threads (λ t. ground arith))

wake_at-IsGuarded :
    (j : ℕ) (o : Option Thread) (s : Lock)
    → get_elem? s.threads j ≡ o
    → IsGuarded s
    → IsGuarded (wake_at j o s)
wake_at-IsGuarded j none s g v = v
wake_at-IsGuarded j (some t) s g v =
    ground (arith, v, tally-set awaits s.threads j t (wake_writer t) g)

notify_one_writer-IsGuarded : (j : ℕ) (s : Lock) → IsGuarded s → IsGuarded (notify_one_writer j s)
unfolding notify_one_writer
notify_one_writer-IsGuarded j s v = wake_at-IsGuarded j (get_elem? s.threads j) s refl v

-- A change of thread `i` that leaves the counts of writers.
module _ (i : ℕ) (s : Lock) (v : IsGuarded s) (single : s.num_writers ≤ 1) (a : Bool)
    (o : Outcome) where
  pub put-IsGuarded :
      (t u : Thread) (r : Lock)
      → get_elem? s.threads i ≡ some t
      → r.threads ≡ s.threads
      → ((r.can_read ≡ true) ⊎ (0 < r.num_writers + awaits u))
        ⊎ ((r.can_read ≡ s.can_read) × (s.num_writers + awaits t ≤ r.num_writers + awaits u))
      → IsGuarded (put i u r)
  put-IsGuarded t u r g e h = record {
    guarded = rw e (
        ground (
          arith,
          v.guarded,
          tally-set awaits s.threads i t u g,
          tally_member awaits s.threads i t g,
        ));
  }

  pub acquire_read_loop-IsGuarded :
      (c : Call)
      → get_elem? s.threads i ≡ some (at none c a o)
      → c ≢ writing
      → IsGuarded (acquire_read_loop i (at none c a o) s)
  unfolding acquire_read_loop
  acquire_read_loop-IsGuarded c g n =
      let t = at none c a o in
      ground (
        arith,
        put-IsGuarded t (waits_in reading t) s g,
        put-IsGuarded t (returns done (some (record { read_count = 1; write_count = 0 })))
            (record s { num_readers = inc s.num_readers }) g,
      )

  pub acquire_read-IsGuarded :
      (info : Option LockerInfo)
      → get_elem? s.threads i ≡ some (at info running a o)
      → IsGuarded (acquire_read i (at info running a o) s)
  unfolding acquire_read
  acquire_read-IsGuarded none g = acquire_read_loop-IsGuarded running g (ground arith)
  acquire_read-IsGuarded (some ti) g =
      let t = at (some ti) running a o in
      ground (
        arith,
        put-IsGuarded t (returns done (some (record ti { read_count = inc ti.read_count }))) s g,
        put-IsGuarded t (returns assertion_exception t.info) s g,
      )

  pub release_read-IsGuarded :
      (info : Option LockerInfo)
      → get_elem? s.threads i ≡ some (at info running a o)
      → IsGuarded (release_read i (at info running a o) s)
  unfolding release_read
  release_read-IsGuarded none g =
      ground (arith, put-IsGuarded (at none running a o) (returns lock_exception none) s g)
  release_read-IsGuarded (some ti) g =
      let t = at (some ti) running a o in
      let u : Lock = record s { num_readers = dec s.num_readers } in
      ground (
        arith,
        put-IsGuarded t (returns lock_exception t.info) s g,
        put-IsGuarded t (returns done none) u g,
        put-IsGuarded t (returns done (some (record ti { read_count = dec ti.read_count }))) s g,
        notify_writers-IsGuarded (put i (returns done none) u),
      )

  pub acquire_write_loop-IsGuarded :
      (c : Call)
      → get_elem? s.threads i ≡ some (at none c a o)
      → IsGuarded (acquire_write_loop i (at none c a o) s)
  unfolding acquire_write_loop
  acquire_write_loop-IsGuarded c g =
      let t = at none c a o in
      ground (
        arith,
        put-IsGuarded t (waits_in writing t) (record s { can_read = false }) g,
        put-IsGuarded t (returns done (some (record { read_count = 0; write_count = 1 })))
            (record s { num_writers = inc s.num_writers; can_read = false }) g,
      )

  pub upgrade_loop-IsGuarded :
      (ti : LockerInfo)
      → get_elem? s.threads i ≡ some (at (some ti) upgrading a o)
      → 0 < s.num_writers
      → IsGuarded (upgrade_loop ti i (at (some ti) upgrading a o) s)
  unfolding upgrade_loop
  upgrade_loop-IsGuarded ti g w =
      let t = at (some ti) upgrading a o in
      ground (
        arith,
        put-IsGuarded t (waits_in upgrading t) (record s { can_read = false }) g,
        put-IsGuarded t (returns done (some (record ti { write_count = inc ti.write_count }))) s g,
      )

  pub acquire_write-IsGuarded :
      (info : Option LockerInfo)
      → get_elem? s.threads i ≡ some (at info running a o)
      → IsGuarded (acquire_write i (at info running a o) s)
  unfolding acquire_write upgrade_loop
  acquire_write-IsGuarded none g = acquire_write_loop-IsGuarded running g
  acquire_write-IsGuarded (some ti) g =
      let t = at (some ti) running a o in
      let w = returns done (some (record ti { write_count = inc ti.write_count })) in
      let u : Lock = record s {
        num_readers = dec s.num_readers;
        num_writers = inc s.num_writers;
      } in
      ground (
        arith,
        put-IsGuarded t (returns assertion_exception t.info) s g,
        put-IsGuarded t (returns deadlock_exception t.info) s g,
        put-IsGuarded t w s g,
        put-IsGuarded t w u g,
        put-IsGuarded t (waits_in upgrading t) (record u { can_read = false }) g,
      )

  pub release_write-IsGuarded :
      (j : ℕ) (info : Option LockerInfo)
      → get_elem? s.threads i ≡ some (at info running a o)
      → IsGuarded (release_write j i (at info running a o) s)
  unfolding release_write
  release_write-IsGuarded j none g =
      ground (arith, put-IsGuarded (at none running a o) (returns lock_exception none) s g)
  release_write-IsGuarded j (some ti) g =
      let t = at (some ti) running a o in
      let left : LockerInfo = record ti { write_count = dec ti.write_count } in
      let u : Lock = record s { num_writers = dec s.num_writers } in
      let r : Lock = record u { can_read = true; num_readers = inc u.num_readers } in
      let q : Lock = put i (returns done none) (record u { can_read = true }) in
      ground (
        arith,
        put-IsGuarded t (returns lock_exception t.info) s g,
        put-IsGuarded t (returns done (some left)) s g,
        put-IsGuarded t (returns assertion_exception (some left)) u g,
        put-IsGuarded t (returns done (some left)) r g,
        put-IsGuarded t (returns done none) (record u { can_read = true }) g,
        notify_readers-IsGuarded (put i (returns done (some left)) r),
        notify_one_writer-IsGuarded j q,
        notify_readers-IsGuarded (notify_one_writer j q),
      )

  pub time_out-IsGuarded :
      (info : Option LockerInfo) (c : Call)
      → get_elem? s.threads i ≡ some (at info c a o)
      → IsGuarded (time_out i (at info c a o) s)
  unfolding time_out
  time_out-IsGuarded info c g =
      let t = at info c a o in
      let u = returns timeout_exception info in
      let back : Lock = record s {
        num_readers = inc s.num_readers;
        num_writers = dec s.num_writers;
      } in
      ground (
        arith,
        v,
        put-IsGuarded t u s g,
        put-IsGuarded t u (record s { can_read = true }) g,
        put-IsGuarded t u (record back { can_read = true }) g,
        notify_readers-IsGuarded (put i u (record s { can_read = true })),
        notify_readers-IsGuarded (put i u (record back { can_read = true })),
      )
