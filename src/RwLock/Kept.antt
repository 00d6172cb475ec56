-- ===== src/RwLock/Kept.antt =====
-- Every call of a thread, and every wait's end, keeps the counters right.
use libblocxx_deb.Prelude.{
  ℕ, ◌+◌, ◌^◌, ◌<◌, ◌≡◌, ◌≢◌, refl, Bool, true, false, Option, none, some, arith, get_elem?,
}
use libblocxx_deb.Prelude.Words.{inc, dec}
use libblocxx_deb.RwLock.Defs.{
  LockerInfo, Call, running, reading, writing, upgrading, Outcome, done, timeout_exception,
  deadlock_exception, lock_exception, assertion_exception, Thread, Lock, put, returns, waits_in,
  notify_one_writer, acquire_read, release_read, acquire_write, release_write, acquire_read_loop,
  acquire_write_loop, upgrade_loop,
}
use libblocxx_deb.RwLock.Events.{
  time_out, resume, Event, acquires_read, acquires_write, releases_read, wakes, resumes, times_out,
  releases_write, act,
}
use libblocxx_deb.RwLock.Counts.{
  Inv, member-Counted, put-Inv, wake-Inv, notify_readers-Inv, notify_writers-Inv,
  notify_one_writer-Inv,
}

abbrev pub at : Option LockerInfo → Call → Bool → Outcome → Thread
at info call a o = record { info = info; call = call; asleep = a; outcome = o }

module _ (k i : ℕ) (small : k + 1 < 2 ^ 32) (s : Lock) (v : Inv k s) (a : Bool) (o : Outcome) where
  acquire_read_loop-Inv :
      (c : Call)
      → get_elem? s.threads i ≡ some (at none c a o)
      → c ≢ upgrading
      → Inv (k + 1) (acquire_read_loop i (at none c a o) s)
  unfolding acquire_read_loop
  acquire_read_loop-Inv c g n = ground (
    arith,
    member-Counted i (at none c a o) s g,
    put-Inv k (k + 1) i (at none c a o) (waits_in reading (at none c a o)) s s g v,
    put-Inv k (k + 1) i (at none c a o)
        (returns done (some (record { read_count = 1; write_count = 0 }))) s
        (record s { num_readers = inc s.num_readers }) g v,
  )

  acquire_read-Inv :
      (info : Option LockerInfo)
      → get_elem? s.threads i ≡ some (at info running a o)
      → Inv (k + 1) (acquire_read i (at info running a o) s)
  unfolding acquire_read
  acquire_read-Inv none g = acquire_read_loop-Inv running g (ground arith)
  acquire_read-Inv (some ti) g =
      let t = at (some ti) running a o in
      ground (
        arith,
        member-Counted i t s g,
        put-Inv k (k + 1) i t (returns done (some (record ti { read_count = inc ti.read_count }))) s
            s g v,
        put-Inv k (k + 1) i t (returns assertion_exception t.info) s s g v,
      )

  release_read-Inv :
      (info : Option LockerInfo)
      → get_elem? s.threads i ≡ some (at info running a o)
      → Inv (k + 1) (release_read i (at info running a o) s)
  unfolding release_read
  release_read-Inv none g =
      let t = at none running a o in
      ground
        (arith, member-Counted i t s g, put-Inv k (k + 1) i t (returns lock_exception none) s s g v)
  release_read-Inv (some ti) g =
      let t = at (some ti) running a o in
      let u : Lock = record s { num_readers = dec s.num_readers } in
      ground (
        arith,
        member-Counted i t s g,
        put-Inv k (k + 1) i t (returns lock_exception t.info) s s g v,
        put-Inv k (k + 1) i t (returns done none) s u g v,
        put-Inv k (k + 1) i t (returns done (some (record ti { read_count = dec ti.read_count }))) s
            s g v,
        notify_writers-Inv (k + 1) (put i (returns done none) u),
      )

  acquire_write_loop-Inv :
      (c : Call)
      → get_elem? s.threads i ≡ some (at none c a o)
      → c ≢ upgrading
      → Inv (k + 1) (acquire_write_loop i (at none c a o) s)
  unfolding acquire_write_loop
  acquire_write_loop-Inv c g n =
      let t = at none c a o in
      ground (
        arith,
        member-Counted i t s g,
        put-Inv k (k + 1) i t (waits_in writing t) s (record s { can_read = false }) g v,
        put-Inv k (k + 1) i t (returns done (some (record { read_count = 0; write_count = 1 }))) s
            (record s { num_writers = inc s.num_writers; can_read = false }) g v,
      )

  upgrade_loop-Inv :
      (ti : LockerInfo)
      → get_elem? s.threads i ≡ some (at (some ti) upgrading a o)
      → Inv (k + 1) (upgrade_loop ti i (at (some ti) upgrading a o) s)
  unfolding upgrade_loop
  upgrade_loop-Inv ti g =
      let t = at (some ti) upgrading a o in
      ground (
        arith,
        member-Counted i t s g,
        put-Inv k (k + 1) i t (waits_in upgrading t) s (record s { can_read = false }) g v,
        put-Inv k (k + 1) i t (returns done (some (record ti { write_count = inc ti.write_count })))
            s s g v,
      )

  acquire_write-Inv :
      (info : Option LockerInfo)
      → get_elem? s.threads i ≡ some (at info running a o)
      → Inv (k + 1) (acquire_write i (at info running a o) s)
  unfolding acquire_write
  acquire_write-Inv none g = acquire_write_loop-Inv running g (ground arith)
  acquire_write-Inv (some ti) g =
      let t = at (some ti) running a o in
      let w = returns done (some (record ti { write_count = inc ti.write_count })) in
      let u : Lock = record s {
        num_readers = dec s.num_readers;
        num_writers = inc s.num_writers;
      } in
      unfold upgrade_loop in
      ground (
        arith,
        member-Counted i t s g,
        put-Inv k (k + 1) i t (returns assertion_exception t.info) s s g v,
        put-Inv k (k + 1) i t (returns deadlock_exception t.info) s s g v,
        put-Inv k (k + 1) i t w s s g v,
        put-Inv k (k + 1) i t w s u g v,
        put-Inv k (k + 1) i t (waits_in upgrading t) s (record u { can_read = false }) g v,
      )

  release_write-Inv :
      (j : ℕ) (info : Option LockerInfo)
      → get_elem? s.threads i ≡ some (at info running a o)
      → Inv (k + 1) (release_write j i (at info running a o) s)
  unfolding release_write
  release_write-Inv j none g =
      let t = at none running a o in
      ground
        (arith, member-Counted i t s g, put-Inv k (k + 1) i t (returns lock_exception none) s s g v)
  release_write-Inv j (some ti) g =
      let t = at (some ti) running a o in
      let left : LockerInfo = record ti { write_count = dec ti.write_count } in
      let u : Lock = record s { num_writers = dec s.num_writers } in
      let r : Lock = record u { can_read = true; num_readers = inc u.num_readers } in
      let q : Lock = put i (returns done none) (record u { can_read = true }) in
      ground (
        arith,
        member-Counted i t s g,
        put-Inv k (k + 1) i t (returns lock_exception t.info) s s g v,
        put-Inv k (k + 1) i t (returns done (some left)) s s g v,
        put-Inv k (k + 1) i t (returns done (some left)) s r g v,
        put-Inv k (k + 1) i t (returns done none) s (record u { can_read = true }) g v,
        notify_readers-Inv (k + 1) (put i (returns done (some left)) r),
        notify_one_writer-Inv (k + 1) j q,
        notify_readers-Inv (k + 1) (notify_one_writer j q),
      )

  -- A change of nothing.
  pub later : Inv (k + 1) s
  later = ground (arith, v)

  time_out-Inv :
      (info : Option LockerInfo) (c : Call)
      → get_elem? s.threads i ≡ some (at info c a o)
      → Inv (k + 1) (time_out i (at info c a o) s)
  unfolding time_out
  time_out-Inv info c g =
      let t = at info c a o in
      let u = returns timeout_exception info in
      let back : Lock = record s {
        num_readers = inc s.num_readers;
        num_writers = dec s.num_writers;
      } in
      ground (
        arith,
        later,
        member-Counted i t s g,
        put-Inv k (k + 1) i t u s s g v,
        put-Inv k (k + 1) i t u s (record s { can_read = true }) g v,
        put-Inv k (k + 1) i t u s (record back { can_read = true }) g v,
        notify_readers-Inv (k + 1) (put i u (record s { can_read = true })),
        notify_readers-Inv (k + 1) (put i u (record back { can_read = true })),
      )

  resume-Inv :
      (info : Option LockerInfo) (c : Call)
      → get_elem? s.threads i ≡ some (at info c a o)
      → Inv (k + 1) (resume i (at info c a o) s)
  unfolding resume
  resume-Inv none c g = ground (arith, later, acquire_read_loop-Inv c g, acquire_write_loop-Inv c g)
  resume-Inv (some ti) upgrading g = ground (arith, later, upgrade_loop-Inv ti g)
  resume-Inv (some ti) _ g = ground (arith, later)

  pub act-Inv :
      (e : Event) (info : Option LockerInfo) (c : Call)
      → get_elem? s.threads i ≡ some (at info c a o)
      → Inv (k + 1) (act e i (at info c a o) s)
  unfolding act
  act-Inv (acquires_read _) info running g = acquire_read-Inv info g
  act-Inv (acquires_read _) info _ g = later
  act-Inv (acquires_write _) info running g = acquire_write-Inv info g
  act-Inv (acquires_write _) info _ g = later
  act-Inv (releases_read _) info running g = release_read-Inv info g
  act-Inv (releases_read _) info _ g = later
  act-Inv (releases_write j _) info running g = release_write-Inv j info g
  act-Inv (releases_write j _) info _ g = later
  act-Inv (wakes _) info c g =
      ground (arith, wake-Inv k i (at info c a o) (at info c false o) s g refl refl refl v)
  act-Inv (resumes _) info c g = resume-Inv info c g
  act-Inv (times_out _) info c g = time_out-Inv info c g
