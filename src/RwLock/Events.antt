-- ===== src/RwLock/Events.antt =====
-- src/blocxx/GenericRWLockImpl.hpp: waits that end, and the threads that use the lock as events in any
-- order.
use libblocxx_deb.Prelude.{
  ℕ, zero, suc, Bool, true, false, Option, none, some, List, [], ◌∷◌, ◌==◌, if◌then◌else◌,
  get_elem?,
}
use libblocxx_deb.Prelude.Words.{dec, inc}
use libblocxx_deb.RwLock.Defs.{
  Call, Lock, LockerInfo, Thread, acquire_read, acquire_read_loop, acquire_write,
  acquire_write_loop, notify_readers, put, release_read, release_write, returns, upgrade_loop,
  running, reading, writing, upgrading, done, timeout_exception,
}

-- A wait that times out, in each of the three loops, also of a thread that was woken and has not
-- gone on yet.
abbrev time_out_writer : ℕ → Thread → Lock → Lock
time_out_writer i t s =
    let u : Lock = put i (returns timeout_exception t.info) (record s { can_read = true }) in
    if s.num_writers == 0 then notify_readers u else u

abbrev time_out_as : Call → ℕ → Thread → Lock → Lock
time_out_as running i t s = s
time_out_as reading i t s = put i (returns timeout_exception t.info) s
time_out_as writing i t s = time_out_writer i t s
time_out_as upgrading i t s =
    time_out_writer i t
      (record s { num_readers = inc s.num_readers; num_writers = dec s.num_writers })

unfoldable pub time_out : ℕ → Thread → Lock → Lock
unfolding notify_readers
time_out i t s = time_out_as t.call i t s

-- A thread that is awake tests its loop again.
abbrev resume_as : Call → Option LockerInfo → ℕ → Thread → Lock → Lock
resume_as reading none i t s = acquire_read_loop i t s
resume_as writing none i t s = acquire_write_loop i t s
resume_as upgrading (some ti) i t s = upgrade_loop ti i t s
resume_as _ _ i t s = s

unfoldable pub resume : ℕ → Thread → Lock → Lock
unfolding acquire_read_loop acquire_write_loop upgrade_loop
resume i t s = if t.asleep then s else resume_as t.call t.info i t s

-- What thread `i` does next; a thread that waits makes no other call.
pub data Event : Type 0 where
  acquires_read acquires_write releases_read wakes resumes times_out : ℕ → Event
  releases_write : ℕ → ℕ → Event

abbrev is_running : Call → Bool
is_running running = true
is_running _ = false

abbrev pub actor : Event → ℕ
actor (acquires_read i) = i
actor (acquires_write i) = i
actor (releases_read i) = i
actor (wakes i) = i
actor (resumes i) = i
actor (times_out i) = i
actor (releases_write j i) = i

unfoldable pub act : Event → ℕ → Thread → Lock → Lock
unfolding acquire_read acquire_write release_read release_write time_out resume
act (acquires_read _) i t s = if is_running t.call then acquire_read i t s else s
act (acquires_write _) i t s = if is_running t.call then acquire_write i t s else s
act (releases_read _) i t s = if is_running t.call then release_read i t s else s
act (releases_write j _) i t s = if is_running t.call then release_write j i t s else s
act (wakes _) i t s = put i (record t { asleep = false }) s
act (resumes _) i t s = resume i t s
act (times_out _) i t s = time_out i t s

abbrev pub act_at : Event → ℕ → Option Thread → Lock → Lock
act_at e i none s = s
act_at e i (some t) s = act e i t s

unfoldable pub step : Event → Lock → Lock
unfolding act
step e s = act_at e (actor e) (get_elem? s.threads (actor e)) s

unfoldable pub run : List Event → Lock → Lock
unfolding step
run [] s = s
run (e ∷ es) s = run es (step e s)

-- Threads that have no lock.
unfoldable pub strangers : ℕ → List Thread
strangers zero = []
strangers (suc n) = returns done none ∷ strangers n

-- The constructor, for a lock that `n` threads use.
unfoldable pub create : ℕ → Lock
unfolding strangers
create n = record { can_read = true; num_readers = 0; num_writers = 0; threads = strangers n }
