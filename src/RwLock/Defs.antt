-- ===== src/RwLock/Defs.antt =====
-- src/blocxx/GenericRWLockImpl.hpp: the lock, its threads, and what a thread does while it holds
-- `m_guard`, from taking it to releasing it, waiting or throwing.
--
-- The ids are the positions in the list of threads. An entry of `m_lockerInfo` stands with the
-- thread that has its id. A waiting thread sleeps until it is notified or wakes by itself.
use libblocxx_deb.Prelude.Words.{inc, dec}
use libblocxx_deb.Prelude.{
  ℕ, Bool, true, false, ◌&&◌, ◌||◌, not, Option, none, some, List, map, ltb, ◌==◌, if◌then◌else◌,
  get_elem?, set,
}

pub record LockerInfo : Type 0 where
  pub read_count : ℕ
  pub write_count : ℕ

abbrev pub is_reader : LockerInfo → Bool
is_reader ti = ltb 0 ti.read_count

abbrev pub is_writer : LockerInfo → Bool
is_writer ti = ltb 0 ti.write_count

-- In which loop a thread waits, if it does.
pub data Call : Type 0 where
  running reading writing upgrading : Call

-- How the last call of a thread went.
pub data Outcome : Type 0 where
  done timeout_exception deadlock_exception lock_exception assertion_exception : Outcome

pub record Thread : Type 0 where
  pub info : Option LockerInfo
  pub call : Call
  pub asleep : Bool
  pub outcome : Outcome

pub record Lock : Type 0 where
  pub can_read : Bool
  pub num_readers : ℕ
  pub num_writers : ℕ
  pub threads : List Thread

abbrev pub put : ℕ → Thread → Lock → Lock
put i t s = record s { threads = set s.threads i t }

-- A call comes back, with an entry of the map for the thread or none.
abbrev pub returns : Outcome → Option LockerInfo → Thread
returns o info = record { info = info; call = running; asleep = false; outcome = o }

abbrev pub waits_in : Call → Thread → Thread
waits_in c t = record t { call = c; asleep = true }

-- `m_waiting_readers.notifyAll`, `m_waiting_writers.notifyAll`, and `m_waiting_writers.notifyOne`
-- when it is thread `j` that it wakes.
abbrev wake_reader_as : Call → Thread → Thread
wake_reader_as reading t = record t { asleep = false }
wake_reader_as _ t = t

abbrev pub wake_reader : Thread → Thread
wake_reader t = wake_reader_as t.call t

abbrev wake_writer_as : Call → Thread → Thread
wake_writer_as writing t = record t { asleep = false }
wake_writer_as upgrading t = record t { asleep = false }
wake_writer_as _ t = t

abbrev pub wake_writer : Thread → Thread
wake_writer t = wake_writer_as t.call t

unfoldable pub notify_readers : Lock → Lock
notify_readers s = record s { threads = map wake_reader s.threads }

unfoldable pub notify_writers : Lock → Lock
notify_writers s = record s { threads = map wake_writer s.threads }

abbrev pub wake_at : ℕ → Option Thread → Lock → Lock
wake_at j none s = s
wake_at j (some t) s = put j (wake_writer t) s

unfoldable pub notify_one_writer : ℕ → Lock → Lock
notify_one_writer j s = wake_at j (get_elem? s.threads j) s

-- `acquireReadLock` from its loop on, for a thread that has no entry.
unfoldable pub acquire_read_loop : ℕ → Thread → Lock → Lock
acquire_read_loop i t s =
    if not s.can_read || ltb 0 s.num_writers
    then put i (waits_in reading t) s
    else put i (returns done (some (record { read_count = 1; write_count = 0 })))
        (record s { num_readers = inc s.num_readers })

abbrev acquire_read_as : Option LockerInfo → ℕ → Thread → Lock → Lock
acquire_read_as none i t s = acquire_read_loop i t s
acquire_read_as (some ti) i t s =
    if is_reader ti || is_writer ti
    then put i (returns done (some (record ti { read_count = inc ti.read_count }))) s
    else put i (returns assertion_exception t.info) s

unfoldable pub acquire_read : ℕ → Thread → Lock → Lock
unfolding acquire_read_loop
acquire_read i t s = acquire_read_as t.info i t s

abbrev release_read_as : Option LockerInfo → ℕ → Thread → Lock → Lock
release_read_as none i t s = put i (returns lock_exception none) s
release_read_as (some ti) i t s =
    let left : LockerInfo = record ti { read_count = dec ti.read_count } in
    let u : Lock = record s { num_readers = dec s.num_readers } in
    if not (is_reader ti)
    then put i (returns lock_exception t.info) s
    else if not (is_writer left) && not (is_reader left)
    then if u.num_readers == 0
      then notify_writers (put i (returns done none) u)
      else put i (returns done none) u
    else put i (returns done (some left)) s

unfoldable pub release_read : ℕ → Thread → Lock → Lock
unfolding notify_writers
release_read i t s = release_read_as t.info i t s

-- The loop of a thread that upgrades its read lock, and what follows it.
unfoldable pub upgrade_loop : LockerInfo → ℕ → Thread → Lock → Lock
upgrade_loop ti i t s =
    if s.num_readers == 0
    then put i (returns done (some (record ti { write_count = inc ti.write_count }))) s
    else put i (waits_in upgrading t) (record s { can_read = false })

-- The loop of a thread without an entry, and what follows it.
unfoldable pub acquire_write_loop : ℕ → Thread → Lock → Lock
acquire_write_loop i t s =
    if s.num_readers == 0 && s.num_writers == 0
    then put i (returns done (some (record { read_count = 0; write_count = 1 })))
        (record s { num_writers = inc s.num_writers; can_read = false })
    else put i (waits_in writing t) (record s { can_read = false })

abbrev acquire_write_as : Option LockerInfo → ℕ → Thread → Lock → Lock
acquire_write_as none i t s = acquire_write_loop i t s
acquire_write_as (some ti) i t s =
    if not (is_reader ti || is_writer ti)
    then put i (returns assertion_exception t.info) s
    else if is_writer ti
    then put i (returns done (some (record ti { write_count = inc ti.write_count }))) s
    else if not (s.num_writers == 0 || s.num_writers == 1)
    then put i (returns assertion_exception t.info) s
    else if s.num_writers == 1
    then put i (returns deadlock_exception t.info) s
    else upgrade_loop ti i t
        (record s { num_readers = dec s.num_readers; num_writers = inc s.num_writers })

unfoldable pub acquire_write : ℕ → Thread → Lock → Lock
unfolding upgrade_loop acquire_write_loop
acquire_write i t s = acquire_write_as t.info i t s

-- `releaseWriteLock`; its `notifyOne` wakes thread `j`.
abbrev release_write_as : Option LockerInfo → ℕ → ℕ → Thread → Lock → Lock
release_write_as none j i t s = put i (returns lock_exception none) s
release_write_as (some ti) j i t s =
    let left : LockerInfo = record ti { write_count = dec ti.write_count } in
    let u : Lock = record s { num_writers = dec s.num_writers } in
    if not (is_writer ti)
    then put i (returns lock_exception t.info) s
    else if is_writer left
    then put i (returns done (some left)) s
    else if not (u.num_writers == 0)
    then put i (returns assertion_exception (some left)) u
    else if is_reader left
    then notify_readers (
        put i (returns done (some left))
          (record u { can_read = true; num_readers = inc u.num_readers }))
    else notify_readers
        (notify_one_writer j (put i (returns done none) (record u { can_read = true })))

unfoldable pub release_write : ℕ → ℕ → Thread → Lock → Lock
unfolding notify_readers notify_one_writer
release_write j i t s = release_write_as t.info j i t s
