-- ===== src/ThreadPool/Steps.antt =====
-- The threads that use a pool, one critical section or wake-up at a time, in any order.
use libblocxx_deb.Prelude.{ℕ, ◌+◌, ◌-◌, Bool, true, false, ◌&&◌, List, [], ◌∷◌, ltb, if◌then◌else◌}
use libblocxx_deb.ThreadPool.Defs.{
  PoolType, fixed_size, dynamic_size, dynamic_size_no_queue, Closer, absent, asleep, woken,
  notifying, finished, Pool, notify_not_empty, notify_not_full, notify_one_not_empty,
  decrement_worker_count, add_round, add_work, start_thread, get_work, finish_loop, finish_off_work,
  wait_for_empty,
}

-- What can happen next. The events named `wakes` are wake-ups without a notification.
pub data Event {ℓ} (A : Type ℓ) : Type ℓ where
  -- A call of `addWork`; a woken caller goes on (with any work: callers are only counted); a
  -- caller gives up; it notifies the workers; it starts a thread
  adds adder_resumes : A → Event A
  adder_wakes adder_times_out adder_notifies adder_starts : Event A
  -- a worker asks for work; gives up waiting; ends its work; ends, having got none
  worker_gets worker_wakes worker_times_out worker_ends worker_exits : Event A
  -- `shutdown`, which finishes the work in the queue or not; its thread goes on; gives up waiting
  shuts_down : Bool → Event A
  closer_wakes closer_resumes closer_times_out closer_notifies : Event A
  waits waiter_wakes waiter_resumes : Event A

-- A worker of a fixed pool waits without a limit, and any other for a second.
abbrev may_time_out : PoolType → Bool
may_time_out fixed_size = false
may_time_out _ = true

module _ {ℓ} {A : Type ℓ} where
  abbrev resume_closer : Closer → Pool A → Pool A
  resume_closer woken s = finish_loop s
  resume_closer _ s = s

  abbrev wake_up_closer : Closer → Pool A → Pool A
  wake_up_closer asleep s = record s { closer = woken }
  wake_up_closer _ s = s

  abbrev time_out_closer : Closer → Pool A → Pool A
  time_out_closer asleep s = record s { shutdown = true; closer = notifying }
  time_out_closer _ s = s

  abbrev notify_by_closer : Closer → Pool A → Pool A
  notify_by_closer notifying s = notify_not_full (notify_not_empty (record s { closer = finished }))
  notify_by_closer _ s = s

  -- An event for which no thread is in place changes nothing.
  unfoldable pub step : Event A → Pool A → Pool A
  unfolding add_work add_round start_thread get_work finish_off_work wait_for_empty
  step (adds w) s = add_work w s
  step (adder_resumes w) s =
      if ltb 0 s.awake_adders
      then add_round w (record s { awake_adders = s.awake_adders - 1 })
      else s
  step adder_wakes s =
      if ltb 0 s.sleeping_adders
      then record s { sleeping_adders = s.sleeping_adders - 1; awake_adders = s.awake_adders + 1 }
      else s
  step adder_times_out s =
      if ltb 0 s.sleeping_adders then record s { sleeping_adders = s.sleeping_adders - 1 } else s
  step adder_notifies s =
      if ltb 0 s.notifying_adders
      then notify_one_not_empty (record s {
        notifying_adders = s.notifying_adders - 1;
        starting_adders = s.starting_adders + 1;
      })
      else s
  step adder_starts s =
      if ltb 0 s.starting_adders
      then start_thread (record s { starting_adders = s.starting_adders - 1 })
      else s
  step worker_gets s =
      if ltb 0 s.awake_workers
      then get_work (record s { awake_workers = s.awake_workers - 1 })
      else s
  step worker_wakes s =
      if ltb 0 s.sleeping_workers
      then record s {
        sleeping_workers = s.sleeping_workers - 1;
        awake_workers = s.awake_workers + 1;
      }
      else s
  step worker_times_out s =
      if may_time_out s.pool_type && ltb 0 s.sleeping_workers
      then record s {
        sleeping_workers = s.sleeping_workers - 1;
        leaving_workers = s.leaving_workers + 1;
      }
      else s
  step worker_ends s =
      if ltb 0 s.busy_workers
      then decrement_worker_count s.pool_type
          (record s { busy_workers = s.busy_workers - 1; awake_workers = s.awake_workers + 1 })
      else s
  step worker_exits s =
      if ltb 0 s.leaving_workers
      then record s {
        leaving_workers = s.leaving_workers - 1;
        exited_workers = s.exited_workers + 1;
      }
      else s
  step (shuts_down finish_work) s = finish_off_work finish_work s
  step closer_wakes s = wake_up_closer s.closer s
  step closer_resumes s = resume_closer s.closer s
  step closer_times_out s = time_out_closer s.closer s
  step closer_notifies s = notify_by_closer s.closer s
  step waits s = wait_for_empty s
  step waiter_wakes s =
      if ltb 0 s.sleeping_waiters
      then record s {
        sleeping_waiters = s.sleeping_waiters - 1;
        awake_waiters = s.awake_waiters + 1;
      }
      else s
  step waiter_resumes s =
      if ltb 0 s.awake_waiters
      then wait_for_empty (record s { awake_waiters = s.awake_waiters - 1 })
      else s

  unfoldable pub run : List (Event A) → Pool A → Pool A
  unfolding step
  run [] s = s
  run (e ∷ es) s = run es (step e s)

  abbrev idle : PoolType → ℕ → ℕ → ℕ → Pool A
  idle type max_queue max_workers workers = record {
    pool_type = type;
    max_queue_size = max_queue;
    max_threads = max_workers;
    threads = workers;
    queue = [];
    queue_closed = false;
    shutdown = false;
    working_threads = 0;
    awake_workers = workers;
    sleeping_workers = 0;
    busy_workers = 0;
    leaving_workers = 0;
    exited_workers = 0;
    sleeping_adders = 0;
    awake_adders = 0;
    notifying_adders = 0;
    starting_adders = 0;
    sleeping_waiters = 0;
    awake_waiters = 0;
    closer = absent;
    accepted = [];
    taken = [];
  }

  -- The constructor: a fixed pool starts its threads at once, a dynamic one starts none.
  unfoldable pub create : PoolType → ℕ → ℕ → Pool A
  create fixed_size num_threads max_queue = idle fixed_size max_queue num_threads num_threads
  create dynamic_size num_threads max_queue = idle dynamic_size max_queue num_threads 0
  create dynamic_size_no_queue num_threads max_queue =
      idle dynamic_size_no_queue num_threads num_threads 0
