-- ===== src/ThreadPool/Defs.antt =====
-- src/blocxx/ThreadPool.cpp: the state of a pool and of the threads that use it, and what a thread
-- does while it holds `m_queueLock`, from taking the lock to releasing it or waiting.
--
-- Threads in the same place of the code are counted. A thread that waits on a condition sleeps
-- until the condition is notified, or until it wakes by itself, which POSIX allows; one that is
-- woken tests again when it has the lock.
use libblocxx_deb.Prelude.{
  ℕ, ◌+◌, ◌-◌, ◌%◌, ◌^◌, Bool, true, false, ◌&&◌, ◌||◌, not, List, [], ◌∷◌, ◌++◌, ltb, leb, ◌==◌,
  if◌then◌else◌, length,
}

pub data PoolType : Type 0 where
  fixed_size dynamic_size dynamic_size_no_queue : PoolType

-- Where the one thread is that gets past the test at the head of `finishOffWorkInQueue`.
pub data Closer : Type 0 where
  absent asleep woken notifying finished : Closer

pub record Pool {ℓ} (A : Type ℓ) : Type ℓ where
  pub pool_type : PoolType
  pub max_queue_size : ℕ
  pub max_threads : ℕ
  -- `m_threads.size()`: exited threads count until a later `addWork` removes them.
  pub threads : ℕ
  pub queue : List A
  pub queue_closed : Bool
  pub shutdown : Bool
  pub working_threads : ℕ
  -- Workers: at the test of `getWorkFromQueue`, waiting there, running work, returned from it
  -- without work, and no longer running.
  pub awake_workers : ℕ
  pub sleeping_workers : ℕ
  pub busy_workers : ℕ
  pub leaving_workers : ℕ
  pub exited_workers : ℕ
  -- Callers of `addWork`: waiting for room, woken, and, in a dynamic pool, past the push, before
  -- the notification and before the test for a new thread.
  pub sleeping_adders : ℕ
  pub awake_adders : ℕ
  pub notifying_adders : ℕ
  pub starting_adders : ℕ
  -- Callers of `waitForEmptyQueue`.
  pub sleeping_waiters : ℕ
  pub awake_waiters : ℕ
  pub closer : Closer
  -- The history: work that `addWork` has put in the queue, and work handed to threads.
  pub accepted : List A
  pub taken : List A

-- A notification of `m_queueEmpty` reaches a closer that waits there.
abbrev pub wake_closer : Closer → Closer
wake_closer asleep = woken
wake_closer c = c

module _ {ℓ} {A : Type ℓ} where
  abbrev pub is_empty : List A → Bool
  is_empty [] = true
  is_empty (w ∷ ws) = false

  abbrev full_as : PoolType → Pool A → Bool
  full_as dynamic_size_no_queue s =
      leb ((s.max_threads + 2 ^ 64 - s.working_threads) % 2 ^ 64) (length s.queue)
  full_as _ s = ltb 0 s.max_queue_size && (length s.queue == s.max_queue_size)

  unfoldable pub queue_is_full : Pool A → Bool
  queue_is_full s = full_as s.pool_type s

  abbrev pub closed : Pool A → Bool
  closed s = s.shutdown || s.queue_closed

  -- `notifyAll` on the three conditions, and `notifyOne` on the first.
  abbrev pub notify_not_empty : Pool A → Pool A
  notify_not_empty s = record s {
    awake_workers = s.awake_workers + s.sleeping_workers;
    sleeping_workers = 0;
  }

  abbrev pub notify_not_full : Pool A → Pool A
  notify_not_full s = record s {
    awake_adders = s.awake_adders + s.sleeping_adders;
    sleeping_adders = 0;
  }

  abbrev pub notify_empty : Pool A → Pool A
  notify_empty s = record s {
    awake_waiters = s.awake_waiters + s.sleeping_waiters;
    sleeping_waiters = 0;
    closer = wake_closer s.closer;
  }

  abbrev pub notify_one_not_empty : Pool A → Pool A
  notify_one_not_empty s =
      if ltb 0 s.sleeping_workers
      then record s {
        awake_workers = s.awake_workers + 1;
        sleeping_workers = s.sleeping_workers - 1;
      }
      else s

  -- The hooks that `DynamicSizeNoQueuePoolImpl` overrides.
  abbrev pub increment_worker_count : PoolType → Pool A → Pool A
  increment_worker_count dynamic_size_no_queue s = record s {
    working_threads = (s.working_threads + 1) % 2 ^ 64;
  }
  increment_worker_count _ s = s

  abbrev pub decrement_worker_count : PoolType → Pool A → Pool A
  decrement_worker_count dynamic_size_no_queue s =
      notify_not_full (record s { working_threads = (s.working_threads + 2 ^ 64 - 1) % 2 ^ 64 })
  decrement_worker_count _ s = s

  -- `addWork` from its loop on: the push, and what follows it under the lock.
  abbrev push_as : PoolType → A → Pool A → Pool A
  push_as fixed_size w s =
      let t : Pool A = record s { queue = s.queue ++ w ∷ []; accepted = s.accepted ++ w ∷ [] } in
      if length t.queue == 1 then notify_not_empty t else t
  push_as _ w s = record s {
    queue = s.queue ++ w ∷ [];
    accepted = s.accepted ++ w ∷ [];
    notifying_adders = s.notifying_adders + 1;
  }

  unfoldable pub add_round : A → Pool A → Pool A
  unfolding queue_is_full
  add_round w s =
      if queue_is_full s && not (closed s)
      then record s { sleeping_adders = s.sleeping_adders + 1 }
      else if closed s
      then s
      else push_as s.pool_type w s

  -- The head of `addWork` in a dynamic pool: exited threads are removed.
  abbrev pub clean_threads : Pool A → Pool A
  clean_threads s = record s { threads = s.threads - s.exited_workers; exited_workers = 0 }

  abbrev add_as : PoolType → A → Pool A → Pool A
  add_as fixed_size w s = add_round w s
  add_as _ w s = if closed s then s else add_round w (clean_threads s)

  unfoldable pub add_work : A → Pool A → Pool A
  unfolding add_round
  add_work w s = add_as s.pool_type w s

  -- A dynamic pool's `addWork` when it has the lock again.
  unfoldable pub start_thread : Pool A → Pool A
  start_thread s =
      if not (is_empty s.queue) && ltb s.threads s.max_threads
      then record s { threads = s.threads + 1; awake_workers = s.awake_workers + 1 }
      else s

  -- `getWorkFromQueue` past its loop, with the work found.
  abbrev take_front : List A → Pool A → Pool A
  take_front [] s = s
  take_front (w ∷ rest) s =
      let t : Pool A =
        increment_worker_count s.pool_type (record s {
          queue = rest;
          taken = s.taken ++ w ∷ [];
          busy_workers = s.busy_workers + 1;
        }) in
      let u : Pool A = if queue_is_full t then t else notify_not_full t in
      if is_empty rest then notify_empty u else u

  unfoldable pub get_work : Pool A → Pool A
  unfolding queue_is_full
  get_work s =
      if is_empty s.queue && not s.shutdown
      then record s { sleeping_workers = s.sleeping_workers + 1 }
      else if s.shutdown
      then record s { leaving_workers = s.leaving_workers + 1 }
      else take_front s.queue s

  -- `finishOffWorkInQueue` from the test of its loop on.
  abbrev pub finish_loop : Pool A → Pool A
  finish_loop s =
      if is_empty s.queue
      then record s { shutdown = true; closer = notifying }
      else record s { closer = asleep }

  unfoldable pub finish_off_work : Bool → Pool A → Pool A
  finish_off_work finish_work s =
      let t : Pool A = record s { queue_closed = true } in
      if closed s
      then s
      else if finish_work
      then finish_loop t
      else record t { shutdown = true; closer = notifying }

  unfoldable pub wait_for_empty : Pool A → Pool A
  wait_for_empty s =
      if is_empty s.queue then s else record s { sleeping_waiters = s.sleeping_waiters + 1 }
