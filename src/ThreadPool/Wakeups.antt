-- ===== src/ThreadPool/Wakeups.antt =====
-- Notifications in a pool of fixed size: no thread sleeps through what it waits for.
use libblocxx_deb.Prelude.{
  ℕ, ◌+◌, ◌-◌, ◌<◌, ◌≡◌, ◌≢◌, refl, ◌⊎◌, true, false, List, [], ◌∷◌, arith, length, length-append,
}
use libblocxx_deb.ThreadPool.Defs.{
  fixed_size, Closer, absent, asleep, woken, notifying, finished, Pool, is_empty, queue_is_full,
  add_round, get_work,
}
use libblocxx_deb.ThreadPool.Steps.{Event, adds, adder_resumes, worker_gets, step, run, create}

module _ {ℓ} {A : Type ℓ} where
  -- What a thread that waits for the queue to empty, or is past that, relies on.
  abbrev CloserFits : Closer → Pool A → Type 0
  CloserFits absent s = s.shutdown ≡ false
  CloserFits asleep s = (is_empty s.queue ≡ false) × (s.shutdown ≡ false) × (s.queue_closed ≡ true)
  CloserFits woken s = (s.shutdown ≡ false) × (s.queue_closed ≡ true)
  CloserFits notifying s = (s.shutdown ≡ true) × (s.queue_closed ≡ true)
  CloserFits finished s = (s.shutdown ≡ true) × (s.queue_closed ≡ true)

  -- Workers sleep on an empty queue, callers of `addWork` on a full one, callers of
  -- `waitForEmptyQueue` on one that is not empty; the notifications of a shutdown are still to come.
  pub record Waits (n : ℕ) (s : Pool A) : Type ℓ where
    pub is_fixed : s.pool_type ≡ fixed_size
    pub workers :
        (s.sleeping_workers ≡ 0)
        ⊎ ((s.queue ≡ []) × ((s.shutdown ≡ false) ⊎ (s.closer ≡ notifying)))
    pub adders : (s.sleeping_adders ≡ 0) ⊎ ((queue_is_full s ≡ true) × (s.closer ≢ finished))
    pub waiters : (s.sleeping_waiters ≡ 0) ⊎ (is_empty s.queue ≡ false)
    pub closing : CloserFits s.closer s
    pub staff :
        s.awake_workers + s.sleeping_workers + s.busy_workers + s.leaving_workers + s.exited_workers
        ≡ n
    pub leavers : (s.leaving_workers + s.exited_workers ≡ 0) ⊎ (s.shutdown ≡ true)
    pub starters : s.notifying_adders + s.starting_adders ≡ 0

  length-eq-zero : (q : List A) → length q ≡ 0 → q ≡ []
  length-eq-zero [] e = refl
  length-eq-zero (w ∷ ws) e = absurd (omega arith)

  add_round-Waits : (n : ℕ) (w : A) (s : Pool A) → Waits n s → Waits n (add_round w s)
  unfolding add_round
  add_round-Waits n w s v = ground (arith, length-append s.queue (w ∷ []), length-eq-zero s.queue)

  get_work-Waits :
      (n : ℕ) (q : List A) (s : Pool A)
      → s.queue ≡ q
      → 0 < s.awake_workers
      → Waits n s
      → Waits n (get_work (record s { awake_workers = s.awake_workers - 1 }))
  unfolding get_work
  get_work-Waits n [] s e h v = ground arith
  get_work-Waits n (w ∷ rest) s e h v = ground arith

  step-Waits : (n : ℕ) (e : Event A) (s : Pool A) → Waits n s → Waits n (step e s)
  unfolding step
  step-Waits n (adds w) s v = ground (arith, add_round-Waits n w s)
  step-Waits n (adder_resumes w) s v =
      ground (arith, add_round-Waits n w (record s { awake_adders = s.awake_adders - 1 }))
  step-Waits n worker_gets s v = ground (arith, get_work-Waits n s.queue s)
  step-Waits n _ s v = ground arith

  run-Waits : (n : ℕ) (es : List (Event A)) (s : Pool A) → Waits n s → Waits n (run es s)
  unfolding run
  run-Waits n [] s v = v
  run-Waits n (e ∷ es) s v = run-Waits n es (step e s) (step-Waits n e s v)

  create-Waits : (n max_queue : ℕ) → Waits n (create fixed_size n max_queue)
  unfolding create
  create-Waits n max_queue = ground arith

  awake_or_busy :
      (n : ℕ) (s : Pool A)
      → 0 < n
      → s.shutdown ≡ false
      → is_empty s.queue ≡ false
      → Waits n s
      → 0 < s.awake_workers + s.busy_workers
  awake_or_busy n s pos up work v = ground arith

  -- In a fixed pool, after any events: a worker sleeps only on an empty queue of a pool that is not
  -- shut down or whose notification is still to come, a caller of `addWork` only on a full queue
  -- before the shutdown's notification, and a caller of `waitForEmptyQueue` only on a queue with
  -- work in it.
  pub run-asleep :
      (n max_queue : ℕ) (es : List (Event A))
      → let s : Pool A = run es (create fixed_size n max_queue) in
        ((s.sleeping_workers ≡ 0)
          ⊎ ((s.queue ≡ []) × ((s.shutdown ≡ false) ⊎ (s.closer ≡ notifying))))
        × ((s.sleeping_adders ≡ 0) ⊎ ((queue_is_full s ≡ true) × (s.closer ≢ finished)))
        × ((s.sleeping_waiters ≡ 0) ⊎ (is_empty s.queue ≡ false))
  run-asleep n max_queue es =
      let v = run-Waits n es _ (create-Waits n max_queue) in (v.workers, v.adders, v.waiters)

  -- In a fixed pool with threads, while it is not shut down, work in the queue means that a worker
  -- is awake to take it or busy, so that it will come back for it.
  pub run-progress :
      (n max_queue : ℕ) (es : List (Event A))
      → 0 < n
      → (run es (create fixed_size n max_queue)).shutdown ≡ false
      → is_empty (run es (create fixed_size n max_queue)).queue ≡ false
      → 0
        < (run es (create fixed_size n max_queue)).awake_workers
          + (run es (create fixed_size n max_queue)).busy_workers
  run-progress n max_queue es pos up work =
      awake_or_busy n (run es (create fixed_size n max_queue)) pos up work
        (run-Waits n es _ (create-Waits n max_queue))
