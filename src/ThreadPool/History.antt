-- ===== src/ThreadPool/History.antt =====
-- What holds of a pool after any run: no work is lost, made up or reordered, the queue and the
-- number of threads keep their bounds.
use mathlib.Core.List.{append_assoc}
use libblocxx_deb.Prelude.{
  ℕ, ◌+◌, ◌-◌, ◌≤◌, ◌<◌, ◌^◌, ◌≡◌, refl, ◌∙◌, ◌⊎◌, List, [], ◌∷◌, ◌++◌, arith, length,
  length-append,
}
use libblocxx_deb.ThreadPool.Defs.{
  PoolType, fixed_size, dynamic_size, dynamic_size_no_queue, Pool, add_round, add_work, get_work,
}
use libblocxx_deb.ThreadPool.Steps.{Event, adds, adder_resumes, worker_gets, step, run, create}

module _ {ℓ} {A : Type ℓ} where
  -- The limit on the queue, and on work in the queue or in hand where nothing may be queued.
  abbrev pub IsBounded : PoolType → Pool A → Type 0
  IsBounded dynamic_size_no_queue s =
      (s.working_threads ≡ s.busy_workers) × (s.busy_workers + length s.queue ≤ s.max_threads)
  IsBounded _ s = (s.max_queue_size ≡ 0) ⊎ (length s.queue ≤ s.max_queue_size)

  pub record Inv (s : Pool A) : Type ℓ where
    pub history : s.accepted ≡ s.taken ++ s.queue
    pub bounded : IsBounded s.pool_type s
    pub counted :
        s.threads
        ≡ s.awake_workers + s.sleeping_workers + s.busy_workers + s.leaving_workers
          + s.exited_workers
    pub limited : s.threads ≤ s.max_threads
    pub small : s.max_threads < 2 ^ 32

  add_round-Inv : (w : A) (s : Pool A) → Inv s → Inv (add_round w s)
  unfolding add_round
  add_round-Inv w s v =
      ground (arith, append_assoc s.taken s.queue (w ∷ []), length-append s.queue (w ∷ []))

  add_work-Inv : (w : A) (s : Pool A) → Inv s → Inv (add_work w s)
  unfolding add_work add_round
  add_work-Inv w s v =
      ground (arith, append_assoc s.taken s.queue (w ∷ []), length-append s.queue (w ∷ []))

  get_work-Inv :
      (q : List A) (s : Pool A)
      → s.queue ≡ q
      → 0 < s.awake_workers
      → Inv s
      → Inv (get_work (record s { awake_workers = s.awake_workers - 1 }))
  unfolding get_work
  get_work-Inv [] s e h v = ground arith
  get_work-Inv (w ∷ rest) s e h v = ground (arith, append_assoc s.taken (w ∷ []) rest)

  -- Every event keeps the invariant.
  step-Inv : (e : Event A) (s : Pool A) → Inv s → Inv (step e s)
  unfolding step
  step-Inv (adds w) s v = add_work-Inv w s v
  step-Inv (adder_resumes w) s v =
      ground (arith, add_round-Inv w (record s { awake_adders = s.awake_adders - 1 }))
  step-Inv worker_gets s v = ground (arith, get_work-Inv s.queue s)
  step-Inv _ s v = ground arith

  run-Inv : (es : List (Event A)) (s : Pool A) → Inv s → Inv (run es s)
  unfolding run
  run-Inv [] s v = v
  run-Inv (e ∷ es) s v = run-Inv es (step e s) (step-Inv e s v)

  create-Inv : (type : PoolType) (n max_queue : ℕ) → n < 2 ^ 32 → Inv (create type n max_queue)
  unfolding create
  create-Inv fixed_size n max_queue h = ground arith
  create-Inv dynamic_size n max_queue h = ground arith
  create-Inv dynamic_size_no_queue n max_queue h = ground arith

  step-config :
      (e : Event A) (s : Pool A)
      → ((step e s).pool_type ≡ s.pool_type)
        × ((step e s).max_queue_size ≡ s.max_queue_size)
        × ((step e s).max_threads ≡ s.max_threads)
  unfolding step
  step-config (adds w) s = ground arith
  step-config _ s = ground arith

  -- The characteristics of a pool stay as they were.
  pub run-config :
      (es : List (Event A)) (s : Pool A)
      → ((run es s).pool_type ≡ s.pool_type)
        × ((run es s).max_queue_size ≡ s.max_queue_size)
        × ((run es s).max_threads ≡ s.max_threads)
  unfolding run
  run-config [] s = (refl, refl, refl)
  run-config (e ∷ es) s = ground (arith, step-config e s, run-config es (step e s))

  -- In a pool of fewer than 2 ^ 32 threads, whatever the threads do and in whatever order, the work
  -- accepted is the work handed to threads followed by the work in the queue, in the order of its
  -- acceptance: none is lost, made up, repeated or overtaken.
  pub run-history :
      (type : PoolType) (n max_queue : ℕ) (es : List (Event A))
      → n < 2 ^ 32
      → (run es (create type n max_queue)).accepted
        ≡ (run es (create type n max_queue)).taken ++ (run es (create type n max_queue)).queue
  run-history type n max_queue es h = (run-Inv es _ (create-Inv type n max_queue h)).history

  -- The limits that the constructor is given: a bounded queue holds no more than its limit; in the
  -- pool that queues nothing, work in hand and in the queue is no more than the threads.
  abbrev pub WithinLimits : PoolType → ℕ → ℕ → Pool A → Type 0
  WithinLimits dynamic_size_no_queue n max_queue s = s.busy_workers + length s.queue ≤ n
  WithinLimits _ n max_queue s = (max_queue ≡ 0) ⊎ (length s.queue ≤ max_queue)

  within :
      (type : PoolType) (n max_queue : ℕ) (s : Pool A)
      → s.pool_type ≡ type
      → s.max_threads ≡ n
      → (type ≡ dynamic_size_no_queue) ⊎ (s.max_queue_size ≡ max_queue)
      → Inv s
      → WithinLimits type n max_queue s
  within fixed_size n max_queue s t m q v = ground arith
  within dynamic_size n max_queue s t m q v = ground arith
  within dynamic_size_no_queue n max_queue s t m q v = ground arith

  create-config :
      (type : PoolType) (n max_queue : ℕ) (s : Pool A)
      → s ≡ create type n max_queue
      → (s.pool_type ≡ type)
        × (s.max_threads ≡ n)
        × ((type ≡ dynamic_size_no_queue) ⊎ (s.max_queue_size ≡ max_queue))
  unfolding create
  create-config fixed_size n max_queue s e = ground arith
  create-config dynamic_size n max_queue s e = ground arith
  create-config dynamic_size_no_queue n max_queue s e = ground arith

  -- In a pool of fewer than 2 ^ 32 threads, whatever the threads do and in whatever order, the queue
  -- keeps to its limit, the pool without a queue accepts no more work than its threads can do, and
  -- there are never more threads than the constructor allows.
  pub run-WithinLimits :
      (type : PoolType) (n max_queue : ℕ) (es : List (Event A))
      → n < 2 ^ 32
      → WithinLimits type n max_queue (run es (create type n max_queue))
        × ((run es (create type n max_queue)).threads ≤ n)
  run-WithinLimits type n max_queue es h =
      let s : Pool A = create type n max_queue in
      let v = run-Inv es s (create-Inv type n max_queue h) in
      let kept = run-config es s in
      let made = create-config type n max_queue s refl in
      (
        within type n max_queue (run es s) (kept.0 ∙ made.0) (kept.2 ∙ made.1)
            (ground (arith, kept.1, made.2)) v,
        omega (arith, v.limited, kept.2, made.1),
      )
