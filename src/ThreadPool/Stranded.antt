-- ===== src/ThreadPool/Stranded.antt =====
-- Work that no thread takes: a dynamic pool whose threads give up waiting while work arrives.
use libblocxx_deb.Prelude.{ℕ, zero, suc, ◌+◌, ◌≡◌, false, List, [], ◌∷◌, arith}
use libblocxx_deb.ThreadPool.Defs.{dynamic_size, Pool, closed}
use libblocxx_deb.ThreadPool.Steps.{
  Event, adds, adder_notifies, adder_starts, worker_times_out, step, run,
}

module _ {ℓ} {A : Type ℓ} where
  -- All threads of a dynamic pool wait for work, as many as may be, and nobody else uses it.
  pub record IsResting (s : Pool A) : Type ℓ where
    pub is_dynamic : s.pool_type ≡ dynamic_size
    pub at_limit : s.threads ≡ s.max_threads
    pub asleep_all : s.sleeping_workers ≡ s.threads
    pub awake_none : s.awake_workers + s.busy_workers + s.leaving_workers + s.exited_workers ≡ 0
    pub open_queue : closed s ≡ false
    pub empty : s.queue ≡ []
    pub adders : s.notifying_adders + s.starting_adders ≡ 0

  -- A caller adds work `w`; the wait of each thread has timed out; the caller goes on.
  abbrev pub late : A → ℕ → List (Event A)
  late w zero = adder_notifies ∷ adder_starts ∷ []
  late w (suc n) = worker_times_out ∷ late w n

  -- Work in the queue, no thread that lives, and a caller past its push.
  record Leaving (w : A) (n : ℕ) (s : Pool A) : Type ℓ where
    dynamic : s.pool_type ≡ dynamic_size
    at_limit : s.threads ≡ s.max_threads
    asleep_left : s.sleeping_workers ≡ n
    awake_none : s.awake_workers + s.busy_workers ≡ 0
    holds : s.queue ≡ w ∷ []
    caller : (s.notifying_adders ≡ 1) × (s.starting_adders ≡ 0)

  -- The work is queued, no thread is left to take it, and no caller will start one.
  pub record IsStranded (w : A) (s : Pool A) : Type ℓ where
    pub holds : s.queue ≡ w ∷ []
    pub no_worker : s.sleeping_workers + s.awake_workers + s.busy_workers ≡ 0
    pub no_starter : s.notifying_adders + s.starting_adders ≡ 0

  late-IsStranded : (w : A) (n : ℕ) (s : Pool A) → Leaving w n s → IsStranded w (run (late w n) s)
  unfolding step run
  late-IsStranded w zero s v = ground arith
  late-IsStranded w (suc n) s v = late-IsStranded w n (step worker_times_out s) (ground arith)

  adds-Leaving : (w : A) (s : Pool A) → IsResting s → Leaving w s.threads (step (adds w) s)
  unfolding step
  adds-Leaving w s v = ground arith

  -- When all threads of a dynamic pool at its limit wait for work, and their waits time out while a
  -- caller adds work and before the caller tests whether to start a thread, then the work stays in
  -- the queue with no thread to take it and no caller that will start one.
  pub add_late-IsStranded :
      (w : A) (s : Pool A) → IsResting s → IsStranded w (run (adds w ∷ late w s.threads) s)
  unfolding run
  add_late-IsStranded w s v = late-IsStranded w s.threads (step (adds w) s) (adds-Leaving w s v)
