-- ===== src/ThreadPool/Closing.antt =====
-- Closing the queue and shutting down.
use mathlib.Core.List.{append-nil}
use libblocxx_deb.Prelude.{
  ℕ, ◌-◌, ◌<◌, ◌^◌, ◌≡◌, refl, ◌∙◌, ◌⊎◌, inl, true, false, List, [], ◌∷◌, arith, All,
}
use libblocxx_deb.ThreadPool.Defs.{
  PoolType, fixed_size, dynamic_size, dynamic_size_no_queue, absent, Pool, closed, get_work,
}
use libblocxx_deb.ThreadPool.Steps.{
  Event, adds, worker_gets, shuts_down, closer_times_out, step, run, create,
}
use libblocxx_deb.ThreadPool.History.{run-history}

module _ {ℓ} {A : Type ℓ} where
  step-closed :
      (e : Event A) (s : Pool A)
      → closed s ≡ true
      → (closed (step e s) ≡ true) × ((step e s).accepted ≡ s.accepted)
  unfolding step
  step-closed (adds w) s h = ground arith
  step-closed _ s h = ground arith

  -- Once the queue is closed it stays closed, and `addWork` accepts nothing more.
  pub run-closed :
      (es : List (Event A)) (s : Pool A)
      → closed s ≡ true
      → (closed (run es s) ≡ true) × ((run es s).accepted ≡ s.accepted)
  unfolding run
  run-closed [] s h = (h, refl)
  run-closed (e ∷ es) s h =
      let now = step-closed e s h in
      let later = run-closed es (step e s) now.0 in (later.0, later.1 ∙ now.1)

  step-shutdown :
      (e : Event A) (s : Pool A)
      → s.shutdown ≡ true
      → ((step e s).shutdown ≡ true) × ((step e s).taken ≡ s.taken) × ((step e s).queue ≡ s.queue)
  unfolding step
  step-shutdown (adds w) s h = ground arith
  step-shutdown _ s h = ground arith

  -- Once the pool is shut down it stays so, no thread is handed work, and the work left in the
  -- queue stays there.
  pub run-shutdown :
      (es : List (Event A)) (s : Pool A)
      → s.shutdown ≡ true
      → ((run es s).shutdown ≡ true) × ((run es s).taken ≡ s.taken) × ((run es s).queue ≡ s.queue)
  unfolding run
  run-shutdown [] s h = (h, refl, refl)
  run-shutdown (e ∷ es) s h =
      let now = step-shutdown e s h in
      let later = run-shutdown es (step e s) now.0 in (later.0, later.1 ∙ now.1, later.2 ∙ now.2)

  -- `shutdown` is told to finish the work, and its wait does not time out.
  abbrev pub IsPatient : Event A → Type 0
  IsPatient closer_times_out = ⊥
  IsPatient (shuts_down finish_work) = finish_work ≡ true
  IsPatient _ = Unit

  -- Shut down only with the queue empty, and both the flag and a closer only with it closed.
  abbrev IsDrained : Pool A → Type ℓ
  IsDrained s =
      ((s.shutdown ≡ false) ⊎ ((s.queue ≡ []) × (s.queue_closed ≡ true)))
      × ((s.closer ≡ absent) ⊎ (s.queue_closed ≡ true))

  get_work-IsDrained :
      (q : List A) (s : Pool A) → s.queue ≡ q → IsDrained s → IsDrained (get_work s)
  unfolding get_work
  get_work-IsDrained [] s e d = ground arith
  get_work-IsDrained (w ∷ ws) s e d = ground arith

  step-IsDrained : (e : Event A) (s : Pool A) → IsPatient e → IsDrained s → IsDrained (step e s)
  unfolding step
  step-IsDrained (adds w) s p d = ground arith
  step-IsDrained worker_gets s p d =
      ground (arith, get_work-IsDrained s.queue (record s { awake_workers = s.awake_workers - 1 }))
  step-IsDrained closer_times_out s p d = absurd p
  step-IsDrained _ s p d = ground arith

  run-IsDrained :
      (es : List (Event A)) (s : Pool A) → All IsPatient es → IsDrained s → IsDrained (run es s)
  unfolding run
  run-IsDrained [] s p d = d
  run-IsDrained (e ∷ es) s p d = run-IsDrained es (step e s) p.1 (step-IsDrained e s p.0 d)

  create-IsDrained : (type : PoolType) (n max_queue : ℕ) → IsDrained (create type n max_queue)
  unfolding create
  create-IsDrained fixed_size n max_queue = (inl refl, inl refl)
  create-IsDrained dynamic_size n max_queue = (inl refl, inl refl)
  create-IsDrained dynamic_size_no_queue n max_queue = (inl refl, inl refl)

  emptied : (s : Pool A) → s.shutdown ≡ true → IsDrained s → s.queue ≡ []
  emptied s down d = ground arith

  -- In a pool of fewer than 2 ^ 32 threads, if every shutdown finishes the work in the queue and
  -- none times out, then a pool that is shut down has handed all the work that it ever accepted to
  -- its threads.
  pub shutdown_finishes :
      (type : PoolType) (n max_queue : ℕ) (es : List (Event A))
      → n < 2 ^ 32
      → All IsPatient es
      → (run es (create type n max_queue)).shutdown ≡ true
      → (run es (create type n max_queue)).accepted ≡ (run es (create type n max_queue)).taken
  shutdown_finishes type n max_queue es h p down =
      let s : Pool A = run es (create type n max_queue) in
      let empty : s.queue ≡ [] =
        emptied s down (run-IsDrained es _ p (create-IsDrained type n max_queue)) in
      run-history type n max_queue es h ∙ rw empty (append-nil s.taken)
