-- ===== src/MtQueue/Wakeups.antt =====
-- Whom the notifications reach: pushers and poppers wait on the same condition.
use libblocxx_deb.Prelude.{
  ℕ, ◌+◌, ◌^◌, ◌<◌, ◌≤◌, ◌≡◌, refl, ◌⊎◌, Bool, true, false, List, [], ◌∷◌, arith, length,
  length-append,
}
use libblocxx_deb.MtQueue.Defs.{
  Queue, Event, pushes, pusher_resumes, pops, popper_resumes, push_back, pop_front, step, run,
  create,
}
use libblocxx_deb.MtQueue.History.{Inv, resumed_popper, step-Inv, create-Inv}

module _ {ℓ} {A : Type ℓ} where
  -- No pusher waits, and each item has a woken popper, or no popper sleeps.
  record Served (k n : ℕ) (s : Queue A) : Type ℓ where
    limit : s.max_queue_size ≡ n
    short : length s.items ≤ k
    no_pusher : s.sleeping_pushers + s.woken_pushers ≡ 0
    served : (s.sleeping_poppers ≡ 0) ⊎ (length s.items ≤ s.woken_poppers)

  push_back-Served :
      (k n : ℕ) (w : A) (pick : Bool) (s : Queue A)
      → k < n
      → Inv k s
      → Served k n s
      → Served (k + 1) n (push_back w pick s)
  unfolding push_back
  push_back-Served k n w pick s h v r = ground (arith, v, r, length-append s.items (w ∷ []))

  pop_front-Served :
      (k n : ℕ) (pick : Bool) (q : List A) (s : Queue A)
      → s.items ≡ q
      → Inv k s
      → Served k n s
      → Served (k + 1) n (pop_front pick s)
  unfolding pop_front
  pop_front-Served k n pick [] s e v r = ground (arith, v, r)
  pop_front-Served k n pick (w ∷ q) s e v r = ground (arith, v, r)

  pop_front-resumed :
      (k n : ℕ) (pick : Bool) (q : List A) (s : Queue A)
      → s.items ≡ q
      → k + 1 < 2 ^ 32
      → 0 < s.woken_poppers
      → Inv k s
      → Served k n s
      → Served (k + 1) n (pop_front pick (resumed_popper s))
  unfolding pop_front
  pop_front-resumed k n pick [] s e h p v r = ground (arith, v, r)
  pop_front-resumed k n pick (w ∷ q) s e h p v r = ground (arith, v, r)

  popper_resumes-Served :
      (k n : ℕ) (pick : Bool) (s : Queue A)
      → k + 1 < 2 ^ 32
      → 0 < s.woken_poppers
      → Inv k s
      → Served k n s
      → Served (k + 1) n (pop_front pick (resumed_popper s))
  popper_resumes-Served k n pick s h p v r = pop_front-resumed k n pick s.items s refl h p v r

  step-Served :
      (k n : ℕ) (e : Event A) (s : Queue A)
      → k < n
      → k + 1 < 2 ^ 32
      → Inv k s
      → Served k n s
      → Served (k + 1) n (step e s)
  unfolding step
  step-Served k n (pushes w pick) s l h v r = push_back-Served k n w pick s l v r
  step-Served k n (pops pick) s l h v r = pop_front-Served k n pick s.items s refl v r
  step-Served k n (pusher_resumes w pick) s l h v r = ground (arith, v, r)
  step-Served k n (popper_resumes pick) s l h v r =
      ground (arith, v, r, popper_resumes-Served k n pick s)
  step-Served k n _ s l h v r = ground (arith, v, r)

  run-Served :
      (k m n : ℕ) (es : List (Event A)) (s : Queue A)
      → k + length es ≡ m
      → m ≤ n
      → m < 2 ^ 32
      → Inv k s
      → Served k n s
      → Served m n (run es s)
  unfolding run
  run-Served k m n [] s e l h v r = ground (arith, r)
  run-Served k m n (x ∷ es) s e l h v r =
      run-Served (k + 1) m n es (step x s) (omega arith) l h (step-Inv k x s (omega arith) v)
        (step-Served k n x s (omega arith) (omega arith) v r)

  create-Served : (n : ℕ) → Served 0 n (create n)
  unfolding create
  create-Served n = ground arith

  -- While the queue is not filled, because the events are no more than its limit, poppers sleep only
  -- if there is a woken popper for each item in the queue.
  pub run-served :
      (n : ℕ) (es : List (Event A))
      → length es ≤ n
      → length es < 2 ^ 32
      → let s : Queue A = run es (create n) in
        (s.sleeping_poppers ≡ 0) ⊎ (length s.items ≤ s.woken_poppers)
  run-served n es l h =
      (run-Served 0 (length es) n es (create n) (omega arith) l h (create-Inv n)
        (create-Served n)).served

module _ {A : Type 0} where
  -- A queue for one item, with its threads: pushers asleep and woken, then poppers.
  pub record Stands (items : List A) (a b c d : ℕ) (s : Queue A) : Type 0 where
    pub for_one : s.max_queue_size ≡ 1
    pub open_queue : s.shutdown ≡ false
    pub holds : s.items ≡ items
    pub pushers_asleep : s.sleeping_pushers ≡ a
    pub pushers_woken : s.woken_pushers ≡ b
    pub poppers_asleep : s.sleeping_poppers ≡ c
    pub poppers_woken : s.woken_poppers ≡ d
    pub pushers_counted : s.pushes_blocked ≡ a + b
    pub poppers_counted : s.pops_blocked ≡ c + d

  first_pop :
      (x : A) (n : ℕ) (s : Queue A)
      → Stands (x ∷ []) (n + 2) 0 0 0 s
      → Stands [] (n + 1) 1 0 0 (step (pops true) s)
  unfolding step pop_front
  first_pop x n s v = rw v.holds (ground (arith, v))

  second_pop :
      (n : ℕ) (s : Queue A)
      → Stands [] (n + 1) 1 0 0 s
      → Stands [] (n + 1) 1 1 0 (step (pops true) s)
  unfolding step pop_front
  second_pop n s v = ground (arith, v)

  first_push :
      (y : A) (n : ℕ) (s : Queue A)
      → n + 2 < 2 ^ 32
      → Stands [] (n + 1) 1 1 0 s
      → Stands (y ∷ []) n 1 1 0 (step (pusher_resumes y true) s)
  unfolding step push_back
  first_push y n s h v = ground (arith, v)

  second_push :
      (y z : A) (n : ℕ) (s : Queue A)
      → n + 2 < 2 ^ 32
      → Stands (y ∷ []) n 1 1 0 s
      → Stands (y ∷ []) (n + 1) 0 1 0 (step (pusher_resumes z true) s)
  unfolding step push_back
  second_push y z n s h v = ground (arith, v)

  -- When pushers sleep at a full queue for one item, and two pops come before the pusher that the
  -- first one wakes, then the push of that pusher may wake another pusher, which finds the queue full
  -- and sleeps again: the second popper sleeps on although the queue is not empty, and no thread is
  -- awake.
  pub handover-Stands :
      (x y z : A) (n : ℕ) (s : Queue A)
      → n + 2 < 2 ^ 32
      → Stands (x ∷ []) (n + 2) 0 0 0 s
      → Stands
          (y ∷ [])
          (n + 1)
          0
          1
          0
          (run (pops true ∷ pops true ∷ pusher_resumes y true ∷ pusher_resumes z true ∷ []) s)
  unfolding run
  handover-Stands x y z n s h v =
      second_push y z n _ h (first_push y n _ h (second_pop n _ (first_pop x n s v)))
