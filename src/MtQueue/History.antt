-- ===== src/MtQueue/History.antt =====
-- What holds of a queue after any run.
use mathlib.Core.List.{append_assoc}
use libblocxx_deb.Prelude.{
  ltb, ltb→lt, if◌then◌else◌, ℕ, ◌+◌, ◌-◌, ◌^◌, ◌<◌, ◌≤◌, ◌≡◌, refl, ◌⊎◌, ◌∙◌, Bool, true, false,
  List, [], ◌∷◌, ◌++◌, arith, length, length-append,
}
use libblocxx_deb.Prelude.Words.{dec}
use libblocxx_deb.MtQueue.Defs.{
  Queue, Event, pushes, pusher_resumes, pops, popper_resumes, push_back, pop_front, step, run,
  create,
}

module _ {ℓ} {A : Type ℓ} where
  pub record Inv (k : ℕ) (s : Queue A) : Type ℓ where
    pub history : s.pushed ≡ s.popped ++ s.items
    pub bounded : length s.items ≤ s.max_queue_size
    pub counted_pushers : s.pushes_blocked ≡ s.sleeping_pushers + s.woken_pushers
    pub counted_poppers : s.pops_blocked ≡ s.sleeping_poppers + s.woken_poppers
    pub few : s.pushes_blocked + s.pops_blocked ≤ k
    pub shut : (s.shutdown ≡ false) ⊎ (s.sleeping_pushers + s.sleeping_poppers ≡ 0)

  push_back-Inv :
      (k : ℕ) (w : A) (pick : Bool) (s : Queue A)
      → k + 1 < 2 ^ 32
      → Inv k s
      → Inv (k + 1) (push_back w pick s)
  unfolding push_back
  push_back-Inv k w pick s h v =
      ground (arith, v, append_assoc s.popped s.items (w ∷ []), length-append s.items (w ∷ []))

  pop_front-Inv :
      (k : ℕ) (pick : Bool) (q : List A) (s : Queue A)
      → s.items ≡ q
      → k + 1 < 2 ^ 32
      → Inv k s
      → Inv (k + 1) (pop_front pick s)
  unfolding pop_front
  pop_front-Inv k pick [] s e h v = ground (arith, v)
  pop_front-Inv k pick (w ∷ q) s e h v = ground (arith, v, append_assoc s.popped (w ∷ []) q)

  -- A thread that has the lock again has left the count of those that wait.
  abbrev pub resumed_pusher : Queue A → Queue A
  resumed_pusher s = record s {
    woken_pushers = s.woken_pushers - 1;
    pushes_blocked = dec s.pushes_blocked;
  }

  abbrev pub resumed_popper : Queue A → Queue A
  resumed_popper s = record s {
    woken_poppers = s.woken_poppers - 1;
    pops_blocked = dec s.pops_blocked;
  }

  pub resumed_pusher-Inv :
      (k : ℕ) (s : Queue A) → k < 2 ^ 32 → 0 < s.woken_pushers → Inv k s → Inv k (resumed_pusher s)
  resumed_pusher-Inv k s h p v = ground (arith, v)

  pub resumed_popper-Inv :
      (k : ℕ) (s : Queue A) → k < 2 ^ 32 → 0 < s.woken_poppers → Inv k s → Inv k (resumed_popper s)
  resumed_popper-Inv k s h p v = ground (arith, v)

  pusher_resumes-Inv :
      (k : ℕ) (w : A) (pick : Bool) (s : Queue A)
      → k + 1 < 2 ^ 32
      → 0 < s.woken_pushers
      → Inv k s
      → Inv (k + 1) (push_back w pick (resumed_pusher s))
  pusher_resumes-Inv k w pick s h p v =
      push_back-Inv k w pick (resumed_pusher s) h (resumed_pusher-Inv k s (omega arith) p v)

  popper_resumes-Inv :
      (k : ℕ) (pick : Bool) (s : Queue A)
      → k + 1 < 2 ^ 32
      → 0 < s.woken_poppers
      → Inv k s
      → Inv (k + 1) (pop_front pick (resumed_popper s))
  popper_resumes-Inv k pick s h p v =
      pop_front-Inv k pick s.items (resumed_popper s) refl h
        (resumed_popper-Inv k s (omega arith) p v)

  later : (k : ℕ) (s : Queue A) → Inv k s → Inv (k + 1) s
  later k s v = ground (arith, v)

  if-Inv :
      (k : ℕ) (b : Bool) (t s : Queue A)
      → (b ≡ true → Inv k t)
      → Inv k s
      → Inv k (if b then t else s)
  if-Inv k true t s f v = f refl
  if-Inv k false t s f v = v

  pub step-Inv :
      (k : ℕ) (e : Event A) (s : Queue A) → k + 1 < 2 ^ 32 → Inv k s → Inv (k + 1) (step e s)
  unfolding step
  step-Inv k (pushes w pick) s h v = push_back-Inv k w pick s h v
  step-Inv k (pops pick) s h v = pop_front-Inv k pick s.items s refl h v
  step-Inv k (pusher_resumes w pick) s h v =
      if-Inv (k + 1) (ltb 0 s.woken_pushers) (push_back w pick (resumed_pusher s)) s
        (λ e. pusher_resumes-Inv k w pick s h (ltb→lt 0 _ e) v) (later k s v)
  step-Inv k (popper_resumes pick) s h v =
      if-Inv (k + 1) (ltb 0 s.woken_poppers) (pop_front pick (resumed_popper s)) s
        (λ e. popper_resumes-Inv k pick s h (ltb→lt 0 _ e) v) (later k s v)
  step-Inv k _ s h v = ground (arith, v)

  run-Inv :
      (k m : ℕ) (es : List (Event A)) (s : Queue A)
      → k + length es ≡ m
      → m < 2 ^ 32
      → Inv k s
      → Inv m (run es s)
  unfolding run
  run-Inv k m [] s e h v = ground (arith, v)
  run-Inv k m (x ∷ es) s e h v =
      run-Inv (k + 1) m es (step x s) (omega arith) h (step-Inv k x s (omega arith) v)

  pub create-Inv : (max_queue : ℕ) → Inv 0 (create max_queue)
  unfolding create
  create-Inv max_queue = ground arith

  take_max :
      (q : List A) (pick : Bool) (s : Queue A)
      → s.items ≡ q
      → (pop_front pick s).max_queue_size ≡ s.max_queue_size
  unfolding pop_front
  take_max [] pick s e = ground arith
  take_max (w ∷ q) pick s e = ground arith

  push_max :
      (w : A) (pick : Bool) (s : Queue A) → (push_back w pick s).max_queue_size ≡ s.max_queue_size
  unfolding push_back
  push_max w pick s = ground arith

  step-max : (e : Event A) (s : Queue A) → (step e s).max_queue_size ≡ s.max_queue_size
  unfolding step
  step-max (pushes w pick) s = push_max w pick s
  step-max (pops pick) s = take_max s.items pick s refl
  step-max (pusher_resumes w pick) s = ground (arith, push_max w pick (resumed_pusher s))
  step-max (popper_resumes pick) s = ground (arith, take_max s.items pick (resumed_popper s))
  step-max _ s = ground arith

  run-max : (es : List (Event A)) (s : Queue A) → (run es s).max_queue_size ≡ s.max_queue_size
  unfolding run
  run-max [] s = refl
  run-max (e ∷ es) s = run-max es (step e s) ∙ step-max e s

  -- After any run of fewer than 2 ^ 32 events, what was pushed is what was popped and then what is
  -- in the queue, in the order of the pushes; the queue holds no more than its limit; and in a queue
  -- that is shut down no thread sleeps.
  pub run-kept :
      (max_queue : ℕ) (es : List (Event A))
      → length es < 2 ^ 32
      → let s : Queue A = run es (create max_queue) in
        (s.pushed ≡ s.popped ++ s.items)
        × (length s.items ≤ max_queue)
        × ((s.shutdown ≡ false) ⊎ (s.sleeping_pushers + s.sleeping_poppers ≡ 0))
  unfolding create
  run-kept max_queue es h =
      let v = run-Inv 0 (length es) es (create max_queue) (omega arith) h (create-Inv max_queue) in
      (v.history, omega (arith, v.bounded, run-max es (create max_queue)), v.shut)

  step-shutdown :
      (e : Event A) (s : Queue A)
      → s.shutdown ≡ true
      → ((step e s).shutdown ≡ true) × ((step e s).items ≡ s.items) × ((step e s).pushed ≡ s.pushed)
  unfolding step push_back pop_front
  step-shutdown e s h = ground arith

  -- Once a queue is shut down it stays so, and nothing is pushed or popped: what is in it stays.
  pub run-shut :
      (es : List (Event A)) (s : Queue A)
      → s.shutdown ≡ true
      → ((run es s).shutdown ≡ true) × ((run es s).items ≡ s.items) × ((run es s).pushed ≡ s.pushed)
  unfolding run
  run-shut [] s h = (h, refl, refl)
  run-shut (e ∷ es) s h =
      let now = step-shutdown e s h in
      let later = run-shut es (step e s) now.0 in (later.0, later.1 ∙ now.1, later.2 ∙ now.2)
