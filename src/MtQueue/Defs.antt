-- ===== src/MtQueue/Defs.antt =====
-- src/blocxx/MTQueue.hpp and MTQueue.cpp: a queue, the threads that use it counted by where they
-- are, and what happens while one of them holds `m_mutex`. Pushers and poppers wait on one condition.
use libblocxx_deb.Prelude.{
  ℕ, ◌+◌, ◌-◌, Bool, true, false, ◌&&◌, ◌||◌, not, List, [], ◌∷◌, ◌++◌, ltb, leb, ◌==◌,
  if◌then◌else◌, length,
}
use libblocxx_deb.Prelude.Words.{inc, dec}

pub record Queue {ℓ} (A : Type ℓ) : Type ℓ where
  pub max_queue_size : ℕ
  pub shutdown : Bool
  -- Threads in their wait, those included that were woken and do not have the lock yet.
  pub pushes_blocked : ℕ
  pub pops_blocked : ℕ
  pub items : List A
  -- Where these threads are: asleep, or woken.
  pub sleeping_pushers : ℕ
  pub woken_pushers : ℕ
  pub sleeping_poppers : ℕ
  pub woken_poppers : ℕ
  -- The history: what was pushed and what was popped.
  pub pushed : List A
  pub popped : List A

-- What happens next. A flag tells which kind of thread `notifyOne` picks where both are asleep. A
-- woken pusher goes on with any value: pushers are only counted.
pub data Event {ℓ} (A : Type ℓ) : Type ℓ where
  pushes pusher_resumes : A → Bool → Event A
  pops popper_resumes : Bool → Event A
  pusher_wakes popper_wakes popper_times_out shuts_down : Event A

module _ {ℓ} {A : Type ℓ} where
  abbrev pub wake_pusher : Queue A → Queue A
  wake_pusher s = record s {
    sleeping_pushers = s.sleeping_pushers - 1;
    woken_pushers = s.woken_pushers + 1;
  }

  abbrev pub wake_popper : Queue A → Queue A
  wake_popper s = record s {
    sleeping_poppers = s.sleeping_poppers - 1;
    woken_poppers = s.woken_poppers + 1;
  }

  -- `notifyOne` wakes one of the threads that sleep, if any does.
  abbrev pub notify_one : Bool → Queue A → Queue A
  notify_one pick_pusher s =
      if ltb 0 s.sleeping_pushers && (pick_pusher || s.sleeping_poppers == 0)
      then wake_pusher s
      else if ltb 0 s.sleeping_poppers
      then wake_popper s
      else s

  abbrev pub notify_all : Queue A → Queue A
  notify_all s = record s {
    sleeping_pushers = 0;
    woken_pushers = s.woken_pushers + s.sleeping_pushers;
    sleeping_poppers = 0;
    woken_poppers = s.woken_poppers + s.sleeping_poppers;
  }

  -- `pushBack` from the test of the loop in `enterPushBack` on.
  abbrev push_on : A → Queue A → Queue A
  push_on w s =
      if s.shutdown then s else record s { items = s.items ++ w ∷ []; pushed = s.pushed ++ w ∷ [] }

  unfoldable pub push_back : A → Bool → Queue A → Queue A
  push_back w pick s =
      if not s.shutdown && leb s.max_queue_size (length s.items)
      then record s {
        pushes_blocked = inc s.pushes_blocked;
        sleeping_pushers = s.sleeping_pushers + 1;
      }
      else push_on w (if ltb 0 s.pops_blocked then notify_one pick s else s)

  -- `popFront` from the test of the loop in `enterPopFront` on.
  abbrev take_front : List A → Queue A → Queue A
  take_front [] s = s
  take_front (w ∷ rest) s = record s { items = rest; popped = s.popped ++ w ∷ [] }

  abbrev pop_on : Queue A → Queue A
  pop_on s = if s.shutdown then s else take_front s.items s

  unfoldable pub pop_front : Bool → Queue A → Queue A
  pop_front pick s =
      if not s.shutdown && length s.items == 0
      then record s { pops_blocked = inc s.pops_blocked; sleeping_poppers = s.sleeping_poppers + 1 }
      else pop_on (if ltb 0 s.pushes_blocked then notify_one pick s else s)

  -- An event for which no thread is in place changes nothing.
  unfoldable pub step : Event A → Queue A → Queue A
  unfolding push_back pop_front
  step (pushes w pick) s = push_back w pick s
  step (pops pick) s = pop_front pick s
  step (pusher_resumes w pick) s =
      if ltb 0 s.woken_pushers
      then push_back w pick
          (record s { woken_pushers = s.woken_pushers - 1; pushes_blocked = dec s.pushes_blocked })
      else s
  step (popper_resumes pick) s =
      if ltb 0 s.woken_poppers
      then pop_front pick
          (record s { woken_poppers = s.woken_poppers - 1; pops_blocked = dec s.pops_blocked })
      else s
  step pusher_wakes s = if ltb 0 s.sleeping_pushers then wake_pusher s else s
  step popper_wakes s = if ltb 0 s.sleeping_poppers then wake_popper s else s
  step popper_times_out s =
      if ltb 0 s.sleeping_poppers
      then record s { sleeping_poppers = s.sleeping_poppers - 1; pops_blocked = dec s.pops_blocked }
      else s
  step shuts_down s = notify_all (record s { shutdown = true })

  unfoldable pub run : List (Event A) → Queue A → Queue A
  unfolding step
  run [] s = s
  run (e ∷ es) s = run es (step e s)

  unfoldable pub create : ℕ → Queue A
  create max_queue_size = record {
    max_queue_size = max_queue_size;
    shutdown = false;
    pushes_blocked = 0;
    pops_blocked = 0;
    items = [];
    sleeping_pushers = 0;
    woken_pushers = 0;
    sleeping_poppers = 0;
    woken_poppers = 0;
    pushed = [];
    popped = [];
  }
