-- ===== src/RwLock/Counts.antt =====
-- The counters of the lock count the threads that they should, whatever the threads do.
use libblocxx_deb.Prelude.{
  ℕ, ◌+◌, ◌≤◌, ◌≡◌, refl, sym, ◌∙◌, ◌⊎◌, Bool, true, false, ◌||◌, not, Option, none, some, map,
  arith, get_elem?,
}
use libblocxx_deb.RwLock.Defs.{
  LockerInfo, is_reader, is_writer, Call, running, reading, writing, upgrading, Outcome,
  assertion_exception, Thread, Lock, put, wake_reader, wake_writer, notify_readers, notify_writers,
  notify_one_writer, wake_at,
}
use libblocxx_deb.RwLock.Tally.{tally, tally-set, tally-map, tally_member}

abbrev count : Bool → ℕ
count true = 1
count false = 0

-- A thread with only a read lock, which it is not upgrading.
abbrev pub reader_as : Call → Option LockerInfo → ℕ
reader_as upgrading _ = 0
reader_as _ none = 0
reader_as _ (some ti) = count (not (is_writer ti))

abbrev pub reads : Thread → ℕ
reads t = reader_as t.call t.info

abbrev pub owner_as : Option LockerInfo → ℕ
owner_as none = 0
owner_as (some ti) = count (is_writer ti)

-- A thread with the write lock.
abbrev pub owns : Thread → ℕ
owns t = owner_as t.info

abbrev pub upgrader_as : Call → ℕ
upgrader_as upgrading = 1
upgrader_as _ = 0

abbrev pub upgrades : Thread → ℕ
upgrades t = upgrader_as t.call

-- What no thread is in: an entry that counts nothing, a wait with the wrong entry.
abbrev misfit : Call → Option LockerInfo → ℕ
misfit running none = 0
misfit running (some ti) = count (not (is_reader ti || is_writer ti))
misfit upgrading none = 1
misfit upgrading (some ti) = count (not (is_reader ti) || is_writer ti)
misfit reading none = 0
misfit reading (some ti) = 1
misfit writing none = 0
misfit writing (some ti) = 1

abbrev failed : Outcome → ℕ
failed assertion_exception = 1
failed _ = 0

abbrev pub fault : Thread → ℕ
fault t = misfit t.call t.info + failed t.outcome

abbrev depth_as : Option LockerInfo → ℕ
depth_as none = 0
depth_as (some ti) = ti.read_count + ti.write_count

-- How often a thread has the lock.
abbrev pub depth : Thread → ℕ
depth t = depth_as t.info

pub record Inv (k : ℕ) (s : Lock) : Type 0 where
  pub readers : s.num_readers ≡ tally reads s.threads
  pub writers : s.num_writers ≡ tally owns s.threads + tally upgrades s.threads
  pub single : s.num_writers ≤ 1
  pub exclusive : (tally owns s.threads ≡ 0) ⊎ (s.num_readers ≡ 0)
  pub sound : tally fault s.threads ≡ 0
  pub nested : tally depth s.threads ≤ k
  pub few : s.num_readers + s.num_writers ≤ k

-- What thread `i` is counted for is in the sums.
pub record Counted (t : Thread) (s : Lock) : Type 0 where
  pub reads_in : reads t ≤ tally reads s.threads
  pub owns_in : owns t ≤ tally owns s.threads
  pub upgrades_in : upgrades t ≤ tally upgrades s.threads
  pub fault_in : fault t ≤ tally fault s.threads
  pub depth_in : depth t ≤ tally depth s.threads

pub member-Counted : (i : ℕ) (t : Thread) (s : Lock) → get_elem? s.threads i ≡ some t → Counted t s
member-Counted i t s h = record {
  reads_in = tally_member reads s.threads i t h;
  owns_in = tally_member owns s.threads i t h;
  upgrades_in = tally_member upgrades s.threads i t h;
  fault_in = tally_member fault s.threads i t h;
  depth_in = tally_member depth s.threads i t h;
}

-- A change of one thread and of the counters to match keeps the invariant.
pub put-Inv :
    (k m i : ℕ) (t u : Thread) (s r : Lock)
    → get_elem? s.threads i ≡ some t
    → Inv k s
    → r.threads ≡ s.threads
    → r.num_readers + reads t ≡ s.num_readers + reads u
    → r.num_writers + owns t + upgrades t ≡ s.num_writers + owns u + upgrades u
    → r.num_writers ≤ 1
    → (tally owns s.threads + owns u ≡ owns t) ⊎ (r.num_readers ≡ 0)
    → fault u ≡ 0
    → tally depth s.threads + depth u ≤ m + depth t
    → r.num_readers + r.num_writers ≤ m
    → Inv m (put i u r)
put-Inv k m i t u s r g v e hr hw h1 hx hf hd hk = record {
  readers = rw e (omega (arith, v.readers, tally-set reads s.threads i t u g));
  writers = rw e (
      omega
        (arith, v.writers, tally-set owns s.threads i t u g, tally-set upgrades s.threads i t u g));
  single = h1;
  exclusive = rw e (ground (arith, tally-set owns s.threads i t u g));
  sound = rw e (omega (arith, v.sound, tally-set fault s.threads i t u g));
  nested = rw e (omega (arith, v.nested, tally-set depth s.threads i t u g));
  few = hk;
}

-- A notification changes no sum.
tallies-Inv :
    (k : ℕ) (s : Lock) (g : Thread → Thread)
    → ((t : Thread) → (g t).call ≡ t.call)
    → ((t : Thread) → (g t).info ≡ t.info)
    → ((t : Thread) → (g t).outcome ≡ t.outcome)
    → Inv k s
    → Inv k (record s { threads = map g s.threads })
tallies-Inv k s g hc hi ho v = record {
  readers = v.readers ∙ sym (tally-map reads g s.threads (λ t. rw (hc t, hi t) refl));
  writers = ground (
    arith,
    v.writers,
    tally-map owns g s.threads (λ t. rw (hi t) refl),
    tally-map upgrades g s.threads (λ t. rw (hc t) refl),
  );
  single = v.single;
  exclusive = rw (tally-map owns g s.threads (λ t. rw (hi t) refl)) v.exclusive;
  sound = tally-map fault g s.threads (λ t. rw (hc t, hi t, ho t) refl) ∙ v.sound;
  nested = rw (tally-map depth g s.threads (λ t. rw (hi t) refl)) v.nested;
  few = v.few;
}

wake_reader_call : (t : Thread) → (wake_reader t).call ≡ t.call
wake_reader_call t = ground arith

wake_reader_info : (t : Thread) → (wake_reader t).info ≡ t.info
wake_reader_info t = ground arith

wake_reader_outcome : (t : Thread) → (wake_reader t).outcome ≡ t.outcome
wake_reader_outcome t = ground arith

wake_writer_call : (t : Thread) → (wake_writer t).call ≡ t.call
wake_writer_call t = ground arith

wake_writer_info : (t : Thread) → (wake_writer t).info ≡ t.info
wake_writer_info t = ground arith

wake_writer_outcome : (t : Thread) → (wake_writer t).outcome ≡ t.outcome
wake_writer_outcome t = ground arith

pub notify_readers-Inv : (k : ℕ) (s : Lock) → Inv k s → Inv k (notify_readers s)
unfolding notify_readers
notify_readers-Inv k s v =
    tallies-Inv k s wake_reader wake_reader_call wake_reader_info wake_reader_outcome v

pub notify_writers-Inv : (k : ℕ) (s : Lock) → Inv k s → Inv k (notify_writers s)
unfolding notify_writers
notify_writers-Inv k s v =
    tallies-Inv k s wake_writer wake_writer_call wake_writer_info wake_writer_outcome v

-- A thread that wakes stays counted as it was.
pub wake-Inv :
    (k i : ℕ) (t u : Thread) (s : Lock)
    → get_elem? s.threads i ≡ some t
    → u.call ≡ t.call
    → u.info ≡ t.info
    → u.outcome ≡ t.outcome
    → Inv k s
    → Inv k (put i u s)
wake-Inv k i t u s g ec ei eo v =
    put-Inv k k i t u s s g v refl (rw (ec, ei) refl) (rw (ec, ei) refl) v.single
      (rw ei (ground (arith, member-Counted i t s g, v)))
      (rw (ec, ei, eo) (ground (arith, member-Counted i t s g, v))) (rw ei (ground (arith, v)))
      v.few

wake_at-Inv :
    (k j : ℕ) (o : Option Thread) (s : Lock)
    → get_elem? s.threads j ≡ o
    → Inv k s
    → Inv k (wake_at j o s)
wake_at-Inv k j none s g v = v
wake_at-Inv k j (some t) s g v =
    wake-Inv k j t (wake_writer t) s g (wake_writer_call t) (wake_writer_info t)
      (wake_writer_outcome t) v

pub notify_one_writer-Inv : (k j : ℕ) (s : Lock) → Inv k s → Inv k (notify_one_writer j s)
unfolding notify_one_writer
notify_one_writer-Inv k j s v = wake_at-Inv k j (get_elem? s.threads j) s refl v
