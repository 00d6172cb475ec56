-- ===== src/Uuid/Generator.antt =====
-- src/blocxx/UUID.cpp: identifiers made from the clock. The readings of the clock and the random
-- bytes of the node are arguments.
use libblocxx_deb.Prelude.{
  ℕ, ◌+◌, ◌*◌, ◌^◌, ◌%◌, ◌≡◌, ◌≢◌, refl, ap, sym, ◌∙◌, Bool, true, false, not, List, [], ◌∷◌, arith,
  bit_and, bit_or, ltb, ◌==◌, if◌then◌else◌,
}
use libblocxx_deb.Prelude.Bits.{◌<<◌, ◌>>◌}
use libblocxx_deb.Uuid.Text.{Bytes}

-- The static variables: `g_state` and those of the two functions.
pub record Generator : Type 0 where
  pub timestamp : ℕ
  pub clock_sequence : ℕ
  pub time_last : ℕ
  pub uuids_this_tick : ℕ
  pub current_time_inited : Bool
  pub node_id : Bytes
  pub node_id_init_done : Bool

abbrev pub started : Generator
started = record {
  timestamp = 0;
  clock_sequence = 0;
  time_last = 0;
  uuids_this_tick = 0;
  current_time_inited = false;
  node_id = [];
  node_id_init_done = false;
}

-- A reading of `gettimeofday` as tenths of microseconds since the 15th of October 1582.
unfoldable pub get_system_time : ℕ → ℕ → ℕ
get_system_time tv_sec tv_usec =
    (tv_sec * 10000000 + tv_usec * 10 + (0x01b21dd2 << 32) + 0x13814000) % 2 ^ 64

-- The first reading is taken only once.
abbrev pub init_time : ℕ → Generator → Generator
init_time first_reading g =
    if not g.current_time_inited
    then record g { time_last = first_reading; uuids_this_tick = 0; current_time_inited = true }
    else g

abbrev pub tick : ℕ → Generator → Generator
tick time_now g =
    if not (g.time_last == time_now)
    then record g { uuids_this_tick = 0; time_last = time_now }
    else record g { uuids_this_tick = (g.uuids_this_tick + 1) % 2 ^ 16 }

-- The time of an identifier, and the variables then.
unfoldable pub get_current_time : ℕ → ℕ → Generator → ℕ × Generator
get_current_time first_reading time_now g =
    let h = tick time_now (init_time first_reading g) in
    ((time_now + h.uuids_this_tick) % 2 ^ 64, h)

abbrev pub with_multicast_bit : Bytes → Bytes
with_multicast_bit [] = []
with_multicast_bit (b ∷ bs) = bit_or b 0x80 ∷ bs

unfoldable pub get_node_identifier : Bytes → Generator → Generator
get_node_identifier random g =
    if not g.node_id_init_done
    then record g { node_id = with_multicast_bit random; node_id_init_done = true }
    else g

abbrev pub next_sequence : ℕ → Generator → ℕ
next_sequence timestamp g =
    if ltb timestamp g.timestamp then (g.clock_sequence + 1) % 2 ^ 16 else g.clock_sequence

abbrev pub byte_of : ℕ → ℕ
byte_of tmp = tmp % 256

-- The fields of an identifier.
unfoldable pub fields : ℕ → ℕ → Bytes → Bytes
fields timestamp clockseq node =
    let time_low = bit_and timestamp 0xffffffff in
    let time_mid = bit_and (timestamp >> 32) 0xffff in
    let time_hi = bit_or (bit_and (timestamp >> 48) 0x0fff) (1 << 12) in
    byte_of (time_low >> 8 >> 8 >> 8)
    ∷ byte_of (time_low >> 8 >> 8)
    ∷ byte_of (time_low >> 8)
    ∷ byte_of time_low
    ∷ byte_of (time_mid >> 8)
    ∷ byte_of time_mid
    ∷ byte_of (time_hi >> 8)
    ∷ byte_of time_hi
    ∷ byte_of (bit_or (bit_and clockseq 0x3f00 >> 8) 0x80)
    ∷ byte_of (bit_and clockseq 0xff)
    ∷ node

-- A new identifier. What is stored for the next one is the time that was stored before.
unfoldable pub generate : Bytes → ℕ → ℕ → Generator → Bytes × Generator
generate random first_reading time_now g =
    let now = get_current_time first_reading time_now g in
    let h = get_node_identifier random now.1 in
    let clockseq = next_sequence now.0 h in
    (
      fields now.0 clockseq h.node_id,
      record h { timestamp = h.timestamp; clock_sequence = clockseq },
    )

-- One identifier for each reading; the first reading is that of the clock's start as well.
unfoldable pub generate_all : Bytes → List ℕ → Generator → Generator
generate_all random [] g = g
generate_all random (t ∷ ts) g = generate_all random ts (generate random t t g).1

-- After an identifier was made.
record IsRunning (g : Generator) : Type 0 where
  unset : g.timestamp ≡ 0
  unmoved : g.clock_sequence ≡ 0
  timed : g.current_time_inited ≡ true
  noded : g.node_id_init_done ≡ true

generate-IsRunning :
    (random : Bytes) (s t : ℕ) (g : Generator)
    → g.timestamp ≡ 0
    → g.clock_sequence ≡ 0
    → IsRunning (generate random s t g).1
unfolding generate get_current_time get_node_identifier
generate-IsRunning random s t g u c = record {
  unset = ground arith;
  unmoved = ground arith;
  timed = ground arith;
  noded = ground arith;
}

generate_all-IsRunning :
    (random : Bytes) (ts : List ℕ) (g : Generator)
    → IsRunning g
    → IsRunning (generate_all random ts g)
unfolding generate_all
generate_all-IsRunning random [] g v = v
generate_all-IsRunning random (t ∷ ts) g v =
    generate_all-IsRunning random ts (generate random t t g).1
      (generate-IsRunning random t t g v.unset v.unmoved)

-- A new reading gives the time with nothing added, and the node and the sequence stay.
record Gives (random : Bytes) (t : ℕ) (g : Generator) : Type 0 where
  makes : (generate random t t g).0 ≡ fields (t % 2 ^ 64) 0 g.node_id
  node_kept : (generate random t t g).1.node_id ≡ g.node_id
  last : (generate random t t g).1.time_last ≡ t

fields_same :
    (a a' c c' : ℕ) (n n' : Bytes) → a ≡ a' → c ≡ c' → n ≡ n' → fields a c n ≡ fields a' c' n'
fields_same a a' c c' n n' p q r = cc (p, q, r)

made :
    (random : Bytes) (t : ℕ) (g : Generator)
    → IsRunning g
    → g.time_last ≢ t
    → (generate random t t g).0 ≡ fields (t % 2 ^ 64) 0 g.node_id
unfolding generate get_current_time get_node_identifier
made random t g v n =
    fields_same _ (t % 2 ^ 64) _ 0 _ g.node_id (ground (arith, v.timed))
      (ground (arith, v.timed, v.unset, v.unmoved)) (ground (arith, v.timed, v.noded))

start_IsRunning :
    (random : Bytes) (s : ℕ) (ts : List ℕ) → IsRunning (generate_all random (s ∷ ts) started)
unfolding generate_all
start_IsRunning random s ts =
    generate_all-IsRunning random ts (generate random s s started).1
      (generate-IsRunning random s s started refl refl)

generate-Gives :
    (random : Bytes) (t : ℕ) (g : Generator) → IsRunning g → g.time_last ≢ t → Gives random t g
unfolding generate get_current_time get_node_identifier
generate-Gives random t g v n = record {
  makes = made random t g v n;
  node_kept = ground (arith, v.noded);
  last = ground (arith, v.timed);
}

-- Once an identifier was made, and the clock has not just read the time t: identifiers made at t,
-- at another time and at t again are the same the first and the last time. The clock sequence,
-- which is to tell the two apart, is still 0.
pub generate-Repeats :
    (random : Bytes) (s : ℕ) (ts : List ℕ) (t b : ℕ)
    → (generate_all random (s ∷ ts) started).time_last ≢ t
    → t ≢ b
    → let g : Generator = generate_all random (s ∷ ts) started in
      let first : Bytes × Generator = generate random t t g in
      let second : Bytes × Generator = generate random b b first.1 in
      (first.0 ≡ (generate random t t second.1).0)
      × ((generate random t t second.1).1.clock_sequence ≡ 0)
generate-Repeats random s ts t b n m =
    let g = generate_all random (s ∷ ts) started in
    let running = start_IsRunning random s ts in
    let once = generate-Gives random t g running n in
    let first = (generate random t t g).1 in
    let running1 = generate-IsRunning random t t g running.unset running.unmoved in
    let between = generate-Gives random b first running1 (λ e. m (sym once.last ∙ e)) in
    let second = (generate random b b first).1 in
    let running2 = generate-IsRunning random b b first running1.unset running1.unmoved in
    let again = generate-Gives random t second running2 (λ e. m (sym e ∙ between.last)) in
    (
      once.makes
          ∙ ap (fields (t % 2 ^ 64) 0) (sym (between.node_kept ∙ once.node_kept))
          ∙ sym again.makes,
      (generate-IsRunning random t t second running2.unset running2.unmoved).unmoved,
    )
