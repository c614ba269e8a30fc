-- ===== src/Bench.antt =====
-- The benchmark src/bench.cpp: the keys and values that it makes up, and its loops over a store. The
-- clock, the draws of std::mt19937 and the difference of two readings as a double are parameters.
pub mod Keys
pub mod Loads
pub mod Reads
use key_val_store.Base.{
  ℕ, zero, suc, ◌+◌, ◌-◌, ◌*◌, ◌^◌, Option, none, some, List, [], ◌∷◌, ◌++◌, length, replicate,
  take, ◌>>=◌,
}
use key_val_store.Str.{Bytes}
use key_val_store.Names.{ascii, decimal}
use key_val_store.Db.{Options, Db, put, get, del, flush_memtable, compact}
use key_val_store.Recovery.{open_db}

-- snprintf into a buffer of `size` bytes, of which the last is the terminator.
unfoldable pub snprintf : ℕ → Bytes → Bytes
snprintf size text = take (size - 1) text

-- %0<width>d of a number that is not negative
unfoldable pub zero_padded : ℕ → ℕ → Bytes
zero_padded width i = replicate (width - length (decimal i)) 48 ++ decimal i

unfoldable pub fmtkey : ℕ → Bytes
fmtkey i = snprintf 24 (ascii "k" ++ zero_padded 15 i)

unfoldable pub fmtval : ℕ → Bytes
fmtval i = snprintf 104 (ascii "v" ++ (zero_padded 15 i ++ (ascii "_" ++ zero_padded 80 i)))

-- The options of the benchmarks; where one sets no threshold, it is that of include/db.h.
abbrev pub memory_options : Options
memory_options = record { memtable_flush_bytes = 256 * 2 ^ 20; compaction_threshold = 999 }

abbrev pub read_options : Options
read_options = record { memtable_flush_bytes = 256 * 2 ^ 20; compaction_threshold = 4 }

abbrev pub flush_options : Options
flush_options = record { memtable_flush_bytes = 4 * 2 ^ 10; compaction_threshold = 999 }

abbrev pub table_options : Options
table_options = record { memtable_flush_bytes = 4 * 2 ^ 10; compaction_threshold = 4 }

-- What a call leads to, and what it returns; the benchmarks drop that.
abbrev pub Answers : Type 0
Answers = List (Option Bytes)

-- `Micros` is double, `now` the readings of the clock one after the other, `us` Us(t1 - t0).count().
pub record Clock : Type 1 where
  pub Time : Type 0
  pub Micros : Type 0
  pub now : ℕ → Time
  pub us : Time → Time → Micros

-- A store under way, with Bench::us, how often the clock was read, and what the calls returned.
pub record Timed (c : Clock) : Type 0 where
  pub db : Db
  pub samples : List c.Micros
  pub readings : ℕ
  pub answers : Answers

module _ (c : Clock) where
  -- Bench::record
  unfoldable pub record_time : c.Time → c.Time → List c.Micros → List c.Micros
  record_time t0 t1 samples = samples ++ (c.us t0 t1 ∷ [])

  -- auto t0 = Clk::now(); the call; b.record(t0, Clk::now());
  unfoldable pub timed : (Db → Option (Db × Answers)) → Timed c → Option (Timed c)
  unfolding record_time
  timed call t = do
    (db, found) ← call t.db
    some (record {
      db = db;
      samples = record_time (c.now t.readings) (c.now (t.readings + 1)) t.samples;
      readings = t.readings + 2;
      answers = t.answers ++ found;
    })

  -- for (int i = first; i < first + count; ++i), each round timed
  unfoldable pub timed_loop : (ℕ → Db → Option (Db × Answers)) → ℕ → ℕ → Timed c → Option (Timed c)
  timed_loop call zero first t = some t
  timed_loop call (suc count) first t =
      timed (call first) t >>= λ t'. timed_loop call count (first + 1) t'

  -- Bench b; auto wall = Clk::now();
  abbrev pub started : Db → Timed c
  started db = record { db = db; samples = []; readings = 1; answers = [] }

-- db.get(key)
unfoldable pub get_round : (ℕ → Bytes) → ℕ → Db → Option (Db × Answers)
get_round key i db = some (db, get (key i) db ∷ [])

-- "zz_miss_" + std::to_string(i)
unfoldable pub miss_key : ℕ → Bytes
miss_key i = ascii "zz_miss_" ++ decimal i

module _ (optimal_bits : ℕ → ℕ) where
  -- db.put(fmtkey(i), fmtval(i))
  unfoldable pub put_round : ℕ → Db → Option (Db × Answers)
  put_round i db = put optimal_bits (fmtkey i) (fmtval i) db >>= λ db'. some (db', [])

  -- db.del(fmtkey(i))
  unfoldable pub del_round : ℕ → Db → Option (Db × Answers)
  del_round i db = del optimal_bits (fmtkey i) db >>= λ db'. some (db', [])

  -- for (int i = first; i < first + count; ++i) db.put(fmtkey(i), fmtval(i));
  unfoldable pub load : ℕ → ℕ → Db → Option Db
  load zero first db = some db
  load (suc count) first db =
      put optimal_bits (fmtkey first) (fmtval first) db >>= λ db'. load count (first + 1) db'

  -- What the two benchmarks on tables set up.
  unfoldable pub load_table : ℕ → Db → Option Db
  load_table n db = do
    db1 ← load n 0 db
    db2 ← flush_memtable optimal_bits db1
    compact optimal_bits db2

  -- Each benchmark up to the end of its timed loop, on a directory that main has removed.
  -- `draw` is what dist(rng) returns, one draw after the other.
  module _ (c : Clock) (draw : ℕ → ℕ) where
    unfoldable pub bench_seq_write : ℕ → Option (Timed c)
    bench_seq_write n = do
      db ← open_db optimal_bits memory_options []
      timed_loop c put_round n 0 (started c db)

    unfoldable pub bench_flush_write : ℕ → Option (Timed c)
    bench_flush_write n = do
      db ← open_db optimal_bits flush_options []
      timed_loop c put_round n 0 (started c db)

    unfoldable pub bench_hot_read : ℕ → Option (Timed c)
    bench_hot_read n = do
      db ← open_db optimal_bits read_options []
      db1 ← load n 0 db
      timed_loop c (get_round (λ i. fmtkey (draw i))) n 0 (started c db1)

    unfoldable pub bench_cold_read : ℕ → Option (Timed c)
    bench_cold_read n = do
      db ← open_db optimal_bits table_options []
      db1 ← load_table n db
      timed_loop c (get_round (λ i. fmtkey (draw i))) n 0 (started c db1)

    unfoldable pub bench_bloom_miss : ℕ → Option (Timed c)
    bench_bloom_miss n = do
      db ← open_db optimal_bits table_options []
      db1 ← load_table n db
      timed_loop c (get_round miss_key) n 0 (started c db1)

    unfoldable pub bench_delete : ℕ → Option (Timed c)
    bench_delete n = do
      db ← open_db optimal_bits read_options []
      db1 ← load n 0 db
      timed_loop c del_round n 0 (started c db1)
