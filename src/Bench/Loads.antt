-- ===== src/Bench/Loads.antt =====
-- The loops of the benchmark over a store that never flushes.
use key_val_store.Base.{
  ℕ, zero, suc, ◌+◌, ◌*◌, ◌^◌, ◌<◌, ◌≤◌, ◌≡◌, refl, sym, ◌∙◌, Option, none, some, List, [], ◌∷◌,
  ◌++◌, length, arith, add64, inl, inr, ◌⊎◌, length-append, if◌then◌else◌,
}
use mathlib.Core.List.{append-nil, append_assoc}
use key_val_store.Str.{Bytes, str_eq}
use key_val_store.Str.Order.{str_eq_iff}
use key_val_store.MemTable
use key_val_store.MemTable.{MemTable, live, raw}
use key_val_store.MemTable.Reads.{raw-put}
use key_val_store.Wal.{WalOp, WalRecord}
use key_val_store.Db.{Options, Db, get, put, log}
use key_val_store.Recovery.{apply_record}
use key_val_store.Recovery.Append.{logged_write}
use key_val_store.Recovery.Overwrites.{put-small}
use key_val_store.Bench.{
  Answers, Clock, Timed, timed, timed_loop, record_time, fmtkey, fmtval, get_round, load,
}
use key_val_store.Bench.Keys.{length-fmtkey, length-fmtval, fmtkey-ne}

bytes-put_new :
    (k v : Bytes) (t : MemTable)
    → raw k t ≡ none
    → (MemTable.put k v t).bytes ≡ add64 (add64 t.bytes (length k)) (length v)
unfolding MemTable.put raw
bytes-put_new k v t h = ground (arith, h)

-- The store holds the first `n` entries of the benchmark, all of them in its memtable.
pub record Loaded (o : Options) (n : ℕ) (db : Db) : Type 0 where
  pub same_opts : db.opts ≡ o
  pub bytes : db.memtable.bytes ≡ 113 * n
  pub hits : (j : ℕ) → j < n → raw (fmtkey j) db.memtable ≡ some (live (fmtval j))
  pub misses : (j : ℕ) → n ≤ j → j < 2 ^ 31 → raw (fmtkey j) db.memtable ≡ none
  pub no_tables : db.sstables ≡ []

le-cases : (j n : ℕ) → j < n + 1 → (j ≡ n) ⊎ (j < n)
le-cases j n h = ground (arith, h)

module _ (o : Options) (roomy : 256 * 2 ^ 20 ≤ o.memtable_flush_bytes) where
  module _ (n : ℕ) (db : Db) (h : Loaded o n db) (more : 113 * (n + 1) < 2 ^ 28) where
    abbrev entry : WalRecord
    entry = record { op = WalOp.put; key = fmtkey n; value = fmtval n }

    bytes_next : (MemTable.put (fmtkey n) (fmtval n) db.memtable).bytes ≡ 113 * (n + 1)
    bytes_next =
        bytes-put_new (fmtkey n) (fmtval n) db.memtable
          (h.misses n (omega arith) (omega (arith, more)))
        ∙ (let int : n < 2 ^ 31 = omega (arith, more) in
            rw (length-fmtkey n int, length-fmtval n int, h.bytes) (omega (arith, more)))

    raw-next :
        (j : ℕ)
        → raw (fmtkey j) (MemTable.put (fmtkey n) (fmtval n) db.memtable) ≡ (
            if str_eq (fmtkey j) (fmtkey n)
            then some (live (fmtval n))
            else raw (fmtkey j) db.memtable)
    raw-next j = raw-put (fmtkey n) (fmtkey j) (fmtval n) db.memtable

    hit_next :
        (j : ℕ)
        → j < n + 1
        → raw (fmtkey j) (MemTable.put (fmtkey n) (fmtval n) db.memtable) ≡ some (live (fmtval j))
    hit_next j b = raw-next j ∙ elim (le-cases j n b) [
      | inl same ↦ rw (same, (str_eq_iff (fmtkey n) (fmtkey n)).1 refl) refl
      | inr below ↦
          rw
            (fmtkey-ne j n (omega (arith, b, more)) (omega (arith, more))
              (λ e. absurd (omega (arith, below))))
            (h.hits j below)
    ]

    pub Loaded-next : Loaded o (n + 1) (logged_write entry db)
    unfolding logged_write log apply_record
    Loaded-next = record {
      same_opts = h.same_opts;
      bytes = bytes_next;
      hits = hit_next;
      misses = λ j b int.
          raw-next j
          ∙ rw (fmtkey-ne j n int (omega (arith, more)) (λ e. absurd (omega (arith, b))))
              (h.misses j (omega (arith, b)) int);
      no_tables = h.no_tables;
    }

    pub put-next :
        (optimal_bits : ℕ → ℕ)
        → put optimal_bits (fmtkey n) (fmtval n) db ≡ some (logged_write entry db)
    put-next optimal_bits =
        put-small optimal_bits (fmtkey n) (fmtval n) db
          (rw (h.same_opts, bytes_next) (ground (arith, roomy, more)))

  pub load-Loaded :
      (optimal_bits : ℕ → ℕ) (count n : ℕ) (db : Db)
      → Loaded o n db
      → 113 * (n + count) < 2 ^ 28
      → (db' : Db) × (load optimal_bits count n db ≡ some db') × Loaded o (n + count) db'
  unfolding load
  load-Loaded optimal_bits zero n db h b = let sum : n + 0 ≡ n = omega arith in (db, refl, rw sum h)
  load-Loaded optimal_bits (suc count) n db h b =
      let more : 113 * (n + 1) < 2 ^ 28 = omega (arith, b) in
      let (db', done, l) =
        load-Loaded optimal_bits count (n + 1) (logged_write (entry n db h more) db)
          (Loaded-next n db h more) (omega (arith, b)) in
      let sum : n + 1 + count ≡ n + suc count = omega arith in
      (db', rw (put-next n db h more optimal_bits) done, rw sum at l)

-- The answers of rounds, in their order.
abbrev pub answers_of : (ℕ → Option Bytes) → ℕ → ℕ → Answers
answers_of found zero first = []
answers_of found (suc count) first = found first ∷ answers_of found count (first + 1)

-- A loop of reads: one sample each, their answers, and the store as it was.
pub record Reads (c : Clock) (found : ℕ → Option Bytes) (count first : ℕ) (t t' : Timed c)
    : Type 0 where
  pub same_store : t'.db ≡ t.db
  pub sampled : length t'.samples ≡ length t.samples + count
  pub answered : t'.answers ≡ t.answers ++ answers_of found count first

module _ (c : Clock) (key : ℕ → Bytes) where
  length-record_time :
      (t0 t1 : c.Time) (samples : List c.Micros)
      → length (record_time c t0 t1 samples) ≡ length samples + 1
  unfolding record_time
  length-record_time t0 t1 samples = length-append samples (c.us t0 t1 ∷ [])

  pub timed_loop-get :
      (count first : ℕ) (t : Timed c)
      → (t' : Timed c) × (timed_loop c (get_round key) count first t ≡ some t')
        × Reads c (λ i. get (key i) t.db) count first t t'
  unfolding timed_loop timed get_round
  timed_loop-get zero first t = (
    t,
    refl,
    record { same_store = refl; sampled = omega arith; answered = sym (append-nil t.answers) },
  )
  timed_loop-get (suc count) first t =
      let samples = record_time c (c.now t.readings) (c.now (t.readings + 1)) t.samples in
      let (t', done, r) = timed_loop-get count (first + 1) (record {
        db = t.db;
        samples = samples;
        readings = t.readings + 2;
        answers = t.answers ++ (get (key first) t.db ∷ []);
      }) in
      (
        t',
        done,
        record {
          same_store = r.same_store;
          sampled = omega (
            arith,
            r.sampled,
            length-record_time (c.now t.readings) (c.now (t.readings + 1)) t.samples,
          );
          answered = r.answered ∙ append_assoc t.answers (get (key first) t.db ∷ []) _;
        },
      )
