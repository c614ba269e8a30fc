-- ===== src/Bench/Reads.antt =====
-- bench_hot_read of src/bench.cpp, from the empty directory to its samples.
use key_val_store.Base.{
  ℕ, zero, suc, ◌+◌, ◌*◌, ◌^◌, ◌<◌, ◌≡◌, refl, ap, ◌∙◌, Option, some, [], ◌∷◌, length, arith,
}
use key_val_store.Str.{Bytes}
use key_val_store.OrdMap.{find}
use key_val_store.MemTable.{raw}
use key_val_store.Db.{Db, get}
use key_val_store.Recovery.{open_active}
use key_val_store.Recovery.Lifecycle.{first_db, open_db_done}
use key_val_store.Bench.{Clock, Timed, started, fmtkey, fmtval, read_options, bench_hot_read}
use key_val_store.Bench.Loads.{Loaded, load-Loaded, answers_of, timed_loop-get}

module _ (optimal_bits : ℕ → ℕ) where
  first-Loaded : Loaded read_options 0 (open_active (first_db optimal_bits read_options))
  unfolding open_active raw find
  first-Loaded = record {
    same_opts = refl;
    bytes = refl;
    hits = λ j b. absurd (omega (arith, b));
    misses = λ j b int. refl;
    no_tables = refl;
  }

  get-Loaded :
      (n j : ℕ) (db : Db) → Loaded read_options n db → j < n → get (fmtkey j) db ≡ some (fmtval j)
  unfolding get
  get-Loaded n j db h b = rw (h.hits j b, get) refl

  answers-ext :
      (f g : ℕ → Option Bytes) (count first : ℕ)
      → ((i : ℕ) → f i ≡ g i)
      → answers_of f count first ≡ answers_of g count first
  answers-ext f g zero first h = refl
  answers-ext f g (suc count) first h =
      rw (h first) (ap (λ l. g first ∷ l) (answers-ext f g count (first + 1) h))

  -- While 113 n is below the flush threshold and each draw below n, bench_hot_read ends. It takes
  -- n samples, each of its reads finds the value that was put under the drawn key, and the store
  -- has no table: all reads are answered by the memtable.
  pub bench_hot_read-hits :
      (c : Clock) (draw : ℕ → ℕ) (n : ℕ)
      → 113 * n < 2 ^ 28
      → ((i : ℕ) → draw i < n)
      → (t : Timed c) × (bench_hot_read optimal_bits c draw n ≡ some t)
        × (length t.samples ≡ n)
        × (t.answers ≡ answers_of (λ i. some (fmtval (draw i))) n 0)
        × (t.db.sstables ≡ [])
  unfolding bench_hot_read
  bench_hot_read-hits c draw n small within =
      let sum : 0 + n ≡ n = omega arith in
      let (db, done, l) =
        load-Loaded read_options (omega arith) optimal_bits n 0
          (open_active (first_db optimal_bits read_options)) first-Loaded (omega (arith, small)) in
      let loaded = rw sum at l in
      let (t, ran, r) = timed_loop-get c (λ i. fmtkey (draw i)) n 0 (started c db) in
      (
        t,
        rw (open_db_done optimal_bits read_options) (rw done ran),
        rw sum at r.sampled,
        r.answered ∙ answers-ext _ _ n 0 (λ i. get-Loaded n (draw i) db loaded (within i)),
        ap (λ d. d.sstables) r.same_store ∙ loaded.no_tables,
      )
