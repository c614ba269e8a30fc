-- ===== src/Threads/Progress.antt =====
-- Who can go on in a system of threads.
use key_val_store.Base.{
  ℕ, ◌+◌, ◌<◌, ◌≡◌, ◌⊎◌, inl, inr, refl, ap, Bool, true, false, none, List, [], ◌∷◌, ◌++◌, arith,
  if◌then◌else◌, Option-cases, ℕ-cases,
}
use key_val_store.MemTable
use key_val_store.Db.{Db, maybe_flush, flush_memtable, compact}
use key_val_store.Threads.{
  Write, Read, Stage, Event, Shared, System, Move, Reach, look_up, count, log_put, log_del, end_put,
  end_del, end_flush, end_compact,
}
use key_val_store.Threads.Steps.{sharing, holding, total}
use key_val_store.Threads.Linear.{Reach-Ordered}

-- Some thread among others is inside a call.
pub record Busy (ps : List Stage) : Type 0 where
  pub before : List Stage
  pub stage : Stage
  pub after : List Stage
  pub place : ps ≡ before ++ (stage ∷ after)
  pub inside : 0 < sharing stage + holding stage

Busy-total : (ps : List Stage) → 0 < total sharing ps + total holding ps → Busy ps
Busy-total [] h = absurd (omega (arith, h))
Busy-total (p ∷ ps) h = elim (ℕ-cases (sharing p + holding p)) [
  | inl idle ↦
      let b = Busy-total ps (omega (arith, h, idle)) in
      record {
        before = p ∷ b.before;
        stage = b.stage;
        after = b.after;
        place = ap (λ l. p ∷ l) b.place;
        inside = b.inside;
      }
  | inr (n, some_lock) ↦ record {
    before = [];
    stage = p;
    after = ps;
    place = refl;
    inside = omega (arith, some_lock);
  }
]

module _ (optimal_bits : ℕ → ℕ) where
  pub record NextMove (s : Shared) (p : Stage) : Type 0 where
    pub state : Shared
    pub stage : Stage
    pub events : List Event
    pub move : Move optimal_bits s p state stage events

  -- An exception comes out of the call.
  abbrev pub Throws : Shared → Stage → Type 0
  Throws s (Stage.put_logged k v) =
      maybe_flush optimal_bits (record s.db { memtable = MemTable.put k v s.db.memtable }) ≡ none
  Throws s (Stage.del_logged k) =
      maybe_flush optimal_bits (record s.db { memtable = MemTable.del k s.db.memtable }) ≡ none
  Throws s (Stage.writing Write.flush_call) = flush_memtable optimal_bits s.db ≡ none
  Throws s (Stage.writing Write.compact_call) = compact optimal_bits s.db ≡ none
  Throws s _ = ⊥

  step_by :
      (s s' : Shared) (p p' : Stage) (es : List Event)
      → Move optimal_bits s p s' p' es
      → NextMove s p
  step_by s s' p p' es m = record { state = s'; stage = p'; events = es; move = m }

  goes_on : (s : Shared) (p : Stage) → 0 < sharing p + holding p → NextMove s p ⊎ Throws s p
  goes_on s Stage.outside h = absurd (omega (arith, h))
  goes_on s (Stage.reading (Read.get_call k)) h = inl (step_by s _ _ _ _ (look_up k))
  goes_on s (Stage.reading Read.stats_call) h = inl (step_by s _ _ _ _ count)
  goes_on s (Stage.writing (Write.put_call k v)) h = inl (step_by s _ _ _ _ (log_put k v))
  goes_on s (Stage.writing (Write.del_call k)) h = inl (step_by s _ _ _ _ (log_del k))
  goes_on s (Stage.writing Write.flush_call) h =
      elim (Option-cases (flush_memtable optimal_bits s.db)) [
        | inl fails ↦ inr fails
        | inr (db, done) ↦ inl (step_by s _ _ _ _ (end_flush done))
      ]
  goes_on s (Stage.writing Write.compact_call) h = elim (Option-cases (compact optimal_bits s.db)) [
    | inl fails ↦ inr fails
    | inr (db, done) ↦ inl (step_by s _ _ _ _ (end_compact done))
  ]
  goes_on s (Stage.put_logged k v) h =
      elim (Option-cases
        (maybe_flush optimal_bits (record s.db { memtable = MemTable.put k v s.db.memtable }))) [
          | inl fails ↦ inr fails
          | inr (db, done) ↦ inl (step_by s _ _ _ _ (end_put k v done))
        ]
  goes_on s (Stage.del_logged k) h =
      elim (Option-cases
        (maybe_flush optimal_bits (record s.db { memtable = MemTable.del k s.db.memtable }))) [
          | inl fails ↦ inr fails
          | inr (db, done) ↦ inl (step_by s _ _ _ _ (end_del k done))
        ]

  lock_cases :
      (held : Bool) (sharers x r : ℕ)
      → sharers ≡ r
      → (if held then 1 else 0) ≡ x
      → ((held ≡ false) × (sharers ≡ 0)) ⊎ (0 < r + x)
  lock_cases true sharers x r h g = inr (omega (arith, g))
  lock_cases false sharers x r h g = elim (ℕ-cases sharers) [
    | inl none_share ↦ inl (refl, none_share)
    | inr (n, some_share) ↦ inr (omega (arith, h, some_share))
  ]

  -- In every system that the threads reach, the lock is free for any thread outside, or a thread
  -- is inside a call, and can take its next step, or its call throws.
  pub no_deadlock :
      (db : Db) (s : System)
      → Reach optimal_bits db s
      → ((s.state.mu.held ≡ false) × (s.state.mu.sharers ≡ 0))
        ⊎ ((b : Busy s.threads) × (NextMove s.state b.stage ⊎ Throws s.state b.stage))
  no_deadlock db s h =
      let o = Reach-Ordered optimal_bits db s h in
      elim (lock_cases s.state.mu.held s.state.mu.sharers _ _ o.sharers o.holders) [
        | inl free ↦ inl free
        | inr taken ↦
            let b = Busy-total s.threads taken in inr (b, goes_on s.state b.stage b.inside)
      ]
