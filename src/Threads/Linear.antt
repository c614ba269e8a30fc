-- ===== src/Threads/Linear.antt =====
-- Systems of threads, and the run of calls one after the other that each stands for.
use key_val_store.Base.{
  ℕ, ◌+◌, ◌≡◌, refl, ap, sym, ◌∙◌, Bool, true, false, inl, inr, ◌⊎◌, List, [], ◌∷◌, ◌++◌, arith,
  if◌then◌else◌,
}
use key_val_store.Db.{Db}
use key_val_store.Threads.{Stage, Event, Shared, System, AllOutside, Reach, start, later}
use key_val_store.Threads.Steps.{
  sharing, holding, total, all_logged, logs, total-append, all_logged-append, all_logged_idle,
  Sequential, Placed, Move-Placed,
}

module _ (optimal_bits : ℕ → ℕ) where
  -- What holds in every system that the threads reach.
  pub record Ordered (db : Db) (s : System) : Type 0 where
    pub sharers : s.state.mu.sharers ≡ total sharing s.threads
    pub holders : (if s.state.mu.held then 1 else 0) ≡ total holding s.threads
    pub exclusive : s.state.mu.held ≡ true → s.state.mu.sharers ≡ 0
    pub settled : Db
    pub order : Sequential optimal_bits s.history db settled
    pub state : s.state.db ≡ logs (all_logged s.threads) settled

  -- The view of one thread, with the others on both sides, and back.
  module _ (db : Db) (before after : List Stage) where
    others_idle :
        total holding before + total holding after ≡ 0
        → (all_logged before ≡ []) × (all_logged after ≡ [])
    others_idle h =
        (all_logged_idle before (omega (arith, h)), all_logged_idle after (omega (arith, h)))

    total-middle :
        (f : Stage → ℕ) (p : Stage)
        → total f (before ++ (p ∷ after)) ≡ total f before + total f after + f p
    total-middle f p = omega (arith, total-append f before (p ∷ after))

    abbrev One : Shared → Stage → List Event → Type 0
    One =
        Placed optimal_bits db (total sharing before + total sharing after)
          (total holding before + total holding after) (all_logged before) (all_logged after)

    Ordered-Placed :
        (s : Shared) (p : Stage) (past : List Event)
        → Ordered db (record { state = s; threads = before ++ (p ∷ after); history = past })
        → One s p past
    Ordered-Placed s p past o = record {
      sharers = o.sharers ∙ total-middle sharing p;
      holders = o.holders ∙ total-middle holding p;
      exclusive = o.exclusive;
      settled = o.settled;
      order = o.order;
      state = o.state ∙ ap (λ l. logs l o.settled) (all_logged-append before (p ∷ after));
    }

    Placed-Ordered :
        (s : Shared) (p : Stage) (past : List Event)
        → One s p past
        → Ordered db (record { state = s; threads = before ++ (p ∷ after); history = past })
    Placed-Ordered s p past f = record {
      sharers = f.sharers ∙ sym (total-middle sharing p);
      holders = f.holders ∙ sym (total-middle holding p);
      exclusive = f.exclusive;
      settled = f.settled;
      order = f.order;
      state = f.state ∙ ap (λ l. logs l f.settled) (sym (all_logged-append before (p ∷ after)));
    }

  outside_all : (ps : List Stage) → AllOutside ps → (total sharing ps ≡ 0) × (total holding ps ≡ 0)
  outside_all [] h = (refl, refl)
  outside_all (p ∷ ps) (e, h) =
      let (none_share, none_hold) = outside_all ps h in
      rw e (omega (arith, none_share), omega (arith, none_hold))

  pub Reach-Ordered : (db : Db) (s : System) → Reach optimal_bits db s → Ordered db s
  Reach-Ordered db s (start threads out) =
      let (none_share, none_hold) = outside_all threads out in
      record {
        sharers = sym none_share;
        holders = sym none_hold;
        exclusive = λ h. refl;
        settled = db;
        order = refl;
        state = rw (all_logged_idle threads none_hold) refl;
      }
  Reach-Ordered db s (later before after {p} {p'} {s = t} {s' = t'} {es} {past} h m) =
      Placed-Ordered db before after t' p' (es ++ past) (
        Move-Placed optimal_bits db _ _ _ _ (others_idle db before after) t t' p p' es past
          (Ordered-Placed db before after t p past (Reach-Ordered db _ h)) m)

  exclusive_or_none :
      (held : Bool) (sharers x r : ℕ)
      → sharers ≡ r
      → (if held then 1 else 0) ≡ x
      → (held ≡ true → sharers ≡ 0)
      → (x ≡ 0) ⊎ ((x ≡ 1) × (r ≡ 0))
  exclusive_or_none false sharers x r h g e = inl (sym g)
  exclusive_or_none true sharers x r h g e = inr (sym g, sym h ∙ e refl)

  -- Whatever the order of the threads' steps, either no thread holds the lock exclusively, or one
  -- does and none shares it. The calls that have returned are, with their results, those of a run
  -- in which each call starts when the one before has ended, in the order in which they returned.
  -- The store is the one that this run ends in, with the records that a thread has logged and not
  -- yet applied.
  pub linearizable :
      (db : Db) (s : System)
      → Reach optimal_bits db s
      → ((total holding s.threads ≡ 0)
          ⊎ ((total holding s.threads ≡ 1) × (total sharing s.threads ≡ 0)))
        × (settled : Db) × Sequential optimal_bits s.history db settled
        × (s.state.db ≡ logs (all_logged s.threads) settled)
  linearizable db s h =
      let o = Reach-Ordered db s h in
      (
        exclusive_or_none s.state.mu.held s.state.mu.sharers _ _ o.sharers o.holders o.exclusive,
        o.settled,
        o.order,
        o.state,
      )
