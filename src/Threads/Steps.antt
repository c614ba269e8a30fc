-- ===== src/Threads/Steps.antt =====
-- What one step of one thread keeps, with the others on both sides.
use key_val_store.Base.{
  ℕ, ◌+◌, Option, ◌≡◌, refl, ap, sym, ◌∙◌, Bool, true, false, Bool-cases, inl, inr, ◌-◌, some, List,
  [], ◌∷◌, ◌++◌, arith, if◌then◌else◌,
}
use mathlib.Core.List.{append-nil, append_assoc}
use key_val_store.Wal.{WalRecord}
use key_val_store.Db.{Db, get, stats, log, put, del, flush_memtable, compact}
use key_val_store.Threads.{
  Write, Read, Stage, Event, Shared, put_record, del_record, Move, lock_shared, lock, look_up,
  count, log_put, log_del, end_put, end_del, end_flush, end_compact,
}

-- How often a stage holds the lock, shared and exclusively, and what it has logged.
abbrev pub sharing : Stage → ℕ
sharing (Stage.reading q) = 1
sharing _ = 0

abbrev pub holding : Stage → ℕ
holding Stage.outside = 0
holding (Stage.reading q) = 0
holding _ = 1

abbrev logged : Stage → List WalRecord
logged (Stage.put_logged k v) = put_record k v ∷ []
logged (Stage.del_logged k) = del_record k ∷ []
logged _ = []

abbrev pub total : (Stage → ℕ) → List Stage → ℕ
total f [] = 0
total f (p ∷ ps) = f p + total f ps

abbrev pub all_logged : List Stage → List WalRecord
all_logged [] = []
all_logged (p ∷ ps) = logged p ++ all_logged ps

abbrev pub logs : List WalRecord → Db → Db
logs [] db = db
logs (r ∷ rs) db = logs rs (log r db)

pub total-append :
    (f : Stage → ℕ) (ps qs : List Stage) → total f (ps ++ qs) ≡ total f ps + total f qs
total-append f [] qs = omega arith
total-append f (p ∷ ps) qs = omega (arith, total-append f ps qs)

pub all_logged-append :
    (ps qs : List Stage) → all_logged (ps ++ qs) ≡ all_logged ps ++ all_logged qs
all_logged-append [] qs = refl
all_logged-append (p ∷ ps) qs =
    ap (λ l. logged p ++ l) (all_logged-append ps qs) ∙ sym (append_assoc (logged p) _ _)

-- Who does not hold the lock has logged nothing.
logged_idle : (p : Stage) → holding p ≡ 0 → logged p ≡ []
logged_idle Stage.outside h = refl
logged_idle (Stage.reading q) h = refl
logged_idle (Stage.writing w) h = refl
logged_idle (Stage.put_logged k v) h = absurd (omega (arith, h))
logged_idle (Stage.del_logged k) h = absurd (omega (arith, h))

pub all_logged_idle : (ps : List Stage) → total holding ps ≡ 0 → all_logged ps ≡ []
all_logged_idle [] h = refl
all_logged_idle (p ∷ ps) h =
    rw (logged_idle p (omega (arith, h))) (all_logged_idle ps (omega (arith, h)))

module _ (optimal_bits : ℕ → ℕ) where
  abbrev run_write : Write → Db → Option Db
  run_write (Write.put_call k v) db = put optimal_bits k v db
  run_write (Write.del_call k) db = del optimal_bits k db
  run_write Write.flush_call db = flush_memtable optimal_bits db
  run_write Write.compact_call db = compact optimal_bits db

  -- A call alone leads from `db` to `db'`, with the result that the event tells.
  abbrev pub Alone : Event → Db → Db → Type 0
  Alone (Event.wrote w) db db' = run_write w db ≡ some db'
  Alone (Event.got k found) db db' = (found ≡ get k db) × (db' ≡ db)
  Alone (Event.counted st) db db' = (st ≡ stats db) × (db' ≡ db)

  -- The calls one after the other, the last one first.
  abbrev pub Sequential : List Event → Db → Db → Type 0
  Sequential [] db db' = db' ≡ db
  Sequential (e ∷ es) db db' = (mid : Db) × Sequential es db mid × Alone e mid db'

  -- One thread at stage `p` among others that share the lock `r` times, hold it `x` times and
  -- have logged `before` and `after`.
  pub record Placed (db : Db) (r x : ℕ) (before after : List WalRecord) (s : Shared) (p : Stage)
      (past : List Event) : Type 0 where
    pub sharers : s.mu.sharers ≡ r + sharing p
    pub holders : (if s.mu.held then 1 else 0) ≡ x + holding p
    pub exclusive : s.mu.held ≡ true → s.mu.sharers ≡ 0
    pub settled : Db
    pub order : Sequential past db settled
    pub state : s.db ≡ logs (before ++ (logged p ++ after)) settled

  module _ (db : Db) (r x : ℕ) (before after : List WalRecord)
      (idle : x ≡ 0 → (before ≡ []) × (after ≡ [])) where
    -- The lock's bit stands for a number of at most one.
    one_holder : (b : Bool) → (if b then 1 else 0) ≡ x + 1 → (x ≡ 0) × (b ≡ true)
    one_holder true h = (omega (arith, h), refl)
    one_holder false h = absurd (omega (arith, h))

    no_holder : (b : Bool) → b ≡ false → (if b then 1 else 0) ≡ x + 0 → x ≡ 0
    no_holder b e h = ground (arith, e, h)

    not_held :
        (s : Shared)
        → s.mu.sharers ≡ r + 1
        → (s.mu.held ≡ true → s.mu.sharers ≡ 0)
        → s.mu.held ≡ false
    not_held s n h = elim (Bool-cases s.mu.held) [
      | inl taken ↦ absurd (omega (arith, n, h taken))
      | inr clear ↦ clear
    ]

    -- Without others' records, the state is that behind the calls and the own record.
    alone_state :
        (s : Shared) (p : Stage) (past : List Event) (f : Placed db r x before after s p past)
        → x ≡ 0
        → s.db ≡ logs (logged p) f.settled
    alone_state s p past f e =
        f.state ∙ rw ((idle e).0, (idle e).1) (ap (λ l. logs l f.settled) (append-nil (logged p)))

    -- The end of a call that held the lock.
    released :
        (s : Shared) (db' : Db) (w : Write) (p : Stage) (past : List Event)
        (f : Placed db r x before after s p past)
        → holding p ≡ 1
        → run_write w f.settled ≡ some db'
        → Placed db r x before after
            (record { db = db'; mu = record s.mu { held = false } })
            Stage.outside
            (Event.wrote w ∷ past)
    released s db' w p past f one e =
        let (none_else, taken) = one_holder s.mu.held (rw one at f.holders) in
        record {
          sharers = omega (arith, f.sharers, f.exclusive taken);
          holders = omega (arith, none_else);
          exclusive = λ h. ground (arith, h);
          settled = db';
          order = (f.settled, f.order, e);
          state = rw ((idle none_else).0, (idle none_else).1) refl;
        }

    -- The end of a call that shared the lock.
    looked :
        (s : Shared) (q : Read) (e : Event) (past : List Event)
        (f : Placed db r x before after s (Stage.reading q) past)
        → (s.db ≡ f.settled → Alone e f.settled f.settled)
        → Placed db r x before after
            (record s { mu = record s.mu { sharers = s.mu.sharers - 1 } })
            Stage.outside
            (e ∷ past)
    looked s q e past f g =
        let clear = not_held s f.sharers f.exclusive in
        let none_else = no_holder s.mu.held clear f.holders in
        let same = alone_state s (Stage.reading q) past f none_else in
        record {
          sharers = omega (arith, f.sharers);
          holders = f.holders;
          exclusive = λ h. omega (arith, f.exclusive h);
          settled = f.settled;
          order = (f.settled, f.order, g same);
          state = f.state;
        }

    -- The first step of a put or a del.
    logging :
        (s : Shared) (rec : WalRecord) (p p' : Stage) (past : List Event)
        (f : Placed db r x before after s p past)
        → holding p ≡ 1
        → holding p' ≡ 1
        → sharing p ≡ 0
        → sharing p' ≡ 0
        → logged p ≡ []
        → logged p' ≡ rec ∷ []
        → Placed db r x before after (record s { db = log rec s.db }) p' past
    logging s rec p p' past f one one' sh sh' l l' =
        let (none_else, taken) = one_holder s.mu.held (rw one at f.holders) in
        let same = rw l at (alone_state s p past f none_else) in
        record {
          sharers = omega (arith, f.sharers, sh, sh');
          holders = omega (arith, f.holders, one, one');
          exclusive = f.exclusive;
          settled = f.settled;
          order = f.order;
          state = rw ((idle none_else).0, (idle none_else).1, l') (ap (log rec) same);
        }

    pub Move-Placed :
        (s s' : Shared) (p p' : Stage) (es past : List Event)
        → Placed db r x before after s p past
        → Move optimal_bits s p s' p' es
        → Placed db r x before after s' p' (es ++ past)
    Move-Placed s s' p p' es past f (lock_shared q h) = record {
      sharers = omega (arith, f.sharers);
      holders = f.holders;
      exclusive = λ e. ground (arith, e, h);
      settled = f.settled;
      order = f.order;
      state = f.state;
    }
    Move-Placed s s' p p' es past f (lock w h g) = record {
      sharers = f.sharers;
      holders = omega (arith, no_holder s.mu.held h f.holders);
      exclusive = λ e. g;
      settled = f.settled;
      order = f.order;
      state = f.state;
    }
    Move-Placed s s' p p' es past f (look_up k) =
        looked s (Read.get_call k) (Event.got k (get k s.db)) past f (λ e. (ap (get k) e, refl))
    Move-Placed s s' p p' es past f count =
        looked s Read.stats_call (Event.counted (stats s.db)) past f (λ e. (ap stats e, refl))
    Move-Placed s s' p p' es past f (log_put k v) =
        logging s (put_record k v) (Stage.writing (Write.put_call k v)) (Stage.put_logged k v) past
          f refl refl refl refl refl refl
    Move-Placed s s' p p' es past f (log_del k) =
        logging s (del_record k) (Stage.writing (Write.del_call k)) (Stage.del_logged k) past f refl
          refl refl refl refl refl
    Move-Placed s s' p p' es past f (end_put k v {db'} e) =
        released s db' (Write.put_call k v) (Stage.put_logged k v) past f refl (
          let same =
            alone_state s (Stage.put_logged k v) past f (one_holder s.mu.held f.holders).0 in
          unfold put in rw same at e)
    Move-Placed s s' p p' es past f (end_del k {db'} e) =
        released s db' (Write.del_call k) (Stage.del_logged k) past f refl (
          let same = alone_state s (Stage.del_logged k) past f (one_holder s.mu.held f.holders).0 in
          unfold del in rw same at e)
    Move-Placed s s' p p' es past f (end_flush {db'} e) =
        released s db' Write.flush_call (Stage.writing Write.flush_call) past f refl (
          let same =
            alone_state s (Stage.writing Write.flush_call) past f
              (one_holder s.mu.held f.holders).0 in
          rw same at e)
    Move-Placed s s' p p' es past f (end_compact {db'} e) =
        released s db' Write.compact_call (Stage.writing Write.compact_call) past f refl (
          let same =
            alone_state s (Stage.writing Write.compact_call) past f
              (one_holder s.mu.held f.holders).0 in
          rw same at e)
