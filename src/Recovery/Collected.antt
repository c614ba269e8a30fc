-- ===== src/Recovery/Collected.antt =====
-- Step 5 of DB::recover collects the segments of a directory and replays them from the oldest on.
use key_val_store.Base.{
  ℕ, ◌<◌, ◌^◌, ◌≡◌, refl, ap, sym, ◌∙◌, true, not, none, some, List, [], ◌∷◌, ◌++◌, arith, All,
  All-append, Ordering, ◌⊎◌, inl, inr, Option-cases,
}
use key_val_store.Str.{Bytes, str_compare}
use key_val_store.Str.Order.{compare-swap_gt, compare-trans_lt}
use key_val_store.OrdMap.{OrdMap, find, assign}
use key_val_store.Wal.{replay}
use key_val_store.Names.{wal_seg_path, file_id}
use key_val_store.Names.Kinds.{file_id-wal_seg_path}
use key_val_store.Db.{Db}
use key_val_store.Recovery.{
  Segment, segment_lt, insert_oldest, sort_oldest, collect_segments, replay_segments, max,
}
use key_val_store.Recovery.Log.{
  replayed, counted, replayed-append, counted-append, replay_records_lem,
}
use key_val_store.Recovery.Segments.{
  Logs, AllUnder, Descending, log_entries, segment_of, log_segments, log_records, log_id,
  find-log_entries,
}

segment_lt_trans :
    (s t u : Segment) → segment_lt s t ≡ true → segment_lt t u ≡ true → segment_lt s u ≡ true
segment_lt_trans s t u h k = ground (arith, compare-trans_lt s.name t.name u.name)

insert_oldest_comm :
    (s t : Segment) (ss : List Segment)
    → segment_lt s t ≡ not (segment_lt t s)
    → insert_oldest s (insert_oldest t ss) ≡ insert_oldest t (insert_oldest s ss)
unfolding insert_oldest
insert_oldest_comm s t [] h = ground (arith, h)
insert_oldest_comm s t (u ∷ us) h =
    ground (arith, h, insert_oldest_comm s t us h, segment_lt_trans s t u, segment_lt_trans t s u)

Ordering-cases : (o : Ordering) → (o ≡ Ordering.lt) ⊎ (o ≡ Ordering.eq) ⊎ (o ≡ Ordering.gt)
Ordering-cases Ordering.lt = inl refl
Ordering-cases Ordering.eq = inr (inl refl)
Ordering-cases Ordering.gt = inr (inr refl)

segment_lt-swap :
    (s t : Segment)
    → str_compare s.name t.name ≡ Ordering.gt
    → segment_lt s t ≡ not (segment_lt t s)
segment_lt-swap s t h = ground (arith, h, compare-swap_gt s.name t.name h)

-- One more segment, wherever its name stands among the entries, is inserted by its id.
record CollectsWith (s : Segment) (m : OrdMap Bytes) (cs : List Segment) : Type 0 where
  pub collected : List Segment
  pub done : collect_segments m ≡ some collected
  pub order : sort_oldest collected ≡ insert_oldest s (sort_oldest cs)

module _ (w : ℕ) (file : Bytes) (b : w < 2 ^ 64) where
  abbrev new : Segment
  new = segment_of w file

  CollectsWith-front :
      (m : OrdMap Bytes) (cs : List Segment)
      → collect_segments m ≡ some cs
      → CollectsWith new ((wal_seg_path w, file) ∷ m) cs
  unfolding collect_segments
  CollectsWith-front m cs h = record {
    collected = new ∷ cs;
    done = rw (file_id-wal_seg_path w b, h);
    order = unfold sort_oldest in refl;
  }

  CollectsWith-cons :
      (j c : Bytes) (i : ℕ) (m : OrdMap Bytes) (cs : List Segment)
      → file_id j ≡ some i
      → str_compare (wal_seg_path w) j ≡ Ordering.gt
      → CollectsWith new m cs
      → CollectsWith new ((j, c) ∷ m) (record { id = i; name = j; file = c } ∷ cs)
  unfolding collect_segments
  CollectsWith-cons j c i m cs e g h =
      let s : Segment = record { id = i; name = j; file = c } in
      record {
        collected = s ∷ h.collected;
        done = rw (e, h.done);
        order =
            unfold sort_oldest in
            ap (insert_oldest s) h.order
            ∙ sym (insert_oldest_comm new s (sort_oldest cs) (segment_lt-swap new s g));
      }

  collect_segments-assign :
      (m : OrdMap Bytes) (cs : List Segment)
      → find (wal_seg_path w) m ≡ none
      → collect_segments m ≡ some cs
      → CollectsWith new (assign (wal_seg_path w) file m) cs
  unfolding find assign
  collect_segments-assign [] cs n h = CollectsWith-front [] cs h
  collect_segments-assign ((j, c) ∷ m) cs n h =
      elim (Ordering-cases (str_compare (wal_seg_path w) j)) [
        | inl before ↦ rw before (CollectsWith-front ((j, c) ∷ m) cs h)
        | inr (inl same) ↦ absurd (ground (arith, same, n))
        | inr (inr behind) ↦ elim (Option-cases (file_id j)) [
          | inl e ↦ absurd (unfold collect_segments in ground (arith, e, h))
          | inr (i, e) ↦ elim (Option-cases (collect_segments m)) [
            | inl e' ↦ absurd (unfold collect_segments in ground (arith, e, e', h))
            | inr (ds, e') ↦
                let s : Segment = record { id = i; name = j; file = c } in
                let same : cs ≡ s ∷ ds = unfold collect_segments in ground (arith, e, e', h) in
                rw (behind, same)
                  (CollectsWith-cons j c i (assign (wal_seg_path w) file m) ds e behind
                    (collect_segments-assign m ds (ground (arith, behind, n)) e'))
          ]
        ]
      ]

-- A segment younger than all others comes last.
insert_oldest_last :
    (s : Segment) (ss : List Segment)
    → All (λ t. t.id < s.id) ss
    → insert_oldest s ss ≡ ss ++ (s ∷ [])
unfolding insert_oldest
insert_oldest_last s [] h = refl
insert_oldest_last s (t ∷ ts) h = ground (arith, insert_oldest_last s ts h.1, h.0)

log_segments-AllUnder :
    (w : ℕ) (logs : Logs) → AllUnder w logs → All (λ t. t.id < w) (log_segments logs)
log_segments-AllUnder w [] h = tt
log_segments-AllUnder w ((v, file) ∷ logs) h =
    All-append _ (log_segments logs) (segment_of v file ∷ []) (log_segments-AllUnder w logs h.1)
      (h.0, tt)

-- What step 5 collects and sorts.
pub record Collects (logs : Logs) : Type 0 where
  pub collected : List Segment
  pub done : collect_segments (log_entries logs) ≡ some collected
  pub order : sort_oldest collected ≡ log_segments logs

pub Collects-logs : (logs : Logs) → Descending logs → Collects logs
Collects-logs [] d = record {
  collected = [];
  done = unfold collect_segments in refl;
  order = unfold sort_oldest in refl;
}
Collects-logs ((w, file) ∷ logs) d =
    let h = Collects-logs logs d.2 in
    let c =
      collect_segments-assign w file d.0 (log_entries logs) h.collected
        (find-log_entries w logs d.0 d.1 d.2) h.done in
    record {
      collected = c.collected;
      done = c.done;
      order =
          c.order
          ∙ ap (insert_oldest (segment_of w file)) h.order
          ∙ insert_oldest_last (segment_of w file) (log_segments logs)
              (log_segments-AllUnder w logs d.1);
    }

replay_segments-append :
    (ss ts : List Segment) (db : Db)
    → replay_segments (ss ++ ts) db ≡ replay_segments ts (replay_segments ss db)
unfolding replay_segments
replay_segments-append [] ts db = refl
replay_segments-append (s ∷ ss) ts db = replay_segments-append ss ts _

log_id-lt : (w : ℕ) (logs : Logs) → AllUnder w logs → max (log_id logs) w ≡ w
log_id-lt w [] h = ground arith
log_id-lt w ((v, file) ∷ logs) h = ground (arith, h.0)

max_assoc : (a b c : ℕ) → max (max a b) c ≡ max a (max b c)
max_assoc a b c = ground arith

max-zero : (n : ℕ) → max n 0 ≡ n
max-zero n = ground arith

-- The state behind the replay of all segments.
pub replay_segments_lem :
    (logs : Logs) (db : Db)
    → Descending logs
    → replay_segments (log_segments logs) db ≡ record db {
      memtable = replayed (log_records logs) db.memtable;
      wal_replayed = counted (log_records logs) db.wal_replayed;
      current_wal_id = max db.current_wal_id (log_id logs);
    }
replay_segments_lem [] db d = unfold replay_segments replayed counted in rw max-zero refl
replay_segments_lem ((w, file) ∷ logs) db d =
    replay_segments-append (log_segments logs) (segment_of w file ∷ []) db
    ∙ rw (replay_segments_lem logs db d.2) (
        unfold replay_segments in
        rw (replay_records_lem (replay file) _) (
          rw
            (
              replayed-append (log_records logs) (replay file) db.memtable,
              counted-append (log_records logs) (replay file) db.wal_replayed,
              max_assoc db.current_wal_id (log_id logs) w,
              log_id-lt w logs d.1,
            )
            refl))
