-- ===== src/Recovery/Segments.antt =====
-- The segments of a directory, with ids and contents, as entries, as recovery's list, as records.
use key_val_store.Base.{ℕ, ◌<◌, ◌^◌, ◌≡◌, refl, ap, ◌∙◌, none, List, [], ◌∷◌, ◌++◌, arith}
use key_val_store.Str.{Bytes}
use key_val_store.OrdMap.{OrdMap, find, assign}
use key_val_store.OrdMap.Laws.{find-assign_ne}
use key_val_store.Wal.{WalRecord, replay}
use key_val_store.Names.{wal_seg_path}
use key_val_store.Names.Kinds.{wal_seg_path-ne}
use key_val_store.Recovery.{Segment}

-- Segments with their ids, newest first.
abbrev pub Logs : Type 0
Logs = List (ℕ × Bytes)

-- Every id is below `w`.
abbrev pub AllUnder : ℕ → Logs → Type 0
AllUnder w [] = Unit {0}
AllUnder w ((v, file) ∷ logs) = (v < w) × AllUnder w logs

pub AllUnder-trans : (v w : ℕ) (logs : Logs) → v < w → AllUnder v logs → AllUnder w logs
AllUnder-trans v w [] h u = tt
AllUnder-trans v w ((i, file) ∷ logs) h u = (omega (arith, u.0), AllUnder-trans v w logs h u.1)

abbrev pub Descending : Logs → Type 0
Descending [] = Unit {0}
Descending ((w, file) ∷ logs) = (w < 2 ^ 64) × AllUnder w logs × Descending logs

-- As entries of the directory.
abbrev pub log_entries : Logs → OrdMap Bytes
log_entries [] = []
log_entries ((w, file) ∷ logs) = assign (wal_seg_path w) file (log_entries logs)

abbrev pub segment_of : ℕ → Bytes → Segment
segment_of w file = record { id = w; name = wal_seg_path w; file = file }

-- As recovery replays them.
abbrev pub log_segments : Logs → List Segment
log_segments [] = []
log_segments ((w, file) ∷ logs) = log_segments logs ++ (segment_of w file ∷ [])

-- Their whole records, oldest first.
abbrev pub log_records : Logs → List WalRecord
log_records [] = []
log_records ((w, file) ∷ logs) = log_records logs ++ replay file

-- Behind segments without records, those of the newest are all.
pub log_records_spent :
    (w : ℕ) (file : Bytes) (olds : Logs)
    → log_records olds ≡ []
    → log_records ((w, file) ∷ olds) ≡ replay file
log_records_spent w file olds h = ap (λ l. l ++ replay file) h

-- The greatest id.
abbrev pub log_id : Logs → ℕ
log_id [] = 0
log_id ((w, file) ∷ logs) = w

pub find-log_entries :
    (w : ℕ) (logs : Logs)
    → w < 2 ^ 64
    → AllUnder w logs
    → Descending logs
    → find (wal_seg_path w) (log_entries logs) ≡ none
find-log_entries w [] b u d = unfold find in refl
find-log_entries w ((v, file) ∷ logs) b u d =
    find-assign_ne (wal_seg_path v) (wal_seg_path w) file (log_entries logs)
      (wal_seg_path-ne w v b d.0 (λ e. absurd (omega (arith, u.0))))
    ∙ find-log_entries w logs b u.1 d.2
