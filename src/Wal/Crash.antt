-- ===== src/Wal/Crash.antt =====
-- What append and sync promise across a crash (the durability contract of include/wal.h).
use key_val_store.Base.{
  ℕ, ◌≡◌, refl, List, [], ◌∷◌, ◌++◌, length, All, arith, ap, inl, inr, take_beyond, ltb, ltb→lt,
  Bool-cases, if◌then◌else◌, ◌∙◌,
}
use mathlib.Core.List.{append_assoc, append-nil}
use key_val_store.Wal.{Wal, WalRecord, append, sync, crash, encode, replay}
use key_val_store.Wal.Replay.{Fits, encode_all, replay-whole}
use key_val_store.Wal.Torn.{replay-torn}

-- The segment holds exactly the records `rs`, all of them synced.
pub record Holds (rs : List WalRecord) (w : Wal) : Type 0 where
  pub fits : All Fits rs
  pub synced : w.file ≡ encode_all rs
  pub flushed : w.buffer ≡ []

encode_all-append :
    (rs ss : List WalRecord) → encode_all (rs ++ ss) ≡ encode_all rs ++ encode_all ss
encode_all-append [] ss = refl
encode_all-append (r ∷ rs) ss = rw append_assoc (ap (λ t. encode r ++ t) (encode_all-append rs ss))

All-snoc : (rs : List WalRecord) (r : WalRecord) → All Fits rs → Fits r → All Fits (rs ++ (r ∷ []))
All-snoc [] r h f = (f, tt)
All-snoc (s ∷ rs) r h f = (h.0, All-snoc rs r h.1 f)

-- On a segment that holds exactly the synced records `rs`, append and then sync of a record whose
-- lengths fit 32 bits lead to a segment that holds exactly `rs` and that record, and replay of its
-- file yields just these.
pub append-sync-Holds :
    (rs : List WalRecord) (r : WalRecord) (w : Wal)
    → Holds rs w
    → Fits r
    → Holds (rs ++ (r ∷ [])) (sync (append r w))
      × (replay (sync (append r w)).file ≡ rs ++ (r ∷ []))
append-sync-Holds rs r w h f =
    let all = All-snoc rs r h.fits f in
    let file : (sync (append r w)).file ≡ encode_all (rs ++ (r ∷ [])) =
      unfold append sync in
      rw (h.synced, h.flushed, encode_all-append) (rw (append-nil (encode r)) refl) in
    (
      record { fits = all; synced = file; flushed = unfold append sync in refl },
      ap replay file ∙ replay-whole (rs ++ (r ∷ [])) all,
    )

-- A segment holds exactly the synced records `rs`, a record whose lengths fit 32 bits is
-- appended, and a crash lets `n` bytes of the buffer through: replay yields `rs`, followed by the
-- new record exactly if all of its bytes got through.
pub replay-crash-append :
    (rs : List WalRecord) (r : WalRecord) (w : Wal) (n : ℕ)
    → Holds rs w
    → Fits r
    → replay (crash n (append r w)) ≡ (if ltb n (length (encode r)) then rs else rs ++ (r ∷ []))
unfolding append
replay-crash-append rs r w n h f = elim (Bool-cases (ltb n (length (encode r)))) [
  | inl cut ↦
      rw (cut, h.synced, h.flushed) (replay-torn rs r n h.fits f (ltb→lt n (length (encode r)) cut))
  | inr whole ↦
      rw (whole, h.synced, h.flushed, take_beyond n (encode r) (ground arith))
        (rw (← one) (
          rw (← encode_all-append rs (r ∷ []))
            (replay-whole (rs ++ (r ∷ [])) (All-snoc rs r h.fits f))))
]
  where
    one : encode r ++ [] ≡ encode r
    one = append-nil (encode r)
