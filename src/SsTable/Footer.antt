-- ===== src/SsTable/Footer.antt =====
-- SSTable::load_meta on a file that SSTable::build wrote.
use mathlib.Core.List.{append_assoc, append-nil}
use key_val_store.Base.{
  ℕ, ◌+◌, ◌-◌, ◌/◌, ◌%◌, ◌^◌, ◌≤◌, ◌<◌, ◌≡◌, refl, some, List, [], ◌∷◌, ◌++◌, length, length-append,
  drop, drop-append, take_beyond, All, arith, leb, to_u32, add64, true,
}
use key_val_store.Str.{Bytes}
use key_val_store.Codec.{wu32, wu64, wstr}
use key_val_store.Codec.RoundTrip.{
  fread-append, ru32-wu32, ru64-wu64, rstr-wstr, length-wu32, length-wu64,
}
use key_val_store.Bloom.{BloomFilter, from_bytes, next_pow2}
use key_val_store.Bloom.Pow2.{next_pow2-pow}
use key_val_store.SsTable.{
  IndexPoint, point_bytes, bloom_section, index_section, sections, at_footer, read_points,
  load_index, load_bloom, load_meta,
}

pub record PointFits (p : IndexPoint) : Type 0 where
  pub key : length p.key < 2 ^ 32
  pub offset : p.offset < 2 ^ 64

read_points-point_bytes :
    (ps : List IndexPoint) (rest : Bytes)
    → All PointFits ps
    → read_points (length ps) (point_bytes ps ++ rest) ≡ ps
unfolding read_points point_bytes
read_points-point_bytes [] rest h = refl
read_points-point_bytes (p ∷ ps) rest h =
    rw (append_assoc (wstr p.key) (wu64 p.offset ++ point_bytes ps) rest) (
      rw (append_assoc (wu64 p.offset) (point_bytes ps) rest) (
        ground (
          arith,
          rstr-wstr p.key (wu64 p.offset ++ (point_bytes ps ++ rest)) h.0.key,
          ru64-wu64 p.offset (point_bytes ps ++ rest) h.0.offset,
          read_points-point_bytes ps rest h.1,
        )))

pub load_index-index_section :
    (ps : List IndexPoint) (rest : Bytes)
    → length ps < 2 ^ 32
    → All PointFits ps
    → load_index (index_section ps ++ rest) ≡ ps
unfolding load_index index_section
load_index-index_section ps rest h a = rw append_assoc (
    ground (
      arith,
      ru32-wu32 (to_u32 (length ps)) (point_bytes ps ++ rest),
      read_points-point_bytes ps rest a,
    ))

-- A filter of 2^k bits, at most 2^31, with its array.
pub record IsStored (f : BloomFilter) : Type 0 where
  pub width : ℕ
  pub small : width ≤ 31
  pub power : f.m ≡ 2 ^ width
  pub bound : f.m ≤ 2 ^ 31
  pub array : length f.bits ≡ (f.m + 7) / 8

pub length-bloom_section : (f : BloomFilter) → length (bloom_section f) ≡ 4 + length f.bits
unfolding bloom_section
length-bloom_section f =
    omega (arith, length-append (wu32 (to_u32 f.m)) f.bits, length-wu32 (to_u32 f.m))

at_footer-append : (front last : Bytes) → length last ≡ 16 → at_footer (front ++ last) ≡ last
unfolding at_footer
at_footer-append front last h =
    let total : length (front ++ last) ≡ length front + 16 =
      omega (arith, length-append front last) in
    let gap : length front + 16 - 16 ≡ length front = omega arith in
    let long : leb 16 (length front + 16) ≡ true = ground arith in
    rw (total, long, gap) (drop-append front last)

-- The four parts of a file, grouped as each of the seeks meets them.
module _ (rows B I last : Bytes) where
  abbrev file_of : Bytes
  file_of = rows ++ (B ++ (I ++ last))

  last_grouped : file_of ≡ (rows ++ (B ++ I)) ++ last
  last_grouped = simp append_assoc

  drop-rows : drop (length rows) file_of ≡ B ++ (I ++ last)
  drop-rows = drop-append rows (B ++ (I ++ last))

  drop-rows_filter : drop (length rows + length B) file_of ≡ I ++ last
  drop-rows_filter =
      rw (← length-append rows B)
        (rw (← append_assoc rows B (I ++ last)) (drop-append (rows ++ B) (I ++ last)))

module _ (optimal_bits : ℕ → ℕ) where
  pub load_bloom-bloom_section :
      (f : BloomFilter) (rest : Bytes)
      → IsStored f
      → load_bloom optimal_bits (bloom_section f ++ rest) ≡ some f
  unfolding load_bloom bloom_section from_bytes
  load_bloom-bloom_section f rest h =
      let word : to_u32 f.m ≡ f.m = omega (arith, h.bound) in
      let same : next_pow2 f.m ≡ f.m =
        rw h.power (next_pow2-pow h.width (omega (arith, h.small))) in
      rw (word, append_assoc)
        (ground (
          arith,
          same,
          h.array,
          h.bound,
          ru32-wu32 f.m (f.bits ++ rest),
          fread-append f.bits rest,
          take_beyond (add64 f.m 7 / 8) f.bits,
        ))

  -- The footer, the filter and the index are read back.
  pub load_meta-sections :
      (rows : Bytes) (f : BloomFilter) (ps : List IndexPoint)
      → IsStored f
      → length ps < 2 ^ 32
      → All PointFits ps
      → length rows + length (bloom_section f) < 2 ^ 64
      → load_meta optimal_bits (rows ++ sections (length rows) f ps)
        ≡ some (record {
          index = ps;
          bloom_offset = length rows;
          index_offset = length rows + length (bloom_section f);
          bloom = f;
        })
  unfolding load_meta sections
  load_meta-sections rows f ps h c a w =
      let bo = length rows in
      let io = length rows + length (bloom_section f) in
      let lo : bo % 2 ^ 64 ≡ bo = omega arith in
      let hi : io % 2 ^ 64 ≡ io = omega arith in
      let last = wu64 bo ++ wu64 io in
      let sixteen : length last ≡ 16 =
        omega (arith, length-append (wu64 bo) (wu64 io), length-wu64 bo, length-wu64 io) in
      rw (lo, hi)
        (ground (
          arith,
          last_grouped rows (bloom_section f) (index_section ps) last,
          at_footer-append (rows ++ (bloom_section f ++ index_section ps)) last sixteen,
          ru64-wu64 bo (wu64 io),
          ru64-wu64 io [],
          append-nil (wu64 io),
          drop-rows rows (bloom_section f) (index_section ps) last,
          drop-rows_filter rows (bloom_section f) (index_section ps) last,
          load_bloom-bloom_section f (index_section ps ++ last) h,
          load_index-index_section ps last c a,
        ))
