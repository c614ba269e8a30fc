-- ===== src/Bloom.antt =====
-- include/bloom.h and src/bloom.cpp: the Bloom filter that each table carries.
-- Code that computes with floating-point logarithms is a parameter: `optimal_bits n` stands for
-- static_cast<size_t>(std::ceil(-n * ln(FPR) / ln(2)^2)).
pub mod Pow2
pub mod Bit
pub mod Member
pub mod Distinct
use Prim.Native.Nat.{bit_and, bit_or, bit_xor}
use key_val_store.Base.{
  ℕ, zero, suc, ◌+◌, ◌-◌, ◌*◌, ◌/◌, ◌%◌, ◌^◌, Bool, true, ◌&&◌, Option, none, some, List, [], ◌∷◌,
  length, get_or, set, take, replicate, ltb, ◌==◌, if◌then◌else◌, add64, sub64,
}
use key_val_store.Str.{Bytes}

-- `m` is m_, the number of bits, and `bits` is bits_, eight to a byte.
pub record BloomFilter : Type 0 where
  pub m : ℕ
  pub bits : Bytes

-- BloomFilter::K
abbrev pub probe_count : ℕ
probe_count = 7

-- BloomFilter::set_bit
unfoldable pub set_bit : ℕ → BloomFilter → BloomFilter
set_bit i f = record f {
  bits = set f.bits (i / 8) (bit_or (get_or f.bits (i / 8) 0) (2 ^ (i % 8) % 256));
}

-- BloomFilter::get_bit
unfoldable pub get_bit : ℕ → BloomFilter → Bool
get_bit i f = get_or f.bits (i / 8) 0 / 2 ^ (i % 8) % 2 == 1

-- The loops of the two hash functions.
fnv1a_a_loop : ℕ → Bytes → ℕ
fnv1a_a_loop h [] = h
fnv1a_a_loop h (c ∷ s) = fnv1a_a_loop (bit_xor h c * 1099511628211 % 2 ^ 64) s

unfoldable pub fnv1a_a : Bytes → ℕ
unfolding fnv1a_a_loop
fnv1a_a s = fnv1a_a_loop 14695981039346656037 s

fnv1a_b_loop : ℕ → Bytes → ℕ
fnv1a_b_loop h [] = h
fnv1a_b_loop h (c ∷ s) = fnv1a_b_loop (bit_xor h c * 0x00000100000001b3 % 2 ^ 64) s

unfoldable pub fnv1a_b : Bytes → ℕ
unfolding fnv1a_b_loop
fnv1a_b s = bit_or (fnv1a_b_loop 0xcbf29ce484222325 s) 1

-- The probes `i`, `i + 1`, … of a key, `n` of them.
unfoldable pub probes : ℕ → ℕ → ℕ → ℕ → ℕ → List ℕ
probes zero i h1 h2 mask = []
probes (suc n) i h1 h2 mask =
    bit_and (add64 h1 (i * h2 % 2 ^ 64)) mask ∷ probes n (i + 1) h1 h2 mask

-- BloomFilter::probe_positions
unfoldable pub probe_positions : Bytes → BloomFilter → List ℕ
probe_positions key f = probes probe_count 0 (fnv1a_a key) (fnv1a_b key) (sub64 f.m 1)

-- The loop of next_pow2: `rounds` doublings of `i` are left.
unfoldable pub smear : ℕ → ℕ → ℕ → ℕ
smear zero i v = v
smear (suc rounds) i v = smear rounds (i * 2) (bit_or v (v / 2 ^ i))

-- `i` runs through 1, 2, 4, 8, 16, 32: six rounds below 64.
unfoldable pub next_pow2 : ℕ → ℕ
next_pow2 zero = 1
next_pow2 (suc v) = add64 (smear 6 1 v) 1

module _ (optimal_bits : ℕ → ℕ) where
  -- m_ of a fresh filter for `n` keys: at least 64.
  unfoldable pub fresh_bits : ℕ → ℕ
  fresh_bits n = let m = next_pow2 (optimal_bits n) in if ltb m 64 then 64 else m

  -- BloomFilter(size_t n)
  unfoldable pub fresh : ℕ → BloomFilter
  unfolding fresh_bits
  fresh n = record { m = fresh_bits n; bits = replicate (add64 (fresh_bits n) 7 / 8) 0 }

-- BloomFilter(data, byte_len, num_bits), with `none` for the exception.
unfoldable pub from_bytes : Bytes → ℕ → ℕ → Option BloomFilter
from_bytes raw byte_len num_bits =
    let m = next_pow2 num_bits in
    if ltb byte_len (add64 m 7 / 8)
    then none
    else some (record { m = m; bits = take (add64 m 7 / 8) raw })

unfoldable pub set_all : List ℕ → BloomFilter → BloomFilter
set_all [] f = f
set_all (i ∷ pos) f = set_all pos (set_bit i f)

unfoldable pub all_set : List ℕ → BloomFilter → Bool
all_set [] f = true
all_set (i ∷ pos) f = get_bit i f && all_set pos f

-- BloomFilter::add
unfoldable pub add : Bytes → BloomFilter → BloomFilter
add key f = set_all (probe_positions key f) f

-- BloomFilter::may_contain
unfoldable pub may_contain : Bytes → BloomFilter → Bool
may_contain key f = all_set (probe_positions key f) f
