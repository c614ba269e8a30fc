-- ===== src/Bloom/Member.antt =====
-- BloomFilter::add and BloomFilter::may_contain: a key that was added is never denied.
use key_val_store.Base.{
  ℕ, zero, suc, ◌+◌, ◌*◌, ◌/◌, ◌%◌, ◌^◌, ◌≤◌, ◌<◌, ◌≡◌, refl, ◌∙◌, true, List, [], ◌∷◌, length, All,
  All-weaken, add64, sub64, arith,
}
use key_val_store.Base.Bits.{bit_and-le_right}
use key_val_store.Str.{Bytes}
use key_val_store.Bloom.{
  BloomFilter, probe_count, set_bit, get_bit, probes, probe_positions, fnv1a_a, fnv1a_b, set_all,
  all_set, add, may_contain,
}
use key_val_store.Bloom.Bit.{get_bit-set_bit, set_bit-shape}

-- The array has a byte for each of the `m` bits, and `m` is a positive size_t.
pub record IsSized (f : BloomFilter) : Type 0 where
  pub positive : 0 < f.m
  pub word : f.m < 2 ^ 64
  pub covered : f.m ≤ 8 * length f.bits

-- Every position lies in the bit array.
abbrev InArray : BloomFilter → List ℕ → Type 0
InArray f pos = All (λ i. i / 8 < length f.bits) pos

probes-le : (n i h1 h2 mask : ℕ) → All (λ p. p ≤ mask) (probes n i h1 h2 mask)
unfolding probes
probes-le zero i h1 h2 mask = tt
probes-le (suc n) i h1 h2 mask =
    (bit_and-le_right (add64 h1 (i * h2 % 2 ^ 64)) mask, probes-le n (i + 1) h1 h2 mask)

-- In a filter with a positive 64-bit number of bits that its array covers, every probe of every
-- key falls on a byte of the array.
pub probe_positions-InArray :
    (key : Bytes) (f : BloomFilter)
    → IsSized f
    → All (λ i. i / 8 < length f.bits) (probe_positions key f)
unfolding probe_positions
probe_positions-InArray key f h =
    All-weaken (λ i p. within i p) (probes probe_count 0 (fnv1a_a key) (fnv1a_b key) (sub64 f.m 1))
      (probes-le probe_count 0 (fnv1a_a key) (fnv1a_b key) (sub64 f.m 1))
  where
    within : (i : ℕ) → i ≤ sub64 f.m 1 → i / 8 < length f.bits
    within i p = omega (arith, h.positive, h.word, h.covered)

pub set_all-shape :
    (pos : List ℕ) (f : BloomFilter)
    → ((set_all pos f).m ≡ f.m) × (length (set_all pos f).bits ≡ length f.bits)
unfolding set_all
set_all-shape [] f = (refl, refl)
set_all-shape (i ∷ pos) f =
    let (a, b) = set_bit-shape i f in let (c, d) = set_all-shape pos (set_bit i f) in (c ∙ a, d ∙ b)

InArray-set_bit :
    (i : ℕ) (pos : List ℕ) (f : BloomFilter) → InArray f pos → InArray (set_bit i f) pos
InArray-set_bit i pos f h = rw ((set_bit-shape i f).1) h

set_all-keeps :
    (pos : List ℕ) (j : ℕ) (f : BloomFilter)
    → InArray f pos
    → get_bit j f ≡ true
    → get_bit j (set_all pos f) ≡ true
unfolding set_all
set_all-keeps [] j f h g = g
set_all-keeps (i ∷ pos) j f h g =
    set_all-keeps pos j (set_bit i f) (InArray-set_bit i pos f h.1)
      (ground (arith, get_bit-set_bit i j f h.0))

all_set-set_all :
    (pos : List ℕ) (f : BloomFilter) → InArray f pos → all_set pos (set_all pos f) ≡ true
unfolding set_all all_set
all_set-set_all [] f h = refl
all_set-set_all (i ∷ pos) f h =
    let first : get_bit i (set_bit i f) ≡ true = ground (arith, get_bit-set_bit i i f h.0) in
    ground (
      arith,
      set_all-keeps pos i (set_bit i f) (InArray-set_bit i pos f h.1) first,
      all_set-set_all pos (set_bit i f) (InArray-set_bit i pos f h.1),
    )

all_set-keeps :
    (ps pos : List ℕ) (f : BloomFilter)
    → InArray f pos
    → all_set ps f ≡ true
    → all_set ps (set_all pos f) ≡ true
unfolding all_set
all_set-keeps [] pos f h g = refl
all_set-keeps (p ∷ ps) pos f h g = ground (arith, set_all-keeps pos p f h, all_set-keeps ps pos f h)

pub add-shape :
    (key : Bytes) (f : BloomFilter)
    → ((add key f).m ≡ f.m) × (length (add key f).bits ≡ length f.bits)
unfolding add
add-shape key f = set_all-shape (probe_positions key f) f

pub add-IsSized : (key : Bytes) (f : BloomFilter) → IsSized f → IsSized (add key f)
add-IsSized key f h =
    let (a, b) = add-shape key f in
    record { positive = rw a h.positive; word = rw a h.word; covered = rw (a, b) h.covered }

same_probes :
    (key : Bytes) (f g : BloomFilter) → g.m ≡ f.m → probe_positions key g ≡ probe_positions key f
unfolding probe_positions
same_probes key f g e = rw e

-- A key that was added may be contained.
pub may_contain-add :
    (key : Bytes) (f : BloomFilter) → IsSized f → may_contain key (add key f) ≡ true
unfolding may_contain
may_contain-add key f h =
    rw (same_probes key f (add key f) (add-shape key f).0)
      (unfold add in all_set-set_all (probe_positions key f) f (probe_positions-InArray key f h))

-- Adding a key keeps every answer "may be contained".
pub may_contain-add_keeps :
    (key other : Bytes) (f : BloomFilter)
    → IsSized f
    → may_contain other f ≡ true
    → may_contain other (add key f) ≡ true
unfolding may_contain
may_contain-add_keeps key other f h g = rw (same_probes other f (add key f) (add-shape key f).0) (
    unfold add in
    all_set-keeps (probe_positions other f) (probe_positions key f) f
      (probe_positions-InArray key f h) g)
