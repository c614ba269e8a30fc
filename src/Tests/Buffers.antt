-- ===== src/Tests/Buffers.antt =====
-- The theorems on the memtable, at a table of one entry.
use key_val_store.Base.{refl, [], ◌∷◌}
use key_val_store.MemTable.{MemTable, live, put, del}
use key_val_store.MemTable.Accounting.{IsValid, put-IsValid, del-IsValid}
use key_val_store.Tests.Fixtures.{key_a}

abbrev small : MemTable
small = record { entries = (key_a, live (49 ∷ 50 ∷ [])) ∷ []; bytes = 3 }

small-IsValid : IsValid small
small-IsValid = record { sorted = (tt, tt); counted = refl }

put-IsValid_example : IsValid (put key_a (51 ∷ []) small)
put-IsValid_example = put-IsValid key_a (51 ∷ []) small small-IsValid

del-IsValid_example : IsValid (del key_a small)
del-IsValid_example = del-IsValid key_a small small-IsValid
