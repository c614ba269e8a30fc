-- ===== src/Text/Lines.antt =====
-- Reading lines back from a text.
use key_val_store.Base.{◌≡◌, refl, false, [], ◌∷◌, ◌++◌, All, arith, ◌==◌}
use key_val_store.Str.{Bytes}
use key_val_store.Text.{lines}

-- No byte is a line feed.
abbrev pub OneLine : Bytes → Type 0
OneLine = All (λ c. (c == 10) ≡ false)

-- A line in front of a text is the first that is read.
pub lines-append : (l s : Bytes) → OneLine l → lines (l ++ (10 ∷ s)) ≡ l ∷ lines s
unfolding lines
lines-append [] s h = refl
lines-append (c ∷ l) s h = ground (arith, lines-append l s h.1)
