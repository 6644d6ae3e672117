-- ===== src/Bag/Ids.antt =====
-- What the object ids of obnamlib/bag.py parse to, for numbered bags and for well known names.
use obnam.Prelude.{ℕ, Option, none, some}

-- the bag of a name that is a hexadecimal number, with the index 0
abbrev pub first_of : Option ℕ → Option (ℕ × ℕ)
first_of none = none
first_of (some n) = some (n, 0)
