-- ===== src/Bag/ObjectId.antt =====
-- `parse_object_id` of obnamlib/bag.py, and the branch of its `make_object_id` for numbered bags (Bag/Bag
-- has both branches): sixteen hexadecimal digits or more, a full stop, and the blob's index. A text is
-- a list of character codes.
use obnam.Prelude.{ℕ, ◌<◌, ◌≡◌, refl, ap, false, Option, none, some, List, [], ◌∷◌, ◌++◌, arith}
use obnam.Prelude.Tests.{if◌then◌else◌, nat_beq}
use obnam.Prelude.Lists.{All}
use obnam.Prelude.Digits.{
  digit, print_nat, print_padded, read_nat, read_nat-print_nat, read_nat-print_padded,
  All-print_padded,
}

abbrev pub Text : Type 0
Text = List ℕ

abbrev pub prepend : ℕ → Option (Text × Text) → Option (Text × Text)
prepend x none = none
prepend x (some (a, b)) = some (x ∷ a, b)

-- `s.split(c, 1)`: the parts before and after the first `c`; `none` if there is no `c`
unfoldable pub split_once : ℕ → Text → Option (Text × Text)
split_once c [] = none
split_once c (x ∷ xs) =
    let rest = prepend x (split_once c xs) in if nat_beq x c then some ([], xs) else rest

pub split_once-append :
    (c : ℕ) (xs ys : Text)
    → All (λ x. nat_beq x c ≡ false) xs
    → split_once c (xs ++ c ∷ ys) ≡ some (xs, ys)
unfolding split_once
split_once-append c [] ys h = ground arith
split_once-append c (x ∷ xs) ys h = ground (arith, split_once-append c xs ys h.1)

-- '%016x.%d' % (bag_id, object_index)
unfoldable pub make_object_id : ℕ → ℕ → Text
make_object_id bag_id object_index = print_padded 16 16 bag_id ++ b'.' ∷ print_nat 10 object_index

-- `none` is the `IndexError` of a text without a full stop, or the `ValueError` of `int`
unfoldable pub parse_object_id : Text → Option (ℕ × ℕ)
unfolding split_once
parse_object_id object_id = elim (split_once b'.' object_id) [
  | none ↦ none
  | some (a, b) ↦ elim (read_nat 16 a) [
    | none ↦ none
    | some bag_id ↦ elim (read_nat 10 b) [ none ↦ none | some index ↦ some (bag_id, index) ]
  ]
]

digit_no_stop : (d : ℕ) → d < 16 → nat_beq (digit d) b'.' ≡ false
unfolding digit
digit_no_stop d h = ground arith

-- The object id of a blob in a numbered bag parses to the bag id and the index that it was made from.
pub parse-make :
    (bag_id object_index : ℕ)
    → parse_object_id (make_object_id bag_id object_index) ≡ some (bag_id, object_index)
unfolding parse_object_id make_object_id
parse-make bag_id object_index =
    let hex = print_padded 16 16 bag_id in
    let dec = print_nat 10 object_index in
    ground (
      arith,
      split_once-append b'.' hex dec (
          All-print_padded (λ x. nat_beq x b'.' ≡ false) 16 16 bag_id refl digit_no_stop
            (omega arith)),
      read_nat-print_padded 16 16 bag_id (omega arith) (omega arith),
      read_nat-print_nat 10 object_index (omega arith) (omega arith),
    )

-- So two blobs never share an object id.
pub make_object_id-injective :
    (b i c j : ℕ) → make_object_id b i ≡ make_object_id c j → (b ≡ c) × (i ≡ j)
make_object_id-injective b i c j e =
    ground (arith, ap parse_object_id e, parse-make b i, parse-make c j)
