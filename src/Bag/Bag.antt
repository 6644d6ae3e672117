-- ===== src/Bag/Bag.antt =====
-- obnamlib/bag.py: `Bag`, a list of blobs under one identifier, with their total size.
use obnam.Prelude.{
  ℕ, zero, suc, ◌+◌, ◌-◌, ◌≡◌, refl, Option, none, some, List, [], ◌∷◌, ◌++◌, arith,
}
use obnam.Prelude.Tests.{if◌then◌else◌, nat_beq}
use obnam.Prelude.Lists.{length, get_elem?}
use obnam.Prelude.Result.{Result, ok, raise}
use obnam.Bag.ObjectId.{Text}
use obnam.Bag.ObjectId

pub data Error : Type 0 where
  bag_id_not_set index_error assertion_error value_error : Error

-- An identifier is a number, or a well known name (a `str`).
pub data BagId : Type 0 where
  number : ℕ → BagId
  name : Text → BagId

pub record Bag (B : Type 0) : Type 0 where
  pub bag_id : Option BagId
  pub blobs : List B
  pub blobs_bytes : ℕ

-- `make_object_id`, over both kinds of identifiers
unfoldable pub make_id : BagId → ℕ → Result Error Text
make_id (number b) i = ok (ObjectId.make_object_id b i)
make_id (name s) i = if nat_beq i 0 then ok (s ++ b'.' ∷ b'0' ∷ []) else raise assertion_error

module _ {B : Type 0} where
  -- `__init__`
  abbrev pub empty : Bag B
  empty = record { bag_id = none; blobs = []; blobs_bytes = 0 }

  abbrev pub set_id : BagId → Bag B → Bag B
  set_id i bag = record bag { bag_id = some i }

  -- `bag[index]`
  unfoldable pub get_item : Bag B → ℕ → Result Error B
  get_item bag index = elim (get_elem? bag.blobs index) [ none ↦ raise index_error | some b ↦ ok b ]

  pub get_elem?-append :
      (xs : List B) (b : B) (i : ℕ)
      → get_elem? (xs ++ b ∷ []) i ≡ (if nat_beq i (length xs) then some b else get_elem? xs i)
  get_elem?-append [] b zero = refl
  get_elem?-append [] b (suc i) = ground arith
  get_elem?-append (x ∷ xs) b zero = ground arith
  get_elem?-append (x ∷ xs) b (suc i) = ground (arith, get_elem?-append xs b i)

module _ {B : Type 0} (size : B → ℕ) where
  -- The blob is in the bag before `make_object_id` is called.
  unfoldable pub append : Bag B → B → Bag B × Result Error Text
  unfolding make_id
  append bag blob = elim bag.bag_id [
    | none ↦ (bag, raise bag_id_not_set)
    | some i ↦
        let bag' : Bag B = record bag {
          blobs = bag.blobs ++ blob ∷ [];
          blobs_bytes = bag.blobs_bytes + size blob;
        } in
        (bag', make_id i (length bag'.blobs - 1))
  ]

  -- the size that a list of blobs takes
  unfoldable pub total : List B → ℕ
  total [] = 0
  total (b ∷ bs) = size b + total bs

  total-append : (xs : List B) (b : B) → total (xs ++ b ∷ []) ≡ total xs + size b
  unfolding total
  total-append [] b = omega arith
  total-append (x ∷ xs) b = omega (arith, total-append xs b)

  -- A bag's byte count is the sum of its blobs' sizes, and stays so when a blob is appended.
  pub append-total :
      (bag : Bag B) (blob : B)
      → bag.blobs_bytes ≡ total bag.blobs
      → (append bag blob).0.blobs_bytes ≡ total (append bag blob).0.blobs
  unfolding append
  append-total bag blob h = ground (arith, total-append bag.blobs blob)
