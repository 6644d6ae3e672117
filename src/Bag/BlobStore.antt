-- ===== src/Bag/BlobStore.antt =====
-- obnamlib/blob_store.py: `BlobStore`. New blobs go to an open bag, which is stored when it is large
-- enough; reads go through a cache of the blobs of the bags that were read.
use obnam.Prelude.{ℕ, ◌+◌, ◌^◌, Bool, false, Option, none, some, List, [], ◌∷◌}
use obnam.Prelude.Tests.{if◌then◌else◌, leb, nat_beq}
use obnam.Prelude.Lists.{get_elem?}
use obnam.Prelude.Result.{Result, ok, raise}
use obnam.Bag.ObjectId.{Text, make_object_id, parse_object_id}
use obnam.Bag.Bag.{Bag, BagId, Error, number, name, index_error, value_error, append, empty, set_id}
use obnam.Bag.BlobCache
use obnam.Bag.BlobCache.{BlobCache}

-- The operations of a bag store that a blob store calls. `get_bag` is `none` where the file cannot
-- be read.
pub record BagStore (B St : Type 0) : Type 0 where
  pub reserve_bag_id : St → ℕ × St
  pub put_bag : St → BagId → Bag B → St
  pub has_bag : St → BagId → Bool
  pub get_bag : St → BagId → Option (Bag B)

pub record BlobStore (B St : Type 0) : Type 0 where
  pub bag_store : St
  pub bag : Option (Bag B)
  pub max_bag_size : ℕ
  pub cached_blobs : BlobCache B

module _ {B St : Type 0} where
  -- `__init__` and `set_bag_store`
  abbrev pub init : St → BlobStore B St
  init st = record {
    bag_store = st;
    bag = none;
    max_bag_size = 0;
    cached_blobs = record { max_bytes = 2 ^ 24; cache = []; cache_size = 0 };
  }

  abbrev pub set_max_bag_size : ℕ → BlobStore B St → BlobStore B St
  set_max_bag_size n s = record s { max_bag_size = n }

  abbrev pub set_max_cache_bytes : ℕ → BlobStore B St → BlobStore B St
  set_max_cache_bytes n s = record s { cached_blobs = BlobCache.set_max_bytes n s.cached_blobs }

abbrev pub has_id : ℕ → Option BagId → Bool
has_id n (some (number m)) = nat_beq n m
has_id n _ = false

module _ {B : Type 0} where
  -- `self._bag and bag_id == self._bag.get_id()`: an empty bag is false
  unfoldable pub open_bag : ℕ → Option (Bag B) → Option (Bag B)
  open_bag n none = none
  open_bag n (some bag) = elim bag.blobs [
    | [] ↦ none
    | b ∷ bs ↦ if has_id n bag.bag_id then some bag else none
  ]

  abbrev pub item : Bag B → ℕ → Result Error (Option B)
  item bag index = elim (get_elem? bag.blobs index) [
    | none ↦ raise index_error
    | some b ↦ ok (some b)
  ]

module _ {B St : Type 0} (S : BagStore B St) where
  unfoldable pub flush : BlobStore B St → BlobStore B St
  flush s = elim s.bag [
    | none ↦ s
    | some bag ↦ elim bag.bag_id [
      | none ↦ s
      | some i ↦ record s { bag_store = S.put_bag s.bag_store i bag; bag = none }
    ]
  ]

  -- the bag that `put_blob` appends to: the open one, or a new one with a reserved identifier
  unfoldable pub current_bag : BlobStore B St → Bag B × St
  current_bag s = elim s.bag [
    | some bag ↦ (bag, s.bag_store)
    | none ↦ let (i, st) = S.reserve_bag_id s.bag_store in (set_id (number i) empty, st)
  ]

module _ {B St : Type 0} (size : B → ℕ) (S : BagStore B St) where
  -- the loop over the blobs of a bag that was read
  unfoldable pub cache_bag : ℕ → ℕ → List B → BlobCache B → BlobCache B
  cache_bag n i [] c = c
  cache_bag n i (b ∷ bs) c = cache_bag n (i + 1) bs (BlobCache.insert size (make_object_id n i) b c)

  unfoldable pub read_bag : BlobStore B St → ℕ → ℕ → Result Error (Option B) × BlobStore B St
  unfolding cache_bag
  read_bag s bag_id index =
      if S.has_bag s.bag_store (number bag_id)
      then elim (S.get_bag s.bag_store (number bag_id)) [
        | none ↦ (raise value_error, s)
        | some bag ↦ (
          item bag index,
          record s { cached_blobs = cache_bag bag_id 0 bag.blobs s.cached_blobs },
        )
      ]
      else (ok none, s)

  unfoldable pub get_blob : BlobStore B St → Text → Result Error (Option B) × BlobStore B St
  unfolding read_bag
  get_blob s blob_id = elim (parse_object_id blob_id) [
    | none ↦ (raise value_error, s)
    | some (bag_id, index) ↦ elim (open_bag bag_id s.bag) [
      | some bag ↦ (item bag index, s)
      | none ↦ elim (BlobCache.lookup s.cached_blobs blob_id) [
        | some blob ↦ (ok (some blob), s)
        | none ↦ read_bag s bag_id index
      ]
    ]
  ]

  unfoldable pub put_blob : BlobStore B St → B → Result Error Text × BlobStore B St
  unfolding current_bag flush
  put_blob s blob =
      let (bag, st) = current_bag S s in
      let (bag', blob_id) = append size bag blob in
      let s' : BlobStore B St = record s { bag_store = st; bag = some bag' } in
      (blob_id, if leb s'.max_bag_size bag'.blobs_bytes then flush S s' else s')

  -- `bag[0]` of the bag with a well known name, if it is there and not empty
  unfoldable pub get_well_known_blob : BlobStore B St → Text → Result Error (Option B)
  get_well_known_blob s well_known_name =
      if S.has_bag s.bag_store (name well_known_name)
      then elim (S.get_bag s.bag_store (name well_known_name)) [
        | none ↦ raise value_error
        | some bag ↦ elim bag.blobs [ [] ↦ ok none | b ∷ bs ↦ ok (some b) ]
      ]
      else ok none

  unfoldable pub put_well_known_blob : BlobStore B St → Text → B → BlobStore B St
  put_well_known_blob s well_known_name blob =
      let (bag, blob_id) = append size (set_id (name well_known_name) empty) blob in
      record s { bag_store = S.put_bag s.bag_store (name well_known_name) bag }
