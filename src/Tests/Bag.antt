-- ===== src/Tests/Bag.antt =====
-- The blob store of obnamlib/blob_store.py over a small bag store, and object ids.
use obnam.Prelude.{ℕ, ◌+◌, ◌≤◌, ◌≡◌, refl, Option, none, some, [], ◌∷◌, arith}
use obnam.Prelude.Tests.{if◌then◌else◌, leb, nat_beq}
use obnam.Prelude.Keys.{◌==◌, nat_eq, list_eq, beq_refl}
use obnam.Prelude.Dict.{get}
use obnam.Prelude.Result.{ok}
use obnam.Bag.ObjectId.{Text, make_object_id, make_object_id-injective}
use obnam.Bag.Bag.{Bag, BagId, number, name}
use obnam.Bag.BlobCache
use obnam.Bag.BlobCache.{BlobCache, lookup-insert, insert-bounded}
use obnam.Bag.BlobStore.{BagStore, BlobStore, get_blob, put_blob}
use obnam.Bag.Reads.{Laws, IsValid, bag_at, result_at, is_some, get_blob_lem}
use obnam.Bag.ChunkStore.{
  ChunkStore, put_chunk_content, get_chunk_content, get_chunk_content-put_chunk_content,
}
use obnam.Bag.Writes.{Put, put_blob-Put, get_blob-put_blob}

record Bags : Type 0 where
  counter : ℕ
  numbered : ℕ → Option (Bag ℕ)
  named : Text → Option (Bag ℕ)

abbrev reserve : Bags → ℕ × Bags
reserve st = (st.counter, record st { counter = st.counter + 1 })

abbrev put_bag : Bags → BagId → Bag ℕ → Bags
put_bag st (number n) b = record st {
  counter = if leb st.counter n then n + 1 else st.counter;
  numbered = λ m. if nat_beq n m then some b else st.numbered m;
}
put_bag st (name t) b = record st { named = λ u. if t == u then some b else st.named u }

abbrev get_bag : Bags → BagId → Option (Bag ℕ)
get_bag st (number n) = st.numbered n
get_bag st (name t) = st.named t

abbrev bags : BagStore ℕ Bags
bags = record {
  reserve_bag_id = reserve;
  put_bag = put_bag;
  has_bag = λ st i. is_some (get_bag st i);
  get_bag = get_bag;
}

abbrev Unused : Bags → Type 0
Unused st = (n : ℕ) → st.counter ≤ n → st.numbered n ≡ none

put_bag-Unused : (st : Bags) (i : BagId) (b : Bag ℕ) → Unused st → Unused (put_bag st i b)
put_bag-Unused st (number m) b h n le = ground (arith, h n)
put_bag-Unused st (name t) b h n le = h n le

get-reserve : (st : Bags) (i : BagId) → Unused st → get_bag (reserve st).1 i ≡ get_bag st i
get-reserve st (number n) h = refl
get-reserve st (name t) h = refl

get-put_self :
    (st : Bags) (i : BagId) (b : Bag ℕ)
    → Unused st
    → b.bag_id ≡ some i
    → get_bag (put_bag st i b) i ≡ some b
get-put_self st (number n) b h e = ground arith
get-put_self st (name t) b h e = rw (beq_refl t)

bags-Laws : Laws bags
bags-Laws = record {
  IsValid = Unused;
  reserve-IsValid = λ st h n le. h n (omega arith);
  put-IsValid = put_bag-Unused;
  reserve_fresh = λ st h. h st.counter (omega arith);
  get-reserve = get-reserve;
  get-put_self = get-put_self;
  get-put_ne = λ st n m b h e. rw e;
  has-get = λ st i h. refl;
}

bags-IsValid : (st : Bags) → Unused st → bags-Laws.IsValid st
unfolding bags-Laws
bags-IsValid st h = h

abbrev bag0 : Bag ℕ
bag0 = record { bag_id = some (number 0); blobs = 5 ∷ 6 ∷ []; blobs_bytes = 11 }

abbrev bag1 : Bag ℕ
bag1 = record { bag_id = some (number 1); blobs = 7 ∷ []; blobs_bytes = 7 }

-- bag 0 is stored, bag 1 is open, and is full with the next blob
abbrev store : BlobStore ℕ Bags
store = record {
  bag_store = record {
    counter = 2;
    numbered = λ m. if nat_beq 0 m then some bag0 else none;
    named = λ t. none;
  };
  bag = some bag1;
  max_bag_size = 12;
  cached_blobs = record { max_bytes = 100; cache = []; cache_size = 0 };
}

abbrev size : ℕ → ℕ
size b = b

store-IsValid : IsValid bags bags-Laws store
unfolding BlobCache.lookup get
store-IsValid = record {
  store_valid = bags-IsValid store.bag_store (λ n h. ground arith);
  open_ok = record { id = 1; numbered = refl; first = 7; rest = []; filled = refl; fresh = refl };
  cache_ok = λ n i x h. absurd (cc h);
}

abbrev cache : BlobCache ℕ
cache = record { max_bytes = 10; cache = (1 ∷ [], 4) ∷ []; cache_size = 4 }

abbrev root : Text
root = b'r' ∷ b'o' ∷ b'o' ∷ b't' ∷ []

abbrev bag_id : ℕ
bag_id = 255

abbrev index : ℕ
index = 12

make_object_id-injective_example : (bag_id ≡ bag_id) × (index ≡ index)
make_object_id-injective_example = make_object_id-injective bag_id index bag_id index refl

abbrev blob_id : Text
blob_id = 2 ∷ []

abbrev blob : ℕ
blob = 7

insert-bounded_example :
    (BlobCache.total size (BlobCache.insert size (2 ∷ []) 7 cache).cache
      ≤ (BlobCache.insert size (2 ∷ []) 7 cache).cache_size)
    × ((BlobCache.insert size (2 ∷ []) 7 cache).cache_size ≤ 10)
    × ((BlobCache.insert size (2 ∷ []) 7 cache).max_bytes ≡ 10)
insert-bounded_example =
    insert-bounded size (2 ∷ []) 7 cache (unfold BlobCache.total in omega arith)

get_blob_lem_example :
    ((get_blob size bags store (make_object_id 0 1)).0 ≡ result_at bags (bag_at bags store 0) 1)
    × IsValid bags bags-Laws (get_blob size bags store (make_object_id 0 1)).1
    × ((m : ℕ)
        → bag_at bags (get_blob size bags store (make_object_id 0 1)).1 m ≡ bag_at bags store m)
get_blob_lem_example = get_blob_lem size bags bags-Laws store 0 1 store-IsValid

put_blob-Put_example :
    Put size bags bags-Laws store (put_blob size bags store 8).1 8 (put_blob size bags store 8).0
put_blob-Put_example = put_blob-Put size bags bags-Laws store 8 store-IsValid

get_blob-put_blob_example :
    (n i : ℕ) × ((put_blob size bags store 8).0 ≡ ok (make_object_id n i))
    × ((get_blob size bags (put_blob size bags store 8).1 (make_object_id n i)).0 ≡ ok (some 8))
    × IsValid bags bags-Laws (put_blob size bags store 8).1
    × ((m j : ℕ) (b : ℕ)
        → (get_blob size bags store (make_object_id m j)).0 ≡ ok (some b)
        → (get_blob size bags (put_blob size bags store 8).1 (make_object_id m j)).0 ≡ ok (some b))
get_blob-put_blob_example = get_blob-put_blob size bags bags-Laws store 8 store-IsValid

abbrev chunks : ChunkStore ℕ Bags
chunks = record { blob_store = store; max_chunk_size = some 12; chunk_cache_size = 100 }

get_chunk_content-put_chunk_content_example :
    (n i : ℕ) × ((put_chunk_content size bags chunks 8).0 ≡ ok (make_object_id n i))
    × ((get_chunk_content size bags (put_chunk_content size bags chunks 8).1 (make_object_id n i)).0
        ≡ ok 8)
    × IsValid bags bags-Laws (put_chunk_content size bags chunks 8).1.blob_store
    × ((m j : ℕ) (b : ℕ)
        → (get_chunk_content size bags chunks (make_object_id m j)).0 ≡ ok b
        → (get_chunk_content size bags
            (put_chunk_content size bags chunks 8).1
            (make_object_id m j)).0
          ≡ ok b)
get_chunk_content-put_chunk_content_example =
    get_chunk_content-put_chunk_content size bags bags-Laws chunks 8 store-IsValid
