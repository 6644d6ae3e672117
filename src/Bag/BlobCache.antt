-- ===== src/Bag/BlobCache.antt =====
-- obnamlib/blob_store.py: `BlobCache`, blobs by their identifiers. It is emptied when a new blob
-- would make it too large.
use obnam.Prelude.{ℕ, ◌+◌, ◌≤◌, ◌≡◌, ◌⊎◌, Bool, true, false, Option, some, [], ◌∷◌, max, arith}
use obnam.Prelude.Tests.{if◌then◌else◌, ltb}
use obnam.Prelude.Keys.{◌==◌, nat_eq, list_eq}
use obnam.Prelude.Dict.{Dict, get, put, has, get-put}
use obnam.Bag.ObjectId.{Text}

pub record BlobCache (B : Type 0) : Type 0 where
  pub max_bytes : ℕ
  pub cache : Dict Text B
  pub cache_size : ℕ

module _ {B : Type 0} where
  unfoldable pub clear : BlobCache B → BlobCache B
  clear c = record c { cache = []; cache_size = 0 }

  -- `None` until `set_max_bytes`, which the blob store calls at once
  abbrev pub set_max_bytes : ℕ → BlobCache B → BlobCache B
  set_max_bytes n c = record c { max_bytes = n }

  unfoldable pub lookup : BlobCache B → Text → Option B
  lookup c blob_id = get blob_id c.cache

  unfoldable pub contains : BlobCache B → Text → Bool
  contains c blob_id = has blob_id c.cache

module _ {B : Type 0} (size : B → ℕ) where
  unfoldable pub put_in : Text → B → BlobCache B → BlobCache B
  put_in blob_id blob c = record c {
    cache = put blob_id blob c.cache;
    cache_size = c.cache_size + size blob;
  }

  unfoldable pub insert : Text → B → BlobCache B → BlobCache B
  unfolding clear put_in
  insert blob_id blob c =
      if ltb c.max_bytes (c.cache_size + size blob)
      then put_in blob_id blob (clear c)
      else put_in blob_id blob c

  -- What can be read after an insert: the new blob, and of the others nothing that was not there.
  pub lookup-insert :
      (i j : Text) (b x : B) (c : BlobCache B)
      → lookup (insert i b c) j ≡ some x
      → ((i == j) ≡ true) × (b ≡ x) ⊎ ((i == j) ≡ false) × (lookup c j ≡ some x)
  unfolding insert lookup get
  lookup-insert i j b x c h = ground (arith, get-put i j b c.cache, get-put i j b [])

  -- the blobs in a cache take this many bytes
  unfoldable pub total : Dict Text B → ℕ
  total [] = 0
  total ((i, b) ∷ d) = size b + total d

  total-put : (i : Text) (b : B) (d : Dict Text B) → total (put i b d) ≤ total d + size b
  unfolding total put
  total-put i b [] = omega arith
  total-put i b ((j, a) ∷ d) = ground (arith, total-put i b d)

  -- After an insert the count covers what is cached, and passes the limit only for a single blob
  -- that is itself larger.
  pub insert-bounded :
      (i : Text) (b : B) (c : BlobCache B)
      → total c.cache ≤ c.cache_size
      → (total (insert i b c).cache ≤ (insert i b c).cache_size)
        × ((insert i b c).cache_size ≤ max c.max_bytes (size b))
        × ((insert i b c).max_bytes ≡ c.max_bytes)
  unfolding insert total put
  insert-bounded i b c h = ground (arith, total-put i b c.cache)
