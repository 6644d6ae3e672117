-- ===== src/Bag/ChunkStore.antt =====
-- obnamlib/fmt_ga/chunk_store.py: `GAChunkStore`, the chunks of files as blobs. Making the store's
-- directory, and the list of all bags, are not modelled.
use obnam.Prelude.{ℕ, ◌≡◌, ap, Option, none, some}
use obnam.Prelude.Result.{Result, ok, raise}
use obnam.Bag.ObjectId.{Text, make_object_id}
use obnam.Bag.Bag.{Error}
use obnam.Bag.BlobStore.{
  BagStore, BlobStore, init, set_max_bag_size, set_max_cache_bytes, put_blob, get_blob, flush,
}
use obnam.Bag.Reads.{Laws, IsValid}
use obnam.Bag.Writes.{get_blob-put_blob}

pub data ChunkError : Type 0 where
  chunk_does_not_exist : Text → ChunkError
  blob_error : Error → ChunkError

pub record ChunkStore (B St : Type 0) : Type 0 where
  pub blob_store : BlobStore B St
  pub max_chunk_size : Option ℕ
  pub chunk_cache_size : ℕ

-- what `get_blob` returned, where `None` is an error
abbrev pub content_of : {B : Type 0} → Text → Result Error (Option B) → Result ChunkError B
content_of chunk_id (ok (some content)) = ok content
content_of chunk_id (ok none) = raise (chunk_does_not_exist chunk_id)
content_of chunk_id (raise e) = raise (blob_error e)

module _ {B St : Type 0} where
  -- `set_fs`: a blob store over the bag store of the new location
  unfoldable pub set_fs : ChunkStore B St → St → ChunkStore B St
  set_fs c st =
      let fresh = set_max_cache_bytes c.chunk_cache_size (init st) in
      record c {
        blob_store = elim c.max_chunk_size [ none ↦ fresh | some n ↦ set_max_bag_size n fresh ];
      }

  -- once `set_fs` was called
  unfoldable pub set_max_chunk_size : ℕ → ChunkStore B St → ChunkStore B St
  set_max_chunk_size n c = record c {
    max_chunk_size = some n;
    blob_store = set_max_bag_size n c.blob_store;
  }

  unfoldable pub set_chunk_cache_size : ℕ → ChunkStore B St → ChunkStore B St
  set_chunk_cache_size n c = record c {
    chunk_cache_size = n;
    blob_store = set_max_cache_bytes n c.blob_store;
  }

module _ {B St : Type 0} (size : B → ℕ) (S : BagStore B St) where
  unfoldable pub put_chunk_content : ChunkStore B St → B → Result Error Text × ChunkStore B St
  put_chunk_content c content =
      let (chunk_id, s) = put_blob size S c.blob_store content in
      (chunk_id, record c { blob_store = s })

  unfoldable pub flush_chunks : ChunkStore B St → ChunkStore B St
  flush_chunks c = record c { blob_store = flush S c.blob_store }

  unfoldable pub get_chunk_content : ChunkStore B St → Text → Result ChunkError B × ChunkStore B St
  get_chunk_content c chunk_id =
      let (r, s) = get_blob size S c.blob_store chunk_id in
      (content_of chunk_id r, record c { blob_store = s })

  -- `none` is `False`; otherwise the content is returned, and not `True`
  unfoldable pub has_chunk : ChunkStore B St → Text → Result ChunkError (Option B) × ChunkStore B St
  unfolding get_chunk_content
  has_chunk c chunk_id =
      let (r, c') = get_chunk_content c chunk_id in
      (
        elim r [
          | ok content ↦ ok (some content)
          | raise (chunk_does_not_exist i) ↦ ok none
          | raise (blob_error e) ↦ raise (blob_error e)
        ],
        c',
      )

  content_of-some :
      (i : Text) (r : Result Error (Option B)) (b : B) → content_of i r ≡ ok b → r ≡ ok (some b)
  content_of-some i (ok (some x)) b h = cc
  content_of-some i (ok none) b h = cc
  content_of-some i (raise e) b h = cc

  -- Putting a chunk in a store whose blobs are well formed returns its id, which then reads as the
  -- chunk; every chunk that could be read before reads the same, and the blobs stay well formed.
  pub get_chunk_content-put_chunk_content :
      (L : Laws S) (c : ChunkStore B St) (content : B)
      → IsValid S L c.blob_store
      → (n i : ℕ) × ((put_chunk_content c content).0 ≡ ok (make_object_id n i))
        × ((get_chunk_content (put_chunk_content c content).1 (make_object_id n i)).0 ≡ ok content)
        × IsValid S L (put_chunk_content c content).1.blob_store
        × ((m j : ℕ) (b : B)
            → (get_chunk_content c (make_object_id m j)).0 ≡ ok b
            → (get_chunk_content (put_chunk_content c content).1 (make_object_id m j)).0 ≡ ok b)
  unfolding put_chunk_content get_chunk_content
  get_chunk_content-put_chunk_content L c content v =
      let (n, i, returned, reads, valid, old) = get_blob-put_blob size S L c.blob_store content v in
      let same = λ (m j : ℕ) (b : B) (h : (get_chunk_content c (make_object_id m j)).0 ≡ ok b).
        ap (content_of (make_object_id m j)) (
          old m j b (
            content_of-some (make_object_id m j)
              (get_blob size S c.blob_store (make_object_id m j)).0 b h)) in
      (n, i, returned, ap (content_of (make_object_id n i)) reads, valid, same)
