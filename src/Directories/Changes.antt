-- ===== src/Directories/Changes.antt =====
-- What the operations of a directory object change: nothing when it is immutable, and one file's
-- value or chunk ids when it is not.
use obnam.Prelude.{
  ◌≡◌, refl, sym, ap, true, false, Option, none, some, List, [], ◌∷◌, ◌++◌, arith, inl, inr,
}
use obnam.Prelude.Tests.{if◌then◌else◌, Bool-cases, Option-cases}
use obnam.Prelude.Keys.{Eq, ◌==◌, nat_eq, list_eq, option_eq, eq_of_beq}
use obnam.Prelude.Dict.{Dict, get, put, get-put}
use obnam.Prelude.Result.{Result, ok}
use obnam.Bag.ObjectId.{Text}
use obnam.Directories.Directory.{
  FileKey, test_key, username, groupname, symlink_target, xattr_blob, md5, mode, mtime_sec,
  mtime_nsec, atime_sec, atime_nsec, nlink, size, uid, gid, blocks, dev, ino, sha224, sha256,
  sha384, sha512, File, Directory, Error, get_short_key_name, get_key_from_short_name, add_file,
  remove_file, get_file, get_file_key, get_file_chunk_ids, append_file_chunk_id,
  clear_file_chunk_ids, add_subdir, remove_subdir, set_file_key, has_value, with_value, file_of,
  or_none,
}

-- The short name of each key leads back to the key, so no two keys share a short name.
pub get_key_from_short_name-get_short_key_name :
    (key : FileKey) → get_key_from_short_name (get_short_key_name key) ≡ some key
unfolding get_key_from_short_name
get_key_from_short_name-get_short_key_name test_key = refl
get_key_from_short_name-get_short_key_name username = refl
get_key_from_short_name-get_short_key_name groupname = refl
get_key_from_short_name-get_short_key_name symlink_target = refl
get_key_from_short_name-get_short_key_name xattr_blob = refl
get_key_from_short_name-get_short_key_name md5 = refl
get_key_from_short_name-get_short_key_name mode = refl
get_key_from_short_name-get_short_key_name mtime_sec = refl
get_key_from_short_name-get_short_key_name mtime_nsec = refl
get_key_from_short_name-get_short_key_name atime_sec = refl
get_key_from_short_name-get_short_key_name atime_nsec = refl
get_key_from_short_name-get_short_key_name nlink = refl
get_key_from_short_name-get_short_key_name size = refl
get_key_from_short_name-get_short_key_name uid = refl
get_key_from_short_name-get_short_key_name gid = refl
get_key_from_short_name-get_short_key_name blocks = refl
get_key_from_short_name-get_short_key_name dev = refl
get_key_from_short_name-get_short_key_name ino = refl
get_key_from_short_name-get_short_key_name sha224 = refl
get_key_from_short_name-get_short_key_name sha256 = refl
get_key_from_short_name-get_short_key_name sha384 = refl
get_key_from_short_name-get_short_key_name sha512 = refl

get_same : {A : Type 0} (b c : Text) (m : Dict Text A) → (b == c) ≡ true → get c m ≡ get b m
get_same b c m h = ap (λ k. get k m) (sym (eq_of_beq b c h))

-- a call of one of the operations that change a directory
pub data Change (V : Type 0) : Type 0 where
  adds_file removes_file clears_chunk_ids removes_subdir : Text → Change V
  sets_file_key : Text → FileKey → Option V → Change V
  appends_chunk_id : Text → Text → Change V
  adds_subdir : Text → Option Text → Change V

module _ {V : Type 0} ⦃ev : Eq V⦄ where
  unfoldable pub call : Directory V → Change V → Result Error (Directory V)
  unfolding add_file remove_file clear_file_chunk_ids remove_subdir set_file_key
      append_file_chunk_id add_subdir
  call d (adds_file b) = add_file d b
  call d (removes_file b) = remove_file d b
  call d (clears_chunk_ids b) = clear_file_chunk_ids d b
  call d (removes_subdir b) = remove_subdir d b
  call d (sets_file_key b key v) = set_file_key d b key v
  call d (appends_chunk_id b i) = append_file_chunk_id d b i
  call d (adds_subdir b i) = add_subdir d b i

  -- On an immutable directory every operation either raises an error or changes nothing.
  pub call-immutable :
      (d e : Directory V) (c : Change V) → d.mutable ≡ false → call d c ≡ ok e → e ≡ d
  unfolding call
  call-immutable d e (adds_file b) m h = ground (arith, m)
  call-immutable d e (removes_file b) m h = ground (arith, m)
  call-immutable d e (clears_chunk_ids b) m h = ground (arith, m)
  call-immutable d e (removes_subdir b) m h = ground (arith, m)
  call-immutable d e (sets_file_key b key v) m h = ground (arith, m)
  call-immutable d e (appends_chunk_id b i) m h = ground (arith, m)
  call-immutable d e (adds_subdir b i) m h = ground (arith, m)

  file_of-some : (o : Option (File V)) (f : File V) → file_of o ≡ ok f → o ≡ some f
  file_of-some none f h = cc
  file_of-some (some g) f h = cc

  stored :
      (d : Directory V) (b : Text) (f : File V) → get_file d b ≡ ok f → get b d.metadata ≡ some f
  unfolding get_file
  stored d b f h = file_of-some (get b d.metadata) f h

  -- Setting a key of a file of a mutable directory succeeds, and then that key of that file reads
  -- as the value, while every other key, and every other file, reads as before.
  pub get_file_key-set_file_key :
      (d : Directory V) (b : Text) (f : File V) (key : FileKey) (v : Option V)
      → d.mutable ≡ true
      → get_file d b ≡ ok f
      → (e : Directory V) × (set_file_key d b key v ≡ ok e)
        × ((c : Text) (k : FileKey)
            → get_file_key e c k ≡ (
                if b == c
                then if get_short_key_name key == get_short_key_name k
                  then ok v
                  else get_file_key d c k
                else get_file_key d c k))
  unfolding set_file_key get_file_key
  get_file_key-set_file_key d b f key v m h =
      let g = stored d b f h in
      let new : Directory V = record d { metadata = put b (with_value f key v) d.metadata } in
      elim (Bool-cases (has_value f key v)) [
        | inl q ↦ (
          d,
          ground (arith, q, h),
          λ c k. ground (
            arith,
            q,
            g,
            get_same b c d.metadata,
            get_same (get_short_key_name key) (get_short_key_name k) f.values,
            eq_of_beq (or_none (get (get_short_key_name key) f.values)) v q,
          ),
        )
        | inr q ↦ (
          new,
          ground (arith, q, h, m),
          λ c k. ground (
            arith,
            g,
            get-put b c (with_value f key v) d.metadata,
            get-put (get_short_key_name key) (get_short_key_name k) v f.values,
            get_same b c d.metadata,
          ),
        )
      ]

  -- Appending a chunk id to a file of a mutable directory succeeds, and puts it at the end of the
  -- file's chunk ids and of no other file's.
  pub get_file_chunk_ids-append :
      (d : Directory V) (b : Text) (ids : List Text) (i : Text)
      → d.mutable ≡ true
      → get_file_chunk_ids d b ≡ ok ids
      → (e : Directory V) × (append_file_chunk_id d b i ≡ ok e)
        × ((c : Text)
            → get_file_chunk_ids e c
              ≡ (if b == c then ok (ids ++ i ∷ []) else get_file_chunk_ids d c))
  unfolding append_file_chunk_id get_file_chunk_ids
  get_file_chunk_ids-append d b ids i m h = elim (Option-cases (get b d.metadata)) [
    | inl q ↦ absurd (ground (arith, q))
    | inr (f, q) ↦
        let more : File V = record f { chunk_ids = f.chunk_ids ++ i ∷ [] } in
        (
          record d { metadata = put b more d.metadata },
          ground (arith, q, m),
          λ c. ground (arith, q, h, get-put b c more d.metadata, get_same b c d.metadata),
        )
  ]
