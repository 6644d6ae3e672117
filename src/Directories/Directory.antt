-- ===== src/Directories/Directory.antt =====
-- obnamlib/fmt_ga/dirobj.py: `GADirectory`. A file's metadata is a record of its chunk ids, which the
-- source keeps under the key 'chunk-ids' of the same dict, and of the values of its keys, under
-- their short names. The type of values is a parameter; `None` is a value too, which also stands for
-- a key that has none.
use obnam.Prelude.{Bool, true, false, Option, none, some, List, [], ◌∷◌, ◌++◌}
use obnam.Prelude.Tests.{if◌then◌else◌}
use obnam.Prelude.Keys.{Eq, ◌==◌, nat_eq, list_eq, option_eq}
use obnam.Prelude.Dict.{Dict, keys, get, put, del, has}
use obnam.Prelude.Result.{Result, ok, raise, ◌>>=◌}
use obnam.Bag.ObjectId.{Text}

-- the REPO_FILE_* keys that have a short name
pub data FileKey : Type 0 where
  test_key username groupname symlink_target xattr_blob md5 mode : FileKey
  mtime_sec mtime_nsec atime_sec atime_nsec nlink size uid gid blocks dev ino : FileKey
  sha224 sha256 sha384 sha512 : FileKey

-- `GAImmutableError` and `KeyError`; the others are for the code that keeps directories
pub data Error : Type 0 where
  key_error immutable_error assertion_error out_of_fuel : Error

-- `_short_key_names`
unfoldable pub get_short_key_name : FileKey → Text
get_short_key_name test_key = b'T' ∷ []
get_short_key_name username = b'U' ∷ []
get_short_key_name groupname = b'G' ∷ []
get_short_key_name symlink_target = b'S' ∷ []
get_short_key_name xattr_blob = b'X' ∷ []
get_short_key_name md5 = b'5' ∷ []
get_short_key_name mode = b'M' ∷ []
get_short_key_name mtime_sec = b'm' ∷ b's' ∷ []
get_short_key_name mtime_nsec = b'm' ∷ b'n' ∷ []
get_short_key_name atime_sec = b'a' ∷ b's' ∷ []
get_short_key_name atime_nsec = b'a' ∷ b'n' ∷ []
get_short_key_name nlink = b'N' ∷ []
get_short_key_name size = b's' ∷ []
get_short_key_name uid = b'u' ∷ []
get_short_key_name gid = b'g' ∷ []
get_short_key_name blocks = b'B' ∷ []
get_short_key_name dev = b'D' ∷ []
get_short_key_name ino = b'I' ∷ []
get_short_key_name sha224 = b'2' ∷ b'2' ∷ b'4' ∷ []
get_short_key_name sha256 = b'2' ∷ b'5' ∷ b'6' ∷ []
get_short_key_name sha384 = b'3' ∷ b'8' ∷ b'4' ∷ []
get_short_key_name sha512 = b'5' ∷ b'1' ∷ b'2' ∷ []

abbrev pub file_keys : List FileKey
file_keys =
    test_key ∷ username ∷ groupname ∷ symlink_target ∷ xattr_blob ∷ md5 ∷ mode ∷ mtime_sec
    ∷ mtime_nsec ∷ atime_sec ∷ atime_nsec ∷ nlink ∷ size ∷ uid ∷ gid ∷ blocks ∷ dev ∷ ino ∷ sha224
    ∷ sha256 ∷ sha384 ∷ sha512 ∷ []

-- `_key_from_short`, with the pairs turned round; `none` is the `KeyError`
unfoldable pub key_from_short : List FileKey → Text → Option FileKey
unfolding get_short_key_name
key_from_short [] short_name = none
key_from_short (key ∷ rest) short_name =
    if get_short_key_name key == short_name then some key else key_from_short rest short_name

unfoldable pub get_key_from_short_name : Text → Option FileKey
unfolding key_from_short
get_key_from_short_name short_name = key_from_short file_keys short_name

pub record File (V : Type 0) : Type 0 where
  pub chunk_ids : List Text
  pub values : Dict Text (Option V)

-- A subdirectory's object id is `None` while the subdirectory is only in memory.
pub record Directory (V : Type 0) : Type 0 where
  pub metadata : Dict Text (File V)
  pub subdirs : Dict Text (Option Text)
  pub mutable : Bool

-- `d.get(key)` of a dict that may hold `None`
abbrev pub or_none : {A : Type 0} → Option (Option A) → Option A
or_none none = none
or_none (some o) = o

module _ {V : Type 0} where
  -- `__init__`
  abbrev pub empty : Directory V
  empty = record { metadata = []; subdirs = []; mutable = true }

  abbrev pub set_immutable : Directory V → Directory V
  set_immutable d = record d { mutable = false }

  -- `create_gadirectory_from_dict(d.as_dict())`: a mutable object over the same dict
  abbrev pub create_from : Directory V → Directory V
  create_from d = record d { mutable = true }

  unfoldable pub require_mutable : Directory V → Result Error (Directory V)
  require_mutable d = if d.mutable then ok d else raise immutable_error

  unfoldable pub add_file : Directory V → Text → Result Error (Directory V)
  unfolding require_mutable
  add_file d basename = if has basename d.metadata then ok d else (do
    e ← require_mutable d
    ok (record e { metadata = put basename (record { chunk_ids = []; values = [] }) e.metadata }))

  unfoldable pub remove_file : Directory V → Text → Result Error (Directory V)
  unfolding require_mutable
  remove_file d basename =
      if has basename d.metadata
      then (do e ← require_mutable d; ok (record e { metadata = del basename e.metadata }))
      else ok d

  abbrev pub get_file_basenames : Directory V → List Text
  get_file_basenames d = keys d.metadata

  abbrev pub file_of : Option (File V) → Result Error (File V)
  file_of none = raise key_error
  file_of (some f) = ok f

  -- `self._dict['metadata'][basename]`
  unfoldable pub get_file : Directory V → Text → Result Error (File V)
  get_file d basename = file_of (get basename d.metadata)

  unfoldable pub get_file_key : Directory V → Text → FileKey → Result Error (Option V)
  unfolding get_file get_short_key_name
  get_file_key d basename key = do
    f ← get_file d basename
    ok (or_none (get (get_short_key_name key) f.values))

  unfoldable pub get_file_chunk_ids : Directory V → Text → Result Error (List Text)
  unfolding get_file
  get_file_chunk_ids d basename = do f ← get_file d basename; ok f.chunk_ids

  unfoldable pub append_file_chunk_id : Directory V → Text → Text → Result Error (Directory V)
  unfolding require_mutable get_file
  append_file_chunk_id d basename chunk_id = do
    e ← require_mutable d
    f ← get_file e basename
    ok (record e {
      metadata = put basename (record f { chunk_ids = f.chunk_ids ++ chunk_id ∷ [] }) e.metadata;
    })

  unfoldable pub clear_file_chunk_ids : Directory V → Text → Result Error (Directory V)
  unfolding require_mutable get_file
  clear_file_chunk_ids d basename = do
    e ← require_mutable d
    f ← get_file e basename
    ok (record e { metadata = put basename (record f { chunk_ids = [] }) e.metadata })

  abbrev pub get_subdir_basenames : Directory V → List Text
  get_subdir_basenames d = keys d.subdirs

  unfoldable pub add_subdir : Directory V → Text → Option Text → Result Error (Directory V)
  unfolding require_mutable
  add_subdir d basename obj_id = do
    e ← require_mutable d
    ok (record e { subdirs = put basename obj_id e.subdirs })

  unfoldable pub remove_subdir : Directory V → Text → Result Error (Directory V)
  unfolding require_mutable
  remove_subdir d basename = do
    e ← require_mutable d
    if has basename e.subdirs then ok (record e { subdirs = del basename e.subdirs }) else ok e

  unfoldable pub get_subdir_object_id : Directory V → Text → Option Text
  get_subdir_object_id d basename = or_none (get basename d.subdirs)

module _ {V : Type 0} ⦃ev : Eq V⦄ where
  abbrev pub with_value : File V → FileKey → Option V → File V
  with_value f key value = record f { values = put (get_short_key_name key) value f.values }

  -- whether a file has the value under the key already
  abbrev pub has_value : File V → FileKey → Option V → Bool
  has_value f key value = or_none (get (get_short_key_name key) f.values) == value

  unfoldable pub set_file_key : Directory V → Text → FileKey → Option V → Result Error (Directory V)
  unfolding require_mutable get_file
  set_file_key d basename key value = do
    f ← get_file d basename
    if has_value f key value then ok d else (do
      e ← require_mutable d
      ok (record e { metadata = put basename (with_value f key value) e.metadata }))
