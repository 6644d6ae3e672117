-- ===== src/Generations/AddedFiles.antt =====
-- obnamlib/fmt_ga/client.py: `AddedFiles`, the files that were added and have no mode yet.
use obnam.Prelude.{ℕ, Bool, Option, none, some, List, [], ◌∷◌, ◌++◌}
use obnam.Prelude.Tests.{if◌then◌else◌}
use obnam.Prelude.Lists.{length}
use obnam.Prelude.Keys.{nat_eq, list_eq}
use obnam.Prelude.Dict.{Dict, keys, get, put, del, has}
use obnam.Prelude.Result.{Result, ok, raise, ◌>>=◌}
use obnam.Bag.ObjectId.{Text}
use obnam.Directories.Directory.{FileKey, Error, key_error, assertion_error, or_none}
use obnam.Directories.Keys.{file_key_eq}
use obnam.Trees.Paths.{Pathname}

pub record AddedFile (V : Type 0) : Type 0 where
  pub file_keys : Dict FileKey (Option V)
  pub chunks : List Text

abbrev pub AddedFiles : Type 0 → Type 0
AddedFiles V = Dict Pathname (AddedFile V)

module _ {V : Type 0} where
  abbrev pub clear : AddedFiles V
  clear = []

  abbrev pub contains : AddedFiles V → Pathname → Bool
  contains files filename = has filename files

  abbrev pub filenames : AddedFiles V → List Pathname
  filenames files = keys files

  abbrev pub len : AddedFiles V → ℕ
  len files = length (keys files)

  abbrev pub file_or_error : Option (AddedFile V) → Result Error (AddedFile V)
  file_or_error none = raise key_error
  file_or_error (some f) = ok f

  unfoldable pub get_file_dict : AddedFiles V → Pathname → Result Error (AddedFile V)
  get_file_dict files filename = file_or_error (get filename files)

  unfoldable pub add_file : AddedFiles V → Pathname → Result Error (AddedFiles V)
  add_file files filename =
      if has filename files
      then raise assertion_error
      else ok (put filename (record { file_keys = []; chunks = [] }) files)

  unfoldable pub remove_file : AddedFiles V → Pathname → Result Error (AddedFiles V)
  remove_file files filename =
      if has filename files then ok (del filename files) else raise assertion_error

  unfoldable pub get_file_key : AddedFiles V → Pathname → FileKey → Result Error (Option V)
  unfolding get_file_dict
  get_file_key files filename key = do
    f ← get_file_dict files filename
    ok (or_none (get key f.file_keys))

  unfoldable pub set_file_key :
      AddedFiles V → Pathname → FileKey → Option V → Result Error (AddedFiles V)
  unfolding get_file_dict
  set_file_key files filename key value = do
    f ← get_file_dict files filename
    ok (put filename (record f { file_keys = put key value f.file_keys }) files)

  unfoldable pub get_file_chunk_ids : AddedFiles V → Pathname → Result Error (List Text)
  unfolding get_file_dict
  get_file_chunk_ids files filename = do f ← get_file_dict files filename; ok f.chunks

  unfoldable pub append_file_chunk_id : AddedFiles V → Pathname → Text → Result Error (AddedFiles V)
  unfolding get_file_dict
  append_file_chunk_id files filename chunk_id = do
    f ← get_file_dict files filename
    ok (put filename (record f { chunks = f.chunks ++ chunk_id ∷ [] }) files)

  unfoldable pub clear_file_chunk_ids : AddedFiles V → Pathname → Result Error (AddedFiles V)
  unfolding get_file_dict
  clear_file_chunk_ids files filename = do
    f ← get_file_dict files filename
    ok (put filename (record f { chunks = [] }) files)
