-- ===== src/Generations/ClientFiles.antt =====
-- obnamlib/fmt_ga/client.py: the methods of `GAClient` on the files of a generation.
use obnam.Prelude.{ℕ, Bool, false, Option, none, some, List}
use obnam.Prelude.Tests.{if◌then◌else◌}
use obnam.Prelude.Keys.{Eq, nat_eq, list_eq}
use obnam.Prelude.Dict.{Dict}
use obnam.Prelude.Result.{Result, ok, raise, ◌>>=◌}
use obnam.Bag.ObjectId.{Text}
use obnam.Directories.Directory
use obnam.Directories.Directory.{FileKey, assertion_error}
use obnam.Trees.Paths.{Pathname}
use obnam.Generations.FileMetadata.{FileMetadata}
use obnam.Generations.FileMetadata
use obnam.Generations.FileKeys
use obnam.Generations.FileChunks
use obnam.Generations.Client.{
  ClientError, file_does_not_exist, ClientStore, Client, load_data, lookup_generation, on_files,
}

module _ {V St : Type 0} where
  -- a state, as the result of an operation that returns nothing
  abbrev pub no_result :
      Result Directory.Error (FileMetadata V St)
      → Result Directory.Error (Unit {0} × FileMetadata V St)
  no_result r = do fm ← r; ok (tt, fm)

  abbrev pub state_of :
      {A : Type 0} → Result ClientError (A × Client V St) → Result ClientError (Client V St)
  state_of r = do (a, c) ← r; ok c

  -- a file that is not there is an error
  abbrev pub require :
      ℕ → Pathname → Result ClientError (Bool × Client V St) → Result ClientError (Client V St)
  require n filename r = do
    (there, c) ← r
    if there then ok c else raise (file_does_not_exist n filename)

  -- `None` is an error
  abbrev pub require_some :
      {A : Type 0}
      → ℕ
      → Pathname
      → Result ClientError (Option A × Client V St)
      → Result ClientError (A × Client V St)
  require_some n filename r = do
    (found, c) ← r
    elim found [ none ↦ raise (file_does_not_exist n filename) | some a ↦ ok (a, c) ]

module _ {V St : Type 0} (S : ClientStore V St) where
  abbrev pub exists_in :
      Pathname → FileMetadata V St → Result Directory.Error (Bool × FileMetadata V St)
  exists_in filename fm = ok (FileMetadata.file_exists S.objects fm filename)

  -- `False` for a generation that is not there
  unfoldable pub file_exists : Client V St → ℕ → Pathname → Result ClientError (Bool × Client V St)
  unfolding on_files
  file_exists c n filename = elim (lookup_generation S n (load_data S c)) [
    | raise e ↦ ok (false, load_data S c)
    | ok g ↦ on_files S n (exists_in filename) c
  ]

  unfoldable pub add_file : Client V St → ℕ → Pathname → Result ClientError (Client V St)
  unfolding on_files
  add_file c n filename =
      state_of (on_files S n (λ fm. no_result (FileMetadata.add_file S.objects fm filename)) c)

  unfoldable pub remove_file : Client V St → ℕ → Pathname → Result ClientError (Client V St)
  unfolding on_files
  remove_file c n filename =
      state_of (on_files S n (λ fm. no_result (FileMetadata.remove_file S.objects fm filename)) c)

  unfoldable pub require_file_exists : Client V St → ℕ → Pathname → Result ClientError (Client V St)
  unfolding on_files
  require_file_exists c n filename = require n filename (on_files S n (exists_in filename) c)

  unfoldable pub get_file_chunk_ids :
      Client V St → ℕ → Pathname → Result ClientError (List Text × Client V St)
  unfolding on_files
  get_file_chunk_ids c n filename =
      require_some n filename
        (on_files S n (λ fm. FileChunks.get_file_chunk_ids S.objects fm filename) c)

  unfoldable pub append_file_chunk_id :
      Client V St → ℕ → Pathname → Text → Result ClientError (Client V St)
  unfolding on_files
  append_file_chunk_id c n filename chunk_id =
      require n filename
        (on_files S n (λ fm. FileChunks.append_file_chunk_id S.objects fm filename chunk_id) c)

  unfoldable pub clear_file_chunk_ids :
      Client V St → ℕ → Pathname → Result ClientError (Client V St)
  unfolding on_files
  clear_file_chunk_ids c n filename =
      require n filename
        (on_files S n (λ fm. FileChunks.clear_file_chunk_ids S.objects fm filename) c)

  unfoldable pub get_file_children :
      Client V St → ℕ → Pathname → Result ClientError (List Pathname × Client V St)
  unfolding on_files
  get_file_children c n filename =
      require_some n filename
        (on_files S n (λ fm. FileChunks.get_file_children S.objects fm filename) c)

module _ {V St : Type 0} ⦃ev : Eq V⦄ (S : ClientStore V St) (is_dir : V → Bool)
    (zero_value empty_value : V) where
  unfoldable pub get_file_key :
      Client V St → ℕ → Pathname → FileKey → Result ClientError (V × Client V St)
  unfolding require_file_exists
  get_file_key c n filename key = do
    c1 ← require_file_exists S c n filename
    (value, c2) ←
        on_files S n
          (λ fm. FileKeys.get_file_key S.objects is_dir zero_value empty_value fm filename key) c1
    ok (FileKeys.value_or_default S.objects is_dir zero_value empty_value key value, c2)

  unfoldable pub get_metadata_from_file_keys :
      Client V St → ℕ → Pathname → Result ClientError (Dict FileKey V × Client V St)
  unfolding require_file_exists
  get_metadata_from_file_keys c n filename = do
    c1 ← require_file_exists S c n filename
    on_files S n
        (λ fm.
          FileKeys.get_metadata_from_file_keys S.objects is_dir zero_value empty_value fm filename)
        c1

  unfoldable pub set_file_key :
      Client V St → ℕ → Pathname → FileKey → Option V → Result ClientError (Client V St)
  unfolding on_files
  set_file_key c n filename key value = require n filename (
      on_files S n
        (λ fm. FileKeys.set_file_key S.objects is_dir zero_value empty_value fm filename key value)
        c)

  unfoldable pub set_file_keys_from_metadata :
      Client V St → ℕ → Pathname → (FileKey → Option V) → Result ClientError (Client V St)
  unfolding on_files
  set_file_keys_from_metadata c n filename fields = require n filename (
      on_files S n
        (λ fm.
          FileKeys.set_file_keys_from_metadata S.objects is_dir zero_value empty_value fm filename
            fields)
        c)
