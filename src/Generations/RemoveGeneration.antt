-- ===== src/Generations/RemoveGeneration.antt =====
-- obnamlib/fmt_ga/client.py: the chunks of a generation, and the removal of a generation from a client.
use obnam.Prelude.{ℕ, ◌||◌, none, some, List, [], ◌∷◌, ◌++◌}
use obnam.Prelude.Tests.{if◌then◌else◌}
use obnam.Prelude.Keys.{nat_eq, list_eq, contains}
use obnam.Prelude.Result.{Result, ok, raise, ◌>>=◌}
use obnam.Bag.ObjectId.{Text}
use obnam.Directories.Directory
use obnam.Directories.Directory.{FileKey, assertion_error}
use obnam.Trees.Paths.{Pathname}
use obnam.Generations.FileMetadata.{FileMetadata}
use obnam.Generations.FileChunks
use obnam.Generations.Client.{
  ClientError, generation_does_not_exist, ClientStore, Client, load_data, on_files,
}
use obnam.Generations.Generation.{remaining_numbers, without_generation, has_generation}

-- a list without the items that others have, each item once
unfoldable pub difference : List Text → List Text → List Text
difference [] others = []
difference (x ∷ xs) others =
    let rest = difference xs others in
    if contains others x || contains rest x then rest else x ∷ rest

module _ {V St : Type 0} (S : ClientStore V St) where
  -- the chunk ids of files; `set(None)` is an error
  unfoldable pub chunk_ids_of_files :
      List Pathname → FileMetadata V St → Result Directory.Error (List Text × FileMetadata V St)
  chunk_ids_of_files [] fm = ok ([], fm)
  chunk_ids_of_files (filename ∷ rest) fm = do
    (found, fm1) ← FileChunks.get_file_chunk_ids S.objects fm filename
    elim found [
      | none ↦ raise assertion_error
      | some ids ↦ do (others, fm2) ← chunk_ids_of_files rest fm1; ok (ids ++ others, fm2)
    ]

  -- the union, in which an id may stand more than once
  unfoldable pub chunk_ids_in :
      ℕ → FileMetadata V St → Result Directory.Error (List Text × FileMetadata V St)
  unfolding chunk_ids_of_files
  chunk_ids_in fuel fm = do
    (paths, fm1) ← FileChunks.filenames S.objects fuel fm
    chunk_ids_of_files paths fm1

  -- the fuel is that of the walk over the directories
  unfoldable pub get_generation_chunk_ids :
      ℕ → Client V St → ℕ → Result ClientError (List Text × Client V St)
  unfolding on_files chunk_ids_in
  get_generation_chunk_ids fuel c n = on_files S n (chunk_ids_in fuel) c

  unfoldable pub chunk_ids_used_by :
      ℕ → List ℕ → Client V St → Result ClientError (List Text × Client V St)
  unfolding get_generation_chunk_ids
  chunk_ids_used_by fuel [] c = ok ([], c)
  chunk_ids_used_by fuel (n ∷ ns) c = do
    (ids, c1) ← get_generation_chunk_ids fuel c n
    (others, c2) ← chunk_ids_used_by fuel ns c1
    ok (ids ++ others, c2)

  -- the chunks that no other generation uses
  unfoldable pub remove_generation :
      ℕ → Client V St → ℕ → Result ClientError (List Text × Client V St)
  unfolding chunk_ids_used_by get_generation_chunk_ids difference
  remove_generation fuel c n =
      let c1 = load_data S c in
      if has_generation n c1.generations
      then (do
        (removed, c2) ← get_generation_chunk_ids fuel c1 n
        (remaining, c3) ← chunk_ids_used_by fuel (remaining_numbers n c1.generations) c2
        ok (
          difference removed remaining,
          record c3 { generations = without_generation n c3.generations },
        ))
      else raise (generation_does_not_exist n)
