-- ===== src/Generations/FileChunks.antt =====
-- obnamlib/fmt_ga/client.py: the chunks of the files of `GAFileMetadata`, the children of a directory,
-- and the loop over all files of a generation.
use obnam.Prelude.{ℕ, zero, suc, Bool, true, false, Option, none, some, List, [], ◌∷◌, ◌++◌, map}
use obnam.Prelude.Tests.{if◌then◌else◌}
use obnam.Prelude.Keys.{◌==◌, nat_eq, list_eq}
use obnam.Prelude.Dict.{keys, has}
use obnam.Prelude.Result.{Result, ok, raise, ◌>>=◌}
use obnam.Bag.ObjectId.{Text}
use obnam.Directories.Directory
use obnam.Directories.Directory.{
  Directory, Error, assertion_error, out_of_fuel, get_file_basenames, get_subdir_basenames,
}
use obnam.Trees.Paths.{Pathname, join, dot}
use obnam.Trees.Tree
use obnam.Trees.Tree.{ObjectStore, Tree}
use obnam.Generations.AddedFiles
use obnam.Generations.FileMetadata.{
  FileMetadata, Found, with_tree, changed, get_dir_obj, get_mutable_dir_obj,
}

-- the names of a directory without '.'
unfoldable pub without_dot : List Text → List Text
without_dot [] = []
without_dot (name ∷ rest) =
    let others = without_dot rest in if name == dot then others else name ∷ others

-- `stack.append` for each subdirectory
unfoldable pub pushed : Pathname → List Text → List Pathname → List Pathname
pushed path [] stack = stack
pushed path (name ∷ rest) stack = pushed path rest (join path name ∷ stack)

module _ {V St : Type 0} (S : ObjectStore V St) where
  abbrev pub chunks_of : Option (Found V) → Result Error (Option (List Text))
  chunks_of none = ok none
  chunks_of (some f) = do ids ← Directory.get_file_chunk_ids f.dir_obj f.name; ok (some ids)

  -- `none` is `None`, where the file has no directory
  unfoldable pub get_file_chunk_ids :
      FileMetadata V St → Pathname → Result Error (Option (List Text) × FileMetadata V St)
  get_file_chunk_ids fm filename =
      if has filename fm.added_files
      then (do ids ← AddedFiles.get_file_chunk_ids fm.added_files filename; ok (some ids, fm))
      else (let (found, fm') = get_dir_obj S fm filename in do ids ← chunks_of found; ok (ids, fm'))

  -- the change of a directory that was found, and whether there was one
  abbrev pub change_found :
      (Directory V → Text → Result Error (Directory V))
      → Option (Found V) × FileMetadata V St
      → Result Error (Bool × FileMetadata V St)
  change_found change (none, fm) = ok (false, fm)
  change_found change (some f, fm) = do
    d ← change f.dir_obj f.name
    ok (true, changed fm f.dir_path d)

  unfoldable pub append_file_chunk_id :
      FileMetadata V St → Pathname → Text → Result Error (Bool × FileMetadata V St)
  append_file_chunk_id fm filename chunk_id =
      if has filename fm.added_files
      then (do
        files ← AddedFiles.append_file_chunk_id fm.added_files filename chunk_id
        ok (true, record fm { added_files = files }))
      else (do
        found ← get_mutable_dir_obj S fm filename
        change_found (λ d name. Directory.append_file_chunk_id d name chunk_id) found)

  -- `assert basename != '.'`, also where nothing was found
  abbrev pub not_dot :
      Option (Found V) × FileMetadata V St → Result Error (Option (Found V) × FileMetadata V St)
  not_dot (none, fm) = ok (none, fm)
  not_dot (some f, fm) = if f.name == dot then raise assertion_error else ok (some f, fm)

  unfoldable pub clear_file_chunk_ids :
      FileMetadata V St → Pathname → Result Error (Bool × FileMetadata V St)
  clear_file_chunk_ids fm filename =
      if has filename fm.added_files
      then (do
        files ← AddedFiles.clear_file_chunk_ids fm.added_files filename
        ok (true, record fm { added_files = files }))
      else (do
        found ← get_mutable_dir_obj S fm filename
        checked ← not_dot found
        change_found (λ d name. Directory.clear_file_chunk_ids d name) checked)

  -- the path names of names in a directory
  abbrev pub join_all : Pathname → List Text → List Pathname
  join_all path = map (λ name. join path name)

  abbrev pub children_of : Option (Found V) → Option (List Pathname)
  children_of none = some []
  children_of (some f) =
      if f.name == dot
      then some (
          join_all f.dir_path
            (without_dot (get_file_basenames f.dir_obj) ++ get_subdir_basenames f.dir_obj))
      else some []

  -- A path that is not found has no base name '.', so it has no children, like a file.
  unfoldable pub get_file_children :
      FileMetadata V St → Pathname → Result Error (Option (List Pathname) × FileMetadata V St)
  unfolding without_dot
  get_file_children fm filename =
      if has filename fm.added_files
      then raise assertion_error
      else (let (found, fm') = get_dir_obj S fm filename in ok (children_of found, fm'))

  -- The loop of `__iter__` over the stack, whose last path stands first. The fuel is the number of
  -- directories.
  unfoldable pub walk : ℕ → List Pathname → Tree V St → Result Error (List Pathname × Tree V St)
  unfolding without_dot pushed
  walk fuel [] t = ok ([], t)
  walk zero (path ∷ stack) t = raise out_of_fuel
  walk (suc fuel) (path ∷ stack) t =
      let (read, t') = Tree.get_directory S path t in
      let skipped = walk fuel stack t' in
      elim read [
        | none ↦ skipped
        | some d ↦ do
          (others, t1) ← walk fuel (pushed path (get_subdir_basenames d) stack) t'
          ok (path ∷ join_all path (without_dot (get_file_basenames d)) ++ others, t1)
      ]

  unfoldable pub filenames :
      ℕ → FileMetadata V St → Result Error (List Pathname × FileMetadata V St)
  unfolding walk
  filenames fuel fm = do
    (paths, t) ← walk fuel ([] ∷ []) fm.tree
    ok (keys fm.added_files ++ paths, with_tree fm t)
