-- ===== src/Generations/FileMetadata.antt =====
-- obnamlib/fmt_ga/client.py: `GAFileMetadata`, the files of a generation, in a tree of directories and,
-- until they have a mode, in the added files. A call that raises an error returns no state: what it
-- left in the caches is not modelled.
use obnam.Prelude.{Bool, true, false, Option, none, some, [], ◌∷◌}
use obnam.Prelude.Tests.{if◌then◌else◌}
use obnam.Prelude.Keys.{nat_eq, list_eq, option_eq}
use obnam.Prelude.Dict.{has}
use obnam.Prelude.Result.{Result, ok, raise, ◌>>=◌}
use obnam.Bag.ObjectId.{Text}
use obnam.Directories.Directory
use obnam.Directories.Directory.{
  Directory, FileKey, Error, assertion_error, out_of_fuel, create_from, mode,
}
use obnam.Directories.Keys.{file_key_eq}
use obnam.Trees.Paths.{Pathname, dirname, basename, dot}
use obnam.Trees.Tree
use obnam.Trees.Tree.{ObjectStore, Tree, cached, as_mutable}
use obnam.Generations.AddedFiles
use obnam.Generations.AddedFiles.{AddedFiles, AddedFile}

pub record FileMetadata (V St : Type 0) : Type 0 where
  pub tree : Tree V St
  pub added_files : AddedFiles V

-- what `_get_dir_obj` returns: a directory, its path, and a name in it
pub record Found (V : Type 0) : Type 0 where
  pub dir_obj : Directory V
  pub dir_path : Pathname
  pub name : Text

module _ {V St : Type 0} where
  -- `__init__`, `set_blob_store` and `set_root_object_id`
  abbrev pub init : St → Option Text → FileMetadata V St
  init store root = record {
    tree = Tree.set_root_directory_id root (Tree.init store);
    added_files = [];
  }

  abbrev pub get_root_object_id : FileMetadata V St → Option Text
  get_root_object_id fm = fm.tree.root_dir_id

  abbrev pub with_tree : FileMetadata V St → Tree V St → FileMetadata V St
  with_tree fm t = record fm { tree = t }

  -- a directory of the cache that was changed in place
  abbrev pub changed : FileMetadata V St → Pathname → Directory V → FileMetadata V St
  changed fm path d = record fm { tree = cached path d fm.tree }

module _ {V St : Type 0} (S : ObjectStore V St) where
  unfoldable pub flush : FileMetadata V St → Result Error (FileMetadata V St)
  flush fm = elim fm.added_files [
    | [] ↦ do t ← Tree.flush S fm.tree; ok (with_tree fm t)
    | f ∷ fs ↦ raise assertion_error
  ]

  abbrev pub flush_ro : FileMetadata V St → FileMetadata V St
  flush_ro fm = with_tree fm (Tree.flush_ro S fm.tree)

  -- the second look of `_get_dir_obj`, at the directory of the path
  abbrev pub found_in_parent :
      Pathname → Option (Directory V) × Tree V St → Option (Found V) × Tree V St
  found_in_parent filename (none, t) = (none, t)
  found_in_parent filename (some d, t) =
      (some (record { dir_obj = d; dir_path = dirname filename; name = basename filename }), t)

  abbrev pub found_or_parent :
      Pathname → Option (Directory V) × Tree V St → Option (Found V) × Tree V St
  found_or_parent filename (some d, t) =
      (some (record { dir_obj = d; dir_path = filename; name = dot }), t)
  found_or_parent filename (none, t) =
      found_in_parent filename (Tree.get_directory S (dirname filename) t)

  unfoldable pub get_dir_obj : FileMetadata V St → Pathname → Option (Found V) × FileMetadata V St
  get_dir_obj fm filename =
      let (found, t) = found_or_parent filename (Tree.get_directory S filename fm.tree) in
      (found, with_tree fm t)

  unfoldable pub file_exists : FileMetadata V St → Pathname → Bool × FileMetadata V St
  unfolding get_dir_obj
  file_exists fm filename =
      let (found, fm') = get_dir_obj fm filename in
      if has filename fm.added_files
      then (true, fm)
      else (elim found [ none ↦ false | some f ↦ has f.name f.dir_obj.metadata ], fm')

  unfoldable pub add_file : FileMetadata V St → Pathname → Result Error (FileMetadata V St)
  unfolding file_exists
  add_file fm filename =
      let (there, fm') = file_exists fm filename in
      if there then ok fm' else (do
        files ← AddedFiles.add_file fm'.added_files filename
        ok (record fm' { added_files = files }))

  abbrev pub without_added : AddedFiles V → Pathname → Result Error (AddedFiles V)
  without_added files filename =
      if has filename files then AddedFiles.remove_file files filename else ok files

  -- the entries of a name go from its directory
  unfoldable pub remove_entries :
      Text → Pathname → Option (Directory V) × Tree V St → Result Error (Tree V St)
  remove_entries name parent_path (none, t) = ok t
  remove_entries name parent_path (some d, t) = do
    d1 ← Directory.remove_file (as_mutable d) name
    d2 ← Directory.remove_subdir d1 name
    Tree.set_directory S parent_path d2 t

  unfoldable pub remove_file : FileMetadata V St → Pathname → Result Error (FileMetadata V St)
  unfolding remove_entries
  remove_file fm [] = do
    files ← without_added fm.added_files []
    t ← Tree.remove_directory S [] fm.tree
    ok (record { tree = t; added_files = files })
  remove_file fm (name ∷ parent_path) = do
    files ← without_added fm.added_files (name ∷ parent_path)
    t ← remove_entries name parent_path (Tree.get_directory S parent_path fm.tree)
    ok (record { tree = t; added_files = files })

  -- `_get_mutable_dir_obj`: the directory that is found, made mutable and put back in the tree
  unfoldable pub mutable_found :
      Option (Found V) × FileMetadata V St → Result Error (Option (Found V) × FileMetadata V St)
  mutable_found (none, fm) = ok (none, fm)
  mutable_found (some f, fm) = if f.dir_obj.mutable then ok (some f, fm) else (do
    t ← Tree.set_directory S f.dir_path (create_from f.dir_obj) fm.tree
    ok (some (record f { dir_obj = create_from f.dir_obj }), with_tree fm t))

  unfoldable pub get_mutable_dir_obj :
      FileMetadata V St → Pathname → Result Error (Option (Found V) × FileMetadata V St)
  unfolding get_dir_obj mutable_found
  get_mutable_dir_obj fm filename = mutable_found (get_dir_obj fm filename)
