-- ===== src/Trees/Tree.antt =====
-- obnamlib/fmt_ga/tree.py: `GATree` and `DirectoryObjectCache`. An object in the cache that the source
-- changes in place is put back in the cache. The blob store, with the encoding of directory
-- objects, is a parameter.
use obnam.Prelude.{ℕ, zero, suc, ◌+◌, Option, none, some, List, [], ◌∷◌, max}
use obnam.Prelude.Tests.{if◌then◌else◌}
use obnam.Prelude.Lists.{length}
use obnam.Prelude.Keys.{nat_eq, list_eq}
use obnam.Prelude.Dict.{Dict, get, put, del, has}
use obnam.Prelude.Result.{Result, ok, raise, ◌>>=◌}
use obnam.Bag.ObjectId.{Text}
use obnam.Directories.Directory
use obnam.Directories.Directory.{
  Directory, Error, assertion_error, out_of_fuel, set_immutable, create_from, add_file, add_subdir,
  remove_subdir, get_subdir_basenames, get_subdir_object_id,
}
use obnam.Trees.Paths.{Pathname, dot}

-- What a tree calls of its blob store. `get_object` is the decoded dict of a blob, or `none` where
-- there is no blob; a read leaves the blobs as they are.
pub record ObjectStore (V St : Type 0) : Type 0 where
  pub put_object : St → Directory V → Text × St
  pub get_object : St → Text → Option (Directory V)
  pub flush_objects : St → St

pub record Tree (V St : Type 0) : Type 0 where
  pub store : St
  pub root_dir_id : Option Text
  pub cache : Dict Pathname (Directory V)

abbrev pub as_mutable : {V : Type 0} → Directory V → Directory V
as_mutable d = if d.mutable then d else create_from d

abbrev pub frozen : {V : Type 0} → Option (Directory V) → Option (Directory V)
frozen none = none
frozen (some d) = some (set_immutable d)

module _ {V St : Type 0} where
  -- `__init__` and `set_blob_store`
  abbrev pub init : St → Tree V St
  init store = record { store = store; root_dir_id = none; cache = [] }

  abbrev pub set_root_directory_id : Option Text → Tree V St → Tree V St
  set_root_directory_id i t = record t { root_dir_id = i }

  -- `DirectoryObjectCache.set`
  abbrev pub cached : Pathname → Directory V → Tree V St → Tree V St
  cached path d t = record t { cache = put path d t.cache }

module _ {V St : Type 0} (S : ObjectStore V St) where
  unfoldable pub get_dir_obj : St → Text → Option (Directory V)
  get_dir_obj st i = frozen (S.get_object st i)

  -- the subdirectory of a directory that was read
  abbrev pub subdir_of : St → Text → Option (Directory V) → Option (Directory V)
  subdir_of st name none = none
  subdir_of st name (some d) = elim (get_subdir_object_id d name) [
    | none ↦ none
    | some i ↦ get_dir_obj st i
  ]

  -- a directory that was read is cached
  abbrev pub remember :
      Pathname → Option (Directory V) × Tree V St → Option (Directory V) × Tree V St
  remember path (none, t) = (none, t)
  remember path (some d, t) = (some d, cached path d t)

  abbrev pub root_object : St → Option Text → Option (Directory V)
  root_object st none = none
  root_object st (some i) = get_dir_obj st i

  -- the cached directory, else `None` without a root, else what is read
  unfoldable pub lookup_or :
      Pathname
      → Tree V St
      → Option (Directory V)
      → Option Text
      → Option (Directory V) × Tree V St
      → Option (Directory V) × Tree V St
  lookup_or path t (some d) root read = (some d, t)
  lookup_or path t none none read = (none, t)
  lookup_or path t none (some i) read = remember path read

  unfoldable pub get_directory : Pathname → Tree V St → Option (Directory V) × Tree V St
  unfolding get_dir_obj lookup_or
  get_directory [] t =
      lookup_or [] t (get [] t.cache) t.root_dir_id (root_object t.store t.root_dir_id, t)
  get_directory (name ∷ parent_path) t =
      let (parent, t') = get_directory parent_path t in
      lookup_or (name ∷ parent_path) t (get (name ∷ parent_path) t.cache) t.root_dir_id
        (subdir_of t'.store name parent, t')

  -- the parent that `set_directory` changes: the cached one, one that is read, or a new one
  unfoldable pub parent_or :
      Option (Directory V)
      → Option (Directory V) × Tree V St
      → Tree V St
      → Result Error (Directory V × Tree V St)
  parent_or (some d) read t = ok (d, t)
  parent_or none (some d, t') t = ok (create_from d, t')
  parent_or none (none, t') t = do d ← add_file Directory.empty dot; ok (d, t')

  unfoldable pub parent_for : Pathname → Tree V St → Result Error (Directory V × Tree V St)
  unfolding get_directory parent_or
  parent_for parent_path t = parent_or (get parent_path t.cache) (get_directory parent_path t) t

  unfoldable pub set_directory : Pathname → Directory V → Tree V St → Result Error (Tree V St)
  unfolding parent_for
  set_directory [] d t = ok (cached [] d t)
  set_directory (name ∷ parent_path) d t = do
    (parent, t') ← parent_for parent_path (cached (name ∷ parent_path) d t)
    changed ← add_subdir (as_mutable parent) name none
    set_directory parent_path changed t'

  unfoldable pub remove_root_dir : Tree V St → Tree V St
  remove_root_dir t = record t { root_dir_id = none; cache = [] }

  -- the parent whose entry goes: the cached one as it is, or one that is read, made mutable
  abbrev pub parent_found :
      Option (Directory V)
      → Option (Directory V) × Tree V St
      → Tree V St
      → Option (Directory V) × Tree V St
  parent_found (some d) read t = (some d, t)
  parent_found none (none, t') t = (none, t')
  parent_found none (some d, t') t = (some (create_from d), t')

  abbrev pub without_subdir :
      Pathname → Text → Option (Directory V) × Tree V St → Result Error (Tree V St)
  without_subdir parent_path name (none, t) = ok t
  without_subdir parent_path name (some d, t) = do
    changed ← remove_subdir d name
    set_directory parent_path changed t

  unfoldable pub remove_from_parent : Text → Pathname → Tree V St → Result Error (Tree V St)
  unfolding get_directory set_directory
  remove_from_parent name parent_path t =
      let t1 : Tree V St = record t { cache = del (name ∷ parent_path) t.cache } in
      without_subdir parent_path name
        (parent_found (get parent_path t1.cache) (get_directory parent_path t1) t1)

  unfoldable pub remove_directory : Pathname → Tree V St → Result Error (Tree V St)
  unfolding remove_root_dir remove_from_parent
  remove_directory [] t = ok (remove_root_dir t)
  remove_directory (name ∷ parent_path) t = remove_from_parent name parent_path t

  -- The loop of `_fixup_subdir_refs` over the subdirectories. `fixup` is the recursive call.
  unfoldable pub fixup_each :
      (Pathname → St → Result Error (Text × St))
      → Pathname
      → List Text
      → Directory V
      → St
      → Result Error (Directory V × St)
  fixup_each fixup path [] d st = ok (d, st)
  fixup_each fixup path (name ∷ rest) d st = elim (get_subdir_object_id d name) [
    | some i ↦ fixup_each fixup path rest d st
    | none ↦ do
      (i, st') ← fixup (name ∷ path) st
      changed ← add_subdir d name (some i)
      fixup_each fixup path rest changed st'
  ]

  -- The fuel is the number of nested calls. Each call looks up its path in the cache.
  unfoldable pub fixup_subdir_refs :
      ℕ → Dict Pathname (Directory V) → Pathname → St → Result Error (Text × St)
  unfolding fixup_each
  fixup_subdir_refs zero cache path st = raise out_of_fuel
  fixup_subdir_refs (suc fuel) cache path st = elim (get path cache) [
    | none ↦ raise assertion_error
    | some d ↦ do
      (changed, st') ← fixup_each (fixup_subdir_refs fuel cache) path (get_subdir_basenames d) d st
      ok (S.put_object st' (set_immutable changed))
  ]

  -- more than the names of any cached path
  abbrev pub depth : Dict Pathname (Directory V) → ℕ
  depth [] = 1
  depth ((path, d) ∷ rest) = max (length path + 1) (depth rest)

  abbrev pub flushed : Tree V St → Option Text → St → Tree V St
  flushed t root st = record { store = S.flush_objects st; root_dir_id = root; cache = [] }

  unfoldable pub flush : Tree V St → Result Error (Tree V St)
  unfolding fixup_subdir_refs
  flush t =
      if has [] t.cache
      then (do
        (i, st) ← fixup_subdir_refs (depth t.cache) t.cache [] t.store
        ok (flushed t (some i) st))
      else ok (flushed t t.root_dir_id t.store)

  abbrev pub flush_ro : Tree V St → Tree V St
  flush_ro t = record t { cache = [] }
