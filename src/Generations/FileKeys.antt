-- ===== src/Generations/FileKeys.antt =====
-- obnamlib/fmt_ga/client.py: the keys of the files of `GAFileMetadata`, and how an added file enters the
-- tree. Whether a mode is that of a directory, and the values 0 and '' that stand for a missing one,
-- are parameters.
use obnam.Prelude.{Bool, true, false, Option, none, some, List, [], ◌∷◌}
use obnam.Prelude.Tests.{if◌then◌else◌}
use obnam.Prelude.Keys.{Eq, ◌==◌, nat_eq, list_eq, option_eq}
use obnam.Prelude.Dict.{Dict, has}
use obnam.Prelude.Result.{Result, ok, raise, ◌>>=◌}
use obnam.Bag.ObjectId.{Text}
use obnam.Directories.Directory
use obnam.Directories.Directory.{
  Directory, FileKey, Error, assertion_error, out_of_fuel, create_from, mode,
}
use obnam.Directories.Keys.{file_key_eq, is_integer_key, metadata_keys}
use obnam.Trees.Paths.{Pathname, dirname, basename, dot}
use obnam.Trees.Tree
use obnam.Trees.Tree.{ObjectStore, Tree, cached, as_mutable}
use obnam.Generations.AddedFiles
use obnam.Generations.AddedFiles.{AddedFiles, AddedFile}
use obnam.Generations.FileMetadata.{FileMetadata, Found, changed, get_dir_obj, get_mutable_dir_obj}

module _ {V : Type 0} ⦃ev : Eq V⦄ where
  -- `for key, value in keys.items(): dir_obj.set_file_key(name, key, value)`
  unfoldable pub set_keys :
      Dict FileKey (Option V) → Text → Directory V → Result Error (Directory V)
  set_keys [] name d = ok d
  set_keys ((key, value) ∷ rest) name d = do
    d' ← Directory.set_file_key d name key value
    set_keys rest name d'

  unfoldable pub append_chunks : List Text → Text → Directory V → Result Error (Directory V)
  append_chunks [] name d = ok d
  append_chunks (chunk_id ∷ rest) name d = do
    d' ← Directory.append_file_chunk_id d name chunk_id
    append_chunks rest name d'

  -- the directory object of an added directory
  unfoldable pub new_directory : AddedFile V → Result Error (Directory V)
  unfolding set_keys
  new_directory file = do d ← Directory.add_file Directory.empty dot; set_keys file.file_keys dot d

  -- a directory with an added file
  unfoldable pub with_file : Text → AddedFile V → Directory V → Result Error (Directory V)
  unfolding set_keys append_chunks
  with_file name file d = do
    d1 ← Directory.add_file d name
    d2 ← set_keys file.file_keys name d1
    append_chunks file.chunks name d2

  -- the directory of an added file: the one that is read, made mutable, or a new one
  unfoldable pub parent_of_file : Option (Directory V) → Result Error (Directory V)
  parent_of_file none = Directory.add_file Directory.empty dot
  parent_of_file (some d) = ok (as_mutable d)

module _ {V St : Type 0} ⦃ev : Eq V⦄ (S : ObjectStore V St) (is_dir : V → Bool)
    (zero_value empty_value : V) where
  -- the value of a key, `None` without a directory for the file
  abbrev pub key_in : Option (Found V) → FileKey → Result Error (Option V)
  key_in none key = ok none
  key_in (some f) key = Directory.get_file_key f.dir_obj f.name key

  unfoldable pub get_file_key :
      FileMetadata V St → Pathname → FileKey → Result Error (Option V × FileMetadata V St)
  get_file_key fm filename key =
      if has filename fm.added_files
      then (do value ← AddedFiles.get_file_key fm.added_files filename key; ok (value, fm))
      else (let (found, fm') = get_dir_obj S fm filename in
          do value ← key_in found key; ok (value, fm'))

  -- 0 or '' for a value that is `None`
  abbrev pub value_or_default : FileKey → Option V → V
  value_or_default key (some value) = value
  value_or_default key none = if is_integer_key key then zero_value else empty_value

  -- the loop of `_make_metadata`: the values of the fields, by key
  unfoldable pub make_metadata :
      (FileKey → Result Error (Option V)) → List FileKey → Result Error (Dict FileKey V)
  make_metadata get_value [] = ok []
  make_metadata get_value (key ∷ rest) = do
    value ← get_value key
    others ← make_metadata get_value rest
    ok ((key, value_or_default key value) ∷ others)

  unfoldable pub get_metadata_from_file_keys :
      FileMetadata V St → Pathname → Result Error (Dict FileKey V × FileMetadata V St)
  unfolding make_metadata
  get_metadata_from_file_keys fm filename =
      if has filename fm.added_files
      then (do
        m ← make_metadata (AddedFiles.get_file_key fm.added_files filename) metadata_keys
        ok (m, fm))
      else (let (found, fm') = get_dir_obj S fm filename in
          elim found [
            | none ↦ raise assertion_error
            | some f ↦ do
              m ← make_metadata (Directory.get_file_key f.dir_obj f.name) metadata_keys
              ok (m, fm')
          ])

  -- the directory of a file is given the file
  unfoldable pub flush_file :
      Text → Pathname → AddedFile V → Option (Directory V) × Tree V St → Result Error (Tree V St)
  unfolding with_file parent_of_file
  flush_file name parent_path file (read, t) = do
    parent ← parent_of_file read
    filled ← with_file name file parent
    Tree.set_directory S parent_path filled t

  -- whether the file becomes a directory object of its own, or is put in its directory
  unfoldable pub flush_as : Bool → Pathname → AddedFile V → Tree V St → Result Error (Tree V St)
  unfolding new_directory flush_file
  flush_as true filename file t = do d ← new_directory file; Tree.set_directory S filename d t
  flush_as false filename file t =
      flush_file (basename filename) (dirname filename) file
        (Tree.get_directory S (dirname filename) t)

  -- `assert mode is not None`
  abbrev pub mode_is_dir : Option V → Result Error Bool
  mode_is_dir none = raise assertion_error
  mode_is_dir (some m) = ok (is_dir m)

  unfoldable pub flush_added_file : FileMetadata V St → Pathname → Result Error (FileMetadata V St)
  unfolding flush_as
  flush_added_file fm filename = do
    m ← AddedFiles.get_file_key fm.added_files filename mode
    directory ← mode_is_dir m
    file ← AddedFiles.get_file_dict fm.added_files filename
    t ← flush_as directory filename file fm.tree
    files ← AddedFiles.remove_file fm.added_files filename
    ok (record { tree = t; added_files = files })

  -- a new value in the directory of a file
  unfoldable pub set_in_found :
      Pathname
      → FileKey
      → Option V
      → Option (Found V) × FileMetadata V St
      → Result Error (Bool × FileMetadata V St)
  set_in_found filename key value (none, fm) = ok (false, fm)
  set_in_found filename key value (some f, fm) = do
    old_value ← Directory.get_file_key f.dir_obj f.name key
    if old_value == value then ok (true, fm) else (do
      (m, fm') ← get_mutable_dir_obj S fm filename
      elim m [
        | none ↦ raise assertion_error
        | some g ↦ do
          d ← Directory.set_file_key g.dir_obj g.name key value
          ok (true, changed fm' g.dir_path d)
      ])

  -- Whether the file was there. A file that is given a mode leaves the added files.
  unfoldable pub set_file_key :
      FileMetadata V St → Pathname → FileKey → Option V → Result Error (Bool × FileMetadata V St)
  unfolding set_in_found flush_added_file
  set_file_key fm filename key value =
      if has filename fm.added_files
      then (do
        files ← AddedFiles.set_file_key fm.added_files filename key value
        if key == mode
            then (do
              fm' ← flush_added_file (record fm { added_files = files }) filename
              ok (true, fm'))
            else ok (true, record fm { added_files = files }))
      else set_in_found filename key value (get_dir_obj S fm filename)

  -- `if not dir_obj.is_mutable(): dir_obj, basename = self._get_mutable_dir_obj(filename)`
  unfoldable pub mutable_for :
      Pathname → Found V → FileMetadata V St → Result Error (Found V × FileMetadata V St)
  mutable_for filename f fm = if f.dir_obj.mutable then ok (f, fm) else (do
    (m, fm') ← get_mutable_dir_obj S fm filename
    elim m [ none ↦ raise assertion_error | some g ↦ ok (g, fm') ])

  -- the loop of `set_file_keys_from_metadata`, with the directory as it is by now
  unfoldable pub set_fields :
      Pathname
      → List FileKey
      → (FileKey → Option V)
      → Found V
      → FileMetadata V St
      → Result Error (FileMetadata V St)
  unfolding mutable_for
  set_fields filename [] fields f fm = ok fm
  set_fields filename (key ∷ rest) fields f fm = do
    old_value ← Directory.get_file_key f.dir_obj f.name key
    (f', fm') ←
        (if old_value == fields key then ok (f, fm) else (do
          (g, fm1) ← mutable_for filename f fm
          d ← Directory.set_file_key g.dir_obj g.name key (fields key)
          ok (record g { dir_obj = d }, changed fm1 g.dir_path d)))
    set_fields filename rest fields f' fm'

  -- an added file is given its mode first
  unfoldable pub flush_if_added :
      FileMetadata V St → Pathname → Option V → Result Error (FileMetadata V St)
  unfolding flush_added_file
  flush_if_added fm filename st_mode =
      if has filename fm.added_files
      then (do
        files ← AddedFiles.set_file_key fm.added_files filename mode st_mode
        flush_added_file (record fm { added_files = files }) filename)
      else ok fm

  unfoldable pub set_file_keys_from_metadata :
      FileMetadata V St → Pathname → (FileKey → Option V) → Result Error (Bool × FileMetadata V St)
  unfolding flush_if_added set_fields
  set_file_keys_from_metadata fm filename fields = do
    fm' ← flush_if_added fm filename (fields mode)
    let (found, fm1) = get_dir_obj S fm' filename
    elim found [
      | none ↦ ok (false, fm1)
      | some f ↦ do fm2 ← set_fields filename metadata_keys fields f fm1; ok (true, fm2)
    ]
