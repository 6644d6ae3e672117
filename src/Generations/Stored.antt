-- ===== src/Generations/Stored.antt =====
-- An added file that is given its mode reads from the tree as it was added: `GAFileMetadata` of
-- obnamlib/fmt_ga/client.py.
use obnam.Prelude.{◌≡◌, refl, ap, ◌∙◌, Bool, true, false, Option, none, some, ◌∷◌, arith}
use obnam.Prelude.Tests.{if◌then◌else◌}
use obnam.Prelude.Sorted.{Distinct}
use obnam.Prelude.Keys.{Eq, ◌==◌, nat_eq, list_eq, option_eq, beq_refl}
use obnam.Prelude.Dict.{Dict, keys, get, put, has, del, get-put, get-put_self, get-del, has-get}
use obnam.Prelude.Result.{ok}
use obnam.Bag.ObjectId.{Text}
use obnam.Directories.Directory
use obnam.Directories.Directory.{
  Directory, File, FileKey, mode, Error, or_none, get_short_key_name, get_file, file_of,
  get_subdir_object_id, create_from,
}
use obnam.Directories.Keys.{file_key_eq}
use obnam.Trees.Paths.{Pathname, dot}
use obnam.Trees.Tree.{ObjectStore, Tree, get_directory}
use obnam.Trees.Views.{view}
use obnam.Trees.Inside.{inside}
use obnam.Generations.AddedFiles.{AddedFile, AddedFiles}
use obnam.Generations.AddedFiles
use obnam.Generations.FileMetadata.{FileMetadata, Found, get_dir_obj}
use obnam.Generations.FileKeys.{flush_file, flush_as, flush_added_file, set_file_key, get_file_key}
use obnam.Generations.FileChunks.{get_file_chunk_ids}
use obnam.Generations.Filled.{value_in, changed_values, changed_values-Distinct}
use obnam.Generations.Filed.{has_file, Distinct-put, get_dir_obj-parent, flush_file-Filed}

module _ {V St : Type 0} ⦃ev : Eq V⦄ (S : ObjectStore V St) (is_dir : V → Bool)
    (zero_value empty_value : V) where
  has-found :
      {A : Type 0} (q : Pathname) (d : Dict Pathname A) (a : A) → get q d ≡ some a → has q d ≡ true
  has-found q d a h = has-get q d ∙ ground (arith, h)

  flush_added_file-tree :
      (fm : FileMetadata V St) (name : Text) (p : Pathname) (file : AddedFile V) (m : V)
      (t' : Tree V St)
      → get (name ∷ p) fm.added_files ≡ some file
      → get mode file.file_keys ≡ some (some m)
      → is_dir m ≡ false
      → flush_file S is_dir zero_value empty_value name p file (get_directory S p fm.tree) ≡ ok t'
      → flush_added_file S is_dir zero_value empty_value fm (name ∷ p)
        ≡ ok (record { tree = t'; added_files = del (name ∷ p) fm.added_files })
  unfolding flush_added_file flush_as AddedFiles.get_file_key AddedFiles.get_file_dict
      AddedFiles.remove_file
  flush_added_file-tree fm name p file m t' h k c e =
      let h' = has-found (name ∷ p) fm.added_files file h in ground (arith, h, k, c, e, h')

  -- the files with the added file's mode
  abbrev given_mode : AddedFile V → V → AddedFile V
  given_mode file m = record file { file_keys = put mode (some m) file.file_keys }

  set_file_key-flush :
      (fm : FileMetadata V St) (q : Pathname) (file : AddedFile V) (m : V) (fm' : FileMetadata V St)
      → get q fm.added_files ≡ some file
      → flush_added_file S is_dir zero_value empty_value
          (record fm { added_files = put q (given_mode file m) fm.added_files })
          q
        ≡ ok fm'
      → set_file_key S is_dir zero_value empty_value fm q mode (some m) ≡ ok (true, fm')
  unfolding set_file_key AddedFiles.set_file_key AddedFiles.get_file_dict
  set_file_key-flush fm q file m fm' h e =
      let h' = has-found q fm.added_files file h in ground (arith, h, e, h', beq_refl mode)

  -- What a file reads as once it is in the tree.
  pub record StoredFile (name : Text) (p : Pathname) (file : AddedFile V) (m : V)
      (fm fm' : FileMetadata V St) : Type 0 where
    pub moved : has (name ∷ p) fm'.added_files ≡ false
    pub chunks :
        (fm2 : FileMetadata V St) × (get_file_chunk_ids S fm' (name ∷ p)
          ≡ ok (some file.chunks, fm2))
    pub keys :
        (key : FileKey)
        → (fm2 : FileMetadata V St) × (get_file_key S is_dir zero_value empty_value fm'
              (name ∷ p)
              key
            ≡ ok (if mode == key then some m else or_none (get key file.file_keys), fm2))
    pub beside :
        (q : Pathname)
        → inside p q ≡ false
        → inside q p ≡ false
        → view S fm'.tree q ≡ view S fm.tree q

  get_file_chunk_ids-found :
      (fm fm' : FileMetadata V St) (q : Pathname) (found : Found V) (f : File V)
      → has q fm.added_files ≡ false
      → get_dir_obj S fm q ≡ (some found, fm')
      → get found.name found.dir_obj.metadata ≡ some f
      → get_file_chunk_ids S fm q ≡ ok (some f.chunk_ids, fm')
  unfolding get_file_chunk_ids Directory.get_file_chunk_ids get_file
  get_file_chunk_ids-found fm fm' q found f h e g = ground (arith, h, e, g)

  get_file_key-found :
      (fm fm' : FileMetadata V St) (q : Pathname) (found : Found V) (f : File V) (key : FileKey)
      → has q fm.added_files ≡ false
      → get_dir_obj S fm q ≡ (some found, fm')
      → get found.name found.dir_obj.metadata ≡ some f
      → get_file_key S is_dir zero_value empty_value fm q key ≡ ok (value_in f key, fm')
  unfolding get_file_key Directory.get_file_key get_file
  get_file_key-found fm fm' q found f key h e g = ground (arith, h, e, g)

  or_none-elim : (o : Option (Option V)) → (elim o [ none ↦ none | some v ↦ v ]) ≡ or_none o
  or_none-elim none = refl
  or_none-elim (some v) = refl

  given_value :
      (file : AddedFile V) (m : V) (key : FileKey)
      → Distinct (keys file.file_keys)
      → changed_values (given_mode file m).file_keys (λ k. none) key
        ≡ (if mode == key then some m else or_none (get key file.file_keys))
  given_value file m key d =
      let L = (given_mode file m).file_keys in
      changed_values-Distinct L (λ k. none) key (Distinct-put mode (some m) file.file_keys d)
      ∙ or_none-elim (get key L)
      ∙ ap (λ o. or_none o) (get-put mode key (some m) file.file_keys)
      ∙ go (mode == key)
    where
      go :
          (b : Bool)
          → or_none (if b then some (some m) else get key file.file_keys)
            ≡ (if b then some m else or_none (get key file.file_keys))
      go true = refl
      go false = refl

  -- An added file with distinct keys that is given a mode, not that of a directory, is put in the tree, if
  -- its name is not '.' and no file or directory of that name is there. It is no longer an added file,
  -- and reads with its chunks and its keys, the mode among them. What is beside its directory reads as
  -- before.
  pub set_file_key-StoredFile :
      (name : Text) (p : Pathname) (file : AddedFile V) (m : V) (fm : FileMetadata V St)
      → get (name ∷ p) fm.added_files ≡ some file
      → Distinct (keys file.file_keys)
      → is_dir m ≡ false
      → (dot == name) ≡ false
      → has_file name (view S fm.tree p) ≡ false
      → view S fm.tree (name ∷ p) ≡ none
      → (fm' : FileMetadata V St) × (set_file_key S is_dir zero_value empty_value fm
            (name ∷ p)
            mode
            (some m)
          ≡ ok (true, fm'))
        × StoredFile name p file m fm fm'
  set_file_key-StoredFile name p file m fm a d c n h k =
      let q = name ∷ p in
      let file' = given_mode file m in
      let (t', e, F) =
        flush_file-Filed S is_dir zero_value empty_value name p file' fm.tree n h k in
      let files = put q file' fm.added_files in
      let fm' : FileMetadata V St = record { tree = t'; added_files = del q files } in
      let (fm2, e2) =
        get_dir_obj-parent S is_dir zero_value empty_value fm' name p F.filled F.no_dir F.here in
      let gone : has q (del q files) ≡ false =
        has-get q (del q files) ∙ ground (arith, get-del q q files, beq_refl q) in
      let flush =
        flush_added_file-tree (record fm { added_files = files }) name p file' m t'
          (get-put_self q q file' fm.added_files (beq_refl q))
          (get-put_self mode mode (some m) file.file_keys (beq_refl mode)) c e in
      let found : Found V = record { dir_obj = F.filled; dir_path = p; name = name } in
      (
        fm',
        set_file_key-flush fm q file m fm' a flush,
        record {
          moved = gone;
          chunks = (
            fm2,
            get_file_chunk_ids-found fm' fm2 q found F.holds.file gone e2 F.holds.there
                ∙ ap (λ cs. ok (some cs, fm2)) F.holds.chunk_ids,
          );
          keys = λ key. (
            fm2,
            get_file_key-found fm' fm2 q found F.holds.file key gone e2 F.holds.there
                ∙ ap (λ v. ok (v, fm2)) (F.holds.values key ∙ given_value file m key d),
          );
          beside = F.beside;
        },
      )
