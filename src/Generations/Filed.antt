-- ===== src/Generations/Filed.antt =====
-- The tree that an added file enters: `_flush_added_file` of obnamlib/fmt_ga/client.py.
use obnam.Prelude.{
  ◌≡◌, refl, sym, ap, ◌∙◌, Bool, true, false, Option, none, some, [], ◌∷◌, arith, inl, inr,
}
use obnam.Prelude.Tests.{if◌then◌else◌, Bool-cases, Option-cases}
use obnam.Prelude.Lists.{All}
use obnam.Prelude.Sorted.{Distinct}
use obnam.Prelude.Keys.{Eq, ◌==◌, nat_eq, list_eq, option_eq}
use obnam.Prelude.Dict.{Dict, keys, get, put, has}
use obnam.Prelude.Result.{ok, ◌>>=◌}
use obnam.Bag.ObjectId.{Text}
use obnam.Directories.Directory
use obnam.Directories.Directory.{
  Directory, File, FileKey, mode, Error, or_none, get_short_key_name, get_file, file_of,
  get_subdir_object_id, create_from,
}
use obnam.Directories.Keys.{file_key_eq}
use obnam.Trees.Paths.{Pathname, dot}
use obnam.Trees.Tree.{ObjectStore, Tree, subdir_of, get_directory, set_directory}
use obnam.Trees.Views.{view, view-hit, get_directory-Read}
use obnam.Trees.Inside.{inside, inside-shorter}
use obnam.Trees.Sets.{set_directory-Placed, view-step}
use obnam.Generations.AddedFiles.{AddedFile}
use obnam.Generations.FileMetadata.{
  FileMetadata, found_or_parent, found_in_parent, get_dir_obj, with_tree,
}
use obnam.Generations.FileKeys.{with_file, parent_of_file, flush_file}
use obnam.Generations.Filled.{Holds, with_file-Holds, changed_values}

-- whether a directory, if there is one, has a file of a name
abbrev pub has_file : {V : Type 0} → Text → Option (Directory V) → Bool
has_file name none = false
has_file name (some d) = has name d.metadata

All-keys-put :
    {V : Type 0} (P : FileKey → Type 0) (k : FileKey) (v : V) (d : Dict FileKey V)
    → P k
    → All P (keys d)
    → All P (keys (put k v d))
unfolding put
All-keys-put P k v [] p h = (p, tt)
All-keys-put P k v ((j, w) ∷ d) p h = go (All-keys-put P k v d p h.1) (j == k)
  where
    go :
        All P (keys (put k v d))
        → (b : Bool) → All P (keys (if b then (j, v) ∷ d else (j, w) ∷ put k v d))
    go r true = h
    go r false = (h.0, r)

pub Distinct-put :
    {V : Type 0} (k : FileKey) (v : V) (d : Dict FileKey V)
    → Distinct (keys d)
    → Distinct (keys (put k v d))
unfolding put
Distinct-put k v [] h = (tt, tt)
Distinct-put k v ((j, w) ∷ d) h = go (Distinct-put k v d h.1) (j == k) refl
  where
    go :
        Distinct (keys (put k v d))
        → (b : Bool) → (j == k) ≡ b
        → Distinct (keys (if b then (j, v) ∷ d else (j, w) ∷ put k v d))
    go r true e = h
    go r false e = (All-keys-put (λ i. (j == i) ≡ false) k v d e h.0, r)

module _ {V St : Type 0} ⦃ev : Eq V⦄ (S : ObjectStore V St) (is_dir : V → Bool)
    (zero_value empty_value : V) where
  get-view-none : (t : Tree V St) (q : Pathname) → view S t q ≡ none → get q t.cache ≡ none
  get-view-none t q h = elim (Option-cases (get q t.cache)) [
    | inl e ↦ e
    | inr (d, e) ↦ absurd (ground (arith, h, view-hit S t q d e))
  ]

  -- The directory that an added file is put in.
  record Receives (name : Text) (o : Option (Directory V)) : Type 0 where
    parent : Directory V
    found : parent_of_file o ≡ ok parent
    mutable : parent.mutable ≡ true
    free : has name parent.metadata ≡ false
    entry : (st : St) → subdir_of S st name (some parent) ≡ subdir_of S st name o

  parent_of_file-Receives :
      (name : Text) (o : Option (Directory V))
      → (dot == name) ≡ false
      → has_file name o ≡ false
      → Receives name o
  unfolding parent_of_file get_subdir_object_id Directory.add_file Directory.require_mutable has put
      get
  parent_of_file-Receives name none n h = record {
    parent = record {
      metadata = (dot, record { chunk_ids = []; values = [] }) ∷ [];
      subdirs = [];
      mutable = true;
    };
    found = refl;
    mutable = refl;
    free = ground (arith, n);
    entry = λ st. refl;
  }
  parent_of_file-Receives name (some d) n h = elim (Bool-cases d.mutable) [
    | inl c ↦ record {
      parent = d;
      found = ground (arith, c);
      mutable = c;
      free = h;
      entry = λ st. refl;
    }
    | inr c ↦ record {
      parent = create_from d;
      found = ground (arith, c);
      mutable = refl;
      free = h;
      entry = λ st. refl;
    }
  ]

  -- a file is found in its directory where no directory has its path
  pub get_dir_obj-parent :
      (fm : FileMetadata V St) (name : Text) (p : Pathname) (d : Directory V)
      → view S fm.tree (name ∷ p) ≡ none
      → view S fm.tree p ≡ some d
      → (fm' : FileMetadata V St) × (get_dir_obj S fm (name ∷ p)
          ≡ (some (record { dir_obj = d; dir_path = p; name = name }), fm'))
  unfolding get_dir_obj
  get_dir_obj-parent fm name p d h k =
      let r1 = get_directory-Read S (name ∷ p) fm.tree in
      let t1 = (get_directory S (name ∷ p) fm.tree).1 in
      let r2 = get_directory-Read S p t1 in
      let t2 = (get_directory S p t1).1 in
      (
        with_tree fm t2,
        ap (λ o. (let (found, t) = found_or_parent S (name ∷ p) (o, t1) in (found, with_tree fm t)))
              (r1.value ∙ h)
            ∙ ap
                (λ o.
                  (let (found, t) = found_in_parent S (name ∷ p) (o, t2) in
                    (found, with_tree fm t)))
                (r2.value ∙ r1.same p ∙ k),
      )

  subdir_of-subdirs :
      (st : St) (name : Text) (d e : Directory V)
      → d.subdirs ≡ e.subdirs
      → subdir_of S st name (some d) ≡ subdir_of S st name (some e)
  unfolding get_subdir_object_id
  subdir_of-subdirs st name d e h =
      ap (λ (s : Dict Text (Option Text)). subdir_of S st name (some (record d { subdirs = s }))) h

  -- The tree in which a file was put in its directory.
  pub record Filed (name : Text) (p : Pathname) (file : AddedFile V) (t t' : Tree V St)
      : Type 0 where
    pub filled : Directory V
    pub before : Directory V
    pub holds : Holds name file.chunks (changed_values file.file_keys (λ k. none)) before filled
    pub here : view S t' p ≡ some filled
    pub no_dir : view S t' (name ∷ p) ≡ none
    pub beside : (q : Pathname) → inside p q ≡ false → inside q p ≡ false → view S t' q ≡ view S t q

  pub flush_file-Filed :
      (name : Text) (p : Pathname) (file : AddedFile V) (t : Tree V St)
      → (dot == name) ≡ false
      → has_file name (view S t p) ≡ false
      → view S t (name ∷ p) ≡ none
      → (t' : Tree V St) × (flush_file S is_dir zero_value empty_value name p file
            (get_directory S p t)
          ≡ ok t')
        × Filed name p file t t'
  unfolding flush_file
  flush_file-Filed name p file t n h k =
      let r = get_directory-Read S p t in
      let t1 = (get_directory S p t).1 in
      let P = parent_of_file-Receives name (view S t p) n h in
      let (filled, e, H) = with_file-Holds name file P.parent P.mutable P.free in
      let (t', e', Q) = set_directory-Placed S p filled t1 in
      let out = inside-shorter p (name ∷ p) (omega arith) in
      (
        t',
        ap (λ o. parent_of_file o >>= λ a. with_file name file a >>= λ b. set_directory S p b t1)
              r.value
            ∙ ap (λ o. o >>= λ a. with_file name file a >>= λ b. set_directory S p b t1) P.found
            ∙ ap (λ o. o >>= λ b. set_directory S p b t1) e
            ∙ e',
        record {
          filled = filled;
          before = P.parent;
          holds = H;
          here = Q.here;
          no_dir =
              view-step S name p t1 t' (Q.below (name ∷ p) out) Q.store Q.root (
                ap (λ o. subdir_of S t1.store name o) Q.here
                ∙ subdir_of-subdirs t1.store name filled P.parent H.subdirs
                ∙ P.entry t1.store
                ∙ ap (λ o. subdir_of S t1.store name o) (sym (r.same p)))
              ∙ r.same (name ∷ p)
              ∙ k;
          beside = λ q i j. Q.beside q i j ∙ r.same q;
        },
      )
