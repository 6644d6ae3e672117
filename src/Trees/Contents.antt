-- ===== src/Trees/Contents.antt =====
-- What a path of a tree stands for, from the cache and the stored objects alone, and that reads of
-- obnamlib/fmt_ga/tree.py return it.
use obnam.Prelude.{◌≡◌, refl, sym, ap, ◌∙◌, Option, none, some, [], ◌∷◌}
use obnam.Prelude.Keys.{nat_eq, list_eq}
use obnam.Prelude.Dict.{get}
use obnam.Bag.ObjectId.{Text}
use obnam.Directories.Directory.{Directory, get_subdir_object_id, or_none}
use obnam.Trees.Paths.{Pathname}
use obnam.Trees.Tree.{ObjectStore, Tree, frozen, get_dir_obj, subdir_of, root_object, get_directory}
use obnam.Trees.Views.{or_read, if_root, view, get_directory-Read}

module _ {V St : Type 0} (S : ObjectStore V St) where
  -- the object of an id, if there is an id; an object that is read cannot be changed
  abbrev pub object : St → Option Text → Option (Directory V)
  object st none = none
  object st (some i) = frozen (S.get_object st i)

  -- the object of an entry of a directory
  abbrev pub entry : St → Text → Option (Directory V) → Option (Directory V)
  entry st name none = none
  entry st name (some d) = object st (or_none (get name d.subdirs))

  -- A path that is cached stands for the directory in the cache; another one for the stored object
  -- that the root, or the entry in what the path of its parent stands for, has the id of.
  unfoldable pub contents : Tree V St → Pathname → Option (Directory V)
  contents t [] = or_read S (get [] t.cache) (object t.store t.root_dir_id)
  contents t (name ∷ parent_path) =
      or_read S (get (name ∷ parent_path) t.cache)
        (if_root S t.root_dir_id (entry t.store name (contents t parent_path)))

  root_object-object :
      (st : St) (root : Option Text) → if_root S root (root_object S st root) ≡ object st root
  unfolding get_dir_obj
  root_object-object st none = refl
  root_object-object st (some i) = refl

  subdir_of-entry :
      (st : St) (name : Text) (o : Option (Directory V)) → subdir_of S st name o ≡ entry st name o
  unfolding get_dir_obj get_subdir_object_id
  subdir_of-entry st name none = refl
  subdir_of-entry st name (some d) = go (or_none (get name d.subdirs))
    where
      go :
          (i : Option Text)
          → (elim i as (λ x. Option (Directory V)) [ none ↦ none | some j ↦ get_dir_obj S st j ])
            ≡ object st i
      go none = refl
      go (some j) = refl

  view-contents : (t : Tree V St) (p : Pathname) → view S t p ≡ contents t p
  unfolding view contents
  view-contents t [] = ap (or_read S (get [] t.cache)) (root_object-object t.store t.root_dir_id)
  view-contents t (n ∷ p) =
      ap (λ o. or_read S (get (n ∷ p) t.cache) (if_root S t.root_dir_id (subdir_of S t.store n o)))
        (view-contents t p)
      ∙ ap (λ o. or_read S (get (n ∷ p) t.cache) (if_root S t.root_dir_id o))
          (subdir_of-entry t.store n (contents t p))

  -- `get_directory` returns what its path stands for in the cache and the stored objects, and no path
  -- stands for anything else afterwards. It leaves the store and the root as they are.
  pub get_directory-contents :
      (p : Pathname) (t : Tree V St)
      → ((get_directory S p t).0 ≡ contents t p)
        × ((q : Pathname) → contents (get_directory S p t).1 q ≡ contents t q)
        × ((get_directory S p t).1.store ≡ t.store)
        × ((get_directory S p t).1.root_dir_id ≡ t.root_dir_id)
  get_directory-contents p t =
      let r = get_directory-Read S p t in
      let t' = (get_directory S p t).1 in
      (
        r.value ∙ view-contents t p,
        λ q. sym (view-contents t' q) ∙ r.same q ∙ view-contents t q,
        r.store,
        r.root,
      )
