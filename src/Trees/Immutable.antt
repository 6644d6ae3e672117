-- ===== src/Trees/Immutable.antt =====
-- What is read from the store is cached as an immutable object, and cannot be changed in the cache.
use obnam.Prelude.{◌≡◌, refl, sym, ap, ◌∙◌, false, Option, none, some, [], ◌∷◌, arith}
use obnam.Prelude.Keys.{nat_eq, list_eq, beq_refl}
use obnam.Prelude.Dict.{get, get-put_self}
use obnam.Prelude.Result.{raise}
use obnam.Bag.ObjectId.{Text}
use obnam.Directories.Directory.{Directory, immutable_error, get_subdir_object_id}
use obnam.Trees.Paths.{Pathname}
use obnam.Trees.Tree.{
  ObjectStore, Tree, frozen, get_dir_obj, subdir_of, root_object, lookup_or, get_directory,
  remove_directory,
}
use obnam.Trees.Views.{view, get_directory-Read, or_read, if_root}
use obnam.Trees.Removals.{can_change, remove_directory-immutable}

module _ {V St : Type 0} (S : ObjectStore V St) where
  frozen-immutable :
      (o : Option (Directory V)) (d : Directory V) → frozen o ≡ some d → d.mutable ≡ false
  frozen-immutable none d h = absurd (ground (arith, h))
  frozen-immutable (some e) d h = sym (ap (λ (o : Option (Directory V)). can_change o) h)

  root_object-immutable :
      (st : St) (i : Option Text) (d : Directory V)
      → root_object S st i ≡ some d
      → d.mutable ≡ false
  unfolding get_dir_obj
  root_object-immutable st none d h = absurd (ground (arith, h))
  root_object-immutable st (some i) d h = frozen-immutable (S.get_object st i) d h

  entry-immutable :
      (st : St) (i : Option Text) (d : Directory V)
      → (elim i [ none ↦ none | some j ↦ get_dir_obj S st j ]) ≡ some d
      → d.mutable ≡ false
  entry-immutable st none d h = absurd (ground (arith, h))
  entry-immutable st (some i) d h = root_object-immutable st (some i) d h

  subdir_of-immutable :
      (st : St) (n : Text) (o : Option (Directory V)) (d : Directory V)
      → subdir_of S st n o ≡ some d
      → d.mutable ≡ false
  subdir_of-immutable st n none d h = absurd (ground (arith, h))
  subdir_of-immutable st n (some e) d h = entry-immutable st (get_subdir_object_id e n) d h

  lookup_or-immutable :
      (p : Pathname) (t t' : Tree V St) (hit : Option (Directory V)) (root : Option Text)
      → (read : Option (Directory V)) (d : Directory V) → hit ≡ none
      → or_read S hit (if_root S root read) ≡ some d
      → ((e : Directory V) → read ≡ some e → e.mutable ≡ false)
      → can_change (get p (lookup_or S p t hit root (read, t')).1.cache) ≡ false
  unfolding lookup_or
  lookup_or-immutable p t t' (some e) root read d h v f = absurd (ground (arith, h))
  lookup_or-immutable p t t' none none read d h v f = absurd (ground (arith, v))
  lookup_or-immutable p t t' none (some i) none d h v f = absurd (ground (arith, v))
  lookup_or-immutable p t t' none (some i) (some e) d h v f =
      ap (λ o. can_change o) (get-put_self p p e t'.cache (beq_refl p)) ∙ f e refl

  -- what is read from the store is cached as it is, and is immutable
  cached_read-immutable :
      (p : Pathname) (d : Directory V) (t : Tree V St)
      → get p t.cache ≡ none
      → view S t p ≡ some d
      → can_change (get p (get_directory S p t).1.cache) ≡ false
  unfolding get_directory view
  cached_read-immutable [] d t h v =
      lookup_or-immutable [] t t (get [] t.cache) t.root_dir_id
        (root_object S t.store t.root_dir_id) d h v (root_object-immutable t.store t.root_dir_id)
  cached_read-immutable (n ∷ p) d t h v =
      let r = get_directory-Read S p t in
      let (parent, t') = get_directory S p t in
      lookup_or-immutable (n ∷ p) t t' (get (n ∷ p) t.cache) t.root_dir_id
        (subdir_of S t'.store n parent) d h (ground (arith, v, r.value, r.store))
        (subdir_of-immutable t'.store n parent)

  -- After a directory was read from the store, no directory can be removed from it.
  pub remove_directory-read :
      (n : Text) (p : Pathname) (d : Directory V) (t : Tree V St)
      → get p t.cache ≡ none
      → view S t p ≡ some d
      → remove_directory S (n ∷ p) (get_directory S p t).1 ≡ raise immutable_error
  remove_directory-read n p d t h e =
      remove_directory-immutable S n p (get_directory S p t).1 (cached_read-immutable p d t h e)
