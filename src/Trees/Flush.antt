-- ===== src/Trees/Flush.antt =====
-- What a tree reads as after `flush` of obnamlib/fmt_ga/tree.py.
use obnam.Prelude.{
  ◌≡◌, refl, sym, ap, subst, ◌∙◌, true, Option, none, some, some-injective, [], ◌∷◌, arith,
}
use obnam.Prelude.Keys.{nat_eq, list_eq}
use obnam.Prelude.Dict.{Dict, keys, get, has, has-get}
use obnam.Prelude.Result.{ok}
use obnam.Bag.ObjectId.{Text}
use obnam.Directories.Directory.{Directory, set_immutable, get_subdir_object_id, or_none}
use obnam.Trees.Paths.{Pathname}
use obnam.Trees.Tree.{
  ObjectStore, Tree, frozen, get_dir_obj, subdir_of, fixup_subdir_refs, depth, flushed, flush,
}
use obnam.Trees.Views.{view}
use obnam.Trees.Fixup.{
  Keeping, Keeps, id_in, StandsFor, stands, StandsFor-Keeps, Linked, fixup_subdir_refs-Stored,
}

module _ {V St : Type 0} (S : ObjectStore V St) where
  -- The directories that are only in memory and can be reached from the root.
  pub data Fresh (cache : Dict Pathname (Directory V)) : Pathname → Type 0 where
    fresh_root : Fresh cache []
    fresh_sub :
        (n : Text) (q : Pathname) (d : Directory V)
        → Fresh cache q
        → get q cache ≡ some d
        → get n d.subdirs ≡ some none
        → Fresh cache (n ∷ q)

  -- a tree without a cache
  abbrev pub bare : St → Text → Tree V St
  bare st root = record { store = st; root_dir_id = some root; cache = [] }

  -- What a path reads as in the tree that is flushed: a stored object that stands for its directory.
  abbrev StoredAt : Dict Pathname (Directory V) → St → Text → Pathname → Type 0
  StoredAt cache st root q =
      (i : Text) × StandsFor S cache st q i × (view S (bare st root) q ≡ get_dir_obj S st i)

  stored_sub :
      (cache : Dict Pathname (Directory V)) (st : St) (root : Text) (n : Text) (q : Pathname)
      → (d : Directory V) (i : Text) → get q cache ≡ some d
      → get n d.subdirs ≡ some none
      → StandsFor S cache st q i
      → view S (bare st root) q ≡ get_dir_obj S st i
      → StoredAt cache st root (n ∷ q)
  unfolding view get get_dir_obj get_subdir_object_id
  stored_sub cache st root n q d i h g (stands d' o c s m ks old new below) v =
      let same : d' ≡ d = some-injective d' d (sym c ∙ h) in
      let g' : get n d'.subdirs ≡ some none = ap (λ (x : Directory V). get n x.subdirs) same ∙ g in
      (
        id_in (get n o.subdirs),
        below n g',
        ap (λ x. subdir_of S st n x) (v ∙ ap (λ (x : Option (Directory V)). frozen x) s)
            ∙ ap
                (λ (x : Option (Option Text)). elim (or_none x) as (λ y. Option (Directory V)) [
                  | none ↦ none
                  | some j ↦ get_dir_obj S st j
                ])
                (new n g'),
      )

  read-Fresh :
      (cache : Dict Pathname (Directory V)) (st : St) (root : Text) (q : Pathname)
      → StandsFor S cache st [] root
      → Fresh cache q
      → StoredAt cache st root q
  unfolding view get
  read-Fresh cache st root q s fresh_root = (root, s, refl)
  read-Fresh cache st root q s (fresh_sub n p d f h g) =
      let (i, s', v) = read-Fresh cache st root p s f in stored_sub cache st root n p d i h g s' v

  -- A stored object that reads as a directory did, with an id for each of its subdirectories.
  pub record ReadsAs (d e : Directory V) : Type 0 where
    pub metadata : e.metadata ≡ d.metadata
    pub names : keys e.subdirs ≡ keys d.subdirs
    pub old : (n j : Text) → get n d.subdirs ≡ some (some j) → get n e.subdirs ≡ some (some j)
    pub new :
        (n : Text) → get n d.subdirs ≡ some none → (j : Text) × (get n e.subdirs ≡ some (some j))

  stored-ReadsAs :
      (cache : Dict Pathname (Directory V)) (st : St) (root : Text) (q : Pathname) (d : Directory V)
      → get q cache ≡ some d
      → StoredAt cache st root q
      → (e : Directory V) × (view S (bare st root) q ≡ some e) × ReadsAs d e
  unfolding get_dir_obj
  stored-ReadsAs cache st root q d h (i, stands d' o c s m ks old new below, v) =
      let same : d ≡ d' = some-injective d d' (sym h ∙ c) in
      (
        set_immutable o,
        v ∙ ap (λ (x : Option (Directory V)). frozen x) s,
        subst (λ x. ReadsAs x (set_immutable o)) (sym same)
            (record {
              metadata = m;
              names = ks;
              old = old;
              new = λ n g. (id_in (get n o.subdirs), new n g);
            }),
      )

  -- What a tree is once it is flushed: what it reads itself, and what a new tree reads that is opened
  -- with its root on a new store.
  pub record FlushedTree (K : Keeping S) (t t' : Tree V St) : Type 0 where
    pub root : Text
    pub root_set : t'.root_dir_id ≡ some root
    pub reads_again :
        (q : Pathname) (d : Directory V)
        → Fresh t.cache q
        → get q t.cache ≡ some d
        → (e : Directory V) × (view S (bare (K.reopened t'.store) root) q ≡ some e) × ReadsAs d e
    pub reads :
        (q : Pathname) (d : Directory V)
        → Fresh t.cache q
        → get q t.cache ≡ some d
        → (e : Directory V) × (view S t' q ≡ some e) × ReadsAs d e
    pub keeps : Keeps S t.store t'.store
    pub cleared : t'.cache ≡ []

  flush-steps :
      (t : Tree V St) (i : Text) (st : St)
      → has [] t.cache ≡ true
      → fixup_subdir_refs S (depth S t.cache) t.cache [] t.store ≡ ok (i, st)
      → flush S t ≡ ok (flushed S t (some i) st)
  unfolding flush
  flush-steps t i st h r = ground (arith, h, r)

  -- A tree with a cached root is flushed without an error, if each cached directory that has an entry
  -- without an object id can be changed and that subdirectory is cached, and if the store keeps what is
  -- put in it, and when it is opened again what was flushed. Each directory that was only in memory then
  -- reads with the same files and the same subdirectories, all of which have object ids, those that they
  -- had if they had one: both in the tree and in a new tree that is opened with its root on the store
  -- opened again. Every object in the store stays, and the cache is empty.
  pub flush-FlushedTree :
      (t : Tree V St) (d : Directory V)
      → (K : Keeping S) → Linked S t.cache
      → get [] t.cache ≡ some d
      → (t' : Tree V St) × (flush S t ≡ ok t') × FlushedTree K t t'
  flush-FlushedTree t d K L h =
      let (i, st, r, k, s) =
        fixup_subdir_refs-Stored S (depth S t.cache) t.cache [] d t.store K L h (omega arith) in
      let st' = S.flush_objects st in
      let kept =
        λ (j : Text) (x : Directory V) (g : S.get_object st j ≡ some x). K.flush_keeps st x j g in
      let s' = StandsFor-Keeps S t.cache st st' [] i kept s in
      let again = K.reopened st' in
      let s'' = StandsFor-Keeps S t.cache st' again [] i (λ j x. K.reopened_gives st x j) s' in
      (
        bare st' i,
        flush-steps t i st (has-get [] t.cache ∙ ground (arith, h)) r,
        record {
          root = i;
          root_set = refl;
          reads_again =
              λ q d f g. stored-ReadsAs t.cache again i q d g (read-Fresh t.cache again i q s'' f);
          reads = λ q d f g. stored-ReadsAs t.cache st' i q d g (read-Fresh t.cache st' i q s' f);
          keeps = λ j x g. kept j x (k j x g);
          cleared = refl;
        },
      )
