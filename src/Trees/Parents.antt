-- ===== src/Trees/Parents.antt =====
-- The parent of a directory that is set: what a read caches, and the entry that is made.
use obnam.Prelude.{
  ◌≡◌, refl, sym, ap, ◌∙◌, true, false, Option, none, some, [], ◌∷◌, arith, inl, inr,
}
use obnam.Prelude.Tests.{Bool-cases}
use obnam.Prelude.Keys.{◌==◌, nat_eq, list_eq, beq_refl, eq_of_beq}
use obnam.Prelude.Dict.{get, put, has, get-put_other}
use obnam.Prelude.Result.{ok}
use obnam.Bag.ObjectId.{Text}
use obnam.Directories.Directory.{Directory, add_file, add_subdir, require_mutable, create_from}
use obnam.Trees.Paths.{Pathname, dot}
use obnam.Trees.Tree.{
  ObjectStore, Tree, cached, as_mutable, subdir_of, root_object, lookup_or, get_directory,
  parent_or, parent_for,
}
use obnam.Trees.Views.{view, view-hit, Read, get_directory-Read}
use obnam.Trees.Inside.{inside, inside_tail, inside_tail_eq}

-- a directory, or a new one, with an entry for a subdirectory that is only in memory
abbrev pub grown : {V : Type 0} → Text → Option (Directory V) → Directory V
grown name none = record {
  metadata = (dot, record { chunk_ids = []; values = [] }) ∷ [];
  subdirs = (name, none) ∷ [];
  mutable = true;
}
grown name (some d) = record {
  metadata = d.metadata;
  subdirs = put name none d.subdirs;
  mutable = true;
}

module _ {V St : Type 0} (S : ObjectStore V St) where
  -- reading a path caches the path and directories above it only
  lookup_or-cache :
      (p q : Pathname) (t t' : Tree V St) (hit : Option (Directory V)) (root : Option Text)
      → (read : Option (Directory V)) → (p == q) ≡ false
      → get q t'.cache ≡ get q t.cache
      → get q (lookup_or S p t hit root (read, t')).1.cache ≡ get q t.cache
  unfolding lookup_or
  lookup_or-cache p q t t' (some d) root read h e = refl
  lookup_or-cache p q t t' none none read h e = refl
  lookup_or-cache p q t t' none (some i) none h e = e
  lookup_or-cache p q t t' none (some i) (some d) h e = get-put_other p q d t'.cache h ∙ e

  pub get_directory-cache :
      (p q : Pathname) (t : Tree V St)
      → inside p q ≡ false
      → get q (get_directory S p t).1.cache ≡ get q t.cache
  unfolding get_directory
  get_directory-cache [] q t h =
      lookup_or-cache [] q t t (get [] t.cache) t.root_dir_id (root_object S t.store t.root_dir_id)
        (unfold inside in h) refl
  get_directory-cache (n ∷ p) q t h =
      let (parent, t') = get_directory S p t in
      lookup_or-cache (n ∷ p) q t t' (get (n ∷ p) t.cache) t.root_dir_id
        (subdir_of S t'.store n parent) (inside_tail_eq n p q h)
        (get_directory-cache p q t (inside_tail n p q h))

  beq_sym : (p q : Pathname) → (q == p) ≡ false → (p == q) ≡ false
  beq_sym p q h = elim (Bool-cases (p == q)) [
    | inr c ↦ c
    | inl c ↦ absurd (ground (arith, h, beq_refl p, ap (λ r. r == p) (eq_of_beq p q c)))
  ]

  -- a path outside a directory reads the same when the directory is cached
  pub view-cached_other :
      (t : Tree V St) (p q : Pathname) (d : Directory V)
      → inside q p ≡ false
      → view S (cached p d t) q ≡ view S t q
  unfolding view
  view-cached_other t p [] d h =
      let e = get-put_other p [] d t.cache (beq_sym p [] (unfold inside in h)) in ground (arith, e)
  view-cached_other t p (n ∷ q) d h =
      let e = get-put_other p (n ∷ q) d t.cache (beq_sym p (n ∷ q) (inside_tail_eq n q p h)) in
      ground (arith, e, view-cached_other t p q d (inside_tail n q p h))

  -- The parent of a set directory: its state before the entry is made.
  pub record EntryMade (name : Text) (p : Pathname) (t : Tree V St) : Type 0 where
    pub parent : Directory V
    pub tree : Tree V St
    pub returns : parent_for S p t ≡ ok (parent, tree)
    pub entry : add_subdir (as_mutable parent) name none ≡ ok (grown name (view S t p))
    pub same : (q : Pathname) → view S tree q ≡ view S t q
    pub above : (q : Pathname) → inside p q ≡ false → get q tree.cache ≡ get q t.cache
    pub store : tree.store ≡ t.store
    pub root : tree.root_dir_id ≡ t.root_dir_id

  pub entry-grown :
      (d : Directory V) (name : Text)
      → add_subdir (as_mutable d) name none ≡ ok (grown name (some d))
  unfolding add_subdir require_mutable
  entry-grown d name = elim (Bool-cases d.mutable) [
    | inl c ↦ ground (arith, c)
    | inr c ↦ ground (arith, c)
  ]

  parent_or-EntryMade :
      (name : Text) (p : Pathname) (t t' : Tree V St) (hit read : Option (Directory V))
      → get p t.cache ≡ hit
      → Read S p t (read, t')
      → ((q : Pathname) → inside p q ≡ false → get q t'.cache ≡ get q t.cache)
      → parent_for S p t ≡ parent_or S hit (read, t') t
      → EntryMade name p t
  unfolding parent_or add_file add_subdir require_mutable has put
  parent_or-EntryMade name p t t' (some d) read h r a e = record {
    parent = d;
    tree = t;
    returns = e;
    entry = entry-grown d name ∙ ap (λ o. ok (grown name o)) (sym (view-hit S t p d h));
    same = λ q. refl;
    above = λ q i. refl;
    store = refl;
    root = refl;
  }
  parent_or-EntryMade name p t t' none (some d) h r a e = record {
    parent = create_from d;
    tree = t';
    returns = e;
    entry = entry-grown (create_from d) name ∙ ap (λ o. ok (grown name o)) r.value;
    same = r.same;
    above = a;
    store = r.store;
    root = r.root;
  }
  parent_or-EntryMade name p t t' none none h r a e = record {
    parent = record {
      metadata = (dot, record { chunk_ids = []; values = [] }) ∷ [];
      subdirs = [];
      mutable = true;
    };
    tree = t';
    returns = e;
    entry = ap (λ o. ok (grown name o)) r.value;
    same = r.same;
    above = a;
    store = r.store;
    root = r.root;
  }

  pub parent_for-EntryMade : (name : Text) (p : Pathname) (t : Tree V St) → EntryMade name p t
  unfolding parent_for
  parent_for-EntryMade name p t =
      parent_or-EntryMade name p t (get_directory S p t).1 (get p t.cache) (get_directory S p t).0
        refl (get_directory-Read S p t) (λ q h. get_directory-cache p q t h) refl
