-- ===== src/Trees/Views.antt =====
-- What a tree reads as, without the caching that a read does, and that reads keep it.
use obnam.Prelude.{◌≡◌, refl, sym, ap, ◌∙◌, true, Option, none, some, [], ◌∷◌, arith, inl, inr}
use obnam.Prelude.Tests.{Bool-cases}
use obnam.Prelude.Keys.{◌==◌, nat_eq, list_eq, eq_of_beq}
use obnam.Prelude.Dict.{get, get-put_self, get-put_other}
use obnam.Bag.ObjectId.{Text}
use obnam.Directories.Directory.{Directory}
use obnam.Trees.Paths.{Pathname}
use obnam.Trees.Tree.{
  ObjectStore, Tree, cached, subdir_of, root_object, lookup_or, remember, get_directory,
}

module _ {V St : Type 0} (S : ObjectStore V St) where
  abbrev pub or_read : Option (Directory V) → Option (Directory V) → Option (Directory V)
  or_read none read = read
  or_read (some d) read = some d

  -- an object that is read through the root
  abbrev pub if_root : Option Text → Option (Directory V) → Option (Directory V)
  if_root none read = none
  if_root (some i) read = read

  -- the directory of a path
  unfoldable pub view : Tree V St → Pathname → Option (Directory V)
  view t [] = or_read (get [] t.cache) (if_root t.root_dir_id (root_object S t.store t.root_dir_id))
  view t (name ∷ parent_path) =
      or_read (get (name ∷ parent_path) t.cache)
        (if_root t.root_dir_id (subdir_of S t.store name (view t parent_path)))

  pub view-hit :
      (t : Tree V St) (q : Pathname) (d : Directory V) → get q t.cache ≡ some d → view t q ≡ some d
  unfolding view
  view-hit t [] d h = ground (arith, h)
  view-hit t (n ∷ q) d h = ground (arith, h)

  view-put_self :
      (t : Tree V St) (p q : Pathname) (d : Directory V)
      → (p == q) ≡ true
      → view t p ≡ some d
      → view (cached p d t) q ≡ view t q
  view-put_self t p q d c h =
      view-hit (cached p d t) q d (get-put_self p q d t.cache c)
      ∙ sym h
      ∙ ap (view t) (eq_of_beq p q c)

  -- caching what a path reads as changes nothing of what is read
  pub view-cached :
      (t : Tree V St) (p q : Pathname) (d : Directory V)
      → view t p ≡ some d
      → view (cached p d t) q ≡ view t q
  unfolding view
  view-cached t p [] d h = elim (Bool-cases (p == [])) [
    | inl c ↦ view-put_self t p [] d c h
    | inr c ↦ ground (arith, get-put_other p [] d t.cache c)
  ]
  view-cached t p (n ∷ q) d h = elim (Bool-cases (p == n ∷ q)) [
    | inl c ↦ view-put_self t p (n ∷ q) d c h
    | inr c ↦ ground (arith, get-put_other p (n ∷ q) d t.cache c, view-cached t p q d h)
  ]

  -- A read of a path in a tree: what it returns, and that it changes nothing that can be read.
  pub record Read (p : Pathname) (t : Tree V St) (r : Option (Directory V) × Tree V St)
      : Type 0 where
    pub value : r.0 ≡ view t p
    pub same : (q : Pathname) → view r.1 q ≡ view t q
    pub store : r.1.store ≡ t.store
    pub root : r.1.root_dir_id ≡ t.root_dir_id

  remember-Read :
      (p : Pathname) (t t' : Tree V St) (o : Option (Directory V))
      → Read p t (o, t')
      → Read p t (remember S p (o, t'))
  remember-Read p t t' none r = r
  remember-Read p t t' (some d) r = record {
    value = r.value;
    same = λ q. view-cached t' p q d (r.same p ∙ sym r.value) ∙ r.same q;
    store = r.store;
    root = r.root;
  }

  lookup_or-Read :
      (p : Pathname) (t t' : Tree V St) (hit : Option (Directory V)) (root : Option Text)
      → (read : Option (Directory V)) → view t p ≡ or_read hit (if_root root read)
      → ((q : Pathname) → view t' q ≡ view t q)
      → t'.store ≡ t.store
      → t'.root_dir_id ≡ t.root_dir_id
      → Read p t (lookup_or S p t hit root (read, t'))
  unfolding lookup_or
  lookup_or-Read p t t' (some d) root read h s e f = record {
    value = sym h;
    same = λ q. refl;
    store = refl;
    root = refl;
  }
  lookup_or-Read p t t' none none read h s e f = record {
    value = sym h;
    same = λ q. refl;
    store = refl;
    root = refl;
  }
  lookup_or-Read p t t' none (some i) read h s e f =
      remember-Read p t t' read (record { value = sym h; same = s; store = e; root = f })

  -- `get_directory` returns what its path reads as, and no path reads otherwise afterwards. It leaves
  -- the store and the root as they are.
  pub get_directory-Read : (p : Pathname) (t : Tree V St) → Read p t (get_directory S p t)
  unfolding get_directory view
  get_directory-Read [] t =
      lookup_or-Read [] t t (get [] t.cache) t.root_dir_id (root_object S t.store t.root_dir_id)
        refl (λ q. refl) refl refl
  get_directory-Read (n ∷ p) t =
      let r = get_directory-Read p t in
      let (parent, t') = get_directory S p t in
      lookup_or-Read (n ∷ p) t t' (get (n ∷ p) t.cache) t.root_dir_id
        (subdir_of S t'.store n parent) (ground (arith, r.value, r.store)) r.same r.store r.root
