-- ===== src/Trees/Links.antt =====
-- Reads and `set_directory` of obnamlib/fmt_ga/tree.py keep the directories that are only in memory
-- cached, so that a flush finds them.
use obnam.Prelude.{
  ◌≡◌, refl, sym, ap, subst, ◌∙◌, true, Option, none, some, some-injective, [], ◌∷◌, arith, inl,
  inr,
}
use obnam.Prelude.Tests.{Bool-cases}
use obnam.Prelude.Keys.{◌==◌, nat_eq, list_eq, beq_refl, eq_of_beq}
use obnam.Prelude.Dict.{Dict, get, put, has, get-put_self, get-put_other}
use obnam.Prelude.Result.{ok}
use obnam.Bag.ObjectId.{Text}
use obnam.Directories.Directory.{
  Directory, set_immutable, add_file, require_mutable, create_from, get_subdir_object_id,
}
use obnam.Trees.Paths.{Pathname, dot}
use obnam.Trees.Tree.{
  ObjectStore, Tree, cached, frozen, get_dir_obj, subdir_of, root_object, lookup_or, get_directory,
  parent_or, parent_for, set_directory,
}
use obnam.Trees.Views.{get_directory-Read}
use obnam.Trees.Parents.{grown, entry-grown}
use obnam.Trees.Sets.{set_directory-steps}
use obnam.Trees.Fixup.{Linked}

module _ {V St : Type 0} (S : ObjectStore V St) where
  abbrev pub Cached : Pathname → Dict Pathname (Directory V) → Type 0
  Cached q cache = (e : Directory V) × (get q cache ≡ some e)

  -- every stored object has an object id for each of its subdirectories
  abbrev pub Complete : St → Type 0
  Complete st =
      (i : Text) (d : Directory V) (n : Text)
      → S.get_object st i ≡ some d
      → ¬ (get n d.subdirs ≡ some none)

  -- the entries of a directory that are only in memory can be flushed
  abbrev pub CanFlush : Pathname → Directory V → Dict Pathname (Directory V) → Type 0
  CanFlush p d cache =
      (n : Text) → get n d.subdirs ≡ some none → (d.mutable ≡ true) × Cached (n ∷ p) cache

  Cached-put :
      (p q : Pathname) (d : Directory V) (cache : Dict Pathname (Directory V))
      → Cached q cache
      → Cached q (put p d cache)
  Cached-put p q d cache (e, h) = elim (Bool-cases (p == q)) [
    | inl c ↦ (d, get-put_self p q d cache c)
    | inr c ↦ (e, get-put_other p q d cache c ∙ h)
  ]

  Linked-put :
      (p : Pathname) (d : Directory V) (cache : Dict Pathname (Directory V))
      → Linked S cache
      → CanFlush p d cache
      → Linked S (put p d cache)
  Linked-put p d cache L f = record {
    mutable = λ q c n h g. (go q c n h g).0;
    next = λ q c n h g. Cached-put p (n ∷ q) d cache (go q c n h g).1;
  }
    where
      go :
          (q : Pathname) (c : Directory V) (n : Text)
          → get q (put p d cache) ≡ some c
          → get n c.subdirs ≡ some none
          → (c.mutable ≡ true) × (Cached (n ∷ q) cache)
      go q c n h g = elim (Bool-cases (p == q)) [
        | inl x ↦
            let e : d ≡ c = some-injective d c (sym (get-put_self p q d cache x) ∙ h) in
            let (m, r) = f n (ap (λ (y : Directory V). get n y.subdirs) e ∙ g) in
            (
              ap (λ (y : Directory V). y.mutable) (sym e) ∙ m,
              subst (λ y. Cached (n ∷ y) cache) (eq_of_beq p q x) r,
            )
        | inr x ↦
            let h' = sym (get-put_other p q d cache x) ∙ h in
            (L.mutable q c n h' g, L.next q c n h' g)
      ]

  -- What a read of a path does to the cache.
  pub record Kept (p : Pathname) (t : Tree V St) (r : Option (Directory V) × Tree V St)
      : Type 0 where
    pub linked : Linked S r.1.cache
    pub still : (q : Pathname) → Cached q t.cache → Cached q r.1.cache
    pub found : (d : Directory V) → r.0 ≡ some d → get p r.1.cache ≡ some d

  -- no subdirectory of what was read is only in memory
  abbrev AllStored : Option (Directory V) → Type 0
  AllStored o = (d : Directory V) (n : Text) → o ≡ some d → ¬ (get n d.subdirs ≡ some none)

  lookup_or-Kept :
      (p : Pathname) (t t' : Tree V St) (hit : Option (Directory V)) (root : Option Text)
      → (read : Option (Directory V)) → get p t.cache ≡ hit
      → Linked S t.cache
      → Linked S t'.cache
      → ((q : Pathname) → Cached q t.cache → Cached q t'.cache)
      → AllStored read
      → Kept p t (lookup_or S p t hit root (read, t'))
  unfolding lookup_or
  lookup_or-Kept p t t' (some d) root read h L L' k a = record {
    linked = L;
    still = λ q c. c;
    found = λ e x. h ∙ x;
  }
  lookup_or-Kept p t t' none none read h L L' k a = record {
    linked = L;
    still = λ q c. c;
    found = λ e x. absurd (ground (arith, x));
  }
  lookup_or-Kept p t t' none (some i) none h L L' k a = record {
    linked = L';
    still = k;
    found = λ e x. absurd (ground (arith, x));
  }
  lookup_or-Kept p t t' none (some i) (some d) h L L' k a = record {
    linked = Linked-put p d t'.cache L' (λ n g. absurd (a d n refl g));
    still = λ q c. Cached-put p q d t'.cache (k q c);
    found = λ e x. get-put_self p p d t'.cache (beq_refl p) ∙ x;
  }

  frozen-AllStored : (o : Option (Directory V)) → AllStored o → AllStored (frozen o)
  frozen-AllStored none a d n h g = absurd (ground (arith, h))
  frozen-AllStored (some e) a d n h g =
      a e n refl
        (ap (λ (x : Directory V). get n x.subdirs) (some-injective (set_immutable e) d h) ∙ g)

  root_object-AllStored : (st : St) (i : Option Text) → Complete st → AllStored (root_object S st i)
  unfolding get_dir_obj
  root_object-AllStored st none C = λ d n h g. absurd (ground (arith, h))
  root_object-AllStored st (some i) C = frozen-AllStored (S.get_object st i) (λ d n. C i d n)

  entry-AllStored :
      (st : St) (i : Option Text)
      → Complete st
      → AllStored
          (elim i as (λ x. Option (Directory V)) [ none ↦ none | some j ↦ get_dir_obj S st j ])
  entry-AllStored st none C = λ d n h g. absurd (ground (arith, h))
  entry-AllStored st (some i) C = root_object-AllStored st (some i) C

  subdir_of-AllStored :
      (st : St) (n : Text) (o : Option (Directory V)) → Complete st → AllStored (subdir_of S st n o)
  subdir_of-AllStored st n none C = λ d k h g. absurd (ground (arith, h))
  subdir_of-AllStored st n (some e) C = entry-AllStored st (get_subdir_object_id e n) C

  pub get_directory-Kept :
      (p : Pathname) (t : Tree V St)
      → Complete t.store
      → Linked S t.cache
      → Kept p t (get_directory S p t)
  unfolding get_directory
  get_directory-Kept [] t C L =
      lookup_or-Kept [] t t (get [] t.cache) t.root_dir_id (root_object S t.store t.root_dir_id)
        refl L L (λ q c. c) (root_object-AllStored t.store t.root_dir_id C)
  get_directory-Kept (n ∷ p) t C L =
      let r = get_directory-Kept p t C L in
      let (parent, t') = get_directory S p t in
      let C' = subst Complete (sym (get_directory-Read S p t).store) C in
      lookup_or-Kept (n ∷ p) t t' (get (n ∷ p) t.cache) t.root_dir_id
        (subdir_of S t'.store n parent) refl L r.linked r.still
        (subdir_of-AllStored t'.store n parent C')

  -- The parent that `set_directory` changes, in the tree after it was looked up.
  record ParentLinks (p : Pathname) (t : Tree V St) : Type 0 where
    parent : Directory V
    tree : Tree V St
    returns : parent_for S p t ≡ ok (parent, tree)
    linked : Linked S tree.cache
    still : (q : Pathname) → Cached q t.cache → Cached q tree.cache
    below : (n : Text) → get n parent.subdirs ≡ some none → Cached (n ∷ p) tree.cache
    store : tree.store ≡ t.store

  abbrev new_parent : Directory V
  new_parent = record {
    metadata = (dot, record { chunk_ids = []; values = [] }) ∷ [];
    subdirs = [];
    mutable = true;
  }

  no_entry : (n : Text) → ¬ (get n new_parent.subdirs ≡ some none)
  unfolding get
  no_entry n h = ground (arith, h)

  parent_or-ParentLinks :
      (p : Pathname) (t t' : Tree V St) (hit read : Option (Directory V))
      → get p t.cache ≡ hit
      → Linked S t.cache
      → Kept p t (read, t')
      → t'.store ≡ t.store
      → parent_for S p t ≡ parent_or S hit (read, t') t
      → ParentLinks p t
  unfolding parent_or add_file require_mutable has put
  parent_or-ParentLinks p t t' (some d) read h L k s e = record {
    parent = d;
    tree = t;
    returns = e;
    linked = L;
    still = λ q c. c;
    below = λ n g. L.next p d n h g;
    store = refl;
  }
  parent_or-ParentLinks p t t' none (some d) h L k s e = record {
    parent = create_from d;
    tree = t';
    returns = e;
    linked = k.linked;
    still = k.still;
    below = λ n g. k.linked.next p d n (k.found d refl) g;
    store = s;
  }
  parent_or-ParentLinks p t t' none none h L k s e = record {
    parent = new_parent;
    tree = t';
    returns = e;
    linked = k.linked;
    still = k.still;
    below = λ n g. absurd (no_entry n g);
    store = s;
  }

  parent_for-ParentLinks :
      (p : Pathname) (t : Tree V St) → Complete t.store → Linked S t.cache → ParentLinks p t
  unfolding parent_for
  parent_for-ParentLinks p t C L =
      let (read, t') = get_directory S p t in
      parent_or-ParentLinks p t t' (get p t.cache) read refl L (get_directory-Kept p t C L)
        (get_directory-Read S p t).store refl

  grown-CanFlush :
      (n : Text) (p : Pathname) (parent : Directory V) (cache : Dict Pathname (Directory V))
      → Cached (n ∷ p) cache
      → ((k : Text) → get k parent.subdirs ≡ some none → Cached (k ∷ p) cache)
      → CanFlush p (grown n (some parent)) cache
  grown-CanFlush n p parent cache c f k h = elim (Bool-cases (n == k)) [
    | inl x ↦ (refl, subst (λ m. Cached (m ∷ p) cache) (eq_of_beq n k x) c)
    | inr x ↦ (refl, f k (sym (get-put_other n k none parent.subdirs x) ∙ h))
  ]

  -- Setting a directory whose entries can be flushed keeps every directory that is only in memory cached,
  -- if each subdirectory of a stored object is stored.
  pub set_directory-Linked :
      (p : Pathname) (d : Directory V) (t : Tree V St)
      → Complete t.store
      → Linked S t.cache
      → CanFlush p d t.cache
      → (t' : Tree V St) × (set_directory S p d t ≡ ok t') × Linked S t'.cache
  unfolding set_directory
  set_directory-Linked [] d t C L f = (cached [] d t, refl, Linked-put [] d t.cache L f)
  set_directory-Linked (n ∷ p) d t C L f =
      let t1 = cached (n ∷ p) d t in
      let P = parent_for-ParentLinks p t1 C (Linked-put (n ∷ p) d t.cache L f) in
      let here = P.still (n ∷ p) (d, get-put_self (n ∷ p) (n ∷ p) d t.cache (beq_refl (n ∷ p))) in
      let changed = grown n (some P.parent) in
      let (t', e, L') =
        set_directory-Linked p changed P.tree (subst Complete (sym P.store) C) P.linked
          (grown-CanFlush n p P.parent P.tree.cache here P.below) in
      (
        t',
        set_directory-steps S n p d P.parent changed t P.tree t' P.returns
            (entry-grown S P.parent n) e,
        L',
      )
