-- ===== src/Trees/Reached.antt =====
-- Sequences of reads and sets of a tree, obnamlib/fmt_ga/tree.py, and that a flush after them succeeds.
use obnam.Prelude.{◌≡◌, sym, subst, ◌∙◌, Option, some, [], arith}
use obnam.Prelude.Keys.{nat_eq, list_eq}
use obnam.Prelude.Dict.{get}
use obnam.Prelude.Result.{ok, ok-injective}
use obnam.Bag.ObjectId.{Text}
use obnam.Directories.Directory.{Directory}
use obnam.Trees.Paths.{Pathname}
use obnam.Trees.Tree.{ObjectStore, Tree, get_directory, set_directory, flush}
use obnam.Trees.Views.{get_directory-Read}
use obnam.Trees.Sets.{set_directory-Placed}
use obnam.Trees.Fixup.{Keeping, Linked}
use obnam.Trees.Flush.{FlushedTree, flush-FlushedTree}
use obnam.Trees.Links.{Complete, CanFlush, get_directory-Kept, set_directory-Linked}

module _ {V St : Type 0} (S : ObjectStore V St) where
  -- The trees that reads and sets lead to, from a store whose objects have an object id for each of their
  -- subdirectories. A directory that is set has entries without an id only for directories in the cache.
  pub data Reached : Tree V St → Type 0 where
    starts :
        (st : St) (root : Option Text)
        → Complete S st
        → Reached (record { store = st; root_dir_id = root; cache = [] })
    reads : (p : Pathname) (t : Tree V St) → Reached t → Reached (get_directory S p t).1
    sets :
        (p : Pathname) (d : Directory V) (t t' : Tree V St)
        → Reached t
        → CanFlush S p d t.cache
        → set_directory S p d t ≡ ok t'
        → Reached t'

  empty-Linked : Linked S []
  unfolding get
  empty-Linked = record {
    mutable = λ q d n h g. absurd (ground (arith, h));
    next = λ q d n h g. absurd (ground (arith, h));
  }

  set_directory-both :
      (p : Pathname) (d : Directory V) (t t' : Tree V St)
      → Linked S t.cache
      → Complete S t.store
      → CanFlush S p d t.cache
      → set_directory S p d t ≡ ok t'
      → Linked S t'.cache × Complete S t'.store
  set_directory-both p d t t' L C f e =
      let (t1, e1, L1) = set_directory-Linked S p d t C L f in
      let (t2, e2, P) = set_directory-Placed S p d t in
      let same1 : t1 ≡ t' = ok-injective t1 t' (sym e1 ∙ e) in
      let same2 : t2 ≡ t' = ok-injective t2 t' (sym e2 ∙ e) in
      (
        subst (λ (x : Tree V St). Linked S x.cache) same1 L1,
        subst (λ (x : Tree V St). Complete S x.store) same2 (subst (Complete S) (sym P.store) C),
      )

  Reached-Linked : (t : Tree V St) → Reached t → Linked S t.cache × Complete S t.store
  Reached-Linked _ (starts st root C) = (empty-Linked, C)
  Reached-Linked _ (reads p t r) =
      let (L, C) = Reached-Linked t r in
      (
        (get_directory-Kept S p t C L).linked,
        subst (Complete S) (sym (get_directory-Read S p t).store) C,
      )
  Reached-Linked _ (sets p d t t' r f e) =
      let (L, C) = Reached-Linked t r in set_directory-both p d t t' L C f e

  -- After any reads and sets, a tree with a cached root is flushed without an error, if the store keeps
  -- what is put in it, and when it is opened again what was flushed, if the tree was opened on a store
  -- whose objects have an object id for each of their subdirectories, and if each directory that is set
  -- with an entry without an id can be changed and has cached directories for those entries. Each
  -- directory that was only in memory then reads with the same files and subdirectories, both in the
  -- tree and in a new tree that is opened with its root on the store opened again.
  pub flush-Reached :
      (t : Tree V St) (d : Directory V)
      → (K : Keeping S) → Reached t
      → get [] t.cache ≡ some d
      → (t' : Tree V St) × (flush S t ≡ ok t') × FlushedTree S K t t'
  flush-Reached t d K r h = flush-FlushedTree S t d K (Reached-Linked t r).0 h
