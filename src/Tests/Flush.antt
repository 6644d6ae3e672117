-- ===== src/Tests/Flush.antt =====
-- Tests of a flush of the directory tree, with lists for the store of objects.
use obnam.Prelude.{
  ℕ, zero, suc, ◌≡◌, refl, sym, ap, ◌∙◌, true, Option, none, some, some-injective, List, [], ◌∷◌,
  ◌++◌, arith, inl, inr,
}
use obnam.Prelude.Tests.{Bool-cases}
use obnam.Prelude.Lists.{length, get_elem?}
use obnam.Prelude.Keys.{◌==◌, nat_eq, list_eq, eq_of_beq}
use obnam.Prelude.Dict.{get}
use obnam.Prelude.Result.{ok}
use obnam.Bag.ObjectId.{Text}
use obnam.Directories.Directory.{Directory, set_immutable}
use obnam.Trees.Paths.{Pathname}
use obnam.Trees.Tree.{ObjectStore, Tree, flush}
use obnam.Trees.Fixup.{Keeping, Linked}
use obnam.Trees.Flush.{FlushedTree, flush-FlushedTree}
use obnam.Prelude.Dict.{put, has}
use obnam.Directories.Directory.{add_file, add_subdir, require_mutable}
use obnam.Trees.Paths.{dot}
use obnam.Trees.Tree.{set_directory, parent_for, parent_or, get_directory, lookup_or}
use obnam.Trees.Links.{Complete, CanFlush}
use obnam.Trees.Reached.{Reached, starts, sets, flush-Reached}

-- all objects, and those of them that were written to disk
record Objects : Type 0 where
  all : List (Directory ℕ)
  written : List (Directory ℕ)

-- an id is a place in the list
abbrev object_at : List (Directory ℕ) → Text → Option (Directory ℕ)
object_at st [] = none
object_at st (i ∷ []) = get_elem? st i
object_at st (i ∷ j ∷ more) = none

abbrev objects : ObjectStore ℕ Objects
objects = record {
  put_object = λ st d. (length st.all ∷ [], record st { all = st.all ++ set_immutable d ∷ [] });
  get_object = λ st i. object_at st.all i;
  flush_objects = λ st. record st { written = st.all };
}

abbrev no_object : Objects
no_object = record { all = []; written = [] }

get_elem?-last :
    (st : List (Directory ℕ)) (d : Directory ℕ) → get_elem? (st ++ d ∷ []) (length st) ≡ some d
get_elem?-last [] d = refl
get_elem?-last (e ∷ st) d = get_elem?-last st d

get_elem?-append :
    (st : List (Directory ℕ)) (d e : Directory ℕ) (i : ℕ)
    → get_elem? st i ≡ some e
    → get_elem? (st ++ d ∷ []) i ≡ some e
get_elem?-append [] d e i h = absurd (ground (arith, h))
get_elem?-append (c ∷ st) d e zero h = h
get_elem?-append (c ∷ st) d e (suc i) h = get_elem?-append st d e i h

object_at-append :
    (st : List (Directory ℕ)) (d e : Directory ℕ) (i : Text)
    → object_at st i ≡ some e
    → object_at (st ++ d ∷ []) i ≡ some e
object_at-append st d e [] h = h
object_at-append st d e (i ∷ []) h = get_elem?-append st d e i h
object_at-append st d e (i ∷ j ∷ more) h = h

objects-Keeping : Keeping objects
objects-Keeping = record {
  put_gives = λ st d. (set_immutable d, get_elem?-last st.all (set_immutable d), refl);
  put_keeps = λ st d e i h. object_at-append st.all (set_immutable d) e i h;
  flush_keeps = λ st e i h. h;
  reopened = λ st. record { all = st.written; written = st.written };
  reopened_gives = λ st e i h. h;
}

abbrev home : Text
home = b'h' ∷ []

abbrev leaf : Directory ℕ
leaf = record { metadata = []; subdirs = []; mutable = true }

abbrev top : Directory ℕ
top = record { metadata = []; subdirs = (home, none) ∷ []; mutable = true }

-- a tree of `/` and `/h`, both only in memory
abbrev unsaved : Tree ℕ Objects
unsaved = record {
  store = no_object;
  root_dir_id = none;
  cache = ([], top) ∷ (home ∷ [], leaf) ∷ [];
}

top_entry : (n : Text) → get n top.subdirs ≡ some none → n ≡ home
unfolding get
top_entry n h = elim (Bool-cases (home == n)) [
  | inl c ↦ sym (eq_of_beq home n c)
  | inr c ↦ absurd (ground (arith, h, c))
]

two_cached :
    (q : Pathname) (d : Directory ℕ) (n : Text)
    → get q unsaved.cache ≡ some d
    → get n d.subdirs ≡ some none
    → (d.mutable ≡ true) × (e : Directory ℕ) × (get (n ∷ q) unsaved.cache ≡ some e)
unfolding get
two_cached [] d n h g =
    let e : top ≡ d = some-injective top d h in
    let m : n ≡ home = top_entry n (ap (λ (x : Directory ℕ). get n x.subdirs) e ∙ g) in
    (sym (ap (λ (x : Directory ℕ). x.mutable) e), leaf, ap (λ k. get (k ∷ []) unsaved.cache) m)
two_cached (k ∷ q) d n h g = elim (Bool-cases (home ∷ [] == k ∷ q)) [
  | inl c ↦
      let e : leaf ≡ d = some-injective leaf d (ground (arith, h, c)) in
      absurd (ground (arith, ap (λ (x : Directory ℕ). get n x.subdirs) e ∙ g))
  | inr c ↦ absurd (ground (arith, h, c))
]

unsaved-Linked : Linked objects unsaved.cache
unsaved-Linked = record {
  mutable = λ q d n h g. (two_cached q d n h g).0;
  next = λ q d n h g. let (m, e, c) = two_cached q d n h g in (e, c);
}

flush-FlushedTree_example :
    (t' : Tree ℕ Objects) × (flush objects unsaved ≡ ok t')
    × FlushedTree objects objects-Keeping unsaved t'
unfolding get
flush-FlushedTree_example =
    flush-FlushedTree objects unsaved top objects-Keeping unsaved-Linked refl

abbrev blank : Tree ℕ Objects
blank = record { store = no_object; root_dir_id = none; cache = [] }

abbrev with_home : Tree ℕ Objects
with_home = record {
  store = no_object;
  root_dir_id = none;
  cache =
      (home ∷ [], leaf)
      ∷ (
        [],
        record {
          metadata = (dot, record { chunk_ids = []; values = [] }) ∷ [];
          subdirs = (home, none) ∷ [];
          mutable = true;
        },
      )
      ∷ [];
}

no_objects : Complete objects no_object
no_objects [] d n h = absurd (ground (arith, h))
no_objects (i ∷ []) d n h = absurd (ground (arith, h))
no_objects (i ∷ j ∷ more) d n h = absurd (ground (arith, h))

leaf-CanFlush : CanFlush objects (home ∷ []) leaf blank.cache
unfolding get
leaf-CanFlush n h = absurd (ground (arith, h))

home_set : set_directory objects (home ∷ []) leaf blank ≡ ok with_home
unfolding set_directory parent_for parent_or get_directory lookup_or get put has add_file add_subdir
    require_mutable
home_set = refl

with_home-Reached : Reached objects with_home
with_home-Reached =
    sets (home ∷ []) leaf blank with_home (starts no_object none no_objects) leaf-CanFlush home_set

flush-Reached_example :
    (t' : Tree ℕ Objects) × (flush objects with_home ≡ ok t')
    × FlushedTree objects objects-Keeping with_home t'
unfolding get
flush-Reached_example =
    flush-Reached objects with_home
      (record {
        metadata = (dot, record { chunk_ids = []; values = [] }) ∷ [];
        subdirs = (home, none) ∷ [];
        mutable = true;
      })
      objects-Keeping with_home-Reached refl
