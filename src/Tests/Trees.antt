-- ===== src/Tests/Trees.antt =====
-- Tests of the directory tree, with a dict for the store of objects.
use obnam.Prelude.{ℕ, ◌≡◌, refl, true, false, some, [], ◌∷◌}
use obnam.Prelude.Lists.{length}
use obnam.Prelude.Keys.{nat_eq, list_eq}
use obnam.Prelude.Dict.{Dict, get, put}
use obnam.Prelude.Result.{ok, raise}
use obnam.Bag.ObjectId.{Text}
use obnam.Directories.Directory.{Directory, immutable_error}
use obnam.Trees.Paths.{Pathname}
use obnam.Trees.Tree.{
  ObjectStore, Tree, get_dir_obj, get_directory, set_directory, remove_directory,
}
use obnam.Trees.Views.{view}
use obnam.Trees.Contents.{contents, get_directory-contents}
use obnam.Trees.Sets.{Placed, set_directory-Placed}
use obnam.Trees.Removals.{Removed, remove_directory-Removed}
use obnam.Trees.Immutable.{remove_directory-read}

abbrev pub Objects : Type 0
Objects = Dict Text (Directory ℕ)

abbrev objects : ObjectStore ℕ Objects
objects = record {
  put_object = λ st d. (length st ∷ [], put (length st ∷ []) d st);
  get_object = λ st i. get i st;
  flush_objects = λ st. st;
}

abbrev home : Pathname
home = (b'h' ∷ []) ∷ []

abbrev user : Pathname
user = (b'u' ∷ []) ∷ home

abbrev leaf : Directory ℕ
leaf = record { metadata = []; subdirs = []; mutable = true }

abbrev top : Directory ℕ
top = record { metadata = []; subdirs = (b'h' ∷ [], some (0 ∷ [])) ∷ []; mutable = false }

-- a tree of `/` and `/h`, both stored
abbrev stored : Tree ℕ Objects
stored = record {
  store = (0 ∷ [], leaf) ∷ (1 ∷ [], top) ∷ [];
  root_dir_id = some (1 ∷ []);
  cache = [];
}

get_directory-contents_example :
    ((get_directory objects home stored).0 ≡ contents objects stored home)
    × ((q : Pathname)
        → contents objects (get_directory objects home stored).1 q ≡ contents objects stored q)
    × ((get_directory objects home stored).1.store ≡ stored.store)
    × ((get_directory objects home stored).1.root_dir_id ≡ stored.root_dir_id)
get_directory-contents_example = get_directory-contents objects home stored

set_directory-Placed_example :
    (t' : Tree ℕ Objects) × (set_directory objects user leaf stored ≡ ok t')
    × Placed objects user leaf stored t'
set_directory-Placed_example = set_directory-Placed objects user leaf stored

remove_directory-Removed_example :
    (t' : Tree ℕ Objects) × (remove_directory objects home stored ≡ ok t')
    × Removed objects (b'h' ∷ []) [] stored t'
unfolding get
remove_directory-Removed_example = remove_directory-Removed objects (b'h' ∷ []) [] stored refl

view_top : view objects stored [] ≡ some top
unfolding view get_dir_obj get
view_top = refl

remove_directory-read_example :
    remove_directory objects home (get_directory objects [] stored).1 ≡ raise immutable_error
unfolding get
remove_directory-read_example =
    remove_directory-read objects (b'h' ∷ []) [] top stored refl view_top
