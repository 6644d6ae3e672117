-- ===== src/Generations/Generation.antt =====
-- obnamlib/fmt_ga/client.py: `GAKeys`, `GAGeneration` and `GAGenerationList`. A generation's number is
-- kept as its decimal digits in the source.
use obnam.Prelude.{ℕ, Bool, true, false, Option, none, some, List, [], ◌∷◌}
use obnam.Prelude.Tests.{if◌then◌else◌, nat_beq}
use obnam.Prelude.Keys.{nat_eq, list_eq}
use obnam.Prelude.Dict.{Dict, get, put}
use obnam.Bag.ObjectId.{Text}
use obnam.Directories.Directory.{Directory, or_none}
use obnam.Trees.Paths.{Pathname}
use obnam.Generations.AddedFiles.{AddedFiles}
use obnam.Generations.FileMetadata.{FileMetadata}

-- the keys of a generation in obnamlib/repo_interface.py
pub data GenKey : Type 0 where
  test_key started ended is_checkpoint file_count total_data : GenKey

abbrev pub rank : GenKey → ℕ
rank test_key = 0
rank started = 1
rank ended = 2
rank is_checkpoint = 3
rank file_count = 4
rank total_data = 5

pub data KeyValue : Type 0 where
  number : ℕ → KeyValue
  text : Text → KeyValue

-- `GAKeys`: each key's value, `none` for `None` and for a key without one
abbrev pub Keys : Type 0
Keys = Dict ℕ (Option KeyValue)

abbrev pub get_key : Keys → GenKey → Option KeyValue
get_key d key = or_none (get (rank key) d)

abbrev pub set_key : Keys → GenKey → Option KeyValue → Keys
set_key d key value = put (rank key) value d

-- The files of a generation, without the blob store, which all generations of a client share.
pub record Files (V : Type 0) : Type 0 where
  pub root_dir_id : Option Text
  pub cache : Dict Pathname (Directory V)
  pub added_files : AddedFiles V

pub record Generation (V : Type 0) : Type 0 where
  pub gen_number : ℕ
  pub gen_keys : Keys
  pub root_object_id : Option Text
  pub files : Files V

-- `as_dict`: what is stored of a generation
pub record GenerationDict : Type 0 where
  pub gen_id : ℕ
  pub keys_dict : Keys
  pub root_id : Option Text

module _ {V : Type 0} where
  abbrev pub no_files : Option Text → Files V
  no_files root = record { root_dir_id = root; cache = []; added_files = [] }

  abbrev pub as_dict : Generation V → GenerationDict
  as_dict g = record { gen_id = g.gen_number; keys_dict = g.gen_keys; root_id = g.root_object_id }

  -- `set_from_dict`, and the files that `_load_file_metadata` gives the generation
  abbrev pub from_dict : GenerationDict → Generation V
  from_dict d = record {
    gen_number = d.gen_id;
    gen_keys = d.keys_dict;
    root_object_id = d.root_id;
    files = no_files d.root_id;
  }

  -- `GAGenerationList.get_generation`: `_by_number` holds the last generation of each number
  unfoldable pub get_generation : ℕ → List (Generation V) → Option (Generation V)
  get_generation n [] = none
  get_generation n (g ∷ gs) = elim (get_generation n gs) [
    | some h ↦ some h
    | none ↦ if nat_beq g.gen_number n then some g else none
  ]

  -- the generation of a number, changed in place
  unfoldable pub update_generation : ℕ → Generation V → List (Generation V) → List (Generation V)
  update_generation n new [] = []
  update_generation n new (g ∷ gs) =
      (if nat_beq g.gen_number n then new else g) ∷ update_generation n new gs

  -- `get_latest`, `none` of an empty list
  unfoldable pub get_latest : List (Generation V) → Option (Generation V)
  get_latest [] = none
  get_latest (g ∷ gs) = elim (get_latest gs) [ none ↦ some g | some h ↦ some h ]

  -- the numbers that are not the one that goes
  unfoldable pub remaining_numbers : ℕ → List (Generation V) → List ℕ
  remaining_numbers n [] = []
  remaining_numbers n (g ∷ gs) =
      let rest = remaining_numbers n gs in
      if nat_beq g.gen_number n then rest else g.gen_number ∷ rest

  unfoldable pub without_generation : ℕ → List (Generation V) → List (Generation V)
  without_generation n [] = []
  without_generation n (g ∷ gs) =
      let rest = without_generation n gs in if nat_beq g.gen_number n then rest else g ∷ rest

  unfoldable pub has_generation : ℕ → List (Generation V) → Bool
  has_generation n [] = false
  has_generation n (g ∷ gs) = if nat_beq g.gen_number n then true else has_generation n gs

module _ {V St : Type 0} where
  -- a generation's files with the shared store, and without it
  abbrev pub opened : St → Files V → FileMetadata V St
  opened st f = record {
    tree = record { store = st; root_dir_id = f.root_dir_id; cache = f.cache };
    added_files = f.added_files;
  }

  abbrev pub files_of : FileMetadata V St → Files V
  files_of fm = record {
    root_dir_id = fm.tree.root_dir_id;
    cache = fm.tree.cache;
    added_files = fm.added_files;
  }
