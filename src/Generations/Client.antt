-- ===== src/Generations/Client.antt =====
-- obnamlib/fmt_ga/client.py: `GAClient`, its data and its generations. The stored data of a client, the
-- blob 'root' decoded, is read and written through a parameter. A call that raises an error returns no
-- state.
use obnam.Prelude.{ℕ, ◌+◌, Bool, true, false, Option, none, some, List, [], ◌∷◌, ◌++◌, map}
use obnam.Prelude.Tests.{if◌then◌else◌}
use obnam.Prelude.Keys.{nat_eq}
use obnam.Prelude.Dict.{get}
use obnam.Prelude.Digits.{read_nat}
use obnam.Prelude.Result.{Result, ok, raise, ◌>>=◌}
use obnam.Bag.ObjectId.{Text}
use obnam.Directories.Directory
use obnam.Trees.Paths.{Pathname}
use obnam.Trees.Tree.{ObjectStore}
use obnam.Generations.FileMetadata.{FileMetadata}
use obnam.Generations.FileMetadata
use obnam.Generations.Generation.{
  Generation, GenerationDict, Keys, KeyValue, GenKey, number, text, started, ended, rank, get_key,
  set_key, as_dict, from_dict, get_generation, update_generation, get_latest, no_files, opened,
  files_of,
}

pub data ClientError : Type 0 where
  generation_does_not_exist : ℕ → ClientError
  file_does_not_exist : ℕ → Pathname → ClientError
  generation_unfinished : ClientError
  not_a_number : ClientError
  below : Directory.Error → ClientError

abbrev pub lift : {A : Type 0} → Result Directory.Error A → Result ClientError A
lift (ok a) = ok a
lift (raise e) = raise (below e)

-- what is stored of a client
pub record ClientDict : Type 0 where
  pub checksum : Text
  pub keys : Keys
  pub generation_dicts : List GenerationDict

pub record ClientStore (V St : Type 0) : Type 0 where
  pub objects : ObjectStore V St
  pub read_root : St → Option ClientDict
  pub write_root : St → ClientDict → St

pub record Client (V St : Type 0) : Type 0 where
  pub store : St
  pub current_time : ℕ
  pub default_checksum : Text
  pub checksum_algorithm : Option Text
  pub client_keys : Keys
  pub generations : List (Generation V)
  pub data_is_loaded : Bool

module _ {V St : Type 0} where
  -- `clear`; the blob store is opened anew
  abbrev pub clear : Client V St → Client V St
  clear c = record c {
    checksum_algorithm = none;
    client_keys = [];
    generations = [];
    data_is_loaded = false;
  }

-- `int(value)`; a text is read as digits, without blanks or a sign
abbrev pub int_of : Option ℕ → Result ClientError KeyValue
int_of none = raise not_a_number
int_of (some n) = ok (number n)

abbrev pub int_value : Option KeyValue → Result ClientError KeyValue
int_value none = ok (number 0)
int_value (some (number n)) = ok (number n)
int_value (some (text t)) = int_of (read_nat 10 t)

abbrev pub is_integer_gen_key : GenKey → Bool
is_integer_gen_key GenKey.test_key = false
is_integer_gen_key _ = true

-- '' for a key that is not in the dict; `None` stays `None`
abbrev pub text_value : Option (Option KeyValue) → Option KeyValue
text_value none = some (text [])
text_value (some v) = v

module _ {V St : Type 0} (S : ClientStore V St) where
  -- `_load_per_client_data` and `_load_file_metadata`, for what was stored
  unfoldable pub loaded_from : Option ClientDict → Client V St → Client V St
  loaded_from none c = record (clear c) {
    checksum_algorithm = some c.default_checksum;
    data_is_loaded = true;
  }
  loaded_from (some d) c = record c {
    checksum_algorithm = some d.checksum;
    client_keys = d.keys;
    generations = map from_dict d.generation_dicts;
    data_is_loaded = true;
  }

  unfoldable pub load_data : Client V St → Client V St
  unfolding loaded_from
  load_data c = if c.data_is_loaded then c else loaded_from (S.read_root c.store) c

  -- the loop of `_save_file_metadata`: each tree is flushed, and its root noted
  unfoldable pub save_files :
      List (Generation V) → St → Result Directory.Error (List (Generation V) × St)
  save_files [] st = ok ([], st)
  save_files (g ∷ gs) st = do
    fm ← FileMetadata.flush S.objects (opened st g.files)
    (others, st') ← save_files gs fm.tree.store
    ok (record g { root_object_id = fm.tree.root_dir_id; files = files_of fm } ∷ others, st')

  unfoldable pub flush : Client V St → Result ClientError (Client V St)
  unfolding save_files
  flush c = do
    (gs, st) ← lift (save_files c.generations c.store)
    ok (record c { generations = gs; store = st })

  abbrev pub flush_ro_generation : Generation V → Generation V
  flush_ro_generation g = record g {
    root_object_id = g.files.root_dir_id;
    files = record (no_files g.files.root_dir_id) { added_files = g.files.added_files };
  }

  abbrev pub flush_ro : Client V St → Client V St
  flush_ro c = record c { generations = map flush_ro_generation c.generations }

  abbrev pub as_client_dict : Text → Client V St → ClientDict
  as_client_dict algorithm c = record {
    checksum = algorithm;
    keys = c.client_keys;
    generation_dicts = map as_dict c.generations;
  }

  -- `None` for the algorithm of a client that is not loaded
  abbrev pub algorithm_of : Option Text → Text
  algorithm_of none = []
  algorithm_of (some a) = a

  -- `latest.set_key(ENDED, now)`, if the latest has not ended
  abbrev pub ended_at : ℕ → Generation V → Generation V
  ended_at now g = elim (get_key g.gen_keys ended) [
    | some v ↦ g
    | none ↦ record g { gen_keys = set_key g.gen_keys ended (some (number now)) }
  ]

  unfoldable pub finish_latest : ℕ → List (Generation V) → List (Generation V)
  finish_latest now [] = []
  finish_latest now (g ∷ []) = ended_at now g ∷ []
  finish_latest now (g ∷ h ∷ gs) = g ∷ finish_latest now (h ∷ gs)

  unfoldable pub save_per_client_data : Client V St → Client V St
  save_per_client_data c = record c {
    store = S.write_root c.store (as_client_dict (algorithm_of c.checksum_algorithm) c);
  }

  unfoldable pub commit : Client V St → Result ClientError (Client V St)
  unfolding load_data finish_latest flush save_per_client_data
  commit c = do
    let c1 = load_data c
    c2 ← flush (record c1 { generations = finish_latest c1.current_time c1.generations })
    ok (save_per_client_data c2)

  unfoldable pub get_client_generation_ids : Client V St → List ℕ × Client V St
  unfolding load_data
  get_client_generation_ids c = let c1 = load_data c in (map (λ g. g.gen_number) c1.generations, c1)

  -- a generation that starts now, with the keys and the files of the latest
  abbrev pub next_generation : ℕ → Option (Generation V) → Generation V
  next_generation now none = record {
    gen_number = 1;
    gen_keys = set_key (set_key [] started (some (number now))) ended none;
    root_object_id = none;
    files = no_files none;
  }
  next_generation now (some latest) = record {
    gen_number = latest.gen_number + 1;
    gen_keys = set_key (set_key latest.gen_keys started (some (number now))) ended none;
    root_object_id = latest.root_object_id;
    files = no_files latest.files.root_dir_id;
  }

  -- `_require_previous_generation_is_finished`
  abbrev pub is_finished : Option (Generation V) → Bool
  is_finished none = true
  is_finished (some latest) = elim (get_key latest.gen_keys ended) [ none ↦ false | some v ↦ true ]

  unfoldable pub create_generation : Client V St → Result ClientError (ℕ × Client V St)
  unfolding load_data get_latest
  create_generation c =
      let c1 = load_data c in
      let latest = get_latest c1.generations in
      let new = next_generation c1.current_time latest in
      if is_finished latest
      then ok (new.gen_number, record c1 { generations = c1.generations ++ new ∷ [] })
      else raise generation_unfinished

  abbrev pub generation_or_error : ℕ → Option (Generation V) → Result ClientError (Generation V)
  generation_or_error n none = raise (generation_does_not_exist n)
  generation_or_error n (some g) = ok g

  unfoldable pub lookup_generation : ℕ → Client V St → Result ClientError (Generation V)
  lookup_generation n c = generation_or_error n (get_generation n c.generations)

  unfoldable pub get_generation_key :
      Client V St → ℕ → GenKey → Result ClientError (Option KeyValue × Client V St)
  unfolding load_data lookup_generation
  get_generation_key c n key = do
    let c1 = load_data c
    g ← lookup_generation n c1
    if is_integer_gen_key key
        then (do v ← int_value (get_key g.gen_keys key); ok (some v, c1))
        else ok (text_value (get (rank key) g.gen_keys), c1)

  unfoldable pub set_generation_key :
      Client V St → ℕ → GenKey → Option KeyValue → Result ClientError (Client V St)
  unfolding load_data lookup_generation
  set_generation_key c n key value = do
    let c1 = load_data c
    g ← lookup_generation n c1
    ok (record c1 {
      generations =
          update_generation n (record g { gen_keys = set_key g.gen_keys key value }) c1.generations;
    })

  -- an operation on the files of a generation, which may use the shared store
  unfoldable pub on_files :
      {A : Type 0}
      → ℕ
      → (FileMetadata V St → Result Directory.Error (A × FileMetadata V St))
      → Client V St
      → Result ClientError (A × Client V St)
  unfolding load_data lookup_generation
  on_files n operation c = do
    let c1 = load_data c
    g ← lookup_generation n c1
    (a, fm) ← lift (operation (opened c1.store g.files))
    ok (
      a,
      record c1 {
        store = fm.tree.store;
        generations = update_generation n (record g { files = files_of fm }) c1.generations;
      },
    )
