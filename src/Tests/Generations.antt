-- ===== src/Tests/Generations.antt =====
-- Tests of the generations of a client, with dicts for the stores.
use obnam.Prelude.{
  ℕ, ◌≡◌, refl, sym, subst, inl, inr, map, arith, true, false, Option, none, some, List, [], ◌∷◌,
}
use obnam.Prelude.Lists.{length}
use obnam.Prelude.Tests.{nat_beq, nat_beq_iff, if◌then◌else◌, Bool-cases}
use obnam.Prelude.Sorted.{Distinct}
use obnam.Prelude.Keys.{nat_eq, list_eq}
use obnam.Prelude.Dict.{Dict, get, put, has}
use obnam.Prelude.Result.{Result, ok, raise}
use obnam.Bag.ObjectId.{Text}
use obnam.Directories.Directory.{
  Directory, File, FileKey, mode, mtime_sec, get_file, get_subdir_object_id, get_short_key_name,
}
use obnam.Directories.Directory
use obnam.Trees.Paths.{dot}
use obnam.Trees.Tree.{get_dir_obj, get_directory, lookup_or}
use obnam.Trees.Views.{view}
use obnam.Generations.AddedFiles.{AddedFile}
use obnam.Generations.FileMetadata
use obnam.Generations.FileMetadata.{FileMetadata}
use obnam.Generations.FileKeys
use obnam.Generations.FileChunks
use obnam.Generations.Generation.{
  Generation, GenKey, number, text, ended, no_files, get_generation, get_latest, set_key,
  update_generation, has_generation,
}
use obnam.Generations.Client.{
  ClientDict, ClientStore, Client, ClientError, load_data, is_finished, create_generation,
  set_generation_key, lookup_generation, on_files,
}
use obnam.Generations.RemoveGeneration.{
  get_generation_chunk_ids, chunk_ids_in, chunk_ids_of_files, remove_generation,
}
use obnam.Generations.Numbers.{Created, create_generation-Created}
use obnam.Generations.KeySets.{KeySet, set_generation_key-KeySet}
use obnam.Generations.Removal.{RemovedGeneration, remove_generation-RemovedGeneration}
use obnam.Generations.Stored.{StoredFile, set_file_key-StoredFile}
use obnam.Prelude.{map}
use obnam.Trees.Tree
use obnam.Generations.Saved.{Saved}
use obnam.Generations.Commits.{ending}

abbrev Stored : Type 0
Stored = Dict Text (Directory ℕ) × Option ClientDict

abbrev stores : ClientStore ℕ Stored
stores = record {
  objects = record {
    put_object = λ st d. (length st.0 ∷ [], (put (length st.0 ∷ []) d st.0, st.1));
    get_object = λ st i. get i st.0;
    flush_objects = λ st. st;
  };
  read_root = λ st. st.1;
  write_root = λ st d. (st.0, some d);
}

abbrev plain : File ℕ
plain = record { chunk_ids = []; values = [] }

-- a root directory with one file, of one chunk of its own and one that is shared
abbrev root_with : ℕ → Directory ℕ
root_with c = record {
  metadata =
      (dot, plain) ∷ (b'f' ∷ [], record { chunk_ids = (c ∷ []) ∷ (0 ∷ []) ∷ []; values = [] }) ∷ [];
  subdirs = [];
  mutable = false;
}

abbrev finished : ℕ → Generation ℕ
finished n = record {
  gen_number = n;
  gen_keys = set_key [] ended (some (number 7));
  root_object_id = some (n ∷ []);
  files = no_files (some (n ∷ []));
}

abbrev client : Client ℕ Stored
client = record {
  store = ((1 ∷ [], root_with 5) ∷ (2 ∷ [], root_with 6) ∷ [], none);
  current_time = 9;
  default_checksum = b's' ∷ [];
  checksum_algorithm = some (b's' ∷ []);
  client_keys = [];
  generations = finished 1 ∷ finished 2 ∷ [];
  data_is_loaded = true;
}

latest_finished : is_finished stores (get_latest (load_data stores client).generations) ≡ true
unfolding load_data get_latest get put
latest_finished = refl

create_generation-Created_example :
    (n : ℕ) × (c' : Client ℕ Stored) × (create_generation stores client ≡ ok (n, c'))
    × Created stores client n c'
create_generation-Created_example = create_generation-Created stores client latest_finished

set_generation_key-KeySet_example :
    (c' : Client ℕ Stored) × (set_generation_key stores client 1 GenKey.test_key
        (some (text (b't' ∷ [])))
      ≡ ok c')
    × KeySet stores client 1 GenKey.test_key (text (b't' ∷ [])) (finished 1) c'
unfolding load_data get_generation
set_generation_key-KeySet_example =
    set_generation_key-KeySet stores client 1 GenKey.test_key (text (b't' ∷ [])) (finished 1) refl
      refl

-- the client that a call leaves
abbrev reached : {A : Type 0} → Result ClientError (A × Client ℕ Stored) → Client ℕ Stored
reached (ok (a, c)) = c
reached (raise e) = client

abbrev read_removed : Client ℕ Stored
read_removed = reached (get_generation_chunk_ids stores 1 (load_data stores client) 1)

abbrev read_other : Client ℕ Stored
read_other = reached (get_generation_chunk_ids stores 1 (load_data stores client) 2)

present : has_generation 1 (load_data stores client).generations ≡ true
unfolding load_data has_generation
present = refl

removed_chunks :
    get_generation_chunk_ids stores 1 (load_data stores client) 1
    ≡ ok ((5 ∷ []) ∷ (0 ∷ []) ∷ [], read_removed)
unfolding get_generation_chunk_ids load_data get_generation put update_generation lookup_generation
    on_files chunk_ids_in chunk_ids_of_files FileChunks.filenames FileChunks.walk get_directory
    lookup_or get_dir_obj get has FileChunks.get_file_chunk_ids FileMetadata.get_dir_obj
    Directory.get_file_chunk_ids get_subdir_object_id
removed_chunks = refl

other_chunks :
    get_generation_chunk_ids stores 1 (load_data stores client) 2
    ≡ ok ((6 ∷ []) ∷ (0 ∷ []) ∷ [], read_other)
unfolding get_generation_chunk_ids load_data get_generation put update_generation lookup_generation
    on_files chunk_ids_in chunk_ids_of_files FileChunks.filenames FileChunks.walk get_directory
    lookup_or get_dir_obj get has FileChunks.get_file_chunk_ids FileMetadata.get_dir_obj
    Directory.get_file_chunk_ids get_subdir_object_id
other_chunks = refl

abbrev chunks_of : ℕ → List Text
chunks_of m = if nat_beq m 1 then (5 ∷ []) ∷ (0 ∷ []) ∷ [] else (6 ∷ []) ∷ (0 ∷ []) ∷ []

abbrev ReadOk : ℕ → Type 0
ReadOk m =
    (k : Client ℕ Stored) × (get_generation_chunk_ids stores 1 (load_data stores client) m
      ≡ ok (chunks_of m, k))

both_read :
    (m : ℕ)
    → has_generation m (load_data stores client).generations ≡ true
    → (k : Client ℕ Stored) × (get_generation_chunk_ids stores 1 (load_data stores client) m
        ≡ ok (chunks_of m, k))
unfolding load_data has_generation
both_read m h = elim (Bool-cases (nat_beq m 1)) [
  | inl q ↦ subst ReadOk (sym ((nat_beq_iff m 1).0 q)) (read_removed, removed_chunks)
  | inr q ↦ elim (Bool-cases (nat_beq m 2)) [
    | inl r ↦ subst ReadOk (sym ((nat_beq_iff m 2).0 r)) (read_other, other_chunks)
    | inr r ↦ absurd (ground (arith, h, q, r))
  ]
]

two_generations : Distinct (map (λ g. g.gen_number) (load_data stores client).generations)
unfolding load_data
two_generations = ((refl, tt), (tt, tt))

-- chunk 0 is also a chunk of the other generation
remove_generation-RemovedGeneration_example :
    (ids : List Text) × (c' : Client ℕ Stored) × (remove_generation stores 1 client 1
      ≡ ok (ids, c'))
    × RemovedGeneration stores 1 client chunks_of ids c'
remove_generation-RemovedGeneration_example =
    remove_generation-RemovedGeneration stores 1 1 client chunks_of present two_generations
      both_read

abbrev new_name : Text
new_name = b'n' ∷ []

abbrev added : AddedFile ℕ
added = record { file_keys = (mtime_sec, some 3) ∷ []; chunks = (8 ∷ []) ∷ [] }

-- the files of a generation with a file that was added
abbrev with_added : FileMetadata ℕ Stored
with_added = record {
  tree = record { store = client.store; root_dir_id = some (1 ∷ []); cache = [] };
  added_files = (new_name ∷ [], added) ∷ [];
}

set_file_key-StoredFile_example :
    (fm' : FileMetadata ℕ Stored) × (FileKeys.set_file_key stores.objects
        (nat_beq 1)
        0
        0
        with_added
        (new_name ∷ [])
        mode
        (some 2)
      ≡ ok (true, fm'))
    × StoredFile stores.objects (nat_beq 1) 0 0 new_name [] added 2 with_added fm'
unfolding get view get_dir_obj get_subdir_object_id has
set_file_key-StoredFile_example =
    set_file_key-StoredFile stores.objects (nat_beq 1) 0 0 new_name [] added 2 with_added refl
      (tt, tt) refl refl refl refl

-- a client whose latest generation has not ended
abbrev unfinished : Client ℕ Stored
unfinished = record client {
  generations =
      finished 1
      ∷ record { gen_number = 2; gen_keys = []; root_object_id = none; files = no_files none }
      ∷ [];
}

abbrev flushed_client : Client ℕ Stored
flushed_client = record (ending stores unfinished) { store = unfinished.store }

abbrev newly_opened : Client ℕ Stored
newly_opened = record client { generations = []; data_is_loaded = false }
