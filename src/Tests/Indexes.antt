-- ===== src/Tests/Indexes.antt =====
-- The chunk indexes of obnamlib/fmt_ga/indexes.py over small maps.
use obnam.Prelude.{ℕ, ◌≡◌, refl, true, false, Option, none, some, List, [], ◌∷◌, inr}
use obnam.Prelude.Tests.{if◌then◌else◌}
use obnam.Prelude.Keys.{◌==◌, nat_eq, contains, count, count_with}
use obnam.Prelude.Result.{ok}
use obnam.Indexes.KeyMap.{KeyMap}
use obnam.Indexes.Indexes.{
  Indexes, put_chunk_into_indexes, find_chunk_ids_by_token, remove_chunk_from_indexes,
  remove_chunk_from_indexes_for_all_clients,
}
use obnam.Indexes.Puts.{or_nil, put_chunk_into_indexes_lem}
use obnam.Indexes.Removal.{Forgotten, remove_chunk-still_used, remove_chunk-Forgotten}
use obnam.Indexes.Histories.{
  remove_for_all-Forgotten, remove_chunk-other_users, remove_chunk-put_chunk,
}

-- a map as a function
abbrev map_of : {V : Type 0} → KeyMap (ℕ → Option V) ℕ V
map_of = record {
  lookup = λ t k. t k;
  insert = λ t k v j. if k == j then v else t j;
  lookup-insert = λ t k j v. refl;
}

abbrev ids : KeyMap (ℕ → Option ℕ) ℕ ℕ
ids = map_of

abbrev lists : KeyMap (ℕ → Option (List ℕ)) ℕ (List ℕ)
lists = map_of

-- chunk 1 has token 10; clients 7 and 8 use it
abbrev ix : Indexes (ℕ → Option ℕ) (ℕ → Option (List ℕ))
ix = record {
  by_chunk_id_tree = λ j. if 1 == j then some 10 else none;
  by_checksum_tree = λ j. if 10 == j then some (1 ∷ []) else none;
  used_by_tree = λ j. if 1 == j then some (7 ∷ 8 ∷ []) else none;
}

-- the second chunk of the same token
put_chunk_into_indexes_lem_example :
    ((cs : List ℕ) × (find_chunk_ids_by_token ids lists
          (put_chunk_into_indexes ids lists ix 2 10 7)
          10
        ≡ ok cs)
      × (contains cs 2 ≡ true)
      × ((x : ℕ) → count x cs ≡ count_with (1 ∷ []) 2 x))
    × ((j : ℕ)
        → (10 == j) ≡ false
        → find_chunk_ids_by_token ids lists (put_chunk_into_indexes ids lists ix 2 10 7) j
          ≡ find_chunk_ids_by_token ids lists ix j)
    × ((j : ℕ)
        → (put_chunk_into_indexes ids lists ix 2 10 7).by_chunk_id_tree j
          ≡ (if 2 == j then some 10 else ix.by_chunk_id_tree j))
    × ((us : List ℕ) × ((put_chunk_into_indexes ids lists ix 2 10 7).used_by_tree 2 ≡ some us)
        × (contains us 7 ≡ true)
        × ((x : ℕ) → count x us ≡ count_with [] 7 x))
    × ((j : ℕ)
        → (2 == j) ≡ false
        → (put_chunk_into_indexes ids lists ix 2 10 7).used_by_tree j ≡ ix.used_by_tree j)
put_chunk_into_indexes_lem_example = put_chunk_into_indexes_lem ids lists ix 2 10 7

-- client 8 still uses the chunk
remove_chunk-still_used_example :
    ((j : ℕ)
      → find_chunk_ids_by_token ids lists (remove_chunk_from_indexes ids lists ix 1 7) j
        ≡ find_chunk_ids_by_token ids lists ix j)
    × ((j : ℕ)
        → (remove_chunk_from_indexes ids lists ix 1 7).by_chunk_id_tree j ≡ ix.by_chunk_id_tree j)
    × (contains (or_nil ((remove_chunk_from_indexes ids lists ix 1 7).used_by_tree 1)) 8 ≡ true)
    × ((j : ℕ)
        → or_nil ((remove_chunk_from_indexes ids lists ix 1 7).used_by_tree j)
          ≡ (if 1 == j then 8 ∷ [] else or_nil (ix.used_by_tree j)))
remove_chunk-still_used_example = remove_chunk-still_used ids lists ix 1 7 8 refl refl refl

-- client 9 does not use the chunk
remove_chunk-Forgotten_example :
    Forgotten ids lists ix (remove_chunk_from_indexes ids lists ix 1 9) 1
    × ((j : ℕ)
        → or_nil ((remove_chunk_from_indexes ids lists ix 1 9).used_by_tree j)
          ≡ (if 1 == j then 7 ∷ 8 ∷ [] else or_nil (ix.used_by_tree j)))
remove_chunk-Forgotten_example = remove_chunk-Forgotten ids lists ix 1 9 (inr refl)

remove_for_all-Forgotten_example :
    Forgotten ids lists ix (remove_chunk_from_indexes_for_all_clients ids lists ix 1) 1
    × ((j : ℕ)
        → (remove_chunk_from_indexes_for_all_clients ids lists ix 1).used_by_tree j
          ≡ (if 1 == j then none else ix.used_by_tree j))
remove_for_all-Forgotten_example = remove_for_all-Forgotten ids lists ix 1

remove_chunk-other_users_example :
    ((remove_chunk_from_indexes ids lists ix 1 9).by_chunk_id_tree 1 ≡ none)
    × ((remove_chunk_from_indexes ids lists ix 1 9).used_by_tree 1 ≡ some (7 ∷ 8 ∷ []))
remove_chunk-other_users_example =
    remove_chunk-other_users ids lists ix 1 10 9 7 (8 ∷ []) refl refl refl

remove_chunk-put_chunk_example :
    find_chunk_ids_by_token ids lists
      (remove_chunk_from_indexes ids lists (put_chunk_into_indexes ids lists ix 2 10 7) 2 7)
      10
    ≡ find_chunk_ids_by_token ids lists ix 10
remove_chunk-put_chunk_example = remove_chunk-put_chunk ids lists ix 2 10 7 refl refl 10
