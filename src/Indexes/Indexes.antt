-- ===== src/Indexes/Indexes.antt =====
-- obnamlib/fmt_ga/indexes.py: the operations of `GAChunkIndexes` on its three trees, after
-- `_load_data`. Chunk ids, tokens (checksums) and client ids are all keys.
use obnam.Prelude.{Bool, true, false, Option, none, some, List, [], ◌∷◌, ◌++◌}
use obnam.Prelude.Tests.{if◌then◌else◌}
use obnam.Prelude.Keys.{Eq, contains, remove_first}
use obnam.Prelude.Result.{Result, ok, raise}
use obnam.Indexes.KeyMap.{KeyMap}

pub data Error : Type 0 where
  chunk_content_not_in_indexes : Error

pub record Indexes (T1 T2 : Type 0) : Type 0 where
  pub by_chunk_id_tree : T1
  pub by_checksum_tree : T2
  pub used_by_tree : T2

module _ {K : Type 0} ⦃e : Eq K⦄ where
  -- `[x]` for `None`, else the list with `x` appended if it is not there
  unfoldable pub with_item : K → Option (List K) → List K
  with_item x none = x ∷ []
  with_item x (some xs) = if contains xs x then xs else xs ++ x ∷ []

module _ {K T1 T2 : Type 0} ⦃e : Eq K⦄ (M1 : KeyMap T1 K K) (M2 : KeyMap T2 K (List K)) where
  abbrev pub Ix : Type 0
  Ix = Indexes T1 T2

  unfoldable pub put_chunk_into_indexes : Ix → K → K → K → Ix
  unfolding with_item
  put_chunk_into_indexes ix chunk_id token client_id =
      let chunk_ids = with_item chunk_id (M2.lookup ix.by_checksum_tree token) in
      let client_ids = with_item client_id (M2.lookup ix.used_by_tree chunk_id) in
      record {
        by_chunk_id_tree = M1.insert ix.by_chunk_id_tree chunk_id (some token);
        by_checksum_tree = M2.insert ix.by_checksum_tree token (some chunk_ids);
        used_by_tree = M2.insert ix.used_by_tree chunk_id (some client_ids);
      }

  -- `if not result` holds of `None` and of an empty list
  unfoldable pub find_chunk_ids_by_token : Ix → K → Result Error (List K)
  find_chunk_ids_by_token ix token = elim (M2.lookup ix.by_checksum_tree token) [
    | none ↦ raise chunk_content_not_in_indexes
    | some ids ↦ elim ids [ [] ↦ raise chunk_content_not_in_indexes | i ∷ is ↦ ok (i ∷ is) ]
  ]

  -- The new tree, and whether the chunk is still used.
  unfoldable pub remove_used_by : Ix → K → K → Ix × Bool
  remove_used_by ix chunk_id client_id = elim (M2.lookup ix.used_by_tree chunk_id) [
    | none ↦ (ix, false)
    | some client_ids ↦
        if contains client_ids client_id
        then (let rest = remove_first client_id client_ids in
            (
              record ix { used_by_tree = M2.insert ix.used_by_tree chunk_id (some rest) },
              elim rest [ [] ↦ false | c ∷ cs ↦ true ],
            ))
        else (ix, false)
  ]

  unfoldable pub remove_chunk_by_id : Ix → K → Ix × Option K
  remove_chunk_by_id ix chunk_id = elim (M1.lookup ix.by_chunk_id_tree chunk_id) [
    | none ↦ (ix, none)
    | some token ↦
        (record ix { by_chunk_id_tree = M1.insert ix.by_chunk_id_tree chunk_id none }, some token)
  ]

  -- A token `None` is no key of the tree, so nothing is found under it.
  unfoldable pub remove_chunk_by_checksum : Ix → K → Option K → Ix
  remove_chunk_by_checksum ix chunk_id none = ix
  remove_chunk_by_checksum ix chunk_id (some token) = elim (M2.lookup ix.by_checksum_tree token) [
    | none ↦ ix
    | some chunk_ids ↦
        if contains chunk_ids chunk_id
        then record ix {
          by_checksum_tree =
              M2.insert ix.by_checksum_tree token (some (remove_first chunk_id chunk_ids));
        }
        else ix
  ]

  unfoldable pub remove_chunk_from_indexes : Ix → K → K → Ix
  unfolding remove_used_by remove_chunk_by_id remove_chunk_by_checksum
  remove_chunk_from_indexes ix chunk_id client_id =
      let (ix1, still_used) = remove_used_by ix chunk_id client_id in
      if still_used
      then ix1
      else (let (ix2, token) = remove_chunk_by_id ix1 chunk_id in
          remove_chunk_by_checksum ix2 chunk_id token)

  unfoldable pub remove_all_used_by : Ix → K → Ix
  remove_all_used_by ix chunk_id = record ix {
    used_by_tree = M2.insert ix.used_by_tree chunk_id none;
  }

  unfoldable pub remove_chunk_from_indexes_for_all_clients : Ix → K → Ix
  unfolding remove_chunk_by_id remove_chunk_by_checksum remove_all_used_by
  remove_chunk_from_indexes_for_all_clients ix chunk_id =
      let (ix1, token) = remove_chunk_by_id ix chunk_id in
      remove_all_used_by (remove_chunk_by_checksum ix1 chunk_id token) chunk_id
