-- ===== src/Indexes/Histories.antt =====
-- Sequences of operations on the chunk indexes.
use mathlib.Core.Path.{ap₂}
use obnam.Prelude.{
  ◌≡◌, refl, ap, ◌∙◌, true, false, Option, none, some, List, [], ◌∷◌, arith, inl, inr,
}
use obnam.Prelude.Tests.{if◌then◌else◌, Bool-cases}
use obnam.Prelude.Keys.{Eq, ◌==◌, beq_refl, contains}
use obnam.Indexes.KeyMap.{KeyMap}
use obnam.Indexes.Indexes.{
  Ix, with_item, put_chunk_into_indexes, find_chunk_ids_by_token, remove_used_by,
  remove_chunk_by_id, remove_chunk_from_indexes, remove_chunk_from_indexes_for_all_clients,
}
use obnam.Indexes.Puts.{or_nil, put_chunk_into_indexes_lem, put_chunk-listed, put_chunk-used}
use obnam.Indexes.Removal.{
  without, Forgotten, remove_chunk-Forgotten, remove_by_id_and_checksum, remove_first-snoc,
  remove_chunk_by_checksum-kept, remove_chunk_by_id-kept,
}

module _ {K T1 T2 : Type 0} ⦃e : Eq K⦄ (M1 : KeyMap T1 K K) (M2 : KeyMap T2 K (List K)) where
  -- Removing a chunk for all clients takes it out of the indexes by id and by checksum, and leaves
  -- no record of its users.
  pub remove_for_all-Forgotten :
      (ix : Ix M1 M2) (c : K)
      → Forgotten M1 M2 ix (remove_chunk_from_indexes_for_all_clients M1 M2 ix c) c
        × ((j : K)
            → M2.lookup (remove_chunk_from_indexes_for_all_clients M1 M2 ix c).used_by_tree j
              ≡ (if c == j then none else M2.lookup ix.used_by_tree j))
  unfolding remove_chunk_from_indexes_for_all_clients
  remove_for_all-Forgotten ix c =
      let r = remove_by_id_and_checksum M1 M2 ix ix c refl refl in
      (
        record { token = r.token; listed = r.listed },
        λ j.
            M2.lookup-insert _ c j none
            ∙ ap (λ t. if c == j then none else M2.lookup t j)
                ((remove_chunk_by_checksum-kept M1 M2 (remove_chunk_by_id M1 M2 ix c).0 c
                    (remove_chunk_by_id M1 M2 ix c).1).1
                  ∙ remove_chunk_by_id-kept M1 M2 ix c),
      )

  users_kept :
      (ix : Ix M1 M2) (c u : K)
      → contains (or_nil (M2.lookup ix.used_by_tree c)) u ≡ false
      → M2.lookup (remove_chunk_from_indexes M1 M2 ix c u).used_by_tree c
        ≡ M2.lookup ix.used_by_tree c
  unfolding remove_chunk_from_indexes
  users_kept ix c u h =
      let iz = (remove_used_by M1 M2 ix c u).0 in
      let k =
        remove_chunk_by_checksum-kept M1 M2 (remove_chunk_by_id M1 M2 iz c).0 c
          (remove_chunk_by_id M1 M2 iz c).1 in
      ground (arith, k.1, remove_chunk_by_id-kept M1 M2 iz c)

  -- A removal for a client that does not use the chunk drops the chunk from the indexes all the same,
  -- while its users stay on record.
  pub remove_chunk-other_users :
      (ix : Ix M1 M2) (c t u w : K) (ws : List K)
      → M1.lookup ix.by_chunk_id_tree c ≡ some t
      → M2.lookup ix.used_by_tree c ≡ some (w ∷ ws)
      → contains (w ∷ ws) u ≡ false
      → (M1.lookup (remove_chunk_from_indexes M1 M2 ix c u).by_chunk_id_tree c ≡ none)
        × (M2.lookup (remove_chunk_from_indexes M1 M2 ix c u).used_by_tree c ≡ some (w ∷ ws))
  remove_chunk-other_users ix c t u w ws p q r =
      let f =
        (remove_chunk-Forgotten M1 M2 ix c u (inr (ap (λ o. contains (or_nil o) u) q ∙ r))).0 in
      (f.token c ∙ rw (beq_refl c), users_kept ix c u (ap (λ o. contains (or_nil o) u) q ∙ r) ∙ q)

  find_of_or_nil :
      (ix iy : Ix M1 M2) (j : K)
      → or_nil (M2.lookup ix.by_checksum_tree j) ≡ or_nil (M2.lookup iy.by_checksum_tree j)
      → find_chunk_ids_by_token M1 M2 ix j ≡ find_chunk_ids_by_token M1 M2 iy j
  unfolding find_chunk_ids_by_token
  find_of_or_nil ix iy j h = ground arith

  without-with_item :
      (t c j : K) (o p : Option (List K))
      → contains (or_nil o) c ≡ false
      → ((t == j) ≡ true → o ≡ p)
      → or_nil (without M1 M2 (some t) c j (if t == j then some (with_item c o) else p)) ≡ or_nil p
  unfolding with_item
  without-with_item t c j none none h s = elim (Bool-cases (t == j)) [
    | inl q ↦ rw (q, q, beq_refl c)
    | inr q ↦ rw q
  ]
  without-with_item t c j none (some ys) h s = elim (Bool-cases (t == j)) [
    | inl q ↦ cc (s q)
    | inr q ↦ rw (q, q)
  ]
  without-with_item t c j (some xs) none h s = elim (Bool-cases (t == j)) [
    | inl q ↦ cc (s q)
    | inr q ↦ rw q
  ]
  without-with_item t c j (some xs) (some ys) h s = elim (Bool-cases (t == j)) [
    | inl q ↦ rw (q, h, q) (remove_first-snoc c xs h ∙ ap or_nil (s q))
    | inr q ↦ rw (q, q)
  ]

  with_item-none : (u : K) → or_nil (some (with_item u none)) ≡ u ∷ []
  unfolding with_item
  with_item-none u = refl

  -- Putting a chunk that is new, under a token that does not list it, and removing it for the same
  -- client leaves what can be found under every token as it was.
  pub remove_chunk-put_chunk :
      (ix : Ix M1 M2) (c t u : K)
      → M2.lookup ix.used_by_tree c ≡ none
      → contains (or_nil (M2.lookup ix.by_checksum_tree t)) c ≡ false
      → (j : K)
      → find_chunk_ids_by_token M1 M2
          (remove_chunk_from_indexes M1 M2 (put_chunk_into_indexes M1 M2 ix c t u) c u)
          j
        ≡ find_chunk_ids_by_token M1 M2 ix j
  remove_chunk-put_chunk ix c t u p q j =
      let iy = put_chunk_into_indexes M1 M2 ix c t u in
      let o = M2.lookup ix.by_checksum_tree t in
      let (_, _, token, _, _) = put_chunk_into_indexes_lem M1 M2 ix c t u in
      let f =
        (remove_chunk-Forgotten M1 M2 iy c u (
          inl (
            ap or_nil {y = some (with_item u none)}
              (put_chunk-used M1 M2 ix c t u ∙ ap (λ x. some (with_item u x)) p)
            ∙ with_item-none u))).0 in
      let tk : M1.lookup iy.by_chunk_id_tree c ≡ some t = token c ∙ rw (beq_refl c) in
      find_of_or_nil (remove_chunk_from_indexes M1 M2 iy c u) ix j (
        ap or_nil (f.listed j)
        ∙ ap₂ (λ x y. or_nil (without M1 M2 x c j y)) tk (put_chunk-listed M1 M2 ix c t u j)
        ∙ without-with_item t c j o (M2.lookup ix.by_checksum_tree j) q
            (λ h. ap (M2.lookup ix.by_checksum_tree) ((e.beq_iff t j).0 h)))
