-- ===== src/Pending/TokenMap.antt =====
-- obnamlib/chunkid_token_map.py: `ChunkIdTokenMap`, the chunk ids of each token.
use obnam.Prelude.{
  ◌≡◌, sym, ap, ◌∙◌, Bool, Option, none, some, List, [], ◌∷◌, ◌++◌, map, arith, inl, inr,
}
use mathlib.Core.List.{append-nil, append_assoc}
use obnam.Prelude.Tests.{if◌then◌else◌, Bool-cases}
use obnam.Prelude.Keys.{Eq, ◌==◌, eq_of_beq}
use obnam.Prelude.Dict.{Dict, get, put, has, get-put}

abbrev pub or_nil : {I : Type 0} → Option (List I) → List I
or_nil none = []
or_nil (some ids) = ids

module _ {I T : Type 0} ⦃e : Eq T⦄ where
  -- `self._mapping.get(token, [])`
  unfoldable pub lookup : Dict T (List I) → T → List I
  lookup mapping token = or_nil (get token mapping)

  -- a new list for a new token, and then the append
  unfoldable pub add : Dict T (List I) → I → T → Dict T (List I)
  unfolding lookup
  add mapping chunk_id token = put token (lookup mapping token ++ chunk_id ∷ []) mapping

  unfoldable pub contains_token : Dict T (List I) → T → Bool
  contains_token mapping token = has token mapping

  abbrev pub clear : Dict T (List I) → Dict T (List I)
  clear mapping = []

  -- `__iter__`, token by token
  unfoldable pub pairs : Dict T (List I) → List (I × T)
  pairs [] = []
  pairs ((token, ids) ∷ rest) = map (λ i. (i, token)) ids ++ pairs rest

  -- `add` for each pair in turn
  unfoldable pub add_all : Dict T (List I) → List (I × T) → Dict T (List I)
  unfolding add
  add_all mapping [] = mapping
  add_all mapping ((chunk_id, token) ∷ rest) = add_all (add mapping chunk_id token) rest

  -- the chunk ids of a token among pairs
  abbrev pub ids_of : T → List (I × T) → List I
  ids_of token [] = []
  ids_of token ((i, t) ∷ rest) = if t == token then i ∷ ids_of token rest else ids_of token rest

  lookup-add :
      (m : Dict T (List I)) (i : I) (t u : T)
      → lookup (add m i t) u ≡ (if t == u then lookup m u ++ i ∷ [] else lookup m u)
  unfolding lookup add
  lookup-add m i t u =
      let ids = or_nil (get t m) ++ i ∷ [] in
      elim (Bool-cases (t == u)) [
        | inl q ↦ ground (arith, q, get-put t u ids m, ap (λ z. get z m) (eq_of_beq t u q))
        | inr q ↦ ground (arith, q, get-put t u ids m)
      ]

  -- After adding pairs, the chunk ids of a token are those it had, and then those it was added with,
  -- in the order of the additions.
  pub lookup-add_all :
      (ps : List (I × T)) (m : Dict T (List I)) (u : T)
      → lookup (add_all m ps) u ≡ lookup m u ++ ids_of u ps
  unfolding add_all
  lookup-add_all [] m u = sym (append-nil (lookup m u))
  lookup-add_all ((i, t) ∷ ps) m u = elim (Bool-cases (t == u)) [
    | inl q ↦ rw q (
        lookup-add_all ps (add m i t) u
        ∙ ap (λ l. l ++ ids_of u ps) (lookup-add m i t u ∙ rw q)
        ∙ append_assoc (lookup m u) (i ∷ []) (ids_of u ps))
    | inr q ↦
        rw q
          (lookup-add_all ps (add m i t) u ∙ ap (λ l. l ++ ids_of u ps) (lookup-add m i t u ∙ rw q))
  ]
