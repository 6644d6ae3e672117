-- ===== src/CowTree/Leaf.antt =====
-- obnamlib/fmt_ga/leaf.py: a leaf is a dict whose values may be `None`, which `lookup` also
-- returns for a missing key.
use obnam.Prelude.{
  ℕ, ◌+◌, ◌≤◌, ◌≡◌, refl, false, Option, none, some, List, [], ◌∷◌, arith, inl, inr,
}
use obnam.Prelude.Tests.{if◌then◌else◌, Bool-cases}
use obnam.Prelude.Lists.{length, All}
use obnam.Prelude.Keys.{Eq, ◌==◌, contains}
use obnam.Prelude.Dict.{Dict, keys, get, put, get-put}
use obnam.Prelude.Sorted.{Distinct}

-- `CowLeaf`
abbrev pub Leaf : Type 0 → Type 0 → Type 0
Leaf K W = Dict K (Option W)

-- `len(leaf)`
abbrev pub len : {K W : Type 0} → Leaf K W → ℕ
len d = length (keys d)

-- a missing key reads as `None`
abbrev pub or_none : {W : Type 0} → Option (Option W) → Option W
or_none none = none
or_none (some o) = o

module _ {K W : Type 0} ⦃e : Eq K⦄ where
  -- `self._dict.get(key, None)`
  unfoldable pub lookup : K → Leaf K W → Option W
  lookup key leaf = or_none (get key leaf)

  -- `self._dict[key] = value`
  unfoldable pub insert : K → Option W → Leaf K W → Leaf K W
  insert key value leaf = put key value leaf

  -- `insert` for each pair in turn
  unfoldable pub put_all : Leaf K W → List (K × Option W) → Leaf K W
  put_all d [] = d
  put_all d ((key, v) ∷ rest) = put_all (insert key v d) rest

  -- the loop of `_make_split_leaf`: `for key in sorted_keys: new.insert(key, leaf.lookup(key))`
  unfoldable pub copy_keys : List K → Leaf K W → Leaf K W → Leaf K W
  copy_keys [] leaf new = new
  copy_keys (key ∷ rest) leaf new = copy_keys rest leaf (insert key (lookup key leaf) new)

  pub All-keys-insert :
      (P : K → Type 0) (k : K) (v : Option W) (d : Leaf K W)
      → P k
      → All P (keys d)
      → All P (keys (insert k v d))
  unfolding insert put
  All-keys-insert P k v [] p h = (p, tt)
  All-keys-insert P k v ((j, w) ∷ d) p h = elim (Bool-cases (j == k)) [
    | inl c ↦ rw c h
    | inr c ↦ rw c (h.0, All-keys-insert P k v d p h.1)
  ]

  pub All-keys-copy_keys :
      (P : K → Type 0) (ks : List K) (leaf new : Leaf K W)
      → All P ks
      → All P (keys new)
      → All P (keys (copy_keys ks leaf new))
  unfolding copy_keys
  All-keys-copy_keys P [] leaf new p h = h
  All-keys-copy_keys P (k ∷ ks) leaf new p h =
      All-keys-copy_keys P ks leaf (insert k (lookup k leaf) new) p.1
        (All-keys-insert P k (lookup k leaf) new p.0 h)

  pub insert-Distinct :
      (k : K) (v : Option W) (d : Leaf K W) → Distinct (keys d) → Distinct (keys (insert k v d))
  unfolding insert put
  insert-Distinct k v [] h = (tt, tt)
  insert-Distinct k v ((j, w) ∷ d) h = elim (Bool-cases (j == k)) [
    | inl c ↦ rw c h
    | inr c ↦ rw c (All-keys-insert (λ y. (j == y) ≡ false) k v d c h.0, insert-Distinct k v d h.1)
  ]

  pub copy_keys-Distinct :
      (ks : List K) (leaf new : Leaf K W)
      → Distinct (keys new)
      → Distinct (keys (copy_keys ks leaf new))
  unfolding copy_keys
  copy_keys-Distinct [] leaf new h = h
  copy_keys-Distinct (k ∷ ks) leaf new h =
      copy_keys-Distinct ks leaf (insert k (lookup k leaf) new)
        (insert-Distinct k (lookup k leaf) new h)

  pub len-insert-pos : (k : K) (v : Option W) (d : Leaf K W) → 1 ≤ len (insert k v d)
  unfolding insert put
  len-insert-pos k v [] = omega arith
  len-insert-pos k v ((j, w) ∷ d) = ground arith

  pub len-insert-le : (k : K) (v : Option W) (d : Leaf K W) → len (insert k v d) ≤ len d + 1
  unfolding insert put
  len-insert-le k v [] = omega arith
  len-insert-le k v ((j, w) ∷ d) = ground (arith, len-insert-le k v d)

  pub len-copy_keys-le :
      (ks : List K) (leaf new : Leaf K W) → len (copy_keys ks leaf new) ≤ len new + length ks
  unfolding copy_keys
  len-copy_keys-le [] leaf new = omega arith
  len-copy_keys-le (k ∷ ks) leaf new = omega (
    arith,
    len-copy_keys-le ks leaf (insert k (lookup k leaf) new),
    len-insert-le k (lookup k leaf) new,
  )

  pub get-insert :
      (k j : K) (v : Option W) (d : Leaf K W)
      → get j (insert k v d) ≡ (if k == j then some v else get j d)
  unfolding insert
  get-insert k j v d = get-put k j v d

  pub get-copy_keys :
      (ks : List K) (leaf new : Leaf K W) (j : K)
      → get j (copy_keys ks leaf new) ≡ (if contains ks j then some (lookup j leaf) else get j new)
  unfolding copy_keys
  get-copy_keys [] leaf new j = refl
  get-copy_keys (k ∷ ks) leaf new j = ground (
    arith,
    get-copy_keys ks leaf (insert k (lookup k leaf) new) j,
    get-insert k j (lookup k leaf) new,
    e.beq_iff k j,
    e.beq_iff j k,
  )

  pub contains-keys :
      (d : Leaf K W) (j : K) → (if contains (keys d) j then some (lookup j d) else none) ≡ get j d
  unfolding get lookup
  contains-keys [] j = refl
  contains-keys ((i, w) ∷ d) j = ground (arith, contains-keys d j, e.beq_iff i j, e.beq_iff j i)
