-- ===== src/Prelude/Sorted.antt =====
-- Python's `sorted` on distinct keys, and what is known of the result.
use Prim.Native.Nat.{suc}
use mathlib.Core.Bool.{true, false, ◌||◌}
use mathlib.Core.List.{List, [], ◌∷◌, ◌++◌}
use mathlib.Core.Path.{◌≡◌, refl}
use native.Mathlib.Omega.{arith}
use obnam.Prelude.Tests.{if◌then◌else◌, Bool-cases}
use obnam.Prelude.Lists.{length, All}
use obnam.Prelude.Keys.{Eq, Ord, ◌==◌, contains}
use mathlib.Core.Logic.{inl, inr}

module _ {ℓ} {K : Type ℓ} ⦃e : Eq K⦄ where
  -- no key twice
  abbrev pub Distinct : List K → Type ℓ
  Distinct [] = Unit
  Distinct (x ∷ xs) = All (λ y. (x == y) ≡ false) xs × Distinct xs

  pub contains-append :
      (xs ys : List K) (a : K) → contains (xs ++ ys) a ≡ (contains xs a || contains ys a)
  contains-append [] ys a = refl
  contains-append (x ∷ xs) ys a = ground (arith, contains-append xs ys a)

module _ {ℓ} {K : Type ℓ} ⦃o : Ord K⦄ where
  -- strictly ascending
  abbrev pub Ascending : List K → Type ℓ
  Ascending [] = Unit
  Ascending (x ∷ xs) = All (λ y. o.le y x ≡ false) xs × Ascending xs

module _ {ℓ} {K : Type ℓ} ⦃e : Eq K⦄ ⦃o : Ord K⦄ where
  unfoldable pub insert_key : K → List K → List K
  insert_key x [] = x ∷ []
  insert_key x (y ∷ ys) = if o.le x y then x ∷ y ∷ ys else y ∷ insert_key x ys

  unfoldable pub sorted : List K → List K
  unfolding insert_key
  sorted [] = []
  sorted (x ∷ xs) = insert_key x (sorted xs)

  All-insert_key {κ} :
      (P : K → Type κ) (x : K) (xs : List K) → P x → All P xs → All P (insert_key x xs)
  unfolding insert_key
  All-insert_key P x [] px h = (px, tt)
  All-insert_key P x (y ∷ ys) px h = elim (Bool-cases (o.le x y)) [
    | inl c ↦ rw c (px, (h.0, h.1))
    | inr c ↦ rw c (h.0, All-insert_key P x ys px h.1)
  ]

  pub All-sorted {κ} : (P : K → Type κ) (xs : List K) → All P xs → All P (sorted xs)
  unfolding sorted
  All-sorted P [] h = tt
  All-sorted P (x ∷ xs) h = All-insert_key P x (sorted xs) h.0 (All-sorted P xs h.1)

  pub length-insert_key : (x : K) (xs : List K) → length (insert_key x xs) ≡ suc (length xs)
  unfolding insert_key
  length-insert_key x [] = refl
  length-insert_key x (y ∷ ys) = ground (arith, length-insert_key x ys)

  pub length-sorted : (xs : List K) → length (sorted xs) ≡ length xs
  unfolding sorted
  length-sorted [] = refl
  length-sorted (x ∷ xs) = omega (arith, length-insert_key x (sorted xs), length-sorted xs)

  contains-insert_key :
      (x : K) (xs : List K) (a : K)
      → contains (insert_key x xs) a ≡ (if a == x then true else contains xs a)
  unfolding insert_key
  contains-insert_key x [] a = refl
  contains-insert_key x (y ∷ ys) a = ground (arith, contains-insert_key x ys a)

  pub contains-sorted : (xs : List K) (a : K) → contains (sorted xs) a ≡ contains xs a
  unfolding sorted
  contains-sorted [] a = refl
  contains-sorted (x ∷ xs) a =
      ground (arith, contains-insert_key x (sorted xs) a, contains-sorted xs a)

  lt_of_le_ne : (x y : K) → o.le x y ≡ true → (x == y) ≡ false → o.le y x ≡ false
  lt_of_le_ne x y p q = ground (arith, o.le_antisymm x y, e.beq_iff x y)

  lt_trans : (x y z : K) → o.le y x ≡ false → o.le z y ≡ false → o.le z x ≡ false
  lt_trans x y z p q = ground (arith, o.le_total y x p, o.le_trans z x y)

  pub All-lt_trans :
      (x y : K) (zs : List K)
      → o.le y x ≡ false
      → All (λ z. o.le z y ≡ false) zs
      → All (λ z. o.le z x ≡ false) zs
  All-lt_trans x y [] p h = tt
  All-lt_trans x y (z ∷ zs) p h = (lt_trans x y z p h.0, All-lt_trans x y zs p h.1)

  insert_key-Ascending :
      (x : K) (xs : List K)
      → All (λ y. (x == y) ≡ false) xs
      → Ascending xs
      → Ascending (insert_key x xs)
  unfolding insert_key
  insert_key-Ascending x [] n h = (tt, tt)
  insert_key-Ascending x (y ∷ ys) n h = elim (Bool-cases (o.le x y)) [
    | inl c ↦ let p = lt_of_le_ne x y c n.0 in rw c ((p, All-lt_trans x y ys p h.0), (h.0, h.1))
    | inr c ↦
        rw c (All-insert_key (λ z. o.le z y ≡ false) x ys c h.0, insert_key-Ascending x ys n.1 h.1)
  ]

  -- `sorted` puts distinct keys in strictly ascending order.
  pub sorted-Ascending : (xs : List K) → Distinct xs → Ascending (sorted xs)
  unfolding sorted
  sorted-Ascending [] d = tt
  sorted-Ascending (x ∷ xs) d =
      insert_key-Ascending x (sorted xs) (All-sorted (λ y. (x == y) ≡ false) xs d.0)
        (sorted-Ascending xs d.1)

  All-insert_key_inv {κ} :
      (P : K → Type κ) (x : K) (xs : List K) → All P (insert_key x xs) → P x × All P xs
  unfolding insert_key
  All-insert_key_inv P x [] h = (h.0, tt)
  All-insert_key_inv P x (y ∷ ys) h = elim (Bool-cases (o.le x y)) [
    | inl c ↦ let h' : All P (x ∷ y ∷ ys) = rw c at h in h'
    | inr c ↦
        let h' : All P (y ∷ insert_key x ys) = rw c at h in
        let r = All-insert_key_inv P x ys h'.1 in (r.0, (h'.0, r.1))
  ]

  -- What holds of every sorted key holds of every key.
  pub All-sorted_inv {κ} : (P : K → Type κ) (xs : List K) → All P (sorted xs) → All P xs
  unfolding sorted
  All-sorted_inv P [] h = tt
  All-sorted_inv P (x ∷ xs) h =
      let r = All-insert_key_inv P x (sorted xs) h in (r.0, All-sorted_inv P xs r.1)
