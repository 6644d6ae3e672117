-- ===== src/Clients/Names.antt =====
-- Lists of distinct names, and names that a dict of clients has.
use obnam.Prelude.{◌≡◌, refl, sym, ap, subst, true, false, List, [], ◌∷◌, ◌++◌, arith, inl, inr}
use obnam.Prelude.Tests.{if◌then◌else◌, Bool-cases}
use obnam.Prelude.Lists.{All, All-append, All-map, All-map₂}
use obnam.Prelude.Keys.{◌==◌, nat_eq, list_eq, eq_of_beq, contains, remove_first}
use obnam.Prelude.Dict.{Dict, put, del, has, get-put, get-del, has-get}
use obnam.Prelude.Sorted.{Distinct}
use obnam.Bag.ObjectId.{Text}
use obnam.Clients.ClientList.{Client}

pub remove_first-All :
    (P : Text → Type 0) (a : Text) (xs : List Text) → All P xs → All P (remove_first a xs)
remove_first-All P a [] h = tt
remove_first-All P a (x ∷ xs) h = elim (Bool-cases (a == x)) [
  | inl q ↦ rw q h.1
  | inr q ↦ rw q (h.0, remove_first-All P a xs h.1)
]

pub remove_first-Distinct : (a : Text) (xs : List Text) → Distinct xs → Distinct (remove_first a xs)
remove_first-Distinct a [] h = tt
remove_first-Distinct a (x ∷ xs) h = elim (Bool-cases (a == x)) [
  | inl q ↦ rw q h.1
  | inr q ↦ rw q (remove_first-All (λ y. (x == y) ≡ false) a xs h.0, remove_first-Distinct a xs h.1)
]

-- of distinct names, none that is left is the one that was removed
pub remove_first-gone :
    (a : Text) (xs : List Text) → Distinct xs → All (λ y. (a == y) ≡ false) (remove_first a xs)
remove_first-gone a [] h = tt
remove_first-gone a (x ∷ xs) h = elim (Bool-cases (a == x)) [
  | inl q ↦ rw q (subst (λ z. All (λ y. (z == y) ≡ false) xs) (sym (eq_of_beq a x q)) h.0)
  | inr q ↦ rw q (q, remove_first-gone a xs h.1)
]

-- removing a name that is not there changes nothing
pub remove_first-if :
    (a : Text) (xs : List Text)
    → (if contains xs a then remove_first a xs else xs) ≡ remove_first a xs
remove_first-if a [] = refl
remove_first-if a (x ∷ xs) = ground (arith, remove_first-if a xs)

pub has-put :
    (a n : Text) (c : Client) (d : Dict Text Client)
    → has n (put a c d) ≡ (if a == n then true else has n d)
has-put a n c d = ground (arith, has-get n (put a c d), has-get n d, get-put a n c d)

pub has-del :
    (a n : Text) (d : Dict Text Client) → has n (del a d) ≡ (if a == n then false else has n d)
has-del a n d = ground (arith, has-get n (del a d), has-get n d, get-del a n d)

-- a name that is no client is none of those that are
pub fresh_name :
    (a : Text) (d : Dict Text Client) (xs : List Text)
    → has a d ≡ false
    → All (λ n. has n d ≡ true) xs
    → All (λ y. (y == a) ≡ false) xs
fresh_name a d xs q h =
    All-map (λ n. has n d ≡ true) (λ y. (y == a) ≡ false) xs
      (λ y p. elim (Bool-cases (y == a)) [
        | inr r ↦ r
        | inl r ↦ absurd (ground (arith, p, q, ap (λ z. has z d) (eq_of_beq y a r)))
      ])
      h

pub known-put :
    (a : Text) (c : Client) (d : Dict Text Client) (xs : List Text)
    → All (λ n. has n d ≡ true) xs
    → All (λ n. has n (put a c d) ≡ true) xs
known-put a c d xs h =
    All-map (λ n. has n d ≡ true) (λ n. has n (put a c d) ≡ true) xs
      (λ n p. ground (arith, p, has-put a n c d)) h

pub known-del :
    (a : Text) (d : Dict Text Client) (xs : List Text)
    → All (λ y. (a == y) ≡ false) xs
    → All (λ n. has n d ≡ true) xs
    → All (λ n. has n (del a d) ≡ true) xs
known-del a d xs g h =
    All-map₂ (λ y. (a == y) ≡ false) (λ n. has n d ≡ true) (λ n. has n (del a d) ≡ true) xs
      (λ n p q. ground (arith, p, q, has-del a n d)) g h

pub snoc-Distinct :
    (xs : List Text) (a : Text)
    → All (λ y. (y == a) ≡ false) xs
    → Distinct xs
    → Distinct (xs ++ a ∷ [])
snoc-Distinct [] a h d = (tt, tt)
snoc-Distinct (x ∷ xs) a h d =
    (All-append (λ y. (x == y) ≡ false) xs (a ∷ []) d.0 (h.0, tt), snoc-Distinct xs a h.1 d.1)
