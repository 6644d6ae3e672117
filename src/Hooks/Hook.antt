-- ===== src/Hooks/Hook.antt =====
-- obnamlib/hooks.py: `Hook`, the callbacks of a hook in the order of their priorities.
use obnam.Prelude.{
  ℕ, suc, ◌≡◌, ◌∙◌, refl, true, Option, none, some, List, [], ◌∷◌, ◌++◌, arith, inl, inr,
}
use obnam.Prelude.Tests.{if◌then◌else◌, leb, Bool-cases}
use obnam.Prelude.Lists.{All}
use obnam.Prelude.Keys.{
  Eq, ◌==◌, contains, remove_first, count, count_with, count-absent, count-snoc,
}
use obnam.Prelude.Dict.{Dict, get, put, del, get-put}

pub record Hook (C : Type 0) : Type 0 where
  pub callbacks : List C
  pub priorities : Dict C ℕ

abbrev pub early_priority : ℕ
early_priority = 250

abbrev pub default_priority : ℕ
default_priority = 500

abbrev pub late_priority : ℕ
late_priority = 750

abbrev pub or_default : Option ℕ → ℕ
or_default none = default_priority
or_default (some p) = p

module _ {C : Type 0} ⦃e : Eq C⦄ where
  abbrev pub empty : Hook C
  empty = record { callbacks = []; priorities = [] }

  -- `self.priorities[x]`; each callback of a hook has an entry
  unfoldable pub priority_of : Dict C ℕ → C → ℕ
  priority_of d c = or_default (get c d)

  unfoldable pub insert_by : (C → ℕ) → C → List C → List C
  insert_by f c [] = c ∷ []
  insert_by f c (x ∷ xs) = if leb (f c) (f x) then c ∷ x ∷ xs else x ∷ insert_by f c xs

  -- `list.sort`, which keeps the order of equals
  unfoldable pub sort_by : (C → ℕ) → List C → List C
  unfolding insert_by
  sort_by f [] = []
  sort_by f (x ∷ xs) = insert_by f x (sort_by f xs)

  unfoldable pub add_callback : Hook C → C → ℕ → Hook C
  unfolding sort_by
  add_callback h c priority =
      let priorities = put c priority h.priorities in
      if contains h.callbacks c then h else record {
        callbacks = sort_by (priority_of priorities) (h.callbacks ++ c ∷ []);
        priorities = priorities;
      }

  unfoldable pub remove_callback : Hook C → C → Hook C
  remove_callback h c =
      if contains h.callbacks c
      then record { callbacks = remove_first c h.callbacks; priorities = del c h.priorities }
      else h

  -- the callbacks, each no later in its priority than those behind it
  abbrev pub InOrder : (C → ℕ) → List C → Type 0
  InOrder f [] = Unit
  InOrder f (x ∷ xs) = All (λ y. leb (f x) (f y) ≡ true) xs × InOrder f xs

  All-insert_by :
      (f : C → ℕ) (P : C → Type 0) (c : C) (xs : List C) → P c → All P xs → All P (insert_by f c xs)
  unfolding insert_by
  All-insert_by f P c [] p h = (p, tt)
  All-insert_by f P c (x ∷ xs) p h = elim (Bool-cases (leb (f c) (f x))) [
    | inl q ↦ rw q (p, h)
    | inr q ↦ rw q (h.0, All-insert_by f P c xs p h.1)
  ]

  leb_trans_All :
      (f : C → ℕ) (c x : C) (xs : List C)
      → leb (f c) (f x) ≡ true
      → All (λ y. leb (f x) (f y) ≡ true) xs
      → All (λ y. leb (f c) (f y) ≡ true) xs
  leb_trans_All f c x [] q h = tt
  leb_trans_All f c x (y ∷ xs) q h = (ground arith, leb_trans_All f c x xs q h.1)

  insert_by-InOrder :
      (f : C → ℕ) (c : C) (xs : List C) → InOrder f xs → InOrder f (insert_by f c xs)
  unfolding insert_by
  insert_by-InOrder f c [] h = (tt, tt)
  insert_by-InOrder f c (x ∷ xs) h = elim (Bool-cases (leb (f c) (f x))) [
    | inl q ↦ rw q ((q, leb_trans_All f c x xs q h.0), h)
    | inr q ↦ rw q (
      All-insert_by f (λ y. leb (f x) (f y) ≡ true) c xs (ground arith) h.0,
      insert_by-InOrder f c xs h.1,
    )
  ]

  sort_by-InOrder : (f : C → ℕ) (xs : List C) → InOrder f (sort_by f xs)
  unfolding sort_by
  sort_by-InOrder f [] = tt
  sort_by-InOrder f (x ∷ xs) = insert_by-InOrder f x (sort_by f xs) (sort_by-InOrder f xs)

  contains-insert_by :
      (f : C → ℕ) (x : C) (xs : List C) (a : C)
      → contains (insert_by f x xs) a ≡ (if a == x then true else contains xs a)
  unfolding insert_by
  contains-insert_by f x [] a = refl
  contains-insert_by f x (y ∷ ys) a = ground (arith, contains-insert_by f x ys a)

  contains-sort_by-snoc :
      (f : C → ℕ) (xs : List C) (c a : C)
      → contains (sort_by f (xs ++ c ∷ [])) a ≡ (if a == c then true else contains xs a)
  unfolding sort_by
  contains-sort_by-snoc f [] c a = contains-insert_by f c [] a
  contains-sort_by-snoc f (x ∷ xs) c a =
      ground
        (arith, contains-insert_by f x (sort_by f (xs ++ c ∷ [])) a, contains-sort_by-snoc f xs c a)

  count-insert_by :
      (f : C → ℕ) (x : C) (xs : List C) (a : C)
      → count a (insert_by f x xs) ≡ (if a == x then suc (count a xs) else count a xs)
  unfolding insert_by
  count-insert_by f x [] a = refl
  count-insert_by f x (y ∷ ys) a = ground (arith, count-insert_by f x ys a)

  count-sort_by : (f : C → ℕ) (xs : List C) (a : C) → count a (sort_by f xs) ≡ count a xs
  unfolding sort_by
  count-sort_by f [] a = refl
  count-sort_by f (x ∷ xs) a =
      ground (arith, count-insert_by f x (sort_by f xs) a, count-sort_by f xs a)

  -- If the callbacks of a hook are in the order of their priorities, they still are after one is
  -- added, which is among them. It is there just once if it was not there before; it is there as often
  -- as it was, with the priority that it had, if it was. Every other callback is there as often as it was.
  pub add_callback_lem :
      (h : Hook C) (c : C) (p : ℕ)
      → InOrder (priority_of h.priorities) h.callbacks
      → InOrder (priority_of (add_callback h c p).priorities) (add_callback h c p).callbacks
        × ((a : C)
            → contains (add_callback h c p).callbacks a
              ≡ (if a == c then true else contains h.callbacks a))
        × ((a : C) → count a (add_callback h c p).callbacks ≡ count_with h.callbacks c a)
        × ((a : C)
            → get a (add_callback h c p).priorities ≡ (
                if c == a
                then (if contains h.callbacks c then get a h.priorities else some p)
                else get a h.priorities))
  unfolding add_callback
  add_callback_lem h c p o = elim (Bool-cases (contains h.callbacks c)) [
    | inl q ↦
        rw (q, add_callback)
          (
            o,
            λ a. ground (arith, q, e.beq_iff a c),
            λ a. ground (arith, q, e.beq_iff a c),
            λ a. ground (arith, q),
          )
    | inr q ↦
        let f = priority_of (put c p h.priorities) in
        rw (q, add_callback)
          (
            sort_by-InOrder f (h.callbacks ++ c ∷ []),
            λ a. contains-sort_by-snoc f h.callbacks c a,
            λ a.
                count-sort_by f (h.callbacks ++ c ∷ []) a
                ∙ count-snoc a c h.callbacks
                ∙ ground (arith, q, e.beq_iff a c, count-absent c h.callbacks q),
            λ a. get-put c a p h.priorities ∙ ground (arith, q),
          )
  ]
