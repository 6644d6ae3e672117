-- ===== src/Trees/Inside.antt =====
-- Path names inside a directory, at any depth.
use obnam.Prelude.{◌≤◌, ◌<◌, ◌≡◌, refl, ap, Bool, true, false, [], ◌∷◌, arith, inl, inr}
use obnam.Prelude.Tests.{if◌then◌else◌, Bool-cases}
use obnam.Prelude.Lists.{length}
use obnam.Prelude.Keys.{◌==◌, nat_eq, list_eq, beq_refl, eq_of_beq}
use obnam.Trees.Paths.{Pathname, dirname}

-- whether the second path is the first, or a directory above it
unfoldable pub inside : Pathname → Pathname → Bool
inside [] q = [] == q
inside (n ∷ p) q = if n ∷ p == q then true else inside p q

pub inside_refl : (p : Pathname) → inside p p ≡ true
unfolding inside
inside_refl [] = refl
inside_refl (n ∷ p) = rw (beq_refl (n ∷ p))

length_eq : (p q : Pathname) → (p == q) ≡ true → length p ≡ length q
length_eq p q h = ap (λ r. length r) (eq_of_beq p q h)

pub inside-length : (p q : Pathname) → inside p q ≡ true → length q ≤ length p
unfolding inside
inside-length [] q h = omega (arith, length_eq [] q h)
inside-length (n ∷ p) q h = elim (Bool-cases (n ∷ p == q)) [
  | inl c ↦ omega (arith, length_eq (n ∷ p) q c)
  | inr c ↦ omega (arith, inside-length p q (ground (arith, h, c)))
]

not_true : (b : Bool) → ¬ (b ≡ true) → b ≡ false
not_true true h = absurd (h refl)
not_true false h = refl

-- a longer path is not above a shorter one
pub inside-shorter : (p q : Pathname) → length p < length q → inside p q ≡ false
inside-shorter p q h = not_true (inside p q) (λ e. omega (arith, h, inside-length p q e))

pub inside_tail_eq : (n : _) (p q : Pathname) → inside (n ∷ p) q ≡ false → (n ∷ p == q) ≡ false
unfolding inside
inside_tail_eq n p q h = ground (arith, h)

pub inside_tail : (n : _) (p q : Pathname) → inside (n ∷ p) q ≡ false → inside p q ≡ false
unfolding inside
inside_tail n p q h = ground (arith, h)

-- a path that is in a directory and is not the directory is longer
pub inside-longer : (q p : Pathname) → inside q p ≡ true → (q == p) ≡ false → length p < length q
unfolding inside
inside-longer [] p h c = absurd (ground (arith, h, c))
inside-longer (k ∷ r) p h c = omega (arith, inside-length r p (ground (arith, h, c)))

pub inside_step :
    (k : _) (r p : Pathname) → inside (k ∷ r) p ≡ true → (k ∷ r == p) ≡ false → inside r p ≡ true
unfolding inside
inside_step k r p h c = ground (arith, h, c)

-- one of two different paths is not inside the other if it is not inside the other's parent
pub inside-not :
    (n : _) (p q : Pathname)
    → inside q (n ∷ p) ≡ false
    → inside p q ≡ false
    → inside (n ∷ p) q ≡ false
unfolding inside
inside-not n p q i h = elim (Bool-cases (n ∷ p == q)) [
  | inr c ↦ ground (arith, c, h)
  | inl c ↦
      absurd
        (ground (arith, i, inside_refl (n ∷ p), ap (λ r. inside r (n ∷ p)) (eq_of_beq (n ∷ p) q c)))
]

-- a path that is not inside another is not the other
pub beq_of_outside : (p q : Pathname) → inside p q ≡ false → (q == p) ≡ false
beq_of_outside p q h = elim (Bool-cases (q == p)) [
  | inr c ↦ c
  | inl c ↦ absurd (ground (arith, h, inside_refl p, ap (λ r. inside p r) (eq_of_beq q p c)))
]

-- what is not inside a directory is not inside its subdirectory
pub inside_child : (n : _) (q p : Pathname) → inside q p ≡ false → inside q (n ∷ p) ≡ false
unfolding inside
inside_child n [] p h = ground arith
inside_child n (k ∷ r) p h = elim (Bool-cases (k ∷ r == n ∷ p)) [
  | inr c ↦ ground (arith, c, inside_child n r p (inside_tail k r p h))
  | inl c ↦
      let e : r ≡ p = ap dirname (eq_of_beq (k ∷ r) (n ∷ p) c) in
      absurd (ground (arith, inside_tail k r p h, inside_refl p, ap (λ q. inside q p) e))
]
