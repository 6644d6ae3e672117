-- ===== src/Prelude/Dict.antt =====
-- Python's `dict`, as an association list in order of insertion. The laws are in `if` form.
use mathlib.Core.Bool.{Bool, true, false}
use mathlib.Core.List.{List, [], ◌∷◌, ◌++◌, map}
use mathlib.Core.Option.{Option, none, some}
use mathlib.Core.Path.{◌≡◌, refl}
use native.Mathlib.Omega.{arith}
use obnam.Prelude.Tests.{if◌then◌else◌, Bool-cases}
use mathlib.Core.Logic.{inl, inr}
use obnam.Prelude.Keys.{Eq, ◌==◌}

abbrev pub Dict {ℓ} : Type ℓ → Type ℓ → Type ℓ
Dict K V = List (K × V)

module _ {ℓ} {K V : Type ℓ} where
  abbrev pub keys : Dict K V → List K
  keys = map (λ e. e.0)

module _ {ℓ} {K V : Type ℓ} ⦃e : Eq K⦄ where
  -- d.get(k, None)
  unfoldable pub get : K → Dict K V → Option V
  get k [] = none
  get k ((j, v) ∷ d) = if j == k then some v else get k d

  -- d[k] = v
  unfoldable pub put : K → V → Dict K V → Dict K V
  put k v [] = (k, v) ∷ []
  put k v ((j, w) ∷ d) = if j == k then (j, v) ∷ d else (j, w) ∷ put k v d

  -- del d[k]
  unfoldable pub del : K → Dict K V → Dict K V
  del k [] = []
  del k ((j, v) ∷ d) = let rest = del k d in if j == k then rest else (j, v) ∷ rest

  -- k in d
  unfoldable pub has : K → Dict K V → Bool
  has k [] = false
  has k ((j, v) ∷ d) = if j == k then true else has k d

  pub get-put :
      (k j : K) (v : V) (d : Dict K V) → get j (put k v d) ≡ (if k == j then some v else get j d)
  unfolding get put
  get-put k j v [] = refl
  get-put k j v ((i, w) ∷ d) =
      ground (arith, get-put k j v d, e.beq_iff k j, e.beq_iff i k, e.beq_iff i j)

  pub get-put_self : (k j : K) (v : V) (d : Dict K V) → (k == j) ≡ true → get j (put k v d) ≡ some v
  get-put_self k j v d h = ground (arith, h, get-put k j v d)

  pub get-put_other :
      (k j : K) (v : V) (d : Dict K V) → (k == j) ≡ false → get j (put k v d) ≡ get j d
  get-put_other k j v d h = ground (arith, h, get-put k j v d)

  pub get-del : (k j : K) (d : Dict K V) → get j (del k d) ≡ (if k == j then none else get j d)
  unfolding get del
  get-del k j [] = ground arith
  get-del k j ((i, w) ∷ d) =
      ground (arith, get-del k j d, e.beq_iff k j, e.beq_iff i k, e.beq_iff i j)

  pub del-missing : (k : K) (d : Dict K V) → has k d ≡ false → del k d ≡ d
  unfolding del has
  del-missing k [] h = refl
  del-missing k ((i, w) ∷ d) h = elim (Bool-cases (i == k)) [
    | inl c ↦ absurd (ground (arith, h, c))
    | inr c ↦ ground (arith, h, c, del-missing k d (ground (arith, h, c)))
  ]

  pub has-get : (k : K) (d : Dict K V) → has k d ≡ (elim (get k d) [ none ↦ false | some _ ↦ true ])
  unfolding get has
  has-get k [] = refl
  has-get k ((i, w) ∷ d) = ground (arith, has-get k d)

  pub get-append :
      (k : K) (a b : Dict K V)
      → get k (a ++ b) ≡ (elim (get k a) [ none ↦ get k b | some v ↦ some v ])
  unfolding get
  get-append k [] b = refl
  get-append k ((i, w) ∷ a) b = ground (arith, get-append k a b)
