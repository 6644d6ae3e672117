-- ===== src/Pending/Excluder.antt =====
-- obnamlib/pathname_excluder.py: `PathnameExcluder`. Whether a regular expression is found in a path
-- name is a parameter.
use obnam.Prelude.{◌≡◌, refl, Bool, true, false, Option, none, some, List, [], ◌∷◌, ◌++◌, arith}
use obnam.Prelude.Tests.{if◌then◌else◌}
use obnam.Prelude.Lists.{All}
use obnam.Bag.ObjectId.{Text}

pub record Excluder : Type 0 where
  pub exclude_patterns : List Text
  pub include_patterns : List Text

abbrev pub empty : Excluder
empty = record { exclude_patterns = []; include_patterns = [] }

unfoldable pub exclude_regexp : Excluder → Text → Excluder
exclude_regexp x regexp = record x { exclude_patterns = x.exclude_patterns ++ regexp ∷ [] }

unfoldable pub allow_regexp : Excluder → Text → Excluder
allow_regexp x regexp = record x { include_patterns = x.include_patterns ++ regexp ∷ [] }

-- `if regexp`: `None` is false, and so is an empty regular expression
abbrev pub if_true : Option Text → Option Text
if_true none = none
if_true (some []) = none
if_true (some (c ∷ cs)) = some (c ∷ cs)

abbrev pub NotEmpty : Text → Type 0
NotEmpty [] = ⊥
NotEmpty (c ∷ cs) = Unit

module _ {P : Type 0} (search : Text → P → Bool) where
  -- `_match`: the first pattern that is found in the path name
  unfoldable pub first_match : P → List Text → Option Text
  first_match pathname [] = none
  first_match pathname (regexp ∷ rest) =
      let later = first_match pathname rest in if search regexp pathname then some regexp else later

  unfoldable pub exclude : Excluder → P → Bool × Option Text
  unfolding first_match
  exclude x pathname = elim (if_true (first_match pathname x.include_patterns)) [
    | some regexp ↦ (false, some regexp)
    | none ↦ elim (if_true (first_match pathname x.exclude_patterns)) [
      | some regexp ↦ (true, some regexp)
      | none ↦ (false, none)
    ]
  ]

  -- some pattern is found
  abbrev pub any_found : P → List Text → Bool
  any_found pathname [] = false
  any_found pathname (regexp ∷ rest) =
      if search regexp pathname then true else any_found pathname rest

  abbrev is_found : Option Text → Bool
  is_found none = false
  is_found (some r) = true

  first_match-any_found :
      (p : P) (rs : List Text)
      → All NotEmpty rs
      → is_found (if_true (first_match p rs)) ≡ any_found p rs
  unfolding first_match
  first_match-any_found p [] h = refl
  first_match-any_found p ([] ∷ rs) h = absurd h.0
  first_match-any_found p ((c ∷ cs) ∷ rs) h = ground (arith, first_match-any_found p rs h.1)

  any_found-append :
      (p : P) (rs : List Text) (r : Text)
      → any_found p (rs ++ r ∷ []) ≡ (if search r p then true else any_found p rs)
  any_found-append p [] r = ground arith
  any_found-append p (q ∷ rs) r = ground (arith, any_found-append p rs r)

  -- If no pattern is empty, a path name is left out just if an exclude pattern is found in it and no
  -- include pattern is, whatever the order in which the patterns were added.
  pub exclude-any_found :
      (x : Excluder) (p : P)
      → All NotEmpty x.include_patterns
      → All NotEmpty x.exclude_patterns
      → (exclude x p).0
        ≡ (if any_found p x.include_patterns then false else any_found p x.exclude_patterns)
  unfolding exclude
  exclude-any_found x p hi he = ground (
    arith,
    first_match-any_found p x.include_patterns hi,
    first_match-any_found p x.exclude_patterns he,
  )
