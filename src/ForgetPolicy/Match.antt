-- ===== src/ForgetPolicy/Match.antt =====
-- obnamlib/forget_policy.py: `ForgetPolicy.last_in_each_period` and `match`. The text that
-- `strftime` gives for a period's format is a parameter.
use obnam.Prelude.{ℕ, ◌-◌, Bool, false, ◌||◌, List, [], ◌∷◌, map}
use mathlib.Core.List.{reverse}
use obnam.Prelude.Tests.{if◌then◌else◌, nat_beq}
use obnam.Prelude.Lists.{length, drop}
use obnam.Prelude.Keys.{Eq, ◌==◌, contains}
use obnam.ForgetPolicy.Parse.{Period, hourly, daily, weekly, monthly, yearly}

abbrev pub periods : List Period
periods = hourly ∷ daily ∷ weekly ∷ monthly ∷ yearly ∷ []

module _ {G T F : Type 0} ⦃eg : Eq G⦄ ⦃ef : Eq F⦄ (strftime : Period → T → F) where
  -- One round of the loop. `matches` is held with its last item first.
  unfoldable pub add_match : F → G → List (G × F) → List (G × F)
  add_match formatted genid [] = (genid, formatted) ∷ []
  add_match formatted genid ((g, f) ∷ matches) =
      if f == formatted then (genid, formatted) ∷ matches else (genid, formatted) ∷ (g, f) ∷ matches

  unfoldable pub collect : Period → List (G × F) → List (G × T) → List (G × F)
  unfolding add_match
  collect period matches [] = matches
  collect period matches ((genid, dt) ∷ rest) =
      collect period (add_match (strftime period dt) genid matches) rest

  unfoldable pub last_in_each_period : Period → List (G × T) → List G
  unfolding collect
  last_in_each_period period genlist = map (λ m. m.0) (reverse (collect period [] genlist))

  -- `genids[-n:]` for `n` above 0
  unfoldable pub last_items : ℕ → List G → List G
  last_items n xs = drop (length xs - n) xs

  -- the generations that one rule keeps
  unfoldable pub ids_for : (Period → ℕ) → List (G × T) → Period → List G
  unfolding last_in_each_period last_items
  ids_for rules genlist period =
      if nat_beq (rules period) 0
      then []
      else last_items (rules period) (last_in_each_period period genlist)

  -- `genid in result_ids`
  unfoldable pub in_results : (Period → ℕ) → List (G × T) → List Period → G → Bool
  unfolding ids_for
  in_results rules genlist [] genid = false
  in_results rules genlist (p ∷ ps) genid =
      contains (ids_for rules genlist p) genid || in_results rules genlist ps genid

  unfoldable pub keep : (G → Bool) → List (G × T) → List (G × T)
  keep test [] = []
  keep test ((genid, dt) ∷ rest) =
      let others = keep test rest in if test genid then (genid, dt) ∷ others else others

  unfoldable pub match : (Period → ℕ) → List (G × T) → List (G × T)
  unfolding in_results keep
  match rules genlist = keep (in_results rules genlist periods) genlist
