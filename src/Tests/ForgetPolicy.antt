-- ===== src/Tests/ForgetPolicy.antt =====
-- Policies and generations for obnamlib/forget_policy.py. A time is a number of hours.
use obnam.Prelude.{ℕ, ◌/◌, ◌≡◌, refl, inl, some, List, [], ◌∷◌, ◌++◌, map, arith}
use obnam.Prelude.Lists.{length}
use obnam.Prelude.Keys.{nat_eq}
use obnam.ForgetPolicy.Parse.{
  Period, hourly, daily, weekly, monthly, yearly, no_counts, match_rule, fill_zeros, parse,
}
use obnam.ForgetPolicy.Syntax.{
  render_rule, match_rule-render_rule, render, finish, collect_counts, parse-render,
}
use obnam.ForgetPolicy.Match.{last_in_each_period, match}
use obnam.ForgetPolicy.Kept.{period_ends, last_in_each_period-period_ends, match-newest}

abbrev hours_in : Period → ℕ
hours_in hourly = 1
hours_in daily = 24
hours_in weekly = 168
hours_in monthly = 720
hours_in yearly = 8760

abbrev period_text : Period → ℕ → ℕ
period_text p t = t / hours_in p

abbrev two_daily : Period → ℕ
two_daily daily = 2
two_daily _ = 0

abbrev generations : List (ℕ × ℕ)
generations = (1, 1) ∷ (2, 2) ∷ (3, 30) ∷ []

match_rule-render_rule_example :
    match_rule (render_rule (30, daily) (b',' ∷ [])) ≡ some (30, daily, b',' ∷ [])
match_rule-render_rule_example = match_rule-render_rule 30 daily (b',' ∷ [])

-- "7d,4w 2m", with a blank before the last rule
parse-render_example :
    parse (render (7, daily) ((4, weekly) ∷ []) (b' ' ∷ b'2' ∷ b'm' ∷ []))
    ≡ fill_zeros (
        finish
          (length (render (7, daily) ((4, weekly) ∷ []) (b' ' ∷ b'2' ∷ b'm' ∷ [])))
          (b' ' ∷ b'2' ∷ b'm' ∷ [])
          (collect_counts no_counts ((7, daily) ∷ (4, weekly) ∷ [])))
parse-render_example = parse-render 7 daily ((4, weekly) ∷ []) (b' ' ∷ b'2' ∷ b'm' ∷ []) (inl refl)

last_in_each_period-period_ends_example :
    last_in_each_period period_text daily generations
    ≡ map (λ m. m.0) (period_ends period_text daily generations)
last_in_each_period-period_ends_example =
    last_in_each_period-period_ends period_text daily generations

match-newest_example :
    (kept : List (ℕ × ℕ)) × (match period_text two_daily (generations ++ (4, 31) ∷ [])
      ≡ kept ++ (4, 31) ∷ [])
match-newest_example = match-newest period_text two_daily daily generations 4 31 (ground arith)
