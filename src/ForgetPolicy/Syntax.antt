-- ===== src/ForgetPolicy/Syntax.antt =====
-- What `parse` makes of a well written policy, and of one with a mistake.
use obnam.Prelude.{
  ℕ, zero, suc, ◌+◌, ◌-◌, ◌<◌, ◌≡◌, ◌⊎◌, inl, inr, refl, sym, ap, ◌∙◌, true, false, Option, none,
  some, List, [], ◌∷◌, ◌++◌, arith,
}
use obnam.Prelude.Tests.{if◌then◌else◌, nat_beq}
use obnam.Prelude.Lists.{length, length-append, All}
use obnam.Prelude.Digits.{print_nat, read_nat-print_nat, All-print_nat, digit}
use obnam.Prelude.Result.{Result, ok, raise}
use obnam.ForgetPolicy.Parse.{
  Text, Period, hourly, daily, weekly, monthly, yearly, Error, duplicate_period, separator_error,
  period_of, is_digit, span_digits, match_rule, Counts, no_counts, set_count, parse_rules,
  fill_zeros, parse,
}

-- the letter of a period
abbrev pub letter : Period → ℕ
letter hourly = b'h'
letter daily = b'd'
letter weekly = b'w'
letter monthly = b'm'
letter yearly = b'y'

period_of-letter : (p : Period) → period_of (letter p) ≡ some p
unfolding period_of
period_of-letter hourly = refl
period_of-letter daily = refl
period_of-letter weekly = refl
period_of-letter monthly = refl
period_of-letter yearly = refl

letter_no_digit : (p : Period) → is_digit (letter p) ≡ false
letter_no_digit hourly = refl
letter_no_digit daily = refl
letter_no_digit weekly = refl
letter_no_digit monthly = refl
letter_no_digit yearly = refl

span_digits-append :
    (ds : Text) (c : ℕ) (rest : Text)
    → All (λ d. is_digit d ≡ true) ds
    → is_digit c ≡ false
    → span_digits (ds ++ c ∷ rest) ≡ (ds, c ∷ rest)
unfolding span_digits
span_digits-append [] c rest h n = rw n
span_digits-append (d ∷ ds) c rest h n = rw (h.0, span_digits-append ds c rest h.1 n)

digit-is_digit : (d : ℕ) → d < 10 → is_digit (digit d) ≡ true
unfolding digit
digit-is_digit d h = ground arith

-- one rule as it is written: the count, and the period's letter
abbrev pub render_rule : ℕ × Period → Text → Text
render_rule (n, p) rest = print_nat 10 n ++ letter p ∷ rest

pub match_rule-render_rule :
    (n : ℕ) (p : Period) (rest : Text) → match_rule (render_rule (n, p) rest) ≡ some (n, p, rest)
unfolding match_rule
match_rule-render_rule n p rest = ground (
  arith,
  span_digits-append (print_nat 10 n) (letter p) rest
      (All-print_nat (λ d. is_digit d ≡ true) 10 n digit-is_digit (omega arith))
      (letter_no_digit p),
  read_nat-print_nat 10 n (omega arith) (omega arith),
  period_of-letter p,
)

-- rules with commas between them, and a text behind them
unfoldable pub render : ℕ × Period → List (ℕ × Period) → Text → Text
render r [] tail = render_rule r tail
render r (q ∷ qs) tail = render_rule r (b',' ∷ render q qs tail)

-- what the rules ask for: a count for each period, or the first period that is named again
unfoldable pub collect_counts : Counts → List (ℕ × Period) → Result Error Counts
collect_counts result [] = ok result
collect_counts result ((n, p) ∷ rules) = elim (result p) [
  | some m ↦ raise (duplicate_period p)
  | none ↦ collect_counts (set_count result p n) rules
]

-- what the text behind the rules makes of the result
unfoldable pub finish : ℕ → Text → Result Error Counts → Result Error Counts
finish total tail (raise e) = raise e
finish total [] (ok result) = ok result
finish total (c ∷ cs) (ok result) =
    if nat_beq c b',' then ok result else raise (separator_error (total - length (c ∷ cs) + 1))

-- a text that does not go on with a comma and a rule
abbrev pub NoMoreRules : Text → Type 0
NoMoreRules [] = Unit
NoMoreRules (c ∷ cs) = (nat_beq c b',' ≡ false) ⊎ (match_rule cs ≡ none)

parse_rules-none :
    (fuel total : ℕ) (result : Counts) → parse_rules fuel total result none ≡ ok result
unfolding parse_rules
parse_rules-none fuel total result = refl

last_rule :
    (fuel total : ℕ) (result : Counts) (n : ℕ) (p : Period) (tail : Text)
    → NoMoreRules tail
    → parse_rules (suc fuel) total result (some (n, p, tail))
      ≡ finish total tail (collect_counts result ((n, p) ∷ []))
unfolding parse_rules collect_counts finish
last_rule fuel total result n p [] h = ground arith
last_rule fuel total result n p (c ∷ cs) (inl h) = ground (arith, h)
last_rule fuel total result n p (c ∷ cs) (inr h) =
    ground (arith, h, parse_rules-none fuel total (set_count result p n))

more_rules :
    (fuel total : ℕ) (result : Counts) (n : ℕ) (p : Period) (cs : Text)
    → parse_rules (suc fuel) total result (some (n, p, b',' ∷ cs)) ≡ (elim (result p) [
      | some m ↦ raise (duplicate_period p)
      | none ↦ parse_rules fuel total (set_count result p n) (match_rule cs)
    ])
unfolding parse_rules
more_rules fuel total result n p cs = ground arith

first_count :
    (result : Counts) (n : ℕ) (p : Period) (rules : List (ℕ × Period)) (total : ℕ) (tail : Text)
    (r : Result Error Counts)
    → r ≡ finish total tail (collect_counts (set_count result p n) rules)
    → ◌≡◌ {A = Result Error Counts}
        (elim (result p) [ some m ↦ raise (duplicate_period p) | none ↦ r ])
        (finish total tail (collect_counts result ((n, p) ∷ rules)))
unfolding collect_counts finish
first_count result n p rules total tail r h = go (result p) refl
  where
    go :
        (o : Option ℕ)
        → result p ≡ o
        → ◌≡◌ {A = Result Error Counts}
            (elim (result p) [ some m ↦ raise (duplicate_period p) | none ↦ r ])
            (finish total tail (collect_counts result ((n, p) ∷ rules)))
    go none e = rw (e, collect_counts) h
    go (some m) e = rw (e, collect_counts)

parse_rules-render :
    (fuel total : ℕ) (result : Counts) (n : ℕ) (p : Period) (rules : List (ℕ × Period))
    (tail : Text)
    → length rules < fuel
    → NoMoreRules tail
    → parse_rules fuel total result (match_rule (render (n, p) rules tail))
      ≡ finish total tail (collect_counts result ((n, p) ∷ rules))
unfolding render
parse_rules-render zero total result n p rules tail h t = absurd (omega arith)
parse_rules-render (suc fuel) total result n p [] tail h t =
    rw (match_rule-render_rule n p tail) (last_rule fuel total result n p tail t)
parse_rules-render (suc fuel) total result n p ((m, q) ∷ rules) tail h t =
    rw (match_rule-render_rule n p (b',' ∷ render (m, q) rules tail)) (
      more_rules fuel total result n p (render (m, q) rules tail)
      ∙ first_count result n p ((m, q) ∷ rules) total tail
          (parse_rules fuel total (set_count result p n) (match_rule (render (m, q) rules tail)))
          (parse_rules-render fuel total (set_count result p n) m q rules tail (omega arith) t))

length-render_ge :
    (n : ℕ) (p : Period) (rules : List (ℕ × Period)) (tail : Text)
    → length rules < length (render (n, p) rules tail)
unfolding render
length-render_ge n p [] tail = omega (arith, length-append (print_nat 10 n) (letter p ∷ tail))
length-render_ge n p ((m, q) ∷ rules) tail = omega (
  arith,
  length-append (print_nat 10 n) (letter p ∷ b',' ∷ render (m, q) rules tail),
  length-render_ge m q rules tail,
)

-- what is left to match after the first rule
abbrev rest_of : List (ℕ × Period) → Text → Text
rest_of [] tail = tail
rest_of (q ∷ qs) tail = b',' ∷ render q qs tail

match_rule-render :
    (n : ℕ) (p : Period) (rules : List (ℕ × Period)) (tail : Text)
    → match_rule (render (n, p) rules tail) ≡ some (n, p, rest_of rules tail)
unfolding render
match_rule-render n p [] tail = match_rule-render_rule n p tail
match_rule-render n p (q ∷ qs) tail = match_rule-render_rule n p (b',' ∷ render q qs tail)

-- A text of rules with commas between them, and then any text that is not a comma and a further rule,
-- parses to the counts of the rules, with 0 for a period that no rule names. It fails on a period that
-- is named twice; else, if there is a text behind the rules that does not begin with a comma, be it a
-- further rule behind another separator, with the position of that text. What follows a comma there
-- is ignored.
pub parse-render :
    (n : ℕ) (p : Period) (rules : List (ℕ × Period)) (tail : Text)
    → NoMoreRules tail
    → parse (render (n, p) rules tail)
      ≡ fill_zeros (
          finish
            (length (render (n, p) rules tail))
            tail
            (collect_counts no_counts ((n, p) ∷ rules)))
unfolding parse
parse-render n p rules tail t =
    let text = render (n, p) rules tail in
    let m = match_rule-render n p rules tail in
    rw (m, parse)
      (ap fill_zeros (
        ap (parse_rules (length text) (length text) no_counts) (sym m)
        ∙ parse_rules-render (length text) (length text) no_counts n p rules tail
            (length-render_ge n p rules tail) t))
