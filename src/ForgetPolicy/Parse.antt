-- ===== src/ForgetPolicy/Parse.antt =====
-- obnamlib/forget_policy.py: `ForgetPolicy.parse`, over lists of character codes.
use obnam.Prelude.{ℕ, zero, suc, ◌+◌, ◌-◌, Bool, ◌&&◌, Option, none, some, List, [], ◌∷◌}
use obnam.Prelude.Tests.{if◌then◌else◌, nat_beq, leb}
use obnam.Prelude.Lists.{length}
use obnam.Prelude.Digits.{read_nat}
use obnam.Prelude.Result.{Result, ok, raise}

abbrev pub Text : Type 0
Text = List ℕ

-- the values of `periods`
pub data Period : Type 0 where
  hourly daily weekly monthly yearly : Period

pub data Error : Type 0 where
  policy_syntax_error : Error
  duplicate_period : Period → Error
  separator_error : ℕ → Error

abbrev pub rank : Period → ℕ
rank hourly = 0
rank daily = 1
rank weekly = 2
rank monthly = 3
rank yearly = 4

abbrev pub same_period : Period → Period → Bool
same_period p q = nat_beq (rank p) (rank q)

-- the keys of `periods`
unfoldable pub period_of : ℕ → Option Period
period_of c =
    if nat_beq c b'h'
    then some hourly
    else if nat_beq c b'd'
    then some daily
    else if nat_beq c b'w'
    then some weekly
    else if nat_beq c b'm'
    then some monthly
    else if nat_beq c b'y'
    then some yearly
    else none

abbrev pub is_digit : ℕ → Bool
is_digit c = leb b'0' c && leb c b'9'

-- `\d*`: the digits that a text begins with, and the rest
unfoldable pub span_digits : Text → Text × Text
span_digits [] = ([], [])
span_digits (c ∷ cs) =
    let (ds, rest) = span_digits cs in if is_digit c then (c ∷ ds, rest) else ([], c ∷ cs)

-- `rule_pat.match`: the count, the period, and what is left
unfoldable pub match_rule : Text → Option (ℕ × Period × Text)
unfolding span_digits period_of
match_rule text =
    let (ds, rest) = span_digits text in
    elim (read_nat 10 ds) [
      | none ↦ none
      | some count ↦ elim rest [
        | [] ↦ none
        | c ∷ cs ↦ elim (period_of c) [ none ↦ none | some p ↦ some (count, p, cs) ]
      ]
    ]

-- `result`: `None` for a period that no rule names
abbrev pub Counts : Type 0
Counts = Period → Option ℕ

abbrev pub no_counts : Counts
no_counts p = none

abbrev pub set_count : Counts → Period → ℕ → Counts
set_count r p n q = if same_period p q then some n else r q

-- The loop. Each round is given the match of `rule_pat`; the fuel is the number of rounds left.
unfoldable pub parse_rules : ℕ → ℕ → Counts → Option (ℕ × Period × Text) → Result Error Counts
parse_rules fuel total result none = ok result
parse_rules zero total result (some (count, period, remaining)) = ok result
parse_rules (suc fuel) total result (some (count, period, remaining)) =
    let result' = set_count result period count in
    elim (result period) [
      | some n ↦ raise (duplicate_period period)
      | none ↦ elim remaining [
        | [] ↦ ok result'
        | c ∷ cs ↦
            let rest = parse_rules fuel total result' (match_rule cs) in
            if nat_beq c b',' then rest else raise (separator_error (total - length (c ∷ cs) + 1))
      ]
    ]

-- `result.update((x, 0) for ... if y is None)`
abbrev pub or_zero : Option ℕ → ℕ
or_zero none = 0
or_zero (some n) = n

unfoldable pub fill_zeros : Result Error Counts → Result Error (Period → ℕ)
fill_zeros (ok r) = ok (λ p. or_zero (r p))
fill_zeros (raise e) = raise e

-- Each round takes at least one character, so the length of the text is fuel enough.
unfoldable pub parse : Text → Result Error (Period → ℕ)
unfolding fill_zeros
parse optarg = elim (match_rule optarg) [
  | none ↦ raise policy_syntax_error
  | some m ↦ fill_zeros (parse_rules (length optarg) (length optarg) no_counts (some m))
]
