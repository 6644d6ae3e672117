-- ===== src/Prelude/Digits.antt =====
-- Python's `'%d' % n`, `'%x' % n` and `int(s, base)` on natural numbers, over lists of character
-- codes. Signs and white space, which `int` accepts too, are not modelled.
use Prim.Native.Nat.{ℕ, zero, suc, ◌+◌, ◌-◌, ◌*◌, ◌/◌, ◌%◌, ◌≤◌, ◌<◌}
use mathlib.Core.Bool.{◌&&◌}
use mathlib.Core.List.{List, [], ◌∷◌}
use mathlib.Core.Logic.{inl, inr}
use mathlib.Core.Option.{Option, none, some}
use mathlib.Core.Path.{◌≡◌, refl, ap, ◌∙◌}
use native.Mathlib.Omega.{arith}
use native.Mathlib.Nat.{div-add-mod, mod-lt, mul_comm}
use obnam.Prelude.Tests.{ltb, lt→ltb, leb, if◌then◌else◌, Bool-cases}
use obnam.Prelude.Lists.{length, All}

-- the character of a digit: 0 to 9, a to f
unfoldable pub digit : ℕ → ℕ
digit d = if ltb d 10 then 48 + d else 87 + d

-- the digit of a character, in either case
unfoldable pub undigit : ℕ → Option ℕ
undigit c =
    if leb 48 c && leb c 57
    then some (c - 48)
    else if leb 97 c && leb c 102
    then some (c - 87)
    else if leb 65 c && leb c 70
    then some (c - 55)
    else none

-- the digits of `n` before those of `acc`
unfoldable pub digits_before : ℕ → ℕ → ℕ → List ℕ → List ℕ
unfolding digit
digits_before base zero n acc = acc
digits_before base (suc fuel) n acc =
    let more = digits_before base fuel (n / base) (digit (n % base) ∷ acc) in
    if ltb n base then digit n ∷ acc else more

-- `'%d' % n` at base 10, `'%x' % n` at base 16
unfoldable pub print_nat : ℕ → ℕ → List ℕ
unfolding digits_before
print_nat base n = digits_before base (suc n) n []

unfoldable pub read_digits : ℕ → ℕ → List ℕ → Option ℕ
unfolding undigit
read_digits base acc [] = some acc
read_digits base acc (c ∷ cs) = elim (undigit c) [
  | none ↦ none
  | some d ↦ let rest = read_digits base (acc * base + d) cs in if ltb d base then rest else none
]

-- `int(s, base)`; `none` is a `ValueError`
unfoldable pub read_nat : ℕ → List ℕ → Option ℕ
unfolding read_digits
read_nat base [] = none
read_nat base (c ∷ cs) = read_digits base 0 (c ∷ cs)

pub undigit-digit : (d : ℕ) → d < 16 → undigit (digit d) ≡ some d
unfolding digit undigit
undigit-digit d h = ground arith

read_digits-cons :
    (base acc d : ℕ) (cs : List ℕ)
    → base ≤ 16
    → d < base
    → read_digits base acc (digit d ∷ cs) ≡ read_digits base (acc * base + d) cs
unfolding read_digits
read_digits-cons base acc d cs hb h = ground (arith, undigit-digit d (omega arith))

div_lt : (base n fuel : ℕ) → 2 ≤ base → base ≤ n → n < suc fuel → n / base < fuel
div_lt base n fuel h2 hb hf = grind (arith, div-add-mod n base)

div_mod : (base n : ℕ) → (n / base) * base + n % base ≡ n
div_mod base n = omega (arith, div-add-mod n base, mul_comm (n / base) base)

read_digits-digits_before :
    (base fuel n : ℕ) (acc : List ℕ)
    → 2 ≤ base
    → base ≤ 16
    → n < fuel
    → read_digits base 0 (digits_before base fuel n acc) ≡ read_digits base n acc
unfolding digits_before
read_digits-digits_before base zero n acc h2 h16 hf = absurd (omega arith)
read_digits-digits_before base (suc fuel) n acc h2 h16 hf = elim (Bool-cases (ltb n base)) [
  | inl c ↦ rw c (
      read_digits-cons base 0 n acc h16 (ground arith)
      ∙ ap (λ m. read_digits base m acc) (omega arith))
  | inr c ↦ rw c (
      read_digits-digits_before base fuel (n / base) (digit (n % base) ∷ acc) h2 h16
        (div_lt base n fuel h2 (ground arith) hf)
      ∙ read_digits-cons base (n / base) (n % base) acc h16 (mod-lt n (omega arith))
      ∙ ap (λ m. read_digits base m acc) (div_mod base n))
]

-- The characters that a number is printed with satisfy what every digit's character does.
pub All-digits_before :
    (P : ℕ → Type 0) (base fuel n : ℕ) (acc : List ℕ)
    → ((d : ℕ) → d < base → P (digit d))
    → 2 ≤ base
    → All P acc
    → All P (digits_before base fuel n acc)
unfolding digits_before
All-digits_before P base zero n acc p h2 a = a
All-digits_before P base (suc fuel) n acc p h2 a = elim (Bool-cases (ltb n base)) [
  | inl c ↦ rw c (p n (ground arith), a)
  | inr c ↦ rw c (
      All-digits_before P base fuel (n / base) (digit (n % base) ∷ acc) p h2
        (p (n % base) (mod-lt n (omega arith)), a))
]

digits_before-length :
    (base fuel n : ℕ) (acc : List ℕ) → length acc ≤ length (digits_before base fuel n acc)
unfolding digits_before
digits_before-length base zero n acc = omega arith
digits_before-length base (suc fuel) n acc =
    ground (arith, digits_before-length base fuel (n / base) (digit (n % base) ∷ acc))

length-print_nat : (base n : ℕ) → 1 ≤ length (print_nat base n)
unfolding print_nat
length-print_nat base n =
    ground (arith, digits_before-length base n (n / base) (digit (n % base) ∷ []))

pub read_nat_of_nonempty :
    (base : ℕ) (cs : List ℕ) → 1 ≤ length cs → read_nat base cs ≡ read_digits base 0 cs
unfolding read_nat
read_nat_of_nonempty base [] h = absurd (omega arith)
read_nat_of_nonempty base (c ∷ cs) h = refl

pub read_digits-print_nat :
    (base n : ℕ) → 2 ≤ base → base ≤ 16 → read_digits base 0 (print_nat base n) ≡ some n
unfolding print_nat read_digits
read_digits-print_nat base n h2 h16 =
    read_digits-digits_before base (suc n) n [] h2 h16 (omega arith)

-- A printed number reads back.
pub read_nat-print_nat :
    (base n : ℕ) → 2 ≤ base → base ≤ 16 → read_nat base (print_nat base n) ≡ some n
read_nat-print_nat base n h2 h16 =
    read_nat_of_nonempty base (print_nat base n) (length-print_nat base n)
    ∙ read_digits-print_nat base n h2 h16

pub All-print_nat :
    (P : ℕ → Type 0) (base n : ℕ)
    → ((d : ℕ) → d < base → P (digit d))
    → 2 ≤ base
    → All P (print_nat base n)
unfolding print_nat
All-print_nat P base n p h2 = All-digits_before P base (suc n) n [] p h2 tt

-- `'%016x' % n`: zeros on the left, up to a width
unfoldable pub zeros : ℕ → List ℕ → List ℕ
zeros zero cs = cs
zeros (suc n) cs = 48 ∷ zeros n cs

unfoldable pub print_padded : ℕ → ℕ → ℕ → List ℕ
unfolding zeros
print_padded base width n = let cs = print_nat base n in zeros (width - length cs) cs

read_digits-zeros :
    (base n : ℕ) (cs : List ℕ) → 2 ≤ base → read_digits base 0 (zeros n cs) ≡ read_digits base 0 cs
unfolding zeros read_digits
read_digits-zeros base zero cs h = refl
read_digits-zeros base (suc n) cs h =
    ground (arith, read_digits-zeros base n cs h, lt→ltb 0 base (omega arith))

All-zeros : (P : ℕ → Type 0) (n : ℕ) (cs : List ℕ) → P 48 → All P cs → All P (zeros n cs)
unfolding zeros
All-zeros P zero cs p h = h
All-zeros P (suc n) cs p h = (p, All-zeros P n cs p h)

length-zeros : (n : ℕ) (cs : List ℕ) → length (zeros n cs) ≡ n + length cs
unfolding zeros
length-zeros zero cs = omega arith
length-zeros (suc n) cs = omega (arith, length-zeros n cs)

pub read_nat-print_padded :
    (base width n : ℕ) → 2 ≤ base → base ≤ 16 → read_nat base (print_padded base width n) ≡ some n
unfolding print_padded
read_nat-print_padded base width n h2 h16 =
    let cs = print_nat base n in
    read_nat_of_nonempty base (zeros (width - length cs) cs)
      (omega (arith, length-zeros (width - length cs) cs, length-print_nat base n))
    ∙ read_digits-zeros base (width - length cs) cs h2
    ∙ read_digits-print_nat base n h2 h16

pub All-print_padded :
    (P : ℕ → Type 0) (base width n : ℕ)
    → P 48
    → ((d : ℕ) → d < base → P (digit d))
    → 2 ≤ base
    → All P (print_padded base width n)
unfolding print_padded
All-print_padded P base width n p0 p h2 =
    All-zeros P (width - length (print_nat base n)) (print_nat base n) p0
      (All-print_nat P base n p h2)
