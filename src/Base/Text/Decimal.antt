-- ===== src/Base/Text/Decimal.antt =====
-- strconv.Atoi, and what it makes of %d; the number at the end of a text.
use Prim.Native.Nat.{ℕ, zero, suc, ◌+◌, ◌-◌, ◌*◌, ◌/◌, ◌%◌, ◌<◌}
use Prim.Native.Char.{Char, char, code}
use Prim.Native.String.{String}
use Prim.Native.String.append
use mathlib.Core.Path.{◌≡◌, refl, subst, sym, ap, ◌∙◌}
use mathlib.Core.Logic.{inl, inr}
use mathlib.Core.Bool.{◌&&◌}
use mathlib.Core.Option.{Option, none, some}
use native.Mathlib.Omega.{arith}
use courier_go.Base.Tests.{Bool-cases, ltb→lt, ltb, leb, ◌==◌, if◌then◌else◌}
use courier_go.Base.Text.{concat, digit, decimal_from, decimal}

-- The digits of a text after a number.
unfoldable pub digits_from : ℕ → String → Option ℕ
digits_from n String.[] = some n
digits_from n (String.◌∷◌ c s) =
    let rest = digits_from (n * 10 + (code c - 48)) s in
    if leb 48 (code c) && leb (code c) 57 then rest else none

-- The number that a text of digits stands for.
unfoldable pub number : String → Option ℕ
unfolding digits_from
number String.[] = none
number (String.◌∷◌ c s) = digits_from 0 (String.◌∷◌ c s)

concat-cons : (c : Char) (s t : String) → concat (String.◌∷◌ c s) t ≡ String.◌∷◌ c (concat s t)
concat-cons c s t = append.cons c s t

concat-one : (c : Char) (t : String) → concat (String.◌∷◌ c String.[]) t ≡ String.◌∷◌ c t
concat-one c t = concat-cons c String.[] t ∙ (λ i. String.◌∷◌ c (append.nil t i))

abbrev HasChar : ℕ → Type 0
HasChar n = (c : Char) × (digit n ≡ String.◌∷◌ c String.[]) × (code c ≡ 48 + n)

digit-HasChar : (n : ℕ) → n < 10 → HasChar n
unfolding digit
digit-HasChar zero h = (char 48 tt, refl, refl)
digit-HasChar (suc zero) h = (char 49 tt, refl, refl)
digit-HasChar (suc (suc zero)) h = (char 50 tt, refl, refl)
digit-HasChar (suc (suc (suc zero))) h = (char 51 tt, refl, refl)
digit-HasChar (suc (suc (suc (suc zero)))) h = (char 52 tt, refl, refl)
digit-HasChar (suc (suc (suc (suc (suc zero))))) h = (char 53 tt, refl, refl)
digit-HasChar (suc (suc (suc (suc (suc (suc zero)))))) h = (char 54 tt, refl, refl)
digit-HasChar (suc (suc (suc (suc (suc (suc (suc zero))))))) h = (char 55 tt, refl, refl)
digit-HasChar (suc (suc (suc (suc (suc (suc (suc (suc zero)))))))) h = (char 56 tt, refl, refl)
digit-HasChar (suc (suc (suc (suc (suc (suc (suc (suc (suc zero))))))))) h =
    (char 57 tt, refl, refl)
digit-HasChar (suc (suc (suc (suc (suc (suc (suc (suc (suc (suc n)))))))))) h = absurd (omega arith)

digits_from-digit :
    (a n : ℕ) (s : String)
    → n < 10
    → digits_from a (concat (digit n) s) ≡ digits_from (a * 10 + n) s
unfolding digits_from
digits_from-digit a n s h =
    let (c, same, is_code) = digit-HasChar n h in
    ap (λ d. digits_from a (concat d s)) same
    ∙ ap (digits_from a) (concat-one c s)
    ∙ ground (arith, is_code)

digits_from-decimal_from :
    (f n : ℕ) (acc : String) → n < f → digits_from 0 (decimal_from f n acc) ≡ digits_from n acc
unfolding decimal_from
digits_from-decimal_from zero n acc h = absurd (omega arith)
digits_from-decimal_from (suc f) n acc h = elim (Bool-cases (ltb n 10)) [
  | inl small ↦
      rw small
        (digits_from-digit 0 n acc (ltb→lt n 10 small) ∙ ap (λ m. digits_from m acc) (omega arith))
  | inr large ↦
      let below : n / 10 < f = ground (arith, large, h) in
      rw large (
        digits_from-decimal_from f (n / 10) (concat (digit (n % 10)) acc) below
        ∙ digits_from-digit (n / 10) (n % 10) acc (omega arith)
        ∙ ap (λ m. digits_from m acc) (omega arith))
]

decimal_from-cons :
    (f n : ℕ) (acc : String)
    → n < f
    → (c : Char) × (s : String) × (decimal_from f n acc ≡ String.◌∷◌ c s)
unfolding decimal_from
decimal_from-cons zero n acc h = absurd (omega arith)
decimal_from-cons (suc f) n acc h = elim (Bool-cases (ltb n 10)) [
  | inl small ↦
      let (c, same, is_code) = digit-HasChar n (ltb→lt n 10 small) in
      (c, acc, rw small (ap (λ d. concat d acc) same ∙ concat-one c acc))
  | inr large ↦
      let below : n / 10 < f = ground (arith, large, h) in
      rw large (decimal_from-cons f (n / 10) (concat (digit (n % 10)) acc) below)
]

number-cons : (s : String) (c : Char) (t : String) → s ≡ String.◌∷◌ c t → number s ≡ digits_from 0 s
unfolding number
number-cons s c t h = subst (λ u. number u ≡ digits_from 0 u) (sym h) refl

-- Atoi reads back what %d writes.
pub number-decimal : (n : ℕ) → number (decimal n) ≡ some n
unfolding decimal digits_from
number-decimal n =
    let (c, s, same) = decimal_from-cons (suc n) n "" (omega arith) in
    number-cons (decimal_from (suc n) n "") c s same
    ∙ digits_from-decimal_from (suc n) n "" (omega arith)

pub decimal_inj : (m n : ℕ) → decimal m ≡ decimal n → m ≡ n
decimal_inj m n h = cc (number-decimal m, number-decimal n, h)

-- The text after the last '-', if there is one.
after_dash : String → Option String
after_dash String.[] = none
after_dash (String.◌∷◌ c s) = elim (after_dash s) [
  | some t ↦ some t
  | none ↦ if code c == 45 then some s else none
]

after_dash-concat : (s t u : String) → after_dash t ≡ some u → after_dash (concat s t) ≡ some u
unfolding after_dash
after_dash-concat String.[] t u h = ap after_dash (append.nil t) ∙ h
after_dash-concat (String.◌∷◌ c s) t u h =
    ap after_dash (concat-cons c s t) ∙ ground (arith, after_dash-concat s t u h)

after_dash-digit :
    (n : ℕ) (s : String) → n < 10 → after_dash s ≡ none → after_dash (concat (digit n) s) ≡ none
unfolding after_dash
after_dash-digit n s h none_yet =
    let (c, same, is_code) = digit-HasChar n h in
    ap (λ d. after_dash (concat d s)) same
    ∙ ap after_dash (concat-one c s)
    ∙ ground (arith, is_code, none_yet)

after_dash-decimal_from :
    (f n : ℕ) (acc : String)
    → n < f
    → after_dash acc ≡ none
    → after_dash (decimal_from f n acc) ≡ none
unfolding decimal_from
after_dash-decimal_from zero n acc h none_yet = absurd (omega arith)
after_dash-decimal_from (suc f) n acc h none_yet = elim (Bool-cases (ltb n 10)) [
  | inl small ↦ rw small (after_dash-digit n acc (ltb→lt n 10 small) none_yet)
  | inr large ↦
      let below : n / 10 < f = ground (arith, large, h) in
      rw large (
        after_dash-decimal_from f (n / 10) (concat (digit (n % 10)) acc) below
          (after_dash-digit (n % 10) acc (omega arith) none_yet))
]

-- The number after the last '-'.
pub index_of_key : String → Option ℕ
unfolding after_dash
index_of_key s = elim (after_dash s) [ none ↦ none | some t ↦ number t ]

after_dash-dashed : (n : ℕ) → after_dash (concat "-" (decimal n)) ≡ some (decimal n)
unfolding after_dash decimal
after_dash-dashed n =
    let none_left = after_dash-decimal_from (suc n) n "" (omega arith) refl in
    ap after_dash (concat-one (char 45 tt) (decimal_from (suc n) n "")) ∙ ground (arith, none_left)

pub index_of_key-dashed :
    (s : String) (n : ℕ) → index_of_key (concat s (concat "-" (decimal n))) ≡ some n
unfolding index_of_key
index_of_key-dashed s n =
    let last = after_dash-concat s (concat "-" (decimal n)) (decimal n) (after_dash-dashed n) in
    ground (arith, last, number-decimal n)

pub digits_from-decimal : (n : ℕ) → digits_from 0 (decimal n) ≡ some n
unfolding decimal digits_from
digits_from-decimal n = digits_from-decimal_from (suc n) n "" (omega arith)
