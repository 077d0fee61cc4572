-- ===== src/Base/Text/HostPort.antt =====
-- Hostname and Port of a url.URL, from its Host.
use Prim.Native.Nat.{ℕ, ◌+◌, ◌*◌, ◌-◌}
use Prim.Native.Char.{char, code}
use Prim.Native.String.{String}
use Prim.Native.String.append
use mathlib.Core.Path.{◌≡◌, refl, ap, ◌∙◌}
use mathlib.Core.Bool.{Bool, true, ◌&&◌}
use mathlib.Core.Option.{Option, none, some}
use native.Mathlib.Omega.{arith}
use courier_go.Base.Tests.{leb, ◌==◌, if◌then◌else◌}
use courier_go.Base.Text.{concat, decimal}
use courier_go.Base.Text.Decimal.{digits_from, digits_from-decimal}

-- The parts before and after the last ':'.
split_last_colon : String → Option (String × String)
split_last_colon String.[] = none
split_last_colon (String.◌∷◌ c s) = elim (split_last_colon s) [
  | some (h, p) ↦ some (String.◌∷◌ c h, p)
  | none ↦ if code c == 58 then some (String.[], s) else none
]

all_digits : String → Bool
all_digits String.[] = true
all_digits (String.◌∷◌ c s) = leb 48 (code c) && leb (code c) 57 && all_digits s

-- A text without its last character, if that is ']'.
without_bracket : String → Option String
without_bracket String.[] = none
without_bracket (String.◌∷◌ c s) = elim (without_bracket s) [
  | some t ↦ some (String.◌∷◌ c t)
  | none ↦ elim s [
    | String.[] ↦ if code c == 93 then some String.[] else none
    | String.◌∷◌ d t ↦ none
  ]
]

unfoldable pub strip_brackets : String → String
unfolding without_bracket
strip_brackets String.[] = String.[]
strip_brackets (String.◌∷◌ c s) =
    if code c == 91
    then elim (without_bracket s) [ some t ↦ t | none ↦ String.◌∷◌ c s ]
    else String.◌∷◌ c s

-- Hostname() and Port()
unfoldable pub host_and_port : String → String × String
unfolding split_last_colon all_digits strip_brackets
host_and_port s = elim (split_last_colon s) [
  | none ↦ (strip_brackets s, String.[])
  | some (h, p) ↦ if all_digits p then (strip_brackets h, p) else (strip_brackets s, String.[])
]

all_digits-digits_from : (s : String) (n m : ℕ) → digits_from n s ≡ some m → all_digits s ≡ true
unfolding all_digits digits_from
all_digits-digits_from String.[] n m h = refl
all_digits-digits_from (String.◌∷◌ c s) n m h =
    ground (arith, h, all_digits-digits_from s (n * 10 + (code c - 48)) m)

split_last_colon-all_digits : (s : String) → all_digits s ≡ true → split_last_colon s ≡ none
unfolding all_digits split_last_colon
split_last_colon-all_digits String.[] h = refl
split_last_colon-all_digits (String.◌∷◌ c s) h = ground (arith, h, split_last_colon-all_digits s)

split_last_colon-concat :
    (h p : String)
    → split_last_colon p ≡ none
    → split_last_colon (concat h (concat ":" p)) ≡ some (h, p)
unfolding split_last_colon
split_last_colon-concat String.[] p none_left =
    ap split_last_colon (
      append.nil (concat ":" p)
      ∙ append.cons (char 58 tt) String.[] p
      ∙ (λ i. String.◌∷◌ (char 58 tt) (append.nil p i)))
    ∙ ground (arith, none_left)
split_last_colon-concat (String.◌∷◌ c h) p none_left =
    ap split_last_colon (append.cons c h (concat ":" p))
    ∙ ground (arith, split_last_colon-concat h p none_left)

-- A host and the decimal text of a port behind ':' are taken apart again.
pub host_and_port-decimal :
    (h : String) (n : ℕ)
    → host_and_port (concat h (concat ":" (decimal n))) ≡ (strip_brackets h, decimal n)
unfolding host_and_port
host_and_port-decimal h n =
    let digits = all_digits-digits_from (decimal n) 0 n (digits_from-decimal n) in
    let split =
      split_last_colon-concat h (decimal n) (split_last_colon-all_digits (decimal n) digits) in
    ground (arith, digits, split)
