-- ===== src/Time/Text.antt =====
-- Strings as the codes of their characters, and decimal digits.
use Prim.Native.Char.{code}
use package.text.Mathlib.TextLemmas.{nil-append, cons-append}
use go_amqp_adapter.Base.{
  ℕ, zero, suc, ◌+◌, ◌/◌, ◌%◌, ◌≡◌, refl, ap, ◌∙◌, Bool, true, false, List, [], ◌∷◌, ◌++◌, String,
  concat, arith, ◌==◌, if◌then◌else◌,
}

abbrev pub codes : String → List ℕ
codes String.[] = []
codes (String.◌∷◌ c s) = code c ∷ codes s

pub codes-concat : (s t : String) → codes (concat s t) ≡ codes s ++ codes t
codes-concat String.[] t = ap codes (nil-append t)
codes-concat (String.◌∷◌ c s) t =
    ap codes (cons-append c s t) ∙ ap (λ l. code c ∷ l) (codes-concat s t)

codes-if : (b : Bool) (s t : String) → codes (if b then s else t) ≡ (if b then codes s else codes t)
codes-if true s t = refl
codes-if false s t = refl

-- The last decimal digit of a number.
unfoldable pub digit : ℕ → String
digit n =
    if n % 10 == 0
    then "0"
    else if n % 10 == 1
    then "1"
    else if n % 10 == 2
    then "2"
    else if n % 10 == 3
    then "3"
    else if n % 10 == 4
    then "4"
    else if n % 10 == 5
    then "5"
    else if n % 10 == 6
    then "6"
    else if n % 10 == 7
    then "7"
    else if n % 10 == 8
    then "8"
    else "9"

pub codes-digit : (n : ℕ) → codes (digit n) ≡ (48 + n % 10) ∷ []
unfolding digit
codes-digit n = simp codes-if (ground arith)

unfoldable pub two_digits : ℕ → String
two_digits n = concat (digit (n / 10)) (digit n)

unfoldable pub four_digits : ℕ → String
unfolding two_digits
four_digits n = concat (two_digits (n / 100)) (two_digits n)

-- A number without leading zeros, "" for zero; `fuel` bounds its digits.
unfoldable pub decimal : ℕ → ℕ → String
decimal zero n = ""
decimal (suc fuel) n =
    let front = decimal fuel (n / 10) in if n == 0 then "" else concat front (digit n)

pub codes-two_digits : (n : ℕ) → codes (two_digits n) ≡ (48 + n / 10 % 10) ∷ (48 + n % 10) ∷ []
unfolding two_digits
codes-two_digits n = rw (codes-concat, codes-digit, codes-digit)

pub codes-four_digits :
    (n : ℕ)
    → codes (four_digits n)
      ≡ (48 + n / 1000 % 10) ∷ (48 + n / 100 % 10) ∷ (48 + n / 10 % 10) ∷ (48 + n % 10) ∷ []
unfolding four_digits
codes-four_digits n = rw (codes-concat, codes-two_digits, codes-two_digits) (ground arith)
