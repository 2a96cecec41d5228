-- ===== src/Base/Numerals.antt =====
-- Numbers in a text: `int` reads back what `str` writes, and the splits leave a number whole.
use Prim.Native.Nat.{ℕ, zero, suc, ◌+◌, ◌/◌, ◌%◌, ◌≤◌}
use mathlib.Core.Path.{◌≡◌, refl, ◌∙◌, ap}
use mathlib.Core.Bool.{Bool, true, false}
use mathlib.Core.List.{[], ◌∷◌, ◌++◌}
use native.Mathlib.Omega.{arith}
use hass_comelit_intercom_lo.Base.Tests.{◌==◌}
use hass_comelit_intercom_lo.Base.Lists.{All}
use hass_comelit_intercom_lo.Base.Results.{ok}
use hass_comelit_intercom_lo.Base.Bytes.{Str, decimal_fuel, decimal}
use hass_comelit_intercom_lo.Base.Text.{
  is_digit, is_space, left_strip, right_strip, strip, split_by, before, unsigned, contains,
  number_from, int_of,
}

-- Every character is an ASCII digit.
abbrev pub AreDigits : Str → Type 0
AreDigits = All (λ c. is_digit c ≡ true)

decimal_fuel-AreDigits :
    (f n : ℕ) (rest : Str) → n ≤ f → AreDigits rest → AreDigits (decimal_fuel f n rest)
unfolding decimal_fuel
decimal_fuel-AreDigits zero n rest h d = (ground arith, d)
decimal_fuel-AreDigits (suc f) n rest h d =
    ground (arith, decimal_fuel-AreDigits f (n / 10) ((48 + n % 10) ∷ rest))

pub decimal-AreDigits : (n : ℕ) → AreDigits (decimal n)
unfolding decimal
decimal-AreDigits n = decimal_fuel-AreDigits n n [] (omega arith) tt

number_from-decimal :
    (f n : ℕ) (after : Bool) (rest : Str)
    → n ≤ f
    → number_from 0 after (decimal_fuel f n rest) ≡ number_from n true rest
unfolding decimal_fuel number_from
number_from-decimal zero n after rest h = ground arith
number_from-decimal (suc f) n after rest h =
    ground (arith, number_from-decimal f (n / 10) after ((48 + n % 10) ∷ rest))

-- No character is a space.
abbrev pub HasNoSpace : Str → Type 0
HasNoSpace = All (λ c. is_space c ≡ false)

pub HasNoSpace-of_digits : (s : Str) → AreDigits s → HasNoSpace s
unfolding is_space
HasNoSpace-of_digits [] d = tt
HasNoSpace-of_digits (c ∷ s) d = (ground arith, HasNoSpace-of_digits s d.1)

left_strip_whole : (s : Str) → HasNoSpace s → left_strip s ≡ s
unfolding left_strip
left_strip_whole [] h = refl
left_strip_whole (c ∷ s) h = ground arith

right_strip_whole : (s : Str) → HasNoSpace s → right_strip s ≡ s
unfolding right_strip
right_strip_whole [] h = refl
right_strip_whole (c ∷ s) h = ground (arith, right_strip_whole s h.1)

pub strip_whole : (s : Str) → HasNoSpace s → strip s ≡ s
unfolding strip
strip_whole s h = ap right_strip (left_strip_whole s h) ∙ right_strip_whole s h

unsigned_of_digits : (s : Str) → AreDigits s → unsigned s ≡ s
unsigned_of_digits [] d = refl
unsigned_of_digits (c ∷ s) d = ground arith

-- int(str(n)) is n.
pub int_of-decimal : (n : ℕ) → int_of (decimal n) ≡ ok n
unfolding int_of decimal number_from
int_of-decimal n =
    rw
      (
        strip_whole (decimal_fuel n n []) (HasNoSpace-of_digits _ (decimal-AreDigits n)),
        unsigned_of_digits (decimal_fuel n n []) (decimal_fuel-AreDigits n n [] (omega arith) tt),
        number_from-decimal n n false [] (omega arith),
      )
      refl

-- A text with no separator is one part.
pub split_by_whole :
    (separates : ℕ → Bool) (s : Str)
    → All (λ c. separates c ≡ false) s
    → split_by separates s ≡ s ∷ []
unfolding split_by
split_by_whole separates [] h = refl
split_by_whole separates (c ∷ s) h = ground (arith, split_by_whole separates s h.1)

-- What stands before a separator that is no digit.
pub before_digits :
    (separator : ℕ) (s rest : Str)
    → is_digit separator ≡ false
    → AreDigits s
    → before separator (s ++ separator ∷ rest) ≡ s
unfolding before
before_digits separator [] rest h d = ground arith
before_digits separator (c ∷ s) rest h d = ground (arith, before_digits separator s rest h d.1)

-- A word does not stand in a text that lacks its first character.
pub contains_of_absent :
    (w : ℕ) (word s : Str) → All (λ c. (w == c) ≡ false) s → contains (w ∷ word) s ≡ false
unfolding contains
contains_of_absent w word [] h = refl
contains_of_absent w word (c ∷ s) h = ground (arith, contains_of_absent w word s h.1)
