-- ===== src/Base/Digits.antt =====
-- Numbers as the streams of C++ print and read them; a text is the list of its bytes.
use Prim.Native.Char.{code}
use Prim.Native.String.{String}
use Prim.Native.Nat.{ℕ, zero, suc, ◌+◌, ◌-◌, ◌*◌, ◌/◌, ◌%◌, ◌^◌, ◌≤◌, ◌<◌}
use mathlib.Core.Path.{◌≡◌, refl, ◌∙◌, ap}
use mathlib.Core.Logic.{◌⊎◌, inl, inr}
use mathlib.Core.Bool.{Bool, true, false, ◌&&◌, ◌||◌}
use mathlib.Core.List.{List, [], ◌∷◌, ◌++◌}
use native.Mathlib.Omega.{arith}
use steam_deck_gyro_dsu_exte.Base.Tests.{ltb, leb, ◌==◌, if◌then◌else◌, Bool-cases}

-- The codes of the characters of a text: its bytes, as all texts here are ASCII.
abbrev pub text_bytes : String → List ℕ
text_bytes String.[] = []
text_bytes (String.◌∷◌ c s) = code c ∷ text_bytes s

-- `0` to `9` and `a` to `f`.
unfoldable pub digit : ℕ → ℕ
digit d = if ltb d 10 then 48 + d else 87 + d

-- A number in the base `b`, at most `k` digits of it, without zeros in front.
unfoldable pub print_number : ℕ → ℕ → ℕ → List ℕ
unfolding digit
print_number b zero n = []
print_number b (suc k) n =
    let front = print_number b k (n / b) in
    if ltb n b then digit n ∷ [] else front ++ digit (n % b) ∷ []

is_digit : ℕ → Bool
is_digit c = leb 48 c && leb c 57

-- The characters that `isspace` accepts.
is_space : ℕ → Bool
is_space c = c == 32 || leb 9 c && leb c 13

unfoldable pub skip_spaces : List ℕ → List ℕ
unfolding is_space
skip_spaces [] = []
skip_spaces (c ∷ cs) = let rest = skip_spaces cs in if is_space c then rest else c ∷ cs

-- The decimal digits at the front, behind those whose value is `acc`, and what follows them.
unfoldable pub read_digits : ℕ → List ℕ → ℕ × List ℕ
unfolding is_digit
read_digits acc [] = (acc, [])
read_digits acc (c ∷ cs) =
    let rest = read_digits (acc * 10 + (c - 48)) cs in if is_digit c then rest else (acc, c ∷ cs)

-- A text that starts with a digit.
unfoldable pub starts_with_digit : List ℕ → Bool
unfolding is_digit
starts_with_digit [] = false
starts_with_digit (c ∷ cs) = is_digit c

-- A sign, if there is one, and what follows it.
unfoldable pub split_sign : List ℕ → Bool × List ℕ
split_sign [] = (false, [])
split_sign (c ∷ cs) =
    if c == 45 then (true, cs) else if c == 43 then (false, cs) else (false, c ∷ cs)

-- A number behind spaces: whether it has a minus, its value, and what follows.
unfoldable pub read_signed : List ℕ → Bool × ℕ × List ℕ
unfolding skip_spaces split_sign read_digits
read_signed cs =
    let (negative, digits) = split_sign (skip_spaces cs) in
    let (n, rest) = read_digits 0 digits in (negative, n, rest)

read_digits_last :
    (c acc v : ℕ) (xs : List ℕ)
    → is_digit c ≡ true
    → read_digits acc xs ≡ (v, [])
    → read_digits acc (xs ++ c ∷ []) ≡ (v * 10 + (c - 48), [])
unfolding read_digits
read_digits_last c acc v [] h e = ground arith
read_digits_last c acc v (x ∷ xs) h e = elim (Bool-cases (is_digit x)) [
  | inl yes' ↦ rw yes' (read_digits_last c (acc * 10 + (x - 48)) v xs h (ground arith))
  | inr no' ↦ absurd (ground arith)
]

digit_value : (d : ℕ) → d < 10 → (is_digit (digit d) ≡ true) × (digit d - 48 ≡ d)
unfolding is_digit digit
digit_value d h = ground arith

pub print_one : (b k n : ℕ) → n < b → print_number b (suc k) n ≡ digit n ∷ []
unfolding print_number
print_one b k n h = ground arith

pub print_more :
    (b k n : ℕ) → b ≤ n → print_number b (suc k) n ≡ print_number b k (n / b) ++ digit (n % b) ∷ []
unfolding print_number
print_more b k n h = ground arith

read_one : (c acc : ℕ) → is_digit c ≡ true → read_digits acc (c ∷ []) ≡ (acc * 10 + (c - 48), [])
unfolding read_digits
read_one c acc h = ground arith

pub below_or_not : (n b : ℕ) → (n < b) ⊎ (b ≤ n)
below_or_not n b = elim (Bool-cases (ltb n b)) [
  | inl less ↦ inl (ground arith)
  | inr more ↦ inr (ground arith)
]

-- What is printed in decimal is read back.
pub read_digits_print : (k n : ℕ) → n < 10 ^ k → read_digits 0 (print_number 10 k n) ≡ (n, [])
unfolding print_number read_digits
read_digits_print zero n h = ground arith
read_digits_print (suc k) n h = elim (below_or_not n 10) [
  | inl one ↦
      let (is, value) = digit_value n one in
      ap (read_digits 0) (print_one 10 k n one)
      ∙ read_one (digit n) 0 is
      ∙ ap (λ v. (v, [])) {y = n} (omega (arith, value))
  | inr more ↦
      let (is, value) = digit_value (n % 10) (omega arith) in
      ap (read_digits 0) (print_more 10 k n more)
      ∙ read_digits_last (digit (n % 10)) 0 (n / 10) (print_number 10 k (n / 10)) is
          (read_digits_print k (n / 10) (omega arith))
      ∙ ap (λ v. (v, [])) {y = n} (omega (arith, value))
]

starts_append : (xs ys : List ℕ) → starts_with_digit xs ≡ true → starts_with_digit (xs ++ ys) ≡ true
unfolding starts_with_digit
starts_append [] ys h = absurd (ground arith)
starts_append (x ∷ xs) ys h = h

starts_one : (k n : ℕ) → n < 10 → starts_with_digit (print_number 10 (suc k) n) ≡ true
unfolding starts_with_digit
starts_one k n one = ap starts_with_digit (print_one 10 k n one) ∙ (digit_value n one).0

pub print_starts : (k n : ℕ) → n < 10 ^ suc k → starts_with_digit (print_number 10 (suc k) n) ≡ true
print_starts zero n h = starts_one zero n (omega arith)
print_starts (suc k) n h = elim (below_or_not n 10) [
  | inl one ↦ starts_one (suc k) n one
  | inr more ↦
      ap starts_with_digit (print_more 10 (suc k) n more)
      ∙ starts_append (print_number 10 (suc k) (n / 10)) (digit (n % 10) ∷ [])
          (print_starts k (n / 10) (omega arith))
]

pub no_spaces : (cs : List ℕ) → starts_with_digit cs ≡ true → skip_spaces cs ≡ cs
unfolding starts_with_digit skip_spaces
no_spaces [] h = refl
no_spaces (c ∷ cs) h = ground arith

pub no_sign : (cs : List ℕ) → starts_with_digit cs ≡ true → split_sign cs ≡ (false, cs)
unfolding starts_with_digit split_sign
no_sign [] h = refl
no_sign (c ∷ cs) h = ground arith
