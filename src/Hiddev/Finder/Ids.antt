-- ===== src/Hiddev/Finder/Ids.antt =====
-- How src/hiddev/hiddevfinder.cpp tells a device by its identifiers.
use steam_deck_gyro_dsu_exte.Base.{
  ℕ, suc, ◌+◌, ◌-◌, ◌*◌, ◌/◌, ◌%◌, ◌≤◌, ◌<◌, ◌==◌, ltb, ◌≡◌, refl, sym, ap, ap₂, ◌∙◌, arith, true,
  List, [], ◌∷◌, ◌++◌, length, if◌then◌else◌, Bool-cases, inl, inr,
}
use steam_deck_gyro_dsu_exte.Base.Digits.{digit, print_number, print_one, print_more, below_or_not}
use steam_deck_gyro_dsu_exte.Hiddev.Finder.{fill_to_4, get_hex_string_id, text_eq}

abbrev pub four_digits : ℕ → List ℕ
four_digits n = digit (n / 4096) ∷ digit (n / 256 % 16) ∷ digit (n / 16 % 16) ∷ digit (n % 16) ∷ []

pub print_two :
    (k n : ℕ)
    → 16 ≤ n
    → n < 256
    → print_number 16 (suc (suc k)) n ≡ digit (n / 16) ∷ digit (n % 16) ∷ []
print_two k n low high =
    print_more 16 (suc k) n low
    ∙ ap (λ cs. cs ++ digit (n % 16) ∷ []) (print_one 16 k (n / 16) (omega arith))

pub print_three :
    (k n : ℕ)
    → 256 ≤ n
    → n < 4096
    → print_number 16 (suc (suc (suc k))) n
      ≡ digit (n / 16 / 16) ∷ digit (n / 16 % 16) ∷ digit (n % 16) ∷ []
print_three k n low high =
    print_more 16 (suc (suc k)) n (omega arith)
    ∙ ap (λ cs. cs ++ digit (n % 16) ∷ []) (print_two k (n / 16) (omega arith) (omega arith))

pub print_four : (n : ℕ) → 4096 ≤ n → n < 65536 → print_number 16 4 n ≡ four_digits n
print_four n low high =
    print_more 16 3 n (omega arith)
    ∙ ap (λ cs. cs ++ digit (n % 16) ∷ []) (print_three 0 (n / 16) (omega arith) (omega arith))
    ∙ ap₂ (λ a b. digit a ∷ digit b ∷ digit (n / 16 % 16) ∷ digit (n % 16) ∷ []) {y = n / 4096}
        {v = n / 256 % 16} (omega arith) (omega arith)

four_eq :
    {a b c d e f g h : ℕ}
    → a ≡ e
    → b ≡ f
    → c ≡ g
    → d ≡ h
    → digit a ∷ digit b ∷ digit c ∷ digit d ∷ [] ≡ digit e ∷ digit f ∷ digit g ∷ digit h ∷ []
four_eq p q r s = λ i. digit (p i) ∷ digit (q i) ∷ digit (r i) ∷ digit (s i) ∷ []

filled :
    (n : ℕ) (cs ds : List ℕ)
    → print_number 16 4 n ≡ cs
    → fill_to_4 cs ≡ ds
    → get_hex_string_id n ≡ ds
unfolding get_hex_string_id
filled n cs ds p q = ap fill_to_4 p ∙ q

pub get_hex_string_id_lem : (n : ℕ) → n < 65536 → get_hex_string_id n ≡ four_digits n
unfolding fill_to_4 digit
get_hex_string_id_lem n h = elim (below_or_not n 16) [
  | inl one ↦
      filled n _ _ (print_one 16 3 n one)
        (four_eq {a = 0} {b = 0} {c = 0} (omega arith) (omega arith) (omega arith) (omega arith))
  | inr more ↦ elim (below_or_not n 256) [
    | inl two ↦
        filled n _ _ (print_two 2 n more two)
          (four_eq {a = 0} {b = 0} (omega arith) (omega arith) (omega arith) (omega arith))
    | inr more' ↦ elim (below_or_not n 4096) [
      | inl three ↦
          filled n _ _ (print_three 1 n more' three)
            (four_eq {a = 0} (omega arith) (omega arith) (omega arith) (omega arith))
      | inr four ↦ filled n _ _ (print_four n four h) refl
    ]
  ]
]

-- The number that a digit stands for.
digit_of : ℕ → ℕ
digit_of c = if ltb c 58 then c - 48 else c - 87

parse_hex : ℕ → List ℕ → ℕ
unfolding digit_of
parse_hex acc [] = acc
parse_hex acc (c ∷ cs) = parse_hex (acc * 16 + digit_of c) cs

digit_of-digit : (d : ℕ) → d < 16 → digit_of (digit d) ≡ d
unfolding digit_of digit
digit_of-digit d h = ground arith

-- The identifier is printed so that it can be read back, with four digits.
parse_hex-get_hex_string_id :
    (n : ℕ)
    → n < 65536
    → (length (get_hex_string_id n) ≡ 4) × (parse_hex 0 (get_hex_string_id n) ≡ n)
unfolding parse_hex
parse_hex-get_hex_string_id n h =
    let e = get_hex_string_id_lem n h in
    (
      ap length e,
      ap (parse_hex 0) e
          ∙ omega (
            arith,
            digit_of-digit (n / 4096) (omega arith),
            digit_of-digit (n / 256 % 16) (omega arith),
            digit_of-digit (n / 16 % 16) (omega arith),
            digit_of-digit (n % 16) (omega arith),
          ),
    )

text_eq_refl : (cs : List ℕ) → text_eq cs cs ≡ true
unfolding text_eq
text_eq_refl [] = refl
text_eq_refl (c ∷ cs) = ground (arith, text_eq_refl cs)

text_eq_sound : (cs ds : List ℕ) → text_eq cs ds ≡ true → cs ≡ ds
unfolding text_eq
text_eq_sound [] [] h = refl
text_eq_sound [] (d ∷ ds) h = absurd (ground arith)
text_eq_sound (c ∷ cs) [] h = absurd (ground arith)
text_eq_sound (c ∷ cs) (d ∷ ds) h =
    let same : c ≡ d = ground arith in
    let rest = text_eq_sound cs ds (ground arith) in λ i. same i ∷ rest i

-- Two identifiers are the same where their texts are.
pub same_ids :
    (a b : ℕ)
    → a < 65536
    → b < 65536
    → text_eq (get_hex_string_id a) (get_hex_string_id b) ≡ (a == b)
same_ids a b ha hb = elim (Bool-cases (text_eq (get_hex_string_id a) (get_hex_string_id b))) [
  | inl yes' ↦
      let same =
        sym (parse_hex-get_hex_string_id a ha).1
        ∙ ap (parse_hex 0) (text_eq_sound _ _ yes')
        ∙ (parse_hex-get_hex_string_id b hb).1 in
      ground arith
  | inr no' ↦ elim (Bool-cases (a == b)) [
    | inl e ↦
        let same : a ≡ b = ground arith in
        absurd (
          ground (
            arith,
            text_eq_refl (get_hex_string_id a),
            ap (λ n. text_eq (get_hex_string_id a) (get_hex_string_id n)) same,
          ))
    | inr e ↦ no' ∙ sym e
  ]
]
