-- ===== src/Hiddev/Finder/Product.antt =====
-- What src/hiddev/hiddevfinder.cpp makes of the property "PRODUCT" of a device.
use steam_deck_gyro_dsu_exte.Base.{
  ℕ, ◌≤◌, ◌<◌, ◌==◌, leb, ◌≡◌, refl, sym, ap, ◌∙◌, arith, false, ◌&&◌, List, ◌∷◌, ◌++◌, some, take,
  Bool-cases, inl, inr,
}
use steam_deck_gyro_dsu_exte.Base.Digits.{digit, print_number, print_one, below_or_not}
use steam_deck_gyro_dsu_exte.Hiddev.Finder.{get_hex_string_id, text_eq, substr, is_product}
use steam_deck_gyro_dsu_exte.Hiddev.Finder.Ids.{
  four_digits, get_hex_string_id_lem, print_two, print_three, print_four, same_ids,
}

-- The property of a device as the kernel writes it: the identifiers without zeros in front, and what
-- follows them.
unfoldable pub product_of : ℕ → ℕ → List ℕ → List ℕ
product_of v p tail = print_number 16 4 v ++ 47 ∷ (print_number 16 4 p ++ 47 ∷ tail)

-- A slash is no digit.
differs : (d : ℕ) → d < 16 → (digit d == 47) ≡ false
unfolding digit
differs d h = ground arith

differs_later :
    (c d : ℕ) (cs ds : List ℕ) → text_eq cs ds ≡ false → text_eq (c ∷ cs) (d ∷ ds) ≡ false
unfolding text_eq
differs_later c d cs ds h = ground (arith, h)

differs_here : (c : ℕ) (cs ds : List ℕ) → c < 16 → text_eq (digit c ∷ cs) (47 ∷ ds) ≡ false
unfolding text_eq
differs_here c cs ds h = ground (arith, differs c h)

slashed_one :
    (vid x : ℕ) (rest : List ℕ) → text_eq (four_digits vid) (take 4 (x ∷ 47 ∷ rest)) ≡ false
slashed_one vid x rest = differs_later _ x _ _ (differs_here _ _ _ (omega arith))

slashed_two :
    (vid x y : ℕ) (rest : List ℕ) → text_eq (four_digits vid) (take 4 (x ∷ y ∷ 47 ∷ rest)) ≡ false
slashed_two vid x y rest =
    differs_later _ x _ _ (differs_later _ y _ _ (differs_here _ _ _ (omega arith)))

slashed_three :
    (vid x y z : ℕ) (rest : List ℕ)
    → text_eq (four_digits vid) (take 4 (x ∷ y ∷ z ∷ 47 ∷ rest)) ≡ false
slashed_three vid x y z rest =
    differs_later _ x _ _
      (differs_later _ y _ _ (differs_later _ z _ _ (differs_here _ _ _ (omega arith))))

short_differs :
    (vid v : ℕ) (rest : List ℕ)
    → v < 4096
    → text_eq (four_digits vid) (take 4 (print_number 16 4 v ++ 47 ∷ rest)) ≡ false
short_differs vid v rest h =
    let from = λ (cs : List ℕ). text_eq (four_digits vid) (take 4 (cs ++ 47 ∷ rest)) in
    elim (below_or_not v 16) [
      | inl one ↦ ap from (print_one 16 3 v one) ∙ slashed_one vid (digit v) rest
      | inr more ↦ elim (below_or_not v 256) [
        | inl two ↦ ap from (print_two 2 v more two) ∙ slashed_two vid _ _ rest
        | inr more' ↦ ap from (print_three 1 v more' h) ∙ slashed_three vid _ _ _ rest
      ]
    ]

four_at_front : (v : ℕ) (rest : List ℕ) → take 4 (four_digits v ++ 47 ∷ rest) ≡ four_digits v
four_at_front v rest = refl

id_matches :
    (vid v : ℕ) (rest : List ℕ)
    → vid < 65536
    → v < 65536
    → text_eq (get_hex_string_id vid) (take 4 (print_number 16 4 v ++ 47 ∷ rest))
      ≡ (leb 4096 v && v == vid)
id_matches vid v rest hvid hv = elim (below_or_not v 4096) [
  | inl short ↦
      ap (λ cs. text_eq cs (take 4 (print_number 16 4 v ++ 47 ∷ rest)))
        (get_hex_string_id_lem vid hvid)
      ∙ short_differs vid v rest short
      ∙ ground arith
  | inr long ↦
      ap (λ cs. text_eq (get_hex_string_id vid) (take 4 (cs ++ 47 ∷ rest))) (print_four v long hv)
      ∙ ap (text_eq (get_hex_string_id vid)) (sym (get_hex_string_id_lem v hv))
      ∙ same_ids vid v hvid hv
      ∙ ground arith
]

second_id :
    (v : ℕ) (rest : List ℕ)
    → 4096 ≤ v
    → v < 65536
    → substr (print_number 16 4 v ++ 47 ∷ rest) 5 4 ≡ some (take 4 rest)
unfolding substr
second_id v rest long hv =
    let from = λ (cs : List ℕ). substr (cs ++ 47 ∷ rest) 5 4 in
    ap from (print_four v long hv) ∙ ground arith

-- A device is taken for the one that is searched exactly where it has both identifiers, and these have
-- four hexadecimal digits each: where the property holds two identifiers of 16 bits without zeros in
-- front, with slashes behind them, nothing is thrown.
pub is_product-product_of :
    (vid pid v p : ℕ) (tail : List ℕ)
    → vid < 65536
    → pid < 65536
    → v < 65536
    → p < 65536
    → is_product (get_hex_string_id vid) (get_hex_string_id pid) (product_of v p tail)
      ≡ some ((leb 4096 v && v == vid) && (leb 4096 p && p == pid))
unfolding is_product product_of
is_product-product_of vid pid v p tail hvid hpid hv hp =
    let rest = print_number 16 4 p ++ 47 ∷ tail in
    let first = id_matches vid v rest hvid hv in
    let second = id_matches pid p tail hpid hp in
    elim (Bool-cases (leb 4096 v && v == vid)) [
      | inl yes' ↦ rw (first, yes', second_id v rest (ground arith) hv) (ap some second)
      | inr no' ↦ rw (first, no') refl
    ]
