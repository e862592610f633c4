-- ===== src/Hiddev/Finder.antt =====
-- The search for a hiddev file, src/hiddev/hiddevfinder.cpp. What the directory holds is an argument, and
-- libsystemd's answers are a parameter. A text is the list of its bytes.
pub mod Ids
pub mod Names
pub mod Product
pub mod Search
pub mod Samples
mod Examples
use steam_deck_gyro_dsu_exte.Base.{
  ℕ, ◌+◌, ◌-◌, ◌^◌, ◌==◌, ltb, leb, Bool, true, false, not, ◌&&◌, List, [], ◌∷◌, ◌++◌, Option, none,
  some, length, take, drop, replicate, if◌then◌else◌,
}
use steam_deck_gyro_dsu_exte.Base.Int.{ℤ, pos, negsuc, sub_ℕ}
use steam_deck_gyro_dsu_exte.Base.Digits.{
  text_bytes, print_number, skip_spaces, read_digits, starts_with_digit, split_sign,
}

abbrev pub hiddev_prefix : List ℕ
hiddev_prefix = text_bytes "hiddev"

abbrev pub hiddev_path : List ℕ
hiddev_path = text_bytes "/dev/usb/"

-- `setw(4)` with `setfill('0')`.
unfoldable pub fill_to_4 : List ℕ → List ℕ
fill_to_4 cs = replicate (4 - length cs) 48 ++ cs

-- A `uint16_t` has at most four hexadecimal digits.
unfoldable pub get_hex_string_id : ℕ → List ℕ
unfolding fill_to_4
get_hex_string_id id = fill_to_4 (print_number 16 4 id)

unfoldable pub text_eq : List ℕ → List ℕ → Bool
text_eq [] [] = true
text_eq [] (d ∷ ds) = false
text_eq (c ∷ cs) [] = false
text_eq (c ∷ cs) (d ∷ ds) = let rest = text_eq cs ds in c == d && rest

-- `substr(i, n)`, which throws behind the end of the text.
unfoldable pub substr : List ℕ → ℕ → ℕ → Option (List ℕ)
substr cs i n = if ltb (length cs) i then none else some (take n (drop i cs))

-- Whether the property names the device; `none`: `substr` throws.
unfoldable pub is_product : List ℕ → List ℕ → List ℕ → Option Bool
unfolding substr text_eq
is_product vid pid product =
    if text_eq vid (take 4 product)
    then elim (substr product 5 4) [ none ↦ none | some text ↦ some (text_eq pid text) ]
    else some false

-- `ss >> i` of an `int`, with what is left; `none`: it fails.
unfoldable pub read_int : List ℕ → Option (ℤ × List ℕ)
unfolding split_sign skip_spaces read_digits starts_with_digit
read_int cs =
    let (negative, digits) = split_sign (skip_spaces cs) in
    let (n, rest) = read_digits 0 digits in
    let value = if negative then sub_ℕ 0 n else pos n in
    let bound = if negative then 2 ^ 31 else 2 ^ 31 - 1 in
    if starts_with_digit digits && leb n bound then some (value, rest) else none

is_empty : List ℕ → Bool
is_empty [] = true
is_empty (c ∷ cs) = false

-- The number in the name of a file, where nothing but spaces follows it.
unfoldable pub number_in : List ℕ → Option ℤ
unfolding is_empty
number_in name =
    if ltb (length hiddev_prefix) (length name)
    then elim (read_int (drop (length hiddev_prefix) name)) [
      | none ↦ none
      | some (i, rest) ↦ if is_empty (skip_spaces rest) then some i else none
    ]
    else none

-- What libsystemd answers: the device of a path, its parent of the subsystem "usb" and type
-- "usb_device", and the property "PRODUCT" of that; `none` is a code other than 0.
pub record SdDevice : Type 0 where
  pub new_from_devname : List ℕ → Option ℕ
  pub get_usb_parent : ℕ → Option ℕ
  pub get_product : ℕ → Option (List ℕ)

-- What a file of the directory leads to.
pub data Verdict : Type 0 where
  continues : Verdict
  throws : Verdict
  found : ℤ → Verdict

by_name : Option ℤ → Verdict
by_name none = continues
by_name (some i) = found i

unfoldable pub by_product : List ℕ → List ℕ → List ℕ → List ℕ → Verdict
unfolding by_name is_product number_in
by_product vid pid name product = elim (is_product vid pid product) [
  | none ↦ throws
  | some true ↦ by_name (number_in name)
  | some false ↦ continues
]

module _ (sd : SdDevice) where
  -- The body of the loop.
  unfoldable pub check_file : List ℕ → List ℕ → List ℕ → Verdict
  unfolding by_product
  check_file vid pid name = elim (sd.new_from_devname (hiddev_path ++ name)) [
    | none ↦ continues
    | some hid ↦ elim (sd.get_usb_parent hid) [
      | none ↦ continues
      | some usb ↦ elim (sd.get_product usb) [
        | none ↦ continues
        | some product ↦ by_product vid pid name product
      ]
    ]
  ]

  -- The loop over the names of the files; `none`: an exception.
  unfoldable pub find_loop : List ℕ → List ℕ → List (List ℕ) → Option ℤ
  unfolding check_file
  find_loop vid pid [] = some (negsuc 0)
  find_loop vid pid (name ∷ names) =
      let rest = find_loop vid pid names in
      elim (check_file vid pid name) [ continues ↦ rest | throws ↦ none | found i ↦ some i ]

  -- What the directory holds; `none` where there is none.
  unfoldable pub find_hid_dev_no : ℕ → ℕ → Option (List (List ℕ)) → Option ℤ
  unfolding find_loop get_hex_string_id
  find_hid_dev_no vid pid none = none
  find_hid_dev_no vid pid (some names) =
      find_loop (get_hex_string_id vid) (get_hex_string_id pid) names
