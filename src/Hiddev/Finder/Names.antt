-- ===== src/Hiddev/Finder/Names.antt =====
-- The names of hiddev files in src/hiddev/hiddevfinder.cpp and in src/hiddev/hiddevreader.cpp.
use steam_deck_gyro_dsu_exte.Base.{
  ℕ, ◌^◌, ◌<◌, ltb, ◌≡◌, refl, arith, true, List, [], ◌∷◌, ◌++◌, some, length,
}
use steam_deck_gyro_dsu_exte.Base.Int.{pos}
use steam_deck_gyro_dsu_exte.Base.Digits.{
  print_number, skip_spaces, read_digits, starts_with_digit, read_digits_print, print_starts,
  no_spaces, no_sign,
}
use steam_deck_gyro_dsu_exte.Hiddev.Finder.{hiddev_prefix, read_int, number_in}

-- The name of the file of a number that is no larger than an `int`.
unfoldable pub hiddev_name : ℕ → List ℕ
hiddev_name n = hiddev_prefix ++ print_number 10 10 n

read_int_digits :
    (cs : List ℕ) (n : ℕ)
    → starts_with_digit cs ≡ true
    → read_digits 0 cs ≡ (n, [])
    → n < 2 ^ 31
    → read_int cs ≡ some (pos n, [])
unfolding read_int
read_int_digits cs n starts digits small =
    rw (no_spaces cs starts, no_sign cs starts, digits, starts) (ground arith)

not_empty : (cs : List ℕ) → starts_with_digit cs ≡ true → 0 < length cs
unfolding starts_with_digit
not_empty [] h = absurd (ground arith)
not_empty (c ∷ cs) h = omega arith

-- The number is found in the name of its file.
pub number_in-hiddev_name : (n : ℕ) → n < 2 ^ 31 → number_in (hiddev_name n) ≡ some (pos n)
unfolding number_in hiddev_name skip_spaces
number_in-hiddev_name n small =
    let cs = print_number 10 10 n in
    let starts = print_starts 9 n (omega arith) in
    let read = read_int_digits cs n starts (read_digits_print 10 n (omega arith)) small in
    let some' = not_empty cs starts in
    let long : ltb (length hiddev_prefix) (length (hiddev_prefix ++ cs)) ≡ true = ground arith in
    rw (long, read) refl
