-- ===== src/Hiddev/Finder/Search.antt =====
-- What the search of src/hiddev/hiddevfinder.cpp finds.
use steam_deck_gyro_dsu_exte.Base.{
  ℕ, ◌^◌, ◌≤◌, ◌<◌, ◌==◌, leb, ◌≡◌, refl, ap, ◌∙◌, arith, Bool, true, false, ◌&&◌, List, [], ◌∷◌,
  ◌++◌, some, map, All, Bool-cases, inl, inr, if◌then◌else◌,
}
use steam_deck_gyro_dsu_exte.Base.Int.{ℤ, pos, negsuc}
use steam_deck_gyro_dsu_exte.Hiddev.Finder.{
  hiddev_path, get_hex_string_id, is_product, number_in, SdDevice, Verdict, continues, found,
  by_product, check_file, find_loop, find_hid_dev_no, by_name,
}
use steam_deck_gyro_dsu_exte.Hiddev.Finder.Names.{hiddev_name, number_in-hiddev_name}
use steam_deck_gyro_dsu_exte.Hiddev.Finder.Product.{product_of, is_product-product_of}

-- A hiddev file with its number, and the identifiers of its device.
pub record HiddevFile : Type 0 where
  pub number : ℕ
  pub vendor : ℕ
  pub product : ℕ
  pub tail : List ℕ

-- What libsystemd tells of the file; the numbers are an `int` and words of 16 bits.
pub record Describes (sd : SdDevice) (f : HiddevFile) : Type 0 where
  pub hid : ℕ
  pub usb : ℕ
  pub device : sd.new_from_devname (hiddev_path ++ hiddev_name f.number) ≡ some hid
  pub parent : sd.get_usb_parent hid ≡ some usb
  pub property : sd.get_product usb ≡ some (product_of f.vendor f.product f.tail)
  pub int : f.number < 2 ^ 31
  pub vendor_word : f.vendor < 65536
  pub product_word : f.product < 65536

-- The number of the first file whose device has both identifiers, or -1.
unfoldable pub number_of : ℕ → ℕ → List HiddevFile → ℤ
number_of vid pid [] = negsuc 0
number_of vid pid (f ∷ fs) =
    let rest = number_of vid pid fs in
    if f.vendor == vid && f.product == pid then pos f.number else rest

pub names_of : List HiddevFile → List (List ℕ)
names_of fs = map (λ f. hiddev_name f.number) fs

verdict_on : Bool → ℤ → Verdict
verdict_on b i = if b then found i else continues

same_test :
    (v vid p pid : ℕ)
    → 4096 ≤ vid
    → 4096 ≤ pid
    → ((leb 4096 v && v == vid) && (leb 4096 p && p == pid)) ≡ (v == vid && p == pid)
same_test v vid p pid low low' = ground arith

module _ (sd : SdDevice) where
  asked :
      (vid pid : List ℕ) (f : HiddevFile)
      → Describes sd f
      → check_file sd vid pid (hiddev_name f.number)
        ≡ by_product vid pid (hiddev_name f.number) (product_of f.vendor f.product f.tail)
  unfolding check_file
  asked vid pid f h = rw (check_file, h.device, h.parent, h.property) refl

  judged :
      (vid pid name product : List ℕ) (b : Bool) (i : ℤ)
      → is_product vid pid product ≡ some b
      → number_in name ≡ some i
      → by_product vid pid name product ≡ verdict_on b i
  unfolding by_product verdict_on by_name
  judged vid pid name product true i e d = rw (by_product, e, d) refl
  judged vid pid name product false i e d = rw (by_product, e) refl

  checked :
      (vid pid : ℕ) (f : HiddevFile)
      → 4096 ≤ vid
      → 4096 ≤ pid
      → vid < 65536
      → pid < 65536
      → Describes sd f
      → check_file sd (get_hex_string_id vid) (get_hex_string_id pid) (hiddev_name f.number)
        ≡ verdict_on (f.vendor == vid && f.product == pid) (pos f.number)
  checked vid pid f low low' high high' h =
      asked (get_hex_string_id vid) (get_hex_string_id pid) f h
      ∙ judged _ _ _ _ _ _
          (is_product-product_of vid pid f.vendor f.product f.tail high high' h.vendor_word
            h.product_word)
          (number_in-hiddev_name f.number h.int)
      ∙ ap (λ b. verdict_on b (pos f.number)) (same_test f.vendor vid f.product pid low low')

  loop_finds :
      (vid pid : ℕ) (fs : List HiddevFile)
      → 4096 ≤ vid
      → 4096 ≤ pid
      → vid < 65536
      → pid < 65536
      → All (Describes sd) fs
      → find_loop sd (get_hex_string_id vid) (get_hex_string_id pid) (names_of fs)
        ≡ some (number_of vid pid fs)
  unfolding find_loop names_of number_of verdict_on
  loop_finds vid pid [] low low' high high' h = refl
  loop_finds vid pid (f ∷ fs) low low' high high' (hf, hfs) =
      let ih = loop_finds vid pid fs low low' high high' hfs in
      let here' = checked vid pid f low low' high high' hf in
      elim (Bool-cases (f.vendor == vid && f.product == pid)) [
        | inl yes' ↦ rw (find_loop, number_of, here', yes') refl
        | inr no' ↦ rw (find_loop, number_of, here', no') ih
      ]

  -- The search finds the device. Where the identifiers that are searched have 16 bits and four
  -- hexadecimal digits, and libsystemd describes each file of the directory, the result is the number
  -- of the first file, in the order of the directory, whose device has both, or -1.
  pub find_hid_dev_no-number_of :
      (vid pid : ℕ) (fs : List HiddevFile)
      → 4096 ≤ vid
      → 4096 ≤ pid
      → vid < 65536
      → pid < 65536
      → All (Describes sd) fs
      → find_hid_dev_no sd vid pid (some (names_of fs)) ≡ some (number_of vid pid fs)
  unfolding find_hid_dev_no names_of
  find_hid_dev_no-number_of vid pid fs low low' high high' h =
      loop_finds vid pid fs low low' high high' h
