-- ===== src/Hiddev/Finder/Samples.antt =====
-- A system with two hiddev files, for src/hiddev/hiddevfinder.cpp.
use steam_deck_gyro_dsu_exte.Base.{◌+◌, ◌==◌, refl, arith, true, false, [], ◌∷◌, ◌++◌, some}
use steam_deck_gyro_dsu_exte.Base.Digits.{print_number}
use steam_deck_gyro_dsu_exte.Hiddev.Finder.{hiddev_path, SdDevice, text_eq}
use steam_deck_gyro_dsu_exte.Hiddev.Finder.Names.{hiddev_name}
use steam_deck_gyro_dsu_exte.Hiddev.Finder.Product.{product_of}
use steam_deck_gyro_dsu_exte.Hiddev.Finder.Search.{HiddevFile, Describes}

abbrev pub mouse : HiddevFile
mouse = record { number = 0; vendor = 0x46d; product = 0xc52b; tail = 49 ∷ [] }

abbrev pub deck : HiddevFile
deck = record { number = 3; vendor = 0x28de; product = 0x1205; tail = 49 ∷ [] }

-- A system with the two devices, told apart by the last character of the path.
abbrev pub two_devices : SdDevice
two_devices = record {
  new_from_devname =
      λ path. elim (text_eq path (hiddev_path ++ hiddev_name 3)) [ true ↦ some 7 | false ↦ some 8 ];
  get_usb_parent = λ hid. some (hid + 10);
  get_product = λ usb. elim (usb == 17) [
    | true ↦ some (product_of 0x28de 0x1205 (49 ∷ []))
    | false ↦ some (product_of 0x46d 0xc52b (49 ∷ []))
  ];
}

pub mouse_described : Describes two_devices mouse
unfolding text_eq hiddev_name print_number
mouse_described = record {
  hid = 8;
  usb = 18;
  device = refl;
  parent = refl;
  property = refl;
  int = omega arith;
  vendor_word = omega arith;
  product_word = omega arith;
}

pub deck_described : Describes two_devices deck
unfolding text_eq hiddev_name print_number
deck_described = record {
  hid = 7;
  usb = 17;
  device = refl;
  parent = refl;
  property = refl;
  int = omega arith;
  vendor_word = omega arith;
  product_word = omega arith;
}
