-- ===== src/Hiddev/HidApiDev.antt =====
-- `HidApiDev` of inc/hiddev/hidapidev.h and src/hiddev/hidapidev.cpp. What hidapi answers is an
-- argument: the devices that it lists, what it opens, what each read brings and what a write returns.
pub mod Reading
pub mod Library
mod Examples
use steam_deck_gyro_dsu_exte.Base.{
  ℕ, zero, suc, ◌+◌, ◌-◌, ◌==◌, ltb, Bool, true, false, List, [], ◌∷◌, ◌++◌, Option, none, some,
  length, take, drop, if◌then◌else◌, replicate,
}
use steam_deck_gyro_dsu_exte.Base.Int.{ℤ, pos, negsuc}

-- `dev` is the handle of the open device, `null` being `none`.
pub record HidApiDev : Type 0 where
  pub v_id : ℕ
  pub p_id : ℕ
  pub interface_number : ℕ
  pub dev : Option ℕ

-- An entry of the list that `hid_enumerate` gives.
pub record DeviceInfo : Type 0 where
  pub path : ℕ
  pub interface : ℕ

-- What is told to hidapi as a whole.
pub data LibraryCall : Type 0 where
  hid_init : LibraryCall
  hid_exit : LibraryCall

-- The constructor, with the count of devices before it, what `hid_init` would return, and the three
-- parameters: the count after it, the device and the call; `none` where it throws.
unfoldable pub construct : ℕ → Bool → ℕ → ℕ → ℕ → Option (ℕ × HidApiDev × List LibraryCall)
construct count succeeds v p interface =
    let device : HidApiDev = record {
      v_id = v;
      p_id = p;
      interface_number = interface;
      dev = none;
    } in
    if count == 0
    then if succeeds then some (1, device, hid_init ∷ []) else none
    else some (count + 1, device, [])

-- The destructor. `--hidApiInitialized` cannot go below 0 here, since a device that exists is counted.
unfoldable pub destroy : ℕ → ℕ × List LibraryCall
destroy count = let rest = count - 1 in if rest == 0 then (0, hid_exit ∷ []) else (rest, [])

module _ (open_path : ℕ → Option ℕ) where
  -- The loop over the list of devices.
  unfoldable pub open_loop : ℕ → List DeviceInfo → Option ℕ
  open_loop interface [] = none
  open_loop interface (info ∷ infos) =
      let later = open_loop interface infos in
      if info.interface == interface
      then elim (open_path info.path) [ none ↦ later | some handle ↦ some handle ]
      else later

  -- `Open`, which first closes what is open.
  unfoldable pub open_device : List DeviceInfo → HidApiDev → HidApiDev × Bool
  unfolding open_loop
  open_device infos d = elim (open_loop d.interface_number infos) [
    | none ↦ (record d { dev = none }, false)
    | some handle ↦ (record d { dev = some handle }, true)
  ]

unfoldable pub close_device : HidApiDev → HidApiDev × Bool
close_device d = (record d { dev = none }, true)

pub is_open : HidApiDev → Bool
is_open d = elim d.dev [ none ↦ false | some handle ↦ true ]

-- The answer of one `hid_read_timeout`: a code below 0, `failed n` for -(n + 1), or the bytes that it
-- wrote, none when the time is over.
pub data Answer : Type 0 where
  failed : ℕ → Answer
  got : List ℕ → Answer

-- `data()+readCnt` is written over.
overwrite : List ℕ → ℕ → List ℕ → List ℕ
overwrite buf at bytes = take at buf ++ bytes ++ drop (at + length bytes) buf

-- The loop of `Read`, with `readCnt`: what is returned, the buffer, and the answers that are left.
-- `none`: there is no further answer yet.
unfoldable pub read_loop : List Answer → ℕ → List ℕ → Option (ℤ × List ℕ × List Answer)
unfolding overwrite
read_loop [] read_cnt buf = none
read_loop (failed n ∷ rest) read_cnt buf = some (negsuc n, buf, rest)
read_loop (got [] ∷ rest) read_cnt buf =
    some (if read_cnt == 0 then negsuc 0 else pos read_cnt, buf, rest)
read_loop (got (b ∷ bs) ∷ rest) read_cnt buf =
    let count = read_cnt + length (b ∷ bs) in
    let filled = overwrite buf read_cnt (b ∷ bs) in
    let more = read_loop rest count filled in
    if ltb count (length buf) then more else some (pos count, filled, rest)

unfoldable pub read : HidApiDev → List Answer → List ℕ → Option (ℤ × List ℕ × List Answer)
unfolding read_loop
read d answers buf = elim d.dev [
  | none ↦ some (pos 0, buf, answers)
  | some handle ↦ read_loop answers 0 buf
]

-- `Write`, with what `hid_write` returns.
unfoldable pub write : HidApiDev → (List ℕ → ℕ) → List ℕ → Bool
write d hid_write bytes = elim d.dev [
  | none ↦ false
  | some handle ↦ hid_write bytes == length bytes
]

abbrev enable_gyro_command : List ℕ
enable_gyro_command =
    0x00
    ∷ 0x87
    ∷ 0x0f
    ∷ 0x30
    ∷ 0x18
    ∷ 0x00
    ∷ 0x07
    ∷ 0x07
    ∷ 0x00
    ∷ 0x08
    ∷ 0x07
    ∷ 0x00
    ∷ 0x31
    ∷ 0x02
    ∷ 0x00
    ∷ 0x18
    ∷ 0x00
    ∷ replicate 48 0x00

unfoldable pub enable_gyro : HidApiDev → (List ℕ → ℕ) → Bool
unfolding write
enable_gyro d hid_write = write d hid_write enable_gyro_command
