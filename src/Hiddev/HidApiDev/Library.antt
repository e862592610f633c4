-- ===== src/Hiddev/HidApiDev/Library.antt =====
-- How src/hiddev/hidapidev.cpp starts and ends its library over the life of its devices.
use steam_deck_gyro_dsu_exte.Base.{
  ℕ, ◌==◌, ltb, ◌≡◌, refl, ap, ◌∙◌, arith, Bool, true, false, List, [], ◌∷◌, ◌++◌, Option, none,
  some, if◌then◌else◌,
}
use steam_deck_gyro_dsu_exte.Hiddev.HidApiDev.{LibraryCall, hid_init, hid_exit, construct, destroy}

-- A device is made, where `hid_init` would succeed or not, or one of those that exist is destroyed.
pub data DeviceOp : Type 0 where
  constructs : Bool → ℕ → ℕ → ℕ → DeviceOp
  destroys : DeviceOp

-- The count of devices, and what was told to hidapi.
pub record Library : Type 0 where
  pub count : ℕ
  pub calls : List LibraryCall

-- The count behind it, and the calls.
op_result : DeviceOp → ℕ → ℕ × List LibraryCall
op_result (constructs succeeds v p interface) count =
    elim (construct count succeeds v p interface) [
      | none ↦ (count, [])
      | some (count', device, calls) ↦ (count', calls)
    ]
op_result destroys count = if count == 0 then (0, []) else destroy count

device_op : DeviceOp → Library → Library
unfolding op_result
device_op o l =
    let (count, calls) = op_result o l.count in record { count = count; calls = l.calls ++ calls }

pub device_ops : List DeviceOp → Library → Library
unfolding device_op
device_ops [] l = l
device_ops (o ∷ os) l = device_ops os (device_op o l)

-- Whether hidapi is started; `none`: it is started twice, or ended without being started.
unfoldable pub call_on : LibraryCall → Option Bool → Option Bool
call_on hid_init (some false) = some true
call_on hid_exit (some true) = some false
call_on hid_init (some true) = none
call_on hid_exit (some false) = none
call_on hid_init none = none
call_on hid_exit none = none

unfoldable pub library_state : List LibraryCall → Option Bool → Option Bool
library_state [] b = b
library_state (c ∷ cs) b = library_state cs (call_on c b)

state_append :
    (xs ys : List LibraryCall) (b : Option Bool)
    → library_state (xs ++ ys) b ≡ library_state ys (library_state xs b)
unfolding library_state
state_append [] ys b = refl
state_append (x ∷ xs) ys b = state_append xs ys (call_on x b)

-- Hidapi is started exactly while there is a device.
IsUsed : Library → Type 0
IsUsed l = library_state l.calls (some false) ≡ some (ltb 0 l.count)

op_result_used :
    (o : DeviceOp) (n : ℕ)
    → library_state (op_result o n).1 (some (ltb 0 n)) ≡ some (ltb 0 (op_result o n).0)
unfolding op_result construct destroy library_state call_on
op_result_used (constructs true v p interface) n = ground arith
op_result_used (constructs false v p interface) n = ground arith
op_result_used destroys n = ground arith

op-IsUsed : (o : DeviceOp) (l : Library) → IsUsed l → IsUsed (device_op o l)
unfolding device_op IsUsed
op-IsUsed o l h =
    state_append l.calls (op_result o l.count).1 (some false)
    ∙ ap (library_state (op_result o l.count).1) h
    ∙ op_result_used o l.count

-- Whatever devices are made, where hidapi can be started or not, and destroyed again, in any order,
-- hidapi is never started twice nor ended twice, and it is started exactly while there is a device.
pub device_ops-library_state :
    (os : List DeviceOp) (l : Library)
    → library_state l.calls (some false) ≡ some (ltb 0 l.count)
    → library_state (device_ops os l).calls (some false) ≡ some (ltb 0 (device_ops os l).count)
unfolding device_ops IsUsed
device_ops-library_state [] l h = h
device_ops-library_state (o ∷ os) l h =
    device_ops-library_state os (device_op o l) (op-IsUsed o l h)
