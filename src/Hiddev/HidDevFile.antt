-- ===== src/Hiddev/HidDevFile.antt =====
-- `HidDevFile` of inc/hiddev/hiddevfile.h and src/hiddev/hiddevfile.cpp, beside its `Read`, which is in
-- ReadDataFile. What the system answers is an argument.
pub mod Descriptors
mod Examples
use steam_deck_gyro_dsu_exte.Base.{
  ℕ, ◌*◌, Bool, true, false, List, [], ◌∷◌, ◌++◌, Option, none, some, if◌then◌else◌,
}

-- `file` is `none` where it is below 0. The descriptors that were opened and closed are kept in `opened` and
-- `closed`.
pub record HidDevFile : Type 0 where
  pub file : Option ℕ
  pub file_path : List ℕ
  pub timeout_ns : ℕ
  pub opened : List ℕ
  pub closed : List ℕ

-- `open`, with what `open` of the system gives.
unfoldable pub open_file : Option ℕ → HidDevFile → HidDevFile × Bool
open_file none f = (record f { file = none }, false)
open_file (some fd) f = (record f { file = some fd; opened = f.opened ++ fd ∷ [] }, true)

-- The constructor, which opens the file where it is told to.
unfoldable pub new_hid_dev_file : List ℕ → ℕ → Bool → Option ℕ → HidDevFile
unfolding open_file
new_hid_dev_file path read_timeout_us opens answer =
    let f : HidDevFile = record {
      file = none;
      file_path = path;
      timeout_ns = read_timeout_us * 1000;
      opened = [];
      closed = [];
    } in
    if opens then (open_file answer f).0 else f

-- `Close`, and whether the system closes the descriptor.
unfoldable pub close_file : Bool → HidDevFile → HidDevFile × Bool
close_file closes f = elim f.file [
  | none ↦ (f, false)
  | some fd ↦ (record f { file = none; closed = f.closed ++ fd ∷ [] }, closes)
]

-- `IsOpen`, with whether the system knows the descriptor.
file_is_open : Bool → HidDevFile → Bool
file_is_open known f = elim f.file [ none ↦ false | some fd ↦ known ]

-- `DisconnectInput` and `ReconnectInput` of `ReadDataFile` in src/hiddev/hiddevreader/readdatafile.cpp.
unfoldable pub disconnect_file : Bool → Bool → HidDevFile → HidDevFile
unfolding close_file file_is_open
disconnect_file known closes f = if file_is_open known f then (close_file closes f).0 else f

unfoldable pub reconnect_file : Bool → Bool → Option ℕ → HidDevFile → HidDevFile
unfolding disconnect_file open_file
reconnect_file known closes answer f = (open_file answer (disconnect_file known closes f)).0

-- The times that the input is connected again, with what the system answers each time.
unfoldable pub reconnect_all : List (Bool × Option ℕ) → HidDevFile → HidDevFile
unfolding reconnect_file
reconnect_all [] f = f
reconnect_all ((closes, answer) ∷ rest) f = reconnect_all rest (reconnect_file true closes answer f)
