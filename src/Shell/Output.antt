-- ===== src/Shell/Output.antt =====
-- What src/shell/shell.cpp gives of the output of a command.
use steam_deck_gyro_dsu_exte.Base.{
  ℕ, zero, suc, ◌≤◌, ◌==◌, ◌≡◌, ◌≢◌, refl, sym, ap, subst, ◌∙◌, arith, false, List, [], ◌∷◌, ◌++◌,
  some, length, All, Bool-cases, inl, inr, append-nil, append_assoc,
}
use steam_deck_gyro_dsu_exte.Base.Int.{ℤ}
use steam_deck_gyro_dsu_exte.Shell.{fgets, c_string, read_output, execute_command}

-- The parts are what there was.
fgets_parts : (n : ℕ) (bs : List ℕ) → (fgets n bs).0 ++ (fgets n bs).1 ≡ bs
unfolding fgets
fgets_parts zero bs = refl
fgets_parts (suc n) [] = refl
fgets_parts (suc n) (b ∷ bs) = elim (Bool-cases (b == 10)) [
  | inl yes' ↦ rw yes' refl
  | inr no' ↦ rw no' (ap (◌∷◌ b) (fgets_parts n bs))
]

fgets_shorter : (n : ℕ) (b : ℕ) (bs : List ℕ) → length (fgets (suc n) (b ∷ bs)).1 ≤ length bs
unfolding fgets
fgets_shorter zero b bs = elim (Bool-cases (b == 10)) [
  | inl yes' ↦ rw yes' (omega arith)
  | inr no' ↦ rw no' (omega arith)
]
fgets_shorter (suc n) b [] = elim (Bool-cases (b == 10)) [
  | inl yes' ↦ rw yes' (omega arith)
  | inr no' ↦ rw no' (omega arith)
]
fgets_shorter (suc n) b (c ∷ bs) =
    let ih = fgets_shorter n c bs in
    elim (Bool-cases (b == 10)) [
      | inl yes' ↦ rw yes' (omega arith)
      | inr no' ↦ rw no' (omega (arith, ih))
    ]

-- No byte is 0.
abbrev IsText : List ℕ → Type 0
IsText bs = All (λ b. b ≢ 0) bs

parts_IsText : (xs ys : List ℕ) → IsText (xs ++ ys) → IsText xs × IsText ys
parts_IsText [] ys h = (tt, h)
parts_IsText (x ∷ xs) ys (hx, h) = let (front, back) = parts_IsText xs ys h in ((hx, front), back)

c_string_whole : (bs : List ℕ) → IsText bs → c_string bs ≡ bs
unfolding c_string
c_string_whole [] h = refl
c_string_whole (b ∷ bs) (hb, h) =
    let no' : (b == 0) ≡ false = ground (arith, hb) in rw no' (ap (◌∷◌ b) (c_string_whole bs h))

within : (a b fuel : ℕ) → a ≤ b → suc b ≤ suc fuel → a ≤ fuel
within a b fuel h enough = omega arith

read_output_whole :
    (fuel : ℕ) (bs out : List ℕ)
    → length bs ≤ fuel
    → IsText bs
    → read_output fuel bs out ≡ some (out ++ bs)
unfolding read_output
read_output_whole zero [] out enough h = ap some (sym (append-nil out))
read_output_whole (suc fuel) [] out enough h = ap some (sym (append-nil out))
read_output_whole zero (b ∷ bs) out enough h = absurd (omega arith)
read_output_whole (suc fuel) (b ∷ bs) out enough h =
    let line = (fgets 127 (b ∷ bs)).0 in
    let rest = (fgets 127 (b ∷ bs)).1 in
    let parts = fgets_parts 127 (b ∷ bs) in
    let (front, back) = parts_IsText line rest (subst IsText (sym parts) h) in
    let short = fgets_shorter 126 b bs in
    ap (λ cs. read_output fuel rest (out ++ cs)) (c_string_whole line front)
    ∙ read_output_whole fuel rest (out ++ line) (within (length rest) (length bs) fuel short enough)
        back
    ∙ ap some (append_assoc out line rest)
    ∙ ap (λ cs. some (out ++ cs)) parts

-- All that a command puts out is read, and its exit code returned, whatever the lengths of its lines,
-- if it puts out no byte of 0; the loop ends.
execute_command-IsText :
    (bytes : List ℕ) (pclose : ℤ)
    → IsText bytes
    → execute_command (some bytes) pclose ≡ some (pclose, bytes)
unfolding execute_command
execute_command-IsText bytes pclose h =
    rw (execute_command, read_output_whole (length bytes) bytes [] (omega arith) h) refl
