-- ===== src/Sdgyrodsu/Floats.antt =====
-- The arithmetic of `float` and `double` that src/sdgyrodsu/cemuhookadapter.cpp uses. A `float` is its
-- 32-bit pattern and a `double` its 64-bit pattern; the operations are those of the machine, so they
-- are a parameter of the model.
use steam_deck_gyro_dsu_exte.Base.{ℕ, Bool}
use steam_deck_gyro_dsu_exte.Base.Int.{ℤ}

pub record Floats : Type 0 where
  -- `(float)n`
  pub of_int : ℤ → ℕ
  pub sub : ℕ → ℕ → ℕ
  pub div : ℕ → ℕ → ℕ
  pub neg : ℕ → ℕ
  -- `abs(x) < n`, with the `abs` that the compiler chooses
  pub abs_below : ℕ → ℕ → Bool
  pub to_double : ℕ → ℕ
  pub to_float : ℕ → ℕ
  pub add_double : ℕ → ℕ → ℕ
  pub mul_double : ℕ → ℕ → ℕ
