-- ===== src/Floats.antt =====
-- The float64 arithmetic of the machine, which the model does not define: a float64 is its bit
-- pattern, and the operations on it are a parameter.
use go_core_mcp.Prelude.{ℕ, Bool, Option, Bytes}
use go_core_mcp.Prelude.Int.{ℤ}

pub record Floats : Type 0 where
  -- strconv.ParseFloat(s, 64) and json.Number.Float64: `none` is an error
  pub parse : Bytes → Option ℕ
  -- the operators `<` and `==`
  pub lt : ℕ → ℕ → Bool
  pub eq : ℕ → ℕ → Bool
  -- the conversions float64(i) and int64(f)
  pub of_int : ℤ → ℕ
  pub to_int : ℕ → ℤ
