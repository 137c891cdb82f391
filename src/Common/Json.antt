-- ===== src/Common/Json.antt =====
-- The JSON reader that the program uses (`serde_json::Value`, a third-party type), as an interface:
-- the accessors that the code calls, with their documented range.
use Prim.Native.Nat.{ℕ, ◌≤◌}
use mathlib.Core.Path.{◌≡◌}
use mathlib.Core.List.{List}
use mathlib.Core.Bool.{Bool}
use mathlib.Core.Option.{Option, some}
use xus_miner.Common.Text.{Str, u64_max}

pub record Json : Type 1 where
  pub Value : Type 0
  pub field? : Value → Str → Option Value
  pub as_u64 : Value → Option ℕ
  pub as_str : Value → Option Str
  pub as_bool : Value → Option Bool
  pub as_array : Value → Option (List Value)
  pub is_object : Value → Bool
  pub is_null : Value → Bool
  -- `Value::as_u64` returns a `u64`.
  pub as_u64_le : (v : Value) {n : ℕ} → as_u64 v ≡ some n → n ≤ u64_max
