-- ===== src/Platform.antt =====
-- What the program takes from Node: randomness, the clock, SHA-256 and the printing of values.
-- Each is a parameter; randomness and the clock may answer each call differently.
use fabric_gateway.Base.{ℕ, String, List, Bytes}
use fabric_gateway.Errors.{JsError, History}

pub record Platform : Type 0 where
  pub random_bytes : History → ℕ → Bytes
  pub date_now : History → ℕ
  pub sha256 : Bytes → Bytes
  pub inspect : List JsError → String
