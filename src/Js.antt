-- ===== src/Js.antt =====
-- What the program uses of the language: byte strings, objects and texts.
pub mod Buffer
pub mod Object
pub mod Number
pub mod Text
pub mod Hex
use fabric_gateway.Base.{ℕ, String, Bytes}

-- A `string | Uint8Array`, the type of an argument or of transient data.
pub data Value : Type 0 where
  text : String → Value
  bytes : Bytes → Value

-- A value of unknown type, as far as the program asks about it.
pub data JsValue : Type 0 where
  undefined : JsValue
  number : ℕ → JsValue
  str : String → JsValue
  other : JsValue
