-- ===== src/Json.antt =====
-- The values that Go decodes JSON to: nil, bool, float64, string, []any and map[string]any. A number is
-- the text that it is printed as; an object lists its fields, whatever their order.
use mcp_switchboard.Prelude.{Bool, Text}

mutual
  pub data Value : Type 0 where
    null : Value
    boolean : Bool → Value
    number : Text → Value
    text : Text → Value
    array : Items → Value
    object : Fields → Value

  pub data Items : Type 0 where
    no_item : Items
    item : Value → Items → Items

  pub data Fields : Type 0 where
    no_field : Fields
    field : Text → Value → Fields → Fields
