-- ===== src/Organization/Configuration.antt =====
-- services/organization-agent/internal/application/validation.go: `validateConfiguration`. A
-- configuration is a JSON object; a number is its text.
use gereh.Prelude.{String, Bool, Option, string_eq, nat_eq}

mutual
  pub data Json : Type 0 where
    null : Json
    boolean : Bool → Json
    number : String → Json
    text : String → Json
    array : Jsons → Json
    object : Fields → Json

  pub data Jsons : Type 0 where
    no_values : Jsons
    entry : Json → Jsons → Jsons

  pub data Fields : Type 0 where
    no_fields : Fields
    field : String → Json → Fields → Fields

-- `map[string]any`, which may be nil.
abbrev pub Configuration : Type 0
Configuration = Option Fields
