-- ===== src/Base/Json.antt =====
-- The values that nlohmann::json objects hold in this program. Its `dump` and `parse` are parameters.
use mathlib.Core.Bool.{Bool}
use mathlib.Core.Option.{Option, none, some}
use distributed_key_value_st.Base.Tests.{if◌then◌else◌}
use distributed_key_value_st.Base.Int.{ℤ}
use distributed_key_value_st.Base.Texts.{Text, text_eq}

mutual
  pub data Json : Type 0 where
    null : Json
    boolean : Bool → Json
    number : ℤ → Json
    string : Text → Json
    array : Items → Json
    object : Fields → Json

  pub data Items : Type 0 where
    done : Items
    item : Json → Items → Items

  pub data Fields : Type 0 where
    end : Fields
    field : Text → Json → Fields → Fields

-- j.find(key)
unfoldable pub find_field : Text → Fields → Option Json
unfolding text_eq
find_field key end = none
find_field key (field k v fields) = if text_eq k key then some v else find_field key fields
