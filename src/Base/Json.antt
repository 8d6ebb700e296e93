-- ===== src/Base/Json.antt =====
-- JSON values as Python holds them. An object is the list of its items, in order, with distinct
-- keys.
use Prim.Native.String.{String}
use mathlib.Core.Bool.{Bool}
use mathlib.Core.Option.{Option, none, some}
use suite_harness.Base.Tests.{if◌then◌else◌}
use suite_harness.Base.Equality.{◌==◌, string_eq}
use suite_harness.Base.Results.{IntArg}

mutual
  -- `number` holds the integers; a float is kept as the text that stands for it.
  pub data Json : Type 0 where
    null : Json
    boolean : Bool → Json
    number : IntArg → Json
    float : String → Json
    text : String → Json
    array : Items → Json
    object : Fields → Json

  pub data Items : Type 0 where
    nil : Items
    cons : Json → Items → Items

  pub data Fields : Type 0 where
    end : Fields
    field : String → Json → Fields → Fields

-- `value.get(key)` on a dict
unfoldable pub lookup : String → Fields → Option Json
lookup k end = none
lookup k (field j v fs) = if j == k then some v else lookup k fs
