-- ===== src/Protocol/Values.antt =====
-- The JSON values that pass through encoding/json, and the fields of an object.
use suctl.Prelude.{ℤ, String, Bool, Option, none, some, ◌==◌, if◌then◌else◌}

-- `int` is a number literal in the range of a Go int; `real` is any other number literal, which no
-- integer field accepts.
mutual
  pub data Json : Type 0 where
    null : Json
    bool : Bool → Json
    int : ℤ → Json
    real : String → Json
    str : String → Json
    arr : Items → Json
    obj : Fields → Json

  pub data Items : Type 0 where
    nil : Items
    cons : Json → Items → Items

  pub data Fields : Type 0 where
    end : Fields
    field : String → Json → Fields → Fields

-- m[k] of a decoded object; a key occurs once in a Go map.
unfoldable pub get : String → Fields → Option Json
get k end = none
get k (field j v m) = if j == k then some v else get k m
