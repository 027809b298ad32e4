-- ===== src/Json.antt =====
-- JSON values, as the jobs table's jsonb columns (payload, progress, result) and Python's dicts hold
-- them. A dict is its list of fields in insertion order; `real` keeps a float as its literal.
use robodata.Prelude.{String, Bool, Option, none, some, str_eq, if◌then◌else◌}
use robodata.Prelude.Int.{ℤ}

mutual
  pub data Json : Type 0 where
    null : Json
    bool : Bool → Json
    int : ℤ → Json
    real : String → Json
    text : String → Json
    arr : Items → Json
    obj : Fields → Json

  pub data Items : Type 0 where
    nil : Items
    cons : Json → Items → Items

  pub data Fields : Type 0 where
    end : Fields
    field : String → Json → Fields → Fields

-- d.get(k)
unfoldable pub get_field : String → Fields → Option Json
get_field k end = none
get_field k (field j v fs) = if str_eq j k then some v else get_field k fs

-- d[k] = v
unfoldable pub set_field : String → Json → Fields → Fields
set_field k v end = field k v end
set_field k v (field j w fs) = if str_eq j k then field j v fs else field j w (set_field k v fs)

-- bool(v): what `if not v` and `v or d` ask of a value read from a dict.
abbrev pub or_null : Option Json → Json
or_null none = null
or_null (some v) = v
