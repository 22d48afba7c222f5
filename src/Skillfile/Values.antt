-- ===== src/Skillfile/Values.antt =====
-- `map[string]any`: values as JSON and YAML decode them, and the operations on maps that
-- internal/skillfile/skillfile.go uses.
use phantom_skills.Prelude.{String, Bool, Option, none, some, ◌==◌, if◌then◌else◌}

mutual
  -- `map[string]any`
  pub data Fields : Type 0 where
    end : Fields
    field : String → Value → Fields → Fields

  -- `any`; a number is kept as it is printed.
  pub data Value : Type 0 where
    str : String → Value
    number : String → Value
    boolean : Bool → Value
    null : Value
    obj : Fields → Value
    arr : Elements → Value

  -- `[]any`
  pub data Elements : Type 0 where
    no_more : Elements
    element : Value → Elements → Elements

-- `m[k]`
unfoldable pub get_field : String → Fields → Option Value
get_field k end = none
get_field k (field j v fs) = if j == k then some v else get_field k fs

-- the loops that copy a map without the key
unfoldable pub without : String → Fields → Fields
without k end = end
without k (field j v fs) = let rest = without k fs in if j == k then rest else field j v rest
