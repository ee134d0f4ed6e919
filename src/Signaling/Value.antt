-- ===== src/Signaling/Value.antt =====
-- The JavaScript values that a parsed frame is made of, with `undefined` for what is missing.
use mattermost_plugin_openta.Base.{ℕ, String, Bool, false, Option, none, some, ◌==◌, if◌then◌else◌}

mutual
  pub data Value : Type 0 where
    undefined null : Value
    bool : Bool → Value
    num : ℕ → Value
    str : String → Value
    obj : Fields → Value
    arr : Items → Value

  pub data Fields : Type 0 where
    end : Fields
    field : String → Value → Fields → Fields

  pub data Items : Type 0 where
    nil : Items
    cons : Value → Items → Items

-- The own property `k` of an object.
abbrev pub get_field : String → Fields → Value
get_field k end = undefined
get_field k (field j v fs) = if j == k then v else get_field k fs

-- `v.k`, where `v` is neither `undefined` nor `null`: no other value has the properties that are
-- asked for here.
abbrev pub get : String → Value → Value
get k (obj fs) = get_field k fs
get k _ = undefined

-- `a ?? b`
infixr 30 ◌or_else◌
abbrev pub ◌or_else◌ : Value → Value → Value
undefined or_else b = b
null or_else b = b
a or_else b = a

-- A value read where the protocol has a text; any other value counts as `undefined`.
abbrev pub text : Value → Option String
text (str s) = some s
text _ = none

-- `v === true`
abbrev pub is_true : Value → Bool
is_true (bool b) = b
is_true _ = false
