-- ===== src/Recovery/Json.antt =====
-- Values of JSON, as far as the recovery blob is read (src/core/self-custody-recovery.ts).
use text.Mathlib.Text.{◌==◌ as str_eq}
use Prim.Native.String.{String}
use nero_mpc_sdk.Base.{ℕ, Bool, true, false, not, if◌then◌else◌, ◌==◌, Option, none, some}
use nero_mpc_sdk.Hex.{Text, is_empty}

-- A number that is no natural number is `other_number`; an array has no named members.
mutual
  pub data Json : Type 0 where
    null : Json
    boolean : Bool → Json
    number : ℕ → Json
    other_number : Json
    string : Text → Json
    object : Members → Json

  pub data Members : Type 0 where
    end : Members
    member : String → Json → Members → Members

unfoldable pub find_member : String → Members → Option Json
find_member name Members.end = none
find_member name (Members.member key value members) =
    let rest = find_member name members in if str_eq name key then some value else rest

-- `value[name]`; `none` is `undefined`.
unfoldable pub field : String → Json → Option Json
field name (Json.object members) = find_member name members
field name value = none

-- `!!value`.
unfoldable pub truthy : Option Json → Bool
truthy none = false
truthy (some Json.null) = false
truthy (some (Json.boolean b)) = b
truthy (some (Json.number n)) = not (n == 0)
truthy (some Json.other_number) = true
truthy (some (Json.string s)) = not (is_empty s)
truthy (some (Json.object members)) = true

-- `typeof value === "string"`, with the string.
unfoldable pub as_string : Option Json → Option Text
as_string (some (Json.string s)) = some s
as_string value = none

-- The number if it is a natural one.
unfoldable pub as_natural : Option Json → Option ℕ
as_natural (some (Json.number n)) = some n
as_natural value = none
