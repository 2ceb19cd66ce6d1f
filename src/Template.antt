-- ===== src/Template.antt =====
-- crates/easysub-core/src/template.rs: the variables of a template and the durations that it writes.
-- Liquid, the template engine, is a third-party crate and is left out.
pub mod Dotted
pub mod Duration
mod Tests
use easysub.Prelude.{
  ℕ, ◌==◌, ◌&&◌, ◌/◌, ◌%◌, ◌*◌, ◌++◌, Bool, true, false, not, Option, none, some, List, [], ◌∷◌,
  ◌>>=◌, filter, option_map, is_empty, if◌then◌else◌, ltb,
}
use easysub.Text.{Str, codes, split}
use easysub.Text.Decimal.{show}
use easysub.Json.{Value, Fields, object, string, end, get, insert}

-- The object of an entry, an empty one where there is none; any other value is the failure of `expect`.
unfoldable pub entry_object : Option Value → Option Fields
entry_object none = some end
entry_object (some (object fields)) = some fields
entry_object (some v) = none

-- The loop over the parts; `none` is the panic.
unfoldable pub insert_parts : List Str → Value → Fields → Option Fields
unfolding entry_object get insert
insert_parts [] v fields = some fields
insert_parts (part ∷ []) v fields = some (insert part v fields)
insert_parts (part ∷ next ∷ rest) v fields = entry_object (get part fields) >>= λ inner.
    option_map (λ changed. insert part (object changed) fields) (insert_parts (next ∷ rest) v inner)

unfoldable pub dotted_parts : Str → List Str
unfolding split
dotted_parts key = filter (λ part. not (is_empty part)) (split (λ c. c == b'.') key)

unfoldable pub insert_dotted : Str → Value → Fields → Option Fields
unfolding insert_parts dotted_parts
insert_dotted key v fields = insert_parts (dotted_parts key) v fields

-- The variables of a request in front of the defaults, and those of the configuration.
unfoldable pub insert_all : List (Str × Str) → Fields → Option Fields
unfolding insert_dotted
insert_all [] fields = some fields
insert_all ((key, value) ∷ rest) fields =
    insert_dotted key (string value) fields >>= insert_all rest

unfoldable pub request_defaults : Fields
unfolding insert
request_defaults =
    insert (codes "clash") (object (insert (codes "dns") (string (codes "false")) end)) (
      insert (codes "singbox")
        (object (
          insert (codes "ipv6") (string (codes "false"))
            (insert (codes "enable_tun") (string (codes "false")) end)))
        end)

-- The root of what a template sees.
unfoldable pub template_root : List (Str × Str) → List (Str × Str) → Option Fields
unfolding insert_all request_defaults insert
template_root request globals = insert_all request request_defaults >>= λ asked.
    insert_all globals end >>= λ settled.
    some (insert (codes "Global") (object settled) (insert (codes "Request") (object asked) end))

-- A number of units, where there is one at least and no rest.
unfoldable pub in_units : ℕ → ℕ → Bool
in_units unit seconds = ltb 0 seconds && seconds % unit == 0

unfoldable pub format_duration : ℕ → Str
unfolding in_units show
format_duration seconds =
    if in_units 86400 seconds
    then show (seconds / 86400) ++ codes "d"
    else if in_units 3600 seconds
    then show (seconds / 3600) ++ codes "h"
    else if in_units 60 seconds
    then show (seconds / 60) ++ codes "m"
    else show seconds ++ codes "s"
