-- ===== src/Group/Matcher.antt =====
-- The selectors of crates/easysub-core/src/group.rs, compiled and matched against a node. The regular
-- expressions are those of the `regex` crate, an interface here.
use easysub.Prelude.{
  Bool, true, false, ◌&&◌, Option, none, some, List, [], ◌∷◌, if◌then◌else◌, is_empty,
}
use easysub.Text.{Str, codes, split_once, strip_first, to_ascii_uppercase}
use easysub.Text.Signed.{ℤ, pos, negate}
use easysub.Model.{Proxy, label}
use easysub.Group.Range.{match_range}

-- `Regex::new` and `Regex::is_match`.
pub record RegexEngine : Type 1 where
  pub Regex : Type 0
  pub compile : Str → Option Regex
  pub is_match : Regex → Str → Bool

pub data RegexField : Type 0 where
  group_field type_field server_field : RegexField

pub data RangeField : Type 0 where
  port_field group_id_field insert_field : RangeField

module _ (engine : RegexEngine) where
  open engine use {Regex, is_match}

  -- `regex.as_ref().is_some_and(|regex| regex.is_match(text))`.
  unfoldable pub regex_matches : Option Regex → Str → Bool
  regex_matches none text = false
  regex_matches (some r) text = is_match r text

  pub data TailMatcher : Type 0 where
    no_tail : TailMatcher
    regex_tail : Option Regex → TailMatcher

  pub data SelectorMatcher : Type 0 where
    by_name : Option Regex → SelectorMatcher
    by_field : RegexField → Option Regex → TailMatcher → SelectorMatcher
    by_range : RangeField → Str → TailMatcher → SelectorMatcher

  unfoldable pub compile_tail : Option Str → TailMatcher
  compile_tail none = no_tail
  compile_tail (some pattern) =
      if is_empty pattern then no_tail else regex_tail (engine.compile pattern)

  unfoldable pub tail_matches : TailMatcher → Str → Bool
  unfolding regex_matches
  tail_matches no_tail name = true
  tail_matches (regex_tail regex) name = regex_matches regex name

-- The pattern, and the tail behind a second `!!`.
unfoldable pub split_special : Str → Str × Option Str
unfolding split_once
split_special value = elim (split_once (codes "!!") value) [
  | none ↦ (value, none)
  | some (head, tail) ↦ (head, some tail)
]

abbrev field_prefixes : List (Str × RegexField)
field_prefixes =
    (codes "!!GROUP=", group_field)
    ∷ (codes "!!TYPE=", type_field)
    ∷ (codes "!!SERVER=", server_field)
    ∷ []

abbrev range_prefixes : List (Str × RangeField)
range_prefixes =
    (codes "!!PORT=", port_field)
    ∷ (codes "!!GROUPID=", group_id_field)
    ∷ (codes "!!INSERT=", insert_field)
    ∷ []

unfoldable pub regex_subject : RegexField → Proxy → Str
unfolding to_ascii_uppercase label
regex_subject group_field node = node.group
regex_subject type_field node = to_ascii_uppercase (label node.kind)
regex_subject server_field node = node.server

unfoldable pub range_target : RangeField → Proxy → ℤ
unfolding negate
range_target port_field node = pos node.port
range_target group_id_field node = pos node.group_id
range_target insert_field node = negate node.group_id

module _ (engine : RegexEngine) where
  unfoldable pub compile : Str → SelectorMatcher engine
  unfolding strip_first split_special compile_tail
  compile selector = elim (strip_first field_prefixes selector) [
    | some (field, value) ↦
        let (pattern, tail) = split_special value in
        by_field field (engine.compile pattern) (compile_tail engine tail)
    | none ↦ elim (strip_first range_prefixes selector) [
      | some (field, value) ↦
          let (expression, tail) = split_special value in
          by_range field expression (compile_tail engine tail)
      | none ↦ by_name (engine.compile selector)
    ]
  ]

  unfoldable pub matches : SelectorMatcher engine → Proxy → Bool
  unfolding regex_matches tail_matches regex_subject range_target match_range
  matches (by_name regex) node = regex_matches engine regex node.name
  matches (by_field field regex tail) node =
      regex_matches engine regex (regex_subject field node) && tail_matches engine tail node.name
  matches (by_range field expression tail) node =
      match_range expression (range_target field node) && tail_matches engine tail node.name
