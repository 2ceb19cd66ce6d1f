-- ===== src/External.antt =====
-- crates/easysub-core/src/external.rs: the external configuration in subconverter's INI form.
pub mod Group
use easysub.Prelude.{
  ℕ, ◌≡◌, refl, Bool, true, false, ◌&&◌, ◌||◌, Option, none, some, List, [], ◌∷◌, ◌++◌, ◌==◌,
  if◌then◌else◌, is_empty, is_some, keep_if, option_map, unwrap_or, drop, push_some, ◌>>=◌,
}
use easysub.Error.{Result, ok, err, AppError}
use easysub.Text.{
  Str, codes, str_eq, one_of, lines, trim, starts_with, starts_with_char, ends_with_char,
  split_once, rsplit_once, eq_ignore_ascii_case, strip_first,
}
use easysub.Text.Decimal.{parse_unsigned, u64_max}
use Group.{ProxyGroup, parse_group}

pub data RulesetFormat : Type 0 where
  surge quan_x clash_domain clash_ip_cidr clash_classical : RulesetFormat

pub record RulesetSpec : Type 0 where
  pub group : Str
  pub source : Str
  pub interval : ℕ
  pub format : RulesetFormat
  pub inline : Bool

pub record LoadedRuleset : Type 0 where
  pub group : Str
  pub source : Str
  pub content : Str
  pub format : RulesetFormat

pub record ExternalConfig : Type 0 where
  pub groups : List ProxyGroup
  pub rulesets : List RulesetSpec
  pub clash_rule_base : Option Str
  pub singbox_rule_base : Option Str
  pub overwrite_original_rules : Bool
  pub enable_rule_generator : Bool

-- `str::parse::<bool>`.
unfoldable pub parse_bool_word : Str → Option Bool
parse_bool_word s =
    if str_eq s (codes "true")
    then some true
    else if str_eq s (codes "false")
    then some false
    else none

-- The trailing `,seconds` of a ruleset, if it is a number.
unfoldable pub split_interval : Str → Str × ℕ
unfolding rsplit_once trim parse_unsigned
split_interval remainder = elim (rsplit_once b',' remainder) [
  | none ↦ (remainder, 0)
  | some (source, interval) ↦ elim (parse_unsigned u64_max (trim interval)) [
    | none ↦ (remainder, 0)
    | some seconds ↦ (trim source, seconds)
  ]
]

abbrev format_prefixes : List (Str × RulesetFormat)
format_prefixes =
    (codes "clash-domain:", clash_domain)
    ∷ (codes "clash-ipcidr:", clash_ip_cidr)
    ∷ (codes "clash:", clash_classical)
    ∷ (codes "quanx:", quan_x)
    ∷ (codes "surge:", surge)
    ∷ []

unfoldable pub remote_ruleset : Str → Str → RulesetSpec
unfolding split_interval strip_first
remote_ruleset group remainder =
    let (source, interval) = split_interval remainder in
    let (format, path) = unwrap_or (surge, source) (strip_first format_prefixes source) in
    record { group = group; source = path; interval = interval; format = format; inline = false }

unfoldable pub inline_ruleset : Str → Str → RulesetSpec
inline_ruleset group remainder = record {
  group = group;
  source = remainder;
  interval = 0;
  format = surge;
  inline = true;
}

unfoldable pub ruleset_from : Str → Str → Option RulesetSpec
unfolding remote_ruleset inline_ruleset starts_with
ruleset_from group remainder =
    if is_empty group || is_empty remainder
    then none
    else if starts_with (codes "[]") remainder
    then some (inline_ruleset group remainder)
    else some (remote_ruleset group remainder)

unfoldable pub parse_ruleset : Str → Option RulesetSpec
unfolding ruleset_from split_once trim
parse_ruleset value = do
  (group, remainder) ← split_once (codes ",") value
  ruleset_from (trim group) (trim remainder)

-- What the loop over the lines carries.
pub record Reader : Type 0 where
  pub output : ExternalConfig
  pub in_custom : Bool

abbrev pub empty_config : ExternalConfig
empty_config = record {
  groups = [];
  rulesets = [];
  clash_rule_base = none;
  singbox_rule_base = none;
  overwrite_original_rules = false;
  enable_rule_generator = true;
}

-- `match key { … }` of `parse`.
unfoldable pub set_key : Str → Str → ExternalConfig → ExternalConfig
unfolding one_of parse_bool_word
set_key key value c =
    if one_of (codes "ruleset" ∷ codes "surge_ruleset" ∷ []) key
    then record c { rulesets = c.rulesets ++ push_some (parse_ruleset value) [] }
    else if str_eq key (codes "custom_proxy_group")
    then record c { groups = c.groups ++ push_some (parse_group value) [] }
    else if str_eq key (codes "clash_rule_base")
    then record c { clash_rule_base = some value }
    else if str_eq key (codes "singbox_rule_base")
    then record c { singbox_rule_base = some value }
    else if str_eq key (codes "overwrite_original_rules")
    then record c { overwrite_original_rules = unwrap_or false (parse_bool_word value) }
    else if str_eq key (codes "enable_rule_generator")
    then record c { enable_rule_generator = unwrap_or true (parse_bool_word value) }
    else c

drop_last : Str → Str
drop_last [] = []
drop_last (c ∷ []) = []
drop_last (c ∷ d ∷ s) = c ∷ drop_last (d ∷ s)

-- `line[1..line.len() - 1]`, which is only taken of a line in brackets.
section_name : Str → Str
unfolding drop_last
section_name line = drop_last (drop 1 line)

unfoldable pub is_section : Str → Bool
unfolding starts_with_char ends_with_char
is_section line = starts_with_char (λ c. c == b'[') line && ends_with_char (λ c. c == b']') line

unfoldable pub is_comment : Str → Bool
unfolding starts_with_char
is_comment line = is_empty line || starts_with_char (λ c. c == b';' || c == b'#') line

-- One round of the loop, on a trimmed line.
unfoldable pub read_line : Reader → Str → Reader
unfolding is_comment is_section section_name eq_ignore_ascii_case split_once trim set_key
read_line r line =
    if is_comment line
    then r
    else if is_section line
    then record r { in_custom = eq_ignore_ascii_case (trim (section_name line)) (codes "custom") }
    else if r.in_custom
    then elim (split_once (codes "=") line) [
      | none ↦ r
      | some (key, value) ↦ record r { output = set_key (trim key) (trim value) r.output }
    ]
    else r

unfoldable pub read_lines : Reader → List Str → Reader
unfolding read_line trim
read_lines r [] = r
read_lines r (raw ∷ rest) = read_lines (read_line r (trim raw)) rest

unfoldable pub parse : Str → Result ExternalConfig
unfolding read_lines lines
parse content =
    let output =
      (read_lines (record { output = empty_config; in_custom = false }) (lines content)).output in
    if is_empty output.groups && is_empty output.rulesets
    then err AppError.bad_request
    else ok output

shadowed_keys :
    parse (
      codes
        "[custom]\nruleset=DIRECT,[]FINAL\nruleset=PROXY,clash-domain:https://e.t/a,600\n[x]\nruleset=A,b")
    ≡ ok (record empty_config {
      rulesets =
          inline_ruleset (codes "DIRECT") (codes "[]FINAL")
          ∷ record {
            group = codes "PROXY";
            source = codes "https://e.t/a";
            interval = 600;
            format = clash_domain;
            inline = false;
          }
          ∷ [];
    })
unfolding parse inline_ruleset parse_ruleset
shadowed_keys = refl
