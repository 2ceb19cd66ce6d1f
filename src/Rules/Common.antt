-- ===== src/Rules/Common.antt =====
-- `parse_common_rules_filtered`: the rules that an exporter puts into its configuration.
use easysub.Prelude.{
  ℕ, ◌^◌, ◌-◌, Bool, true, false, not, ◌||◌, Option, none, some, List, [], ◌∷◌, map, ◌==◌,
  if◌then◌else◌, is_empty, keep_if, option_map, filter, filter_map, take, any, head?, drop,
  push_some,
}
use easysub.Text.{
  Str, codes, str_eq, one_of, split, trim, starts_with, starts_with_char, strip_prefix,
  trim_start_matches, trim_start_by, to_ascii_uppercase, eq_ignore_ascii_case,
}
use easysub.External.{RulesetFormat, surge, quan_x, clash_domain, clash_ip_cidr, clash_classical}
use easysub.Rules.Line.{IpNet, v4, v6, Readers, clean_line, is_skipped, candidates}

pub record RuleLine : Type 0 where
  pub kind : Str
  pub value : Option Str
  pub no_resolve : Bool

abbrev pub usize_max : ℕ
usize_max = 2 ^ 64 - 1

abbrev pub supported : List Str
supported =
    codes "DOMAIN"
    ∷ codes "DOMAIN-SUFFIX"
    ∷ codes "DOMAIN-KEYWORD"
    ∷ codes "IP-CIDR"
    ∷ codes "IP-CIDR6"
    ∷ codes "SRC-IP-CIDR"
    ∷ codes "GEOIP"
    ∷ codes "SRC-GEOIP"
    ∷ codes "GEOSITE"
    ∷ codes "MATCH"
    ∷ codes "FINAL"
    ∷ codes "PROCESS-NAME"
    ∷ codes "SRC-PORT"
    ∷ codes "DST-PORT"
    ∷ codes "NETWORK"
    ∷ codes "PROTOCOL"
    ∷ codes "IP-VERSION"
    ∷ codes "INBOUND"
    ∷ codes "DOMAIN-REGEX"
    ∷ codes "PROCESS-PATH"
    ∷ codes "PROCESS-PATH-REGEX"
    ∷ codes "PACKAGE-NAME"
    ∷ codes "PACKAGE-NAME-REGEX"
    ∷ codes "PORT"
    ∷ codes "PORT-RANGE"
    ∷ codes "SRC-PORT-RANGE"
    ∷ codes "USER"
    ∷ codes "USER-ID"
    ∷ []

-- `trim_start_matches("+.").trim_start_matches('.')`.
unfoldable pub trim_suffix_marks : Str → Str
unfolding trim_start_matches trim_start_by
trim_suffix_marks s = trim_start_by (λ c. c == b'.') (trim_start_matches (codes "+.") s)

unfoldable pub is_suffix_line : Str → Bool
unfolding starts_with starts_with_char
is_suffix_line line = starts_with (codes "+.") line || starts_with_char (λ c. c == b'.') line

unfoldable pub parse_domain_line : Str → Option RuleLine
parse_domain_line line =
    let value = trim_suffix_marks line in
    if is_empty value
    then none
    else some (record {
      kind = if is_suffix_line line then codes "DOMAIN-SUFFIX" else codes "DOMAIN";
      value = some value;
      no_resolve = false;
    })

unfoldable pub cidr_kind : IpNet → Str
cidr_kind (v4 network prefix) = codes "IP-CIDR"
cidr_kind (v6 network prefix) = codes "IP-CIDR6"

unfoldable pub parse_cidr_line : Readers → Str → Option RuleLine
parse_cidr_line readers line =
    option_map
      (λ network. record { kind = cidr_kind network; value = some line; no_resolve = true })
      (readers.ip_net line)

unfoldable pub quan_x_kind : Str → Str
quan_x_kind kind =
    if str_eq kind (codes "HOST")
    then codes "DOMAIN"
    else if str_eq kind (codes "HOST-SUFFIX")
    then codes "DOMAIN-SUFFIX"
    else if str_eq kind (codes "HOST-KEYWORD")
    then codes "DOMAIN-KEYWORD"
    else if str_eq kind (codes "IP6-CIDR")
    then codes "IP-CIDR6"
    else kind

unfoldable pub port_kind : Str → Str
port_kind kind = if str_eq kind (codes "DEST-PORT") then codes "DST-PORT" else kind

unfoldable pub classical_kind : Bool → Str → Str
unfolding quan_x_kind port_kind to_ascii_uppercase
classical_kind is_quan_x first =
    let kind = to_ascii_uppercase first in port_kind (if is_quan_x then quan_x_kind kind else kind)

-- `parts` are the trimmed parts between commas.
unfoldable pub classical_rule : Bool → List Str → Option RuleLine
classical_rule is_quan_x [] = none
classical_rule is_quan_x (first ∷ rest) =
    let kind = classical_kind is_quan_x first in
    if one_of supported kind
    then some (record {
      kind = kind;
      value = keep_if (λ v. not (is_empty v)) (head? rest);
      no_resolve = any (λ part. eq_ignore_ascii_case part (codes "no-resolve")) (drop 1 rest);
    })
    else none

unfoldable pub parse_classical_line : Bool → Str → Option RuleLine
parse_classical_line is_quan_x line =
    classical_rule is_quan_x (map trim (split (λ c. c == b',') line))

unfoldable pub parse_common_line : Readers → Str → RulesetFormat → Option RuleLine
parse_common_line readers line clash_domain = parse_domain_line line
parse_common_line readers line clash_ip_cidr = parse_cidr_line readers line
parse_common_line readers line quan_x = parse_classical_line true line
parse_common_line readers line surge = parse_classical_line false line
parse_common_line readers line clash_classical = parse_classical_line false line

-- The closure of the `filter_map` over the lines.
unfoldable pub parse_candidate : Readers → RulesetFormat → Str → Option RuleLine
parse_candidate readers format raw =
    let line = clean_line raw in
    if is_skipped line then none else parse_common_line readers line format

-- `if limit == 0 { usize::MAX } else { limit }`.
unfoldable pub bound : ℕ → ℕ
bound limit = if limit == 0 then usize_max else limit

unfoldable pub parse_common_rules_filtered :
    Readers → Str → RulesetFormat → ℕ → (RuleLine → Bool) → List RuleLine
unfolding strip_prefix parse_common_line parse_candidate candidates bound
parse_common_rules_filtered readers content format limit accept =
    elim (strip_prefix (codes "[]") content) [
      | some inline ↦ push_some (keep_if accept (parse_common_line readers inline surge)) []
      | none ↦
          take (bound limit) (
            filter accept
              (filter_map (parse_candidate readers format) (candidates readers content)))
    ]

unfoldable pub parse_common_rules : Readers → Str → RulesetFormat → ℕ → List RuleLine
unfolding parse_common_rules_filtered
parse_common_rules readers content format limit =
    parse_common_rules_filtered readers content format limit (λ rule. true)
