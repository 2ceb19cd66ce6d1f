-- ===== src/Rules/Tests.antt =====
-- The properties of crates/easysub-core/src/rules.rs at a concrete rule set, which is no YAML.
use easysub.Prelude.{
  ◌==◌, ◌≡◌, refl, Bool, true, Option, none, some, [], ◌∷◌, take, filter_map, All, arith,
  if◌then◌else◌,
}
use easysub.Text.{
  Str, codes, contains_char, one_of, eq_ignore_ascii_case, to_ascii_uppercase, to_ascii_lowercase,
}
use easysub.Model.{domain}
use easysub.External.{surge}
use easysub.Rules.Line.{IpNet, v4, Readers, candidates, is_skipped, clean_line}
use easysub.Rules.Common.{
  RuleLine, bound, parse_classical_line, classical_rule, classical_kind, trim_suffix_marks,
  parse_common_rules_filtered,
}
use easysub.Rules.Normalize.{
  normalize_candidate, normalize_rule, normalize_parts, normalize_domain, valid_domain, has_comma,
  normalize_rules_allow_empty,
}
use easysub.Rules.Limits.{parse_common_rules_filtered-take, normalize_rules_allow_empty-take}
use easysub.Rules.Shape.{IsNormal, normalize_rules_allow_empty-IsNormal}
use easysub.Rules.Kinds.{IsAccepted, parse_common_rules_filtered-IsAccepted}

-- A text with a slash is a network, whichever.
abbrev some_ip_net : Str → Option IpNet
some_ip_net s = if contains_char (λ c. c == b'/') s then some (v4 0 8) else none

abbrev some_readers : Readers
some_readers = record { yaml = λ s. none; ip_net = some_ip_net }

abbrev some_rules : Str
some_rules =
    codes
      "# list\n DOMAIN,A.com // first\nDOMAIN-SUFFIX,.b.com\nIP-CIDR,10.0.0.0/8,no-resolve\nc.com"

abbrev has_no_marker : RuleLine → Bool
has_no_marker rule = rule.no_resolve

normalizes_domains :
    normalize_rules_allow_empty some_readers some_rules domain 0
    ≡ codes "a.com" ∷ codes "+.b.com" ∷ codes "c.com" ∷ []
unfolding normalize_rules_allow_empty is_skipped clean_line normalize_rule normalize_parts
    normalize_domain to_ascii_uppercase valid_domain has_comma to_ascii_lowercase trim_suffix_marks
normalizes_domains = refl

keeps_marked_rules :
    parse_common_rules_filtered some_readers some_rules surge 0 has_no_marker
    ≡ record { kind = codes "IP-CIDR"; value = some (codes "10.0.0.0/8"); no_resolve = true } ∷ []
unfolding parse_common_rules_filtered is_skipped clean_line parse_classical_line classical_rule
    one_of classical_kind eq_ignore_ascii_case
keeps_marked_rules = refl

parse_common_rules_filtered-take_example :
    parse_common_rules_filtered some_readers some_rules surge 2 has_no_marker
    ≡ take (bound 2) (parse_common_rules_filtered some_readers some_rules surge 0 has_no_marker)
parse_common_rules_filtered-take_example =
    parse_common_rules_filtered-take some_readers some_rules surge 2 has_no_marker (omega arith)

normalize_rules_allow_empty-take_example :
    normalize_rules_allow_empty some_readers some_rules domain 2
    ≡ take
        (bound 2)
        (filter_map (normalize_candidate some_readers domain) (candidates some_readers some_rules))
normalize_rules_allow_empty-take_example =
    normalize_rules_allow_empty-take some_readers some_rules domain 2

normalize_rules_allow_empty-IsNormal_example :
    All
      (IsNormal some_readers domain)
      (normalize_rules_allow_empty some_readers some_rules domain 2)
normalize_rules_allow_empty-IsNormal_example =
    normalize_rules_allow_empty-IsNormal some_readers some_rules domain 2

parse_common_rules_filtered-IsAccepted_example :
    All
      (IsAccepted has_no_marker)
      (parse_common_rules_filtered some_readers some_rules surge 0 has_no_marker)
parse_common_rules_filtered-IsAccepted_example =
    parse_common_rules_filtered-IsAccepted some_readers some_rules surge 0 has_no_marker
