-- ===== src/Rules/Normalize.antt =====
-- `normalize_rules_allow_empty`: the rules of one behaviour, in the form that the binary encoder takes.
use easysub.Prelude.{
  ℕ, Bool, not, ◌&&◌, Option, none, some, List, [], ◌∷◌, ◌++◌, map, leb, ◌==◌, if◌then◌else◌,
  is_empty, is_some, length, head?, unwrap_or, push_some,
}
use easysub.Error.{Result, ok, err, AppError}
use easysub.Text.{
  Str, codes, str_eq, one_of, split, trim, contains_char, starts_with_char, ends_with_char,
  is_whitespace, to_ascii_lowercase, to_ascii_uppercase,
}
use easysub.Model.{RuleBehavior, domain, ip_cidr}
use easysub.Rules.Line.{Readers, clean_line, is_skipped, candidates}
use easysub.Rules.Common.{bound, trim_suffix_marks}

unfoldable pub valid_domain : Str → Bool
unfolding contains_char starts_with_char ends_with_char is_whitespace
valid_domain value =
    not (is_empty value)
    && not (contains_char (λ c. c == b'/') value)
    && not (starts_with_char is_whitespace value)
    && not (ends_with_char is_whitespace value)

unfoldable pub has_comma : Str → Bool
unfolding contains_char
has_comma = contains_char (λ c. c == b',')

unfoldable pub normalize_domain : Str → Str → Str → Option Str
normalize_domain kind value line =
    if str_eq kind (codes "DOMAIN") && valid_domain value
    then some (to_ascii_lowercase value)
    else if str_eq kind (codes "DOMAIN-SUFFIX") && valid_domain value
    then some (codes "+." ++ to_ascii_lowercase (trim_suffix_marks value))
    else if not (has_comma line) && valid_domain line
    then some (to_ascii_lowercase line)
    else none

unfoldable pub normalize_cidr : Readers → Str → Str → Str → Option Str
normalize_cidr readers kind value line =
    if one_of (codes "IP-CIDR" ∷ codes "IP-CIDR6" ∷ []) kind && is_some (readers.ip_net value)
    then some value
    else if not (has_comma line) && is_some (readers.ip_net line)
    then some line
    else none

-- `parts` are the trimmed parts of the line between commas.
unfoldable pub normalize_parts : Readers → RuleBehavior → Str → List Str → Option Str
normalize_parts readers behavior line [] = none
normalize_parts readers domain line (first ∷ rest) =
    normalize_domain (to_ascii_uppercase first) (unwrap_or [] (head? rest)) line
normalize_parts readers ip_cidr line (first ∷ rest) =
    normalize_cidr readers (to_ascii_uppercase first) (unwrap_or [] (head? rest)) line

unfoldable pub normalize_rule : Readers → RuleBehavior → Str → Option Str
normalize_rule readers behavior line =
    normalize_parts readers behavior line (map trim (split (λ c. c == b',') line))

-- What one round of the loop pushes.
unfoldable pub normalize_candidate : Readers → RuleBehavior → Str → Option Str
normalize_candidate readers behavior raw =
    let line = clean_line raw in
    if is_skipped line then none else normalize_rule readers behavior line

-- The loop: it stops when the result has reached the limit.
unfoldable pub collect_rules : Readers → RuleBehavior → ℕ → List Str → List Str → List Str
unfolding normalize_candidate
collect_rules readers behavior limit [] result = result
collect_rules readers behavior limit (raw ∷ rest) result =
    let more =
      collect_rules readers behavior limit rest
        (result ++ push_some (normalize_candidate readers behavior raw) []) in
    if leb limit (length result) then result else more

unfoldable pub normalize_rules_allow_empty : Readers → Str → RuleBehavior → ℕ → List Str
unfolding collect_rules candidates bound
normalize_rules_allow_empty readers content behavior max_rules =
    collect_rules readers behavior (bound max_rules) (candidates readers content) []

unfoldable pub normalize_rules : Readers → Str → RuleBehavior → ℕ → Result (List Str)
unfolding normalize_rules_allow_empty
normalize_rules readers content behavior max_rules =
    let result = normalize_rules_allow_empty readers content behavior max_rules in
    if is_empty result then err AppError.conversion else ok result
