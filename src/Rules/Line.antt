-- ===== src/Rules/Line.antt =====
-- Reading the lines of a rule set: the third-party parsers, comments, and the lines that are skipped.
use easysub.Prelude.{
  ℕ, ◌≡◌, refl, Bool, true, not, ◌&&◌, ◌||◌, Option, none, some, List, [], ◌∷◌, ◌++◌, ◌==◌,
  if◌then◌else◌, is_empty, keep_if,
}
use easysub.Text.{Str, codes, lines, starts_with, starts_with_char, trim, trim_by, is_whitespace}

-- What the code reads of an `ipnet::IpNet`: the network address and the length of the prefix.
pub data IpNet : Type 0 where
  v4 : ℕ → ℕ → IpNet
  v6 : ℕ → ℕ → IpNet

-- `RulePayload`.
pub record RulePayload : Type 0 where
  pub payload : List Str
  pub rules : List Str

-- `serde_yaml::from_str::<RulePayload>` and `str::parse::<IpNet>`, of two third-party crates.
pub record Readers : Type 0 where
  pub yaml : Str → Option RulePayload
  pub ip_net : Str → Option IpNet

-- A comment starts at `//`, at the start of the line or behind white space.
strip_from : Bool → Str → Str
strip_from at_start [] = []
strip_from at_start (c ∷ s) =
    let rest = c ∷ strip_from (is_whitespace c) s in
    if at_start && starts_with (codes "//") (c ∷ s) then [] else rest

unfoldable pub strip_inline_comment : Str → Str
unfolding strip_from is_whitespace starts_with
strip_inline_comment line = strip_from true line

unfoldable pub is_quote : ℕ → Bool
is_quote c = c == b'\'' || c == b'"'

-- `strip_inline_comment(line).trim().trim_matches(['\'', '"'])`.
unfoldable pub clean_line : Str → Str
unfolding strip_inline_comment trim trim_by is_quote
clean_line line = trim_by is_quote (trim (strip_inline_comment line))

unfoldable pub is_skipped : Str → Bool
unfolding starts_with_char starts_with
is_skipped line =
    is_empty line
    || starts_with_char (λ c. c == b'#' || c == b';') line
    || starts_with (codes "//") line

unfoldable pub has_rules : RulePayload → Bool
has_rules p = not (is_empty p.payload) || not (is_empty p.rules)

-- The entries of the YAML document if it has any, and else the lines of the text.
unfoldable pub candidates : Readers → Str → List Str
unfolding has_rules lines
candidates readers content = elim (keep_if has_rules (readers.yaml content)) [
  | some p ↦ p.payload ++ p.rules
  | none ↦ lines content
]

keeps_slashes : strip_inline_comment (codes "R,^https?://api // x") ≡ codes "R,^https?://api "
unfolding strip_inline_comment
keeps_slashes = refl
