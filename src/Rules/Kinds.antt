-- ===== src/Rules/Kinds.antt =====
-- What the rules for the exporters look like, whatever the text and the format of the rule set.
use easysub.Prelude.{
  ℕ, ◌≡◌, refl, inl, inr, Bool, true, false, not, Option, none, some, List, [], ◌∷◌, is_empty,
  filter, head?, keep_if, All, All-take, Bool-cases, Option-cases,
}
use easysub.Text.{Str, codes, one_of, strip_prefix}
use easysub.External.{RulesetFormat, surge, quan_x, clash_domain, clash_ip_cidr, clash_classical}
use easysub.Rules.Line.{IpNet, v4, v6, Readers, candidates, clean_line, is_skipped}
use easysub.Rules.Common.{
  RuleLine, supported, bound, trim_suffix_marks, is_suffix_line, parse_domain_line, cidr_kind,
  parse_cidr_line, classical_kind, classical_rule, parse_classical_line, parse_common_line,
  parse_candidate, parse_common_rules_filtered,
}
use easysub.Rules.Shape.{AllSome, filter_map-All, push_some-All}

-- The value is absent, or a text that is not empty.
abbrev pub HasValue : Option Str → Type 0
HasValue = AllSome (λ v. is_empty v ≡ false)

pub record IsRule (r : RuleLine) : Type 0 where
  pub kind_known : one_of supported r.kind ≡ true
  pub value_filled : HasValue r.value

parse_domain_line_lem : (line : Str) → AllSome IsRule (parse_domain_line line)
unfolding parse_domain_line one_of
parse_domain_line_lem line = elim (Bool-cases (is_empty (trim_suffix_marks line))) [
  | inl e ↦ rw e tt
  | inr e ↦ rw e (elim (Bool-cases (is_suffix_line line)) [
    | inl suffix ↦ rw suffix (record { kind_known = refl; value_filled = e })
    | inr exact ↦ rw exact (record { kind_known = refl; value_filled = e })
  ])
]

cidr_kind-supported : (network : IpNet) → one_of supported (cidr_kind network) ≡ true
unfolding cidr_kind one_of
cidr_kind-supported (v4 a n) = refl
cidr_kind-supported (v6 a n) = refl

parse_cidr_line_lem :
    (readers : Readers) (line : Str)
    → is_empty line ≡ false
    → AllSome IsRule (parse_cidr_line readers line)
unfolding parse_cidr_line
parse_cidr_line_lem readers line h = elim (Option-cases (readers.ip_net line)) [
  | inl e ↦ rw e tt
  | inr (network, e) ↦ rw e (record { kind_known = cidr_kind-supported network; value_filled = h })
]

keep_if-HasValue : (o : Option Str) → HasValue (keep_if (λ v. not (is_empty v)) o)
keep_if-HasValue none = tt
keep_if-HasValue (some []) = tt
keep_if-HasValue (some (c ∷ s)) = refl

classical_rule_lem :
    (is_quan_x : Bool) (parts : List Str) → AllSome IsRule (classical_rule is_quan_x parts)
unfolding classical_rule
classical_rule_lem is_quan_x [] = tt
classical_rule_lem is_quan_x (first ∷ rest) =
    elim (Bool-cases (one_of supported (classical_kind is_quan_x first))) [
      | inl e ↦ rw e (record { kind_known = e; value_filled = keep_if-HasValue (head? rest) })
      | inr e ↦ rw e tt
    ]

parse_common_line_lem :
    (readers : Readers) (format : RulesetFormat) (line : Str)
    → is_empty line ≡ false
    → AllSome IsRule (parse_common_line readers line format)
unfolding parse_common_line parse_classical_line
parse_common_line_lem readers clash_domain line h = parse_domain_line_lem line
parse_common_line_lem readers clash_ip_cidr line h = parse_cidr_line_lem readers line h
parse_common_line_lem readers quan_x line h = classical_rule_lem true _
parse_common_line_lem readers surge line h = classical_rule_lem false _
parse_common_line_lem readers clash_classical line h = classical_rule_lem false _

parse_inline_lem :
    (readers : Readers) (line : Str) → AllSome IsRule (parse_common_line readers line surge)
unfolding parse_common_line parse_classical_line
parse_inline_lem readers line = classical_rule_lem false _

not_skipped : (line : Str) → is_skipped line ≡ false → is_empty line ≡ false
unfolding is_skipped
not_skipped [] h = cc
not_skipped (c ∷ s) h = refl

parse_candidate_lem :
    (readers : Readers) (format : RulesetFormat) (raw : Str)
    → AllSome IsRule (parse_candidate readers format raw)
unfolding parse_candidate
parse_candidate_lem readers format raw = elim (Bool-cases (is_skipped (clean_line raw))) [
  | inl skipped ↦ rw skipped tt
  | inr kept ↦
      rw kept
        (parse_common_line_lem readers format (clean_line raw) (not_skipped (clean_line raw) kept))
]

-- A rule of the result: well formed, and accepted by the caller's test.
abbrev pub IsAccepted : (RuleLine → Bool) → RuleLine → Type 0
IsAccepted accept r = IsRule r × (accept r ≡ true)

filter-IsAccepted :
    (accept : RuleLine → Bool) (l : List RuleLine)
    → All IsRule l
    → All (IsAccepted accept) (filter accept l)
filter-IsAccepted accept [] h = tt
filter-IsAccepted accept (r ∷ l) h = elim (Bool-cases (accept r)) [
  | inl e ↦ rw e ((h.0, e), filter-IsAccepted accept l h.1)
  | inr e ↦ rw e (filter-IsAccepted accept l h.1)
]

keep_if-IsAccepted :
    (accept : RuleLine → Bool) (o : Option RuleLine)
    → AllSome IsRule o
    → AllSome (IsAccepted accept) (keep_if accept o)
keep_if-IsAccepted accept none h = tt
keep_if-IsAccepted accept (some r) h = elim (Bool-cases (accept r)) [
  | inl e ↦ rw e (h, e)
  | inr e ↦ rw e tt
]

-- Whatever the text, the format and the limit, each rule that an exporter is given has a kind of the
-- list of supported kinds and a value that is absent or not empty, and passes the exporter's test.
pub parse_common_rules_filtered-IsAccepted :
    (readers : Readers) (content : Str) (format : RulesetFormat) (limit : ℕ)
    (accept : RuleLine → Bool)
    → All (IsAccepted accept) (parse_common_rules_filtered readers content format limit accept)
unfolding parse_common_rules_filtered
parse_common_rules_filtered-IsAccepted readers content format limit accept =
    elim (Option-cases (strip_prefix (codes "[]") content)) [
      | inl e ↦
          rw (e, parse_common_rules_filtered)
            (All-take (IsAccepted accept) (bound limit) _ (
              filter-IsAccepted accept _ (
                filter_map-All IsRule (parse_candidate readers format)
                  (parse_candidate_lem readers format) (candidates readers content))))
      | inr (inline, e) ↦
          rw (e, parse_common_rules_filtered)
            (push_some-All (IsAccepted accept) _ []
              (keep_if-IsAccepted accept _ (parse_inline_lem readers inline)) tt)
    ]
