-- ===== src/Rules/Shape.antt =====
-- What the parsed and the normalised rules look like, whatever the text of the rule set.
use easysub.Prelude.{
  ℕ, ◌≡◌, refl, ◌∙◌, ap, inl, inr, true, false, not, ◌&&◌, Option, none, some, List, [], ◌∷◌, ◌++◌,
  map, arith, ◌==◌, is_empty, is_some, filter_map, any, head?, push_some, unwrap_or, All, All-take,
  Bool-cases, and-eq-true,
}
use easysub.Text.{
  Str, codes, str_eq, one_of, split, trim, lower_char, to_ascii_lowercase, to_ascii_uppercase,
  contains_char, trim_start_matches,
}
use easysub.Text.Chars.{
  is_slash, to_ascii_lowercase-slash, to_ascii_lowercase_idem, is_empty-to_ascii_lowercase,
  trim_start_by-lacks, trim_start_matches-lacks,
}
use easysub.Model.{RuleBehavior, domain, ip_cidr}
use easysub.Rules.Line.{Readers, candidates, clean_line, is_skipped}
use easysub.Rules.Common.{bound, trim_suffix_marks}
use easysub.Rules.Normalize.{
  valid_domain, has_comma, normalize_domain, normalize_cidr, normalize_parts, normalize_rule,
  normalize_candidate, normalize_rules_allow_empty,
}
use easysub.Rules.Limits.{normalize_rules_allow_empty-take}

-- What every optional item satisfies, every item of the list does.
abbrev pub AllSome {ℓ κ} : {A : Type ℓ} → (A → Type κ) → Option A → Type κ
AllSome P none = Unit
AllSome P (some a) = P a

pub push_some-All {ℓ κ} :
    {A : Type ℓ} (P : A → Type κ) (o : Option A) (l : List A)
    → AllSome P o
    → All P l
    → All P (push_some o l)
push_some-All P none l p rest = rest
push_some-All P (some a) l p rest = (p, rest)

pub filter_map-All {ℓ κ} :
    {A : Type ℓ} {B : Type ℓ} (P : B → Type κ) (f : A → Option B)
    → ((a : A) → AllSome P (f a))
    → (l : List A) → All P (filter_map f l)
filter_map-All P f h [] = tt
filter_map-All P f h (x ∷ l) = push_some-All P (f x) (filter_map f l) (h x) (filter_map-All P f h l)

-- A normalised domain rule: some text with no slash and no upper-case ASCII letter.
pub record IsDomainRule (s : Str) : Type 0 where
  pub not_empty : is_empty s ≡ false
  pub no_slash : any is_slash s ≡ false
  pub no_capital : to_ascii_lowercase s ≡ s

to_ascii_lowercase-IsDomainRule :
    (s : Str) → valid_domain s ≡ true → IsDomainRule (to_ascii_lowercase s)
unfolding valid_domain contains_char
to_ascii_lowercase-IsDomainRule s h = record {
  not_empty = is_empty-to_ascii_lowercase s ∙ ground (arith, h);
  no_slash = to_ascii_lowercase-slash s ∙ ground (arith, h);
  no_capital = to_ascii_lowercase_idem s;
}

trim_suffix_marks-lacks :
    (t : Str) → any is_slash t ≡ false → any is_slash (trim_suffix_marks t) ≡ false
unfolding trim_suffix_marks
trim_suffix_marks-lacks t k =
    trim_start_by-lacks is_slash (λ c. c == b'.') (trim_start_matches (codes "+.") t)
      (trim_start_matches-lacks is_slash (codes "+.") t k)

suffix-IsDomainRule :
    (s : Str)
    → valid_domain s ≡ true
    → IsDomainRule (codes "+." ++ to_ascii_lowercase (trim_suffix_marks s))
unfolding valid_domain contains_char
suffix-IsDomainRule s h =
    let clean : any is_slash s ≡ false = ground (arith, h) in
    record {
      not_empty = refl;
      no_slash = to_ascii_lowercase-slash (trim_suffix_marks s) ∙ trim_suffix_marks-lacks s clean;
      no_capital =
          unfold to_ascii_lowercase lower_char in
          ap (λ t. codes "+." ++ t) (to_ascii_lowercase_idem (trim_suffix_marks s));
    }

normalize_domain_lem :
    (kind value line : Str) → AllSome IsDomainRule (normalize_domain kind value line)
unfolding normalize_domain
normalize_domain_lem kind value line =
    elim (Bool-cases (str_eq kind (codes "DOMAIN") && valid_domain value)) [
      | inl e ↦ rw e (to_ascii_lowercase-IsDomainRule value (and-eq-true _ _ e).1)
      | inr e ↦
          rw e (elim (Bool-cases (str_eq kind (codes "DOMAIN-SUFFIX") && valid_domain value)) [
            | inl e' ↦ rw e' (suffix-IsDomainRule value (and-eq-true _ _ e').1)
            | inr e' ↦ rw e' (elim (Bool-cases (not (has_comma line) && valid_domain line)) [
              | inl e'' ↦ rw e'' (to_ascii_lowercase-IsDomainRule line (and-eq-true _ _ e'').1)
              | inr e'' ↦ rw e'' tt
            ])
          ])
    ]

-- A text that the third-party parser reads as a network.
abbrev pub IsNetwork : Readers → Str → Type 0
IsNetwork readers s = is_some (readers.ip_net s) ≡ true

normalize_cidr_lem :
    (readers : Readers) (kind value line : Str)
    → AllSome (IsNetwork readers) (normalize_cidr readers kind value line)
unfolding normalize_cidr
normalize_cidr_lem readers kind value line =
    elim (Bool-cases
      (one_of (codes "IP-CIDR" ∷ codes "IP-CIDR6" ∷ []) kind && is_some (readers.ip_net value))) [
        | inl e ↦ rw e (and-eq-true _ _ e).1
        | inr e ↦ rw e (elim (Bool-cases (not (has_comma line) && is_some (readers.ip_net line))) [
          | inl e' ↦ rw e' (and-eq-true _ _ e').1
          | inr e' ↦ rw e' tt
        ])
      ]

-- What a rule of each behaviour looks like after normalisation.
abbrev pub IsNormal : Readers → RuleBehavior → Str → Type 0
IsNormal readers domain s = IsDomainRule s
IsNormal readers ip_cidr s = IsNetwork readers s

normalize_parts_lem :
    (readers : Readers) (behavior : RuleBehavior) (line : Str) (parts : List Str)
    → AllSome (IsNormal readers behavior) (normalize_parts readers behavior line parts)
unfolding normalize_parts
normalize_parts_lem readers behavior line [] = tt
normalize_parts_lem readers domain line (first ∷ rest) =
    normalize_domain_lem (to_ascii_uppercase first) (unwrap_or [] (head? rest)) line
normalize_parts_lem readers ip_cidr line (first ∷ rest) =
    normalize_cidr_lem readers (to_ascii_uppercase first) (unwrap_or [] (head? rest)) line

normalize_candidate_lem :
    (readers : Readers) (behavior : RuleBehavior) (raw : Str)
    → AllSome (IsNormal readers behavior) (normalize_candidate readers behavior raw)
unfolding normalize_candidate normalize_rule
normalize_candidate_lem readers behavior raw = elim (Bool-cases (is_skipped (clean_line raw))) [
  | inl skipped ↦ rw skipped tt
  | inr kept ↦ rw kept (
      normalize_parts_lem readers behavior (clean_line raw)
        (map trim (split (λ c. c == b',') (clean_line raw))))
]

-- Whatever the text of a rule set, each rule that is normalised for domains is a non-empty text
-- with no slash and no upper-case ASCII letter, and each one that is normalised for networks is a text
-- that the network parser accepts.
pub normalize_rules_allow_empty-IsNormal :
    (readers : Readers) (content : Str) (behavior : RuleBehavior) (max_rules : ℕ)
    → All
        (IsNormal readers behavior)
        (normalize_rules_allow_empty readers content behavior max_rules)
normalize_rules_allow_empty-IsNormal readers content behavior max_rules =
    rw normalize_rules_allow_empty-take (
      All-take (IsNormal readers behavior) (bound max_rules)
        (filter_map (normalize_candidate readers behavior) (candidates readers content))
        (filter_map-All (IsNormal readers behavior) (normalize_candidate readers behavior)
          (normalize_candidate_lem readers behavior) (candidates readers content)))
