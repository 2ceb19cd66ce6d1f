-- ===== src/Export/Clash/Merge.antt =====
-- What `merge_adjacent_rulesets` keeps of the rule sets, and which of them it leaves apart.
use easysub.Prelude.{
  ℕ, ◌≡◌, ◌≢◌, ◌⊎◌, refl, sym, ◌∙◌, ap, inl, inr, true, false, List, [], ◌∷◌, ◌++◌, append_assoc,
  map, map-append, filter, list_same_iff, nat_key, is_empty, Bool-cases, arith,
}
use easysub.Text.{Str, str_eq}
use easysub.External.{RulesetFormat, LoadedRuleset}
use easysub.Export.Clash.Adjacent.{
  format_eq, format_eq-same, format_eq_refl, is_mergeable, merge_two, merge_after,
  merge_adjacent_rulesets,
}

-- The characters that rule sets have in one of their texts, which ends in `sep`, each with the group
-- and the format of the rule set it is from.
abbrev pub labelled :
    (LoadedRuleset → Str) → ℕ → List LoadedRuleset → List (ℕ × Str × RulesetFormat)
labelled text sep [] = []
labelled text sep (r ∷ rest) =
    map (λ c. (c, r.group, r.format)) (text r ++ sep ∷ []) ++ labelled text sep rest

-- The rule sets with no source, which stand in the configuration itself.
abbrev pub inline_sets : List LoadedRuleset → List LoadedRuleset
inline_sets rulesets = filter (λ r. is_empty r.source) rulesets

-- Two neighbours that belong apart: of another group or format, or with no source to name.
abbrev pub AreApart : LoadedRuleset → LoadedRuleset → Type 0
AreApart r s =
    ((r.group ≢ s.group) ⊎ (r.format ≢ s.format))
    ⊎ ((is_empty r.source ≡ true) ⊎ (is_empty s.source ≡ true))

abbrev pub IsMerged : List LoadedRuleset → Type 0
IsMerged [] = Unit
IsMerged (r ∷ []) = Unit
IsMerged (r ∷ s ∷ rest) = AreApart r s × IsMerged (s ∷ rest)

AreApart-lem : (r s : LoadedRuleset) → is_mergeable r s ≡ false → AreApart r s
unfolding is_mergeable
AreApart-lem r s h = elim (Bool-cases (is_empty r.source)) [
  | inl e ↦ inr (inl e)
  | inr named ↦ elim (Bool-cases (is_empty s.source)) [
    | inl e ↦ inr (inr e)
    | inr named' ↦ elim (Bool-cases (str_eq r.group s.group)) [
      | inl same ↦ inl (
          inr (λ e.
            let k : format_eq r.format s.format ≡ true =
              ap (format_eq r.format) (sym e) ∙ format_eq_refl r.format in
            let absurd_h : true ≡ false = ground (arith, h, named, named', same, k) in cc absurd_h))
      | inr differ ↦ inl (inl (λ e. cc (differ, (list_same_iff r.group s.group).1 e)))
    ]
  ]
]

relabel :
    (sep : ℕ) (g g' : Str) (f f' : RulesetFormat) (a b : Str)
    (rest : List (ℕ × Str × RulesetFormat))
    → g ≡ g'
    → f ≡ f'
    → map (λ c. (c, g, f)) ((a ++ (sep ∷ b)) ++ sep ∷ []) ++ rest
      ≡ map (λ c. (c, g, f)) (a ++ sep ∷ []) ++ (map (λ c. (c, g', f')) (b ++ sep ∷ []) ++ rest)
relabel sep g g' f f' a b rest same_group same_format =
    rw (same_group, same_format)
      (simp (map-append {A = ℕ} {B = ℕ × Str × RulesetFormat}, append_assoc))

module _ (text : LoadedRuleset → Str) (sep : ℕ)
    (joins : (p n : LoadedRuleset) → text (merge_two p n) ≡ text p ++ (sep ∷ text n)) where
  labelled-merge_two :
      (p n : LoadedRuleset) (rest : List LoadedRuleset)
      → is_mergeable p n ≡ true
      → labelled text sep (merge_two p n ∷ rest) ≡ labelled text sep (p ∷ n ∷ rest)
  unfolding is_mergeable merge_two
  labelled-merge_two p n rest h =
      let group : p.group ≡ n.group = (list_same_iff p.group n.group).0 (ground (arith, h)) in
      let format : p.format ≡ n.format = format_eq-same p.format n.format (ground (arith, h)) in
      ap (λ t. map (λ c. (c, p.group, p.format)) (t ++ sep ∷ []) ++ labelled text sep rest)
        (joins p n)
      ∙ relabel sep p.group n.group p.format n.format (text p) (text n) (labelled text sep rest)
          group format

  merge_after-labelled :
      (previous : LoadedRuleset) (rest : List LoadedRuleset)
      → labelled text sep (merge_after previous rest) ≡ labelled text sep (previous ∷ rest)
  unfolding merge_after
  merge_after-labelled previous [] = refl
  merge_after-labelled previous (next ∷ rest) = elim (Bool-cases (is_mergeable previous next)) [
    | inl same ↦ rw same (
        merge_after-labelled (merge_two previous next) rest
        ∙ labelled-merge_two previous next rest same)
    | inr differ ↦ rw differ (
        ap (λ t. map (λ c. (c, previous.group, previous.format)) (text previous ++ sep ∷ []) ++ t)
          (merge_after-labelled next rest))
  ]

is_empty-append_cons : (s t : Str) (c : ℕ) → is_empty (s ++ (c ∷ t)) ≡ false
is_empty-append_cons [] t c = refl
is_empty-append_cons (d ∷ s) t c = refl

inline_sets-merge_two :
    (p n : LoadedRuleset) (rest : List LoadedRuleset)
    → is_mergeable p n ≡ true
    → inline_sets (merge_two p n ∷ rest) ≡ inline_sets (p ∷ n ∷ rest)
unfolding is_mergeable merge_two
inline_sets-merge_two p n rest h =
    let named : is_empty p.source ≡ false = ground (arith, h) in
    let named' : is_empty n.source ≡ false = ground (arith, h) in
    rw (is_empty-append_cons p.source n.source b'|', named, named') refl

merge_after-inline_sets :
    (previous : LoadedRuleset) (rest : List LoadedRuleset)
    → inline_sets (merge_after previous rest) ≡ inline_sets (previous ∷ rest)
unfolding merge_after
merge_after-inline_sets previous [] = refl
merge_after-inline_sets previous (next ∷ rest) = elim (Bool-cases (is_mergeable previous next)) [
  | inl same ↦ rw same (
      merge_after-inline_sets (merge_two previous next) rest
      ∙ inline_sets-merge_two previous next rest same)
  | inr differ ↦ rw differ (elim (Bool-cases (is_empty previous.source)) [
    | inl e ↦ rw e (ap (λ l. previous ∷ l) (merge_after-inline_sets next rest))
    | inr e ↦ rw e (merge_after-inline_sets next rest)
  ])
]

-- The first of the merged rule sets is mergeable with another exactly if the first one was.
record Merged (previous : LoadedRuleset) (out : List LoadedRuleset) : Type 0 where
  head : LoadedRuleset
  tail : List LoadedRuleset
  is_out : out ≡ head ∷ tail
  merged : IsMerged (head ∷ tail)
  alike : (r : LoadedRuleset) → is_mergeable r head ≡ is_mergeable r previous

is_mergeable-merge_two :
    (r previous next : LoadedRuleset)
    → is_mergeable previous next ≡ true
    → is_mergeable r (merge_two previous next) ≡ is_mergeable r previous
unfolding is_mergeable merge_two
is_mergeable-merge_two r previous next same =
    rw (is_empty-append_cons previous.source next.source b'|') (ground (arith, same))

merge_after-Merged :
    (previous : LoadedRuleset) (rest : List LoadedRuleset)
    → Merged previous (merge_after previous rest)
unfolding merge_after
merge_after-Merged previous [] = record {
  head = previous;
  tail = [];
  is_out = refl;
  merged = tt;
  alike = λ r. refl;
}
merge_after-Merged previous (next ∷ rest) = elim (Bool-cases (is_mergeable previous next)) [
  | inl same ↦ rw same (
      let m = merge_after-Merged (merge_two previous next) rest in
      record {
        head = m.head;
        tail = m.tail;
        is_out = m.is_out;
        merged = m.merged;
        alike = λ r. m.alike r ∙ is_mergeable-merge_two r previous next same;
      })
  | inr differ ↦ rw differ (
      let m = merge_after-Merged next rest in
      record {
        head = previous;
        tail = m.head ∷ m.tail;
        is_out = ap (λ t. previous ∷ t) m.is_out;
        merged = (AreApart-lem previous m.head (m.alike previous ∙ differ), m.merged);
        alike = λ r. refl;
      })
]

-- Merging moves no text: every character of the contents stays in its place, in its group and its
-- format, and so does every character of the sources; the rule sets with no source are left as they
-- are; and any two neighbours of the result differ in group or format, or one has no source.
pub merge_adjacent_rulesets-IsMerged :
    (rulesets : List LoadedRuleset)
    → (labelled (λ r. r.content) b'\n' (merge_adjacent_rulesets rulesets)
        ≡ labelled (λ r. r.content) b'\n' rulesets)
      × (labelled (λ r. r.source) b'|' (merge_adjacent_rulesets rulesets)
          ≡ labelled (λ r. r.source) b'|' rulesets)
      × (inline_sets (merge_adjacent_rulesets rulesets) ≡ inline_sets rulesets)
      × IsMerged (merge_adjacent_rulesets rulesets)
unfolding merge_adjacent_rulesets merge_two
merge_adjacent_rulesets-IsMerged [] = (refl, refl, refl, tt)
merge_adjacent_rulesets-IsMerged (first ∷ rest) =
    let m = merge_after-Merged first rest in
    (
      merge_after-labelled (λ r. r.content) b'\n' (λ p n. refl) first rest,
      merge_after-labelled (λ r. r.source) b'|' (λ p n. refl) first rest,
      merge_after-inline_sets first rest,
      rw m.is_out m.merged,
    )
