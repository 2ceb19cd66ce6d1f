-- ===== src/Export/Clash/Provider.antt =====
-- Rule providers: their names and what they hold.
use easysub.Prelude.{
  ℕ, suc, ◌+◌, ◌≡◌, refl, ap, inl, inr, Bool-cases, drop, arith, Bool, false, not, ◌&&◌, ◌||◌,
  Option, none, some, List, [], ◌∷◌, ◌++◌, map, filter_map, if◌then◌else◌, ◌==◌, leb, is_empty,
  length, contains, option_map, keep_if, unwrap_or, head?, list_key, nat_key,
}
use easysub.Prelude.Fresh.{first_free, first_free_sound, first_free-total}
use easysub.Text.{Str, codes, str_eq, split, rsplit_once}
use easysub.Text.Decimal.{show, show_injective}
use easysub.Config.{RulesetTransform}

-- A field of the JSON object that describes a provider.
pub data Field : Type 0 where
  text : Str → Field
  number : ℕ → Field
  texts : List Str → Field

abbrev pub Provider : Type 0
Provider = List (Str × Field)

abbrev pub Providers : Type 0
Providers = List (Str × Provider)

pub record ClashRulesetOptions : Type 0 where
  pub proxies_style : Str
  pub proxy_groups_style : Str
  pub optimize : Bool
  pub optimize_to_http : Bool
  pub geo_convert : Bool
  pub provider_base_url : Option Str
  pub access_token : Option Str
  pub update_interval : ℕ
  pub geo_transforms : List (Str × RulesetTransform)

abbrev pub keys : Providers → List Str
keys [] = []
keys ((name, provider) ∷ rest) = name ∷ keys rest

-- `Map::insert`: the name stands once. The order of the names, which is the map's, is left out.
unfoldable pub insert_provider : Str → Provider → Providers → Providers
insert_provider name provider [] = (name, provider) ∷ []
insert_provider name provider ((key, old) ∷ rest) =
    if str_eq key name
    then (key, provider) ∷ rest
    else (key, old) ∷ insert_provider name provider rest

unfoldable pub is_plain : ℕ → Bool
is_plain c =
    (leb b'0' c && leb c b'9')
    || (leb b'A' c && leb c b'Z')
    || (leb b'a' c && leb c b'z')
    || c == b'-'
    || c == b'_'

unfoldable pub sanitize_provider_name : Str → Str
unfolding is_plain
sanitize_provider_name = map (λ c. if is_plain c then c else b'_')

abbrev pub numbered : Str → ℕ → Str
numbered base index = base ++ (b'_' ∷ show index)

-- `(1..).map(…).find(…)`: more fuel than providers.
unfoldable pub unique_provider_name : Str → Providers → Option Str
unfolding first_free contains
unique_provider_name base providers =
    if contains (keys providers) base
    then option_map (numbered base)
        (first_free (numbered base) (suc (length (keys providers))) 1 (keys providers))
    else some base

-- `split(['?', '#']).next()`, and the last part between slashes of either kind.
unfoldable pub without_query : Str → Str
unfolding split
without_query s = unwrap_or s (head? (split (λ c. c == b'?' || c == b'#') s))

unfoldable pub last_part : List Str → Str
last_part [] = []
last_part (s ∷ []) = s
last_part (s ∷ t ∷ rest) = last_part (t ∷ rest)

-- `trim_end_matches('/')`.
unfoldable pub trim_end_slashes : Str → Str
trim_end_slashes [] = []
trim_end_slashes (c ∷ s) =
    let rest = trim_end_slashes s in if is_empty rest && c == b'/' then [] else c ∷ rest

-- `Path::file_stem` of a name without slashes: what stands before the last dot, unless that is nothing.
unfoldable pub file_stem : Str → Option Str
unfolding rsplit_once
file_stem name =
    if is_empty name || str_eq name (codes ".") || str_eq name (codes "..")
    then none
    else elim (rsplit_once b'.' name) [
      | none ↦ some name
      | some (before, after) ↦ some (if is_empty before then name else before)
    ]

unfoldable pub source_stem : Str → Option Str
unfolding without_query last_part trim_end_slashes file_stem split
source_stem source =
    let file_name =
      last_part (split (λ c. c == b'/' || c == b'\\') (trim_end_slashes (without_query source))) in
    option_map sanitize_provider_name (keep_if (λ s. not (is_empty s)) (file_stem file_name))

unfoldable pub join_underscore : List Str → Str
join_underscore [] = []
join_underscore (s ∷ []) = s
join_underscore (s ∷ t ∷ rest) = s ++ (b'_' ∷ join_underscore (t ∷ rest))

unfoldable pub ruleset_source_name : Str → ℕ → Str
unfolding source_stem join_underscore split
ruleset_source_name source index =
    let stems = filter_map source_stem (split (λ c. c == b'|') source) in
    if is_empty stems then codes "ruleset_" ++ show (index + 1) else join_underscore stems

numbered_injective : (base : Str) (i j : ℕ) → numbered base i ≡ numbered base j → i ≡ j
numbered_injective base i j e = show_injective i j (cons_injective (append_injective base _ _ e))
  where
    append_injective : (s t u : Str) → s ++ t ≡ s ++ u → t ≡ u
    append_injective [] t u e = e
    append_injective (c ∷ s) t u e = append_injective s t u (ap (drop 1) e)

    cons_injective : {s t : Str} → b'_' ∷ s ≡ b'_' ∷ t → s ≡ t
    cons_injective e = ap (drop 1) e

-- There is always a name for a provider; no provider has it yet, and it is the wanted one if that is
-- free.
pub unique_provider_name-total :
    (base : Str) (providers : Providers)
    → (name : Str) × (unique_provider_name base providers ≡ some name)
      × (contains (keys providers) name ≡ false)
      × (contains (keys providers) base ≡ false → name ≡ base)
unfolding unique_provider_name
unique_provider_name-total base providers = elim (Bool-cases (contains (keys providers) base)) [
  | inl taken ↦
      let used = keys providers in
      let (k, e) =
        first_free-total (numbered base) (numbered_injective base) (suc (length used)) 1 used
          (omega arith) in
      let (free, above) = first_free_sound (numbered base) (suc (length used)) 1 used k e in
      (numbered base k, rw (taken, e) refl, free, λ h. cc (taken, h))
  | inr free ↦ (base, rw free refl, free, λ h. refl)
]
