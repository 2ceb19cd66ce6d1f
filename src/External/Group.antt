-- ===== src/External/Group.antt =====
-- `parse_group` of crates/easysub-core/src/external.rs: a proxy group written with backquotes.
use easysub.Prelude.{
  ℕ, ◌-◌, ◌≡◌, refl, Bool, true, false, not, Option, none, some, List, [], ◌∷◌, ◌++◌, map, ◌==◌,
  ltb, if◌then◌else◌, length, take, filter, filter_map, get_elem?, is_empty, unwrap_or, ◌>>=◌,
}
use easysub.Text.{Str, codes, str_eq, split, strip_prefix, trim}
use easysub.Text.Decimal.{parse_unsigned, u64_max}

pub data GroupKind : Type 0 where
  select url_test fallback load_balance relay ssid : GroupKind

pub record ProxyGroup : Type 0 where
  pub name : Str
  pub kind : GroupKind
  pub selectors : List Str
  pub providers : List Str
  pub url : Str
  pub interval : ℕ
  pub tolerance : ℕ

unfoldable pub parse_kind : Str → Option GroupKind
parse_kind s =
    if str_eq s (codes "select")
    then some select
    else if str_eq s (codes "url-test")
    then some url_test
    else if str_eq s (codes "fallback")
    then some fallback
    else if str_eq s (codes "load-balance")
    then some load_balance
    else if str_eq s (codes "relay")
    then some relay
    else if str_eq s (codes "ssid")
    then some ssid
    else none

unfoldable pub is_timed : GroupKind → Bool
is_timed url_test = true
is_timed fallback = true
is_timed load_balance = true
is_timed _ = false

abbrev pub provider_prefix : Str
provider_prefix = codes "!!PROVIDER="

-- What the closure over the selectors keeps, and what it appends to `providers`.
unfoldable pub as_selector : Str → Option Str
unfolding strip_prefix
as_selector value = elim (strip_prefix provider_prefix value) [
  | none ↦ some value
  | some names ↦ none
]

unfoldable pub as_providers : Str → List Str
unfolding strip_prefix split trim
as_providers value = elim (strip_prefix provider_prefix value) [
  | none ↦ []
  | some names ↦ filter (λ name. not (is_empty name)) (map trim (split (λ c. c == b',') names))
]

unfoldable pub all_providers : List Str → List Str
unfolding as_providers
all_providers [] = []
all_providers (v ∷ vs) = as_providers v ++ all_providers vs

unfoldable pub number_at : List Str → ℕ → ℕ
unfolding parse_unsigned
number_at timings i = unwrap_or 0 (get_elem? timings i >>= parse_unsigned u64_max)

unfoldable pub group_of : Str → GroupKind → List Str → Str → List Str → ProxyGroup
unfolding as_selector all_providers number_at
group_of name kind items url timings = record {
  name = name;
  kind = kind;
  selectors = filter_map as_selector items;
  providers = all_providers items;
  url = url;
  interval = number_at timings 0;
  tolerance = number_at timings 2;
}

-- `rest` are the parts from the third on; a timed kind ends in a URL and its timings.
unfoldable pub timed_from : Str → GroupKind → List Str → Option ProxyGroup
unfolding group_of split
timed_from name kind rest = do
  url ← get_elem? rest (length rest - 2)
  timings ← get_elem? rest (length rest - 1)
  some (group_of name kind (take (length rest - 2) rest) url (split (λ c. c == b',') timings))

unfoldable pub group_from : Str → GroupKind → List Str → Option ProxyGroup
unfolding is_timed group_of timed_from
group_from name kind rest =
    if is_timed kind
    then if ltb 2 (length rest) then timed_from name kind rest else none
    else some (group_of name kind rest [] [])

unfoldable pub group_of_parts : List Str → Option ProxyGroup
unfolding parse_kind group_from
group_of_parts (name ∷ kind ∷ first ∷ rest) =
    parse_kind kind >>= λ k. group_from name k (first ∷ rest)
group_of_parts _ = none

unfoldable pub parse_group : Str → Option ProxyGroup
unfolding group_of_parts split
parse_group value = group_of_parts (split (λ c. c == b'`') value)

timed_group :
    parse_group (codes "auto`url-test`.*`!!PROVIDER=a, b`http://t/`300,,50")
    ≡ some (record {
      name = codes "auto";
      kind = url_test;
      selectors = codes ".*" ∷ [];
      providers = codes "a" ∷ codes "b" ∷ [];
      url = codes "http://t/";
      interval = 300;
      tolerance = 50;
    })
unfolding parse_group
timed_group = refl
