-- ===== src/Export/Clash/Ruleset.antt =====
-- The rules of a profile: rendered one by one, or moved into a provider where there are many.
use easysub.Prelude.{
  ℕ, max, Bool, not, ◌&&◌, ◌||◌, Option, none, some, List, [], ◌∷◌, ◌++◌, if◌then◌else◌, leb,
  is_empty, is_some, length, keep_if,
}
use easysub.Error.{Result, ok, err, AppError, ok_or, ◌>>=◌}
use easysub.Text.{Str, codes, str_eq, one_of}
use easysub.External.{LoadedRuleset}
use easysub.Rules.Common.{RuleLine, trim_suffix_marks}
use easysub.Export.Clash.Provider.{
  text, number, texts, Provider, Providers, ClashRulesetOptions, insert_provider,
  unique_provider_name, ruleset_source_name, trim_end_slashes,
}

abbrev pub optimize_min_count : ℕ
optimize_min_count = 8

unfoldable pub is_clash_rule : RuleLine → Bool
is_clash_rule rule =
    one_of
      (codes "DOMAIN"
        ∷ codes "DOMAIN-SUFFIX"
        ∷ codes "DOMAIN-KEYWORD"
        ∷ codes "IP-CIDR"
        ∷ codes "IP-CIDR6"
        ∷ codes "SRC-IP-CIDR"
        ∷ codes "GEOIP"
        ∷ codes "SRC-GEOIP"
        ∷ codes "GEOSITE"
        ∷ codes "MATCH"
        ∷ codes "FINAL"
        ∷ codes "PROCESS-NAME"
        ∷ codes "SRC-PORT"
        ∷ codes "DST-PORT"
        ∷ codes "NETWORK"
        ∷ codes "PROTOCOL"
        ∷ [])
      rule.kind

abbrev pub value_part : Option Str → Str
value_part none = []
value_part (some value) = b',' ∷ value

unfoldable pub render_rule : RuleLine → Str → Str
render_rule rule group =
    (if str_eq rule.kind (codes "FINAL") then codes "MATCH" else rule.kind)
    ++ value_part rule.value
    ++ (b',' ∷ group)
    ++ (if rule.no_resolve then codes ",no-resolve" else [])

-- What of a rule goes into the list of a domain provider.
unfoldable pub domain_entry : RuleLine → Option Str
domain_entry rule = elim (keep_if (λ v. not (is_empty v)) rule.value) [
  | none ↦ none
  | some value ↦
      if str_eq rule.kind (codes "DOMAIN")
      then some value
      else if str_eq rule.kind (codes "DOMAIN-SUFFIX")
      then some (codes "+." ++ trim_suffix_marks value)
      else none
]

unfoldable pub is_address_kind : RuleLine → Bool
is_address_kind rule = str_eq rule.kind (codes "IP-CIDR") || str_eq rule.kind (codes "IP-CIDR6")

unfoldable pub is_domain_kind : RuleLine → Bool
is_domain_kind rule = str_eq rule.kind (codes "DOMAIN") || str_eq rule.kind (codes "DOMAIN-SUFFIX")

unfoldable pub address_entry : RuleLine → Option Str
address_entry rule = if is_address_kind rule && rule.no_resolve then rule.value else none

unfoldable pub is_moved : Bool → Bool → RuleLine → Bool
is_moved optimize_domain optimize_ipcidr rule =
    (optimize_domain && is_domain_kind rule && is_some rule.value)
    || (optimize_ipcidr && is_address_kind rule && rule.no_resolve && is_some rule.value)

-- Whether a list of this length is worth a provider.
unfoldable pub is_worth : ClashRulesetOptions → List Str → Bool
is_worth options payload = options.optimize && leb optimize_min_count (length payload)

abbrev pub token_pair : Option Str → List (Str × Str)
token_pair token = elim (keep_if (λ t. not (is_empty t)) token) [
  | none ↦ []
  | some t ↦ (codes "token", t) ∷ []
]

abbrev pub inline_provider : Str → List Str → Provider
inline_provider behavior payload =
    (codes "type", text (codes "inline"))
    ∷ (codes "format", text (codes "text"))
    ∷ (codes "behavior", text behavior)
    ∷ (codes "payload", texts payload)
    ∷ []

-- The providers and the rules so far, behind those of the base.
pub record Output : Type 0 where
  pub providers : Providers
  pub rules : List Str

-- `url::form_urlencoded` writes the query.
module _ (form_urlencoded : List (Str × Str) → Str) where
  unfoldable pub http_provider : ClashRulesetOptions → Str → Str → Str → Str → Provider
  unfolding trim_end_slashes
  http_provider options base_url source behavior name =
      let query = form_urlencoded (
        (codes "target", codes "clash")
        ∷ (codes "behavior", behavior)
        ∷ (codes "url", source)
        ∷ token_pair options.access_token) in
      (codes "type", text (codes "http"))
      ∷ (codes "format", text (codes "mrs"))
      ∷ (codes "url", text (trim_end_slashes base_url ++ codes "/ruleset?" ++ query))
      ∷ (codes "behavior", text behavior)
      ∷ (codes "interval", number (max 1 options.update_interval))
      ∷ (codes "proxy", text (codes "DIRECT"))
      ∷ (codes "path", text (codes "./mrs/ruleset/" ++ name ++ codes ".mrs"))
      ∷ []

  unfoldable pub optimized_provider :
      ClashRulesetOptions → LoadedRuleset → Str → List Str → Str → Result Provider
  unfolding http_provider
  optimized_provider options ruleset' behavior payload name =
      if options.optimize_to_http
      then if is_empty ruleset'.source
        then err AppError.conversion
        else elim options.provider_base_url [
          | none ↦ err AppError.conversion
          | some base_url ↦ ok (http_provider options base_url ruleset'.source behavior name)
        ]
      else ok (inline_provider behavior payload)

  -- The search for a name always ends; the error stands for the `expect` behind it.
  unfoldable pub insert_optimized_provider :
      ClashRulesetOptions
      → LoadedRuleset
      → ℕ
      → Str
      → List Str
      → Providers
      → Result (Str × Providers)
  unfolding optimized_provider ruleset_source_name
  insert_optimized_provider options ruleset' index behavior payload providers = do
    name ← ok_or AppError.internal (
        unique_provider_name (behavior ++ (b'_' ∷ ruleset_source_name ruleset'.source index))
          providers)
    provider ← optimized_provider options ruleset' behavior payload name
    ok (name, insert_provider name provider providers)
