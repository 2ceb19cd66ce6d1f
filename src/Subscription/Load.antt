-- ===== src/Subscription/Load.antt =====
-- Loading one source or one rule set, and what becomes of its failure.
use easysub.Prelude.{
  ℕ, ◌+◌, ◌%◌, ◌^◌, Bool, true, false, not, ◌&&◌, Option, none, some, List, [], ◌∷◌, ltb, any,
  length, if◌then◌else◌,
}
use easysub.Text.Utf8.{from_utf8}
use easysub.Error.{Result, ok, err, AppError, ok_or, result_map, ◌>>=◌, ◌>>◌, reject_if}
use easysub.Text.{Str}
use easysub.Model.{Proxy}
use easysub.External.{RulesetSpec, LoadedRuleset}
use easysub.Config.{AppConfig}
use easysub.Fetch.World.{Outside, FetchMetadata, FetchResult, no_metadata}
use easysub.Fetch.Cache.{Io, lift, done}
use easysub.Fetch.{Fetcher, get_with_metadata}
use easysub.Subscription.Request.{SubscriptionInput, source, content, Loaded}
use easysub.Subscription.Guard.{is_sensitive_source}

-- What loading takes of the subscription parser.
pub record Parser : Type 0 where
  pub is_link : Str → Bool
  pub read_node : Str → ℕ → Result Proxy
  pub read_subscription : Str → ℕ → Result (List Proxy)

abbrev pub Fetched : Type 0
Fetched = List Proxy × FetchMetadata

-- `index as u32`.
abbrev pub as_u32 : ℕ → ℕ
as_u32 index = index % 2 ^ 32

abbrev pub without_metadata : List Proxy → Fetched
without_metadata nodes = (nodes, no_metadata)

unfoldable pub parse_fetched : Parser → ℕ → FetchResult → Result Fetched
unfolding from_utf8
parse_fetched parser index fetched = ok_or AppError.bad_request (from_utf8 fetched.body) >>= λ text.
    result_map (λ nodes. (nodes, fetched.metadata)) (parser.read_subscription text (as_u32 index))

module _ (outside : Outside) (fetcher : Fetcher) (parser : Parser) where
  -- A fetch, and what is made of its result.
  unfoldable pub fetch_and : {A : Type 0} → (FetchResult → Result A) → Str → ℕ → Io A
  fetch_and read s ttl store =
      let o = get_with_metadata outside fetcher s ttl false store in
      record { trace = o.trace; store = o.store; result = o.result >>= read }

  unfoldable pub load_subscription_input : SubscriptionInput → ℕ → ℕ → Io Fetched
  unfolding parse_fetched
  load_subscription_input (content text) index ttl =
      lift (result_map without_metadata (parser.read_subscription text (as_u32 index)))
  load_subscription_input (source s) index ttl =
      if parser.is_link s
      then lift
          (result_map (λ node. without_metadata (node ∷ [])) (parser.read_node s (as_u32 index)))
      else fetch_and (parse_fetched parser index) s ttl

  unfoldable pub read_ruleset : RulesetSpec → FetchResult → Result LoadedRuleset
  unfolding from_utf8
  read_ruleset spec fetched =
      result_map
        (λ text. record {
          group = spec.group;
          source = spec.source;
          content = text;
          format = spec.format;
        })
        (ok_or AppError.bad_request (from_utf8 fetched.body))

  unfoldable pub load_ruleset : RulesetSpec → ℕ → Io LoadedRuleset
  unfolding read_ruleset
  load_ruleset spec ttl =
      if spec.inline
      then done
          (record { group = spec.group; source = []; content = spec.source; format = spec.format })
      else fetch_and (read_ruleset spec) spec.source ttl

-- A failed source is left out or is the failure of the whole, as `skip_failed_links` says.
unfoldable pub settle : Bool → ℕ → Result Fetched → Result Loaded
settle skip_failed index (ok (nodes, metadata)) =
    ok (record { index = index; nodes = nodes; metadata = metadata })
settle true index (err e) = ok (record { index = index; nodes = []; metadata = no_metadata })
settle false index (err e) = err e

-- The tasks of the stream, from what loading each source gives, in the order of the sources.
unfoldable pub settle_all : Bool → ℕ → List (Result Fetched) → List (Result Loaded)
unfolding settle
settle_all skip_failed index [] = []
settle_all skip_failed index (r ∷ rest) =
    settle skip_failed index r ∷ settle_all skip_failed (index + 1) rest

unfoldable pub settle_ruleset : Bool → ℕ → Result LoadedRuleset → Result (ℕ × Option LoadedRuleset)
settle_ruleset skip_failed index (ok loaded) = ok (index, some loaded)
settle_ruleset true index (err e) = ok (index, none)
settle_ruleset false index (err e) = err e

-- What `load_rulesets` asks before it loads any.
unfoldable pub check_rulesets : AppConfig → List RulesetSpec → Bool → Result (Unit {0})
unfolding is_sensitive_source
check_rulesets config specs authorized =
    reject_if (ltb config.advance.max_allowed_rulesets (length specs)) AppError.limit
    >> reject_if
        (not authorized && any (λ spec. not spec.inline && is_sensitive_source spec.source) specs)
        AppError.unauthorized
