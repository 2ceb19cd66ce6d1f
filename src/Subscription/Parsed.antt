-- ===== src/Subscription/Parsed.antt =====
-- Loading a source with the parser of crates/easysub-core/src/parser.rs.
use easysub.Prelude.{
  ℕ, ◌≡◌, refl, ◌%◌, ◌^◌, false, List, [], ◌∷◌, All, is_empty, Bool-cases, Option-cases, inl, inr,
}
use easysub.Text.Utf8.{from_utf8}
use easysub.Error.{AppError, Result, ok, err, result_map}
use easysub.Error.Yields.{Yields, Yields-map, Yields-mono, Yields-bind}
use easysub.Text.{Str}
use easysub.Model.{Proxy}
use easysub.Fetch.World.{Outside, FetchResult, Store}
use easysub.Fetch.Cache.{lift}
use easysub.Fetch.{Fetcher, get_with_metadata}
use easysub.Parser.Formats.{Formats}
use easysub.Parser.Node.{looks_like_proxy, parse_node, parse_subscription}
use easysub.Parser.Grouped.{
  IsLinkError, IsRefused, AreRead, parse_node-errors, parse_subscription-grouped,
}
use easysub.Subscription.Request.{SubscriptionInput, source, content}
use easysub.Subscription.Load.{
  Parser, Fetched, as_u32, without_metadata, parse_fetched, fetch_and, load_subscription_input,
}

abbrev pub real_parser : Formats → Parser
real_parser formats = record {
  is_link = looks_like_proxy;
  read_node = parse_node formats;
  read_subscription = parse_subscription formats;
}

abbrev pub AnyError : AppError → Type 0
AnyError e = Unit

-- Some nodes, all of the group that the source's place in the list stands for.
abbrev pub IsLoad : ℕ → Fetched → Type 0
IsLoad index fetched =
    (is_empty fetched.0 ≡ false) × All (λ p. p.group_id ≡ index % 2 ^ 32) fetched.0

anything {ℓ} : {A : Type ℓ} (r : Result A) → Yields AnyError (λ a. Unit {0}) r
anything (ok a) = tt
anything (err e) = tt

lift-result :
    {A : Type 0} (P : AppError → Type 0) (Q : A → Type 0) (r : Result A) (store : Store)
    → Yields P Q r
    → Yields P Q (lift r store).result
lift-result P Q (ok a) store h = h
lift-result P Q (err e) store h = h

module _ (formats : Formats) (index : ℕ) where
  abbrev Grouped : List Proxy → Type 0
  Grouped nodes = (is_empty nodes ≡ false) × All (λ p. p.group_id ≡ index % 2 ^ 32) nodes

  abbrev InGroup : Proxy → Type 0
  InGroup p = p.group_id ≡ index % 2 ^ 32

  subscription_result :
      (text : Str) → Yields AnyError Grouped (parse_subscription formats text (as_u32 index))
  subscription_result text =
      Yields-mono (IsRefused formats text (as_u32 index)) AnyError
        (AreRead formats text (as_u32 index)) Grouped
        (parse_subscription formats text (as_u32 index))
        (parse_subscription-grouped formats text (as_u32 index)) (λ e h. tt) (λ nodes h. (h.0, h.1))

  parse_fetched-IsLoad :
      (fetched : FetchResult)
      → Yields AnyError (IsLoad index) (parse_fetched (real_parser formats) index fetched)
  unfolding parse_fetched
  parse_fetched-IsLoad fetched = elim (Option-cases (from_utf8 fetched.body)) [
    | inl e ↦ rw (e, parse_fetched) tt
    | inr (text, e) ↦
        rw (e, parse_fetched)
          (Yields-map AnyError Grouped (IsLoad index) (λ nodes. (nodes, fetched.metadata))
            (parse_subscription formats text (as_u32 index)) (subscription_result text)
            (λ nodes h. h))
  ]

  module _ (outside : Outside) (fetcher : Fetcher) where
    fetch_and-IsLoad :
        (s : Str) (ttl : ℕ) (store : Store)
        → Yields AnyError
            (IsLoad index)
            (fetch_and outside fetcher
              (real_parser formats)
              (parse_fetched (real_parser formats) index)
              s
              ttl
              store).result
    unfolding fetch_and
    fetch_and-IsLoad s ttl store =
        Yields-bind AnyError (λ fetched. Unit {0}) (IsLoad index)
          (get_with_metadata outside fetcher s ttl false store).result
          (parse_fetched (real_parser formats) index) (anything _)
          (λ fetched h. parse_fetched-IsLoad fetched)

    -- A source of a request, whether a link, a text or an address to fetch, gives one node at least, and
    -- each node has the group of the source's place in the list as an unsigned 32-bit number, or the
    -- source fails.
    pub load_subscription_input-grouped :
        (input : SubscriptionInput) (ttl : ℕ) (store : Store)
        → Yields AnyError
            (IsLoad index)
            (load_subscription_input outside fetcher
              (real_parser formats)
              input
              index
              ttl
              store).result
    unfolding load_subscription_input
    load_subscription_input-grouped (content text) ttl store =
        lift-result AnyError (IsLoad index)
          (result_map without_metadata (parse_subscription formats text (as_u32 index))) store
          (Yields-map AnyError Grouped (IsLoad index) without_metadata
            (parse_subscription formats text (as_u32 index)) (subscription_result text)
            (λ nodes h. h))
    load_subscription_input-grouped (source s) ttl store = elim (Bool-cases (looks_like_proxy s)) [
      | inl e ↦
          rw (e, load_subscription_input)
            (lift-result AnyError (IsLoad index)
              (result_map (λ node. without_metadata (node ∷ []))
                (parse_node formats s (as_u32 index)))
              store
              (Yields-map AnyError InGroup (IsLoad index) (λ node. without_metadata (node ∷ []))
                (parse_node formats s (as_u32 index))
                (Yields-mono IsLinkError AnyError InGroup InGroup
                  (parse_node formats s (as_u32 index)) (parse_node-errors formats s (as_u32 index))
                  (λ e h. tt) (λ p h. h))
                (λ p h. (refl, (h, tt)))))
      | inr e ↦ rw (e, load_subscription_input) (fetch_and-IsLoad s ttl store)
    ]
