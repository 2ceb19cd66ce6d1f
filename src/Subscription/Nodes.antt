-- ===== src/Subscription/Nodes.antt =====
-- What happens to the nodes and the metadata once all sources are loaded.
use easysub.Prelude.{
  Bool, not, ◌||◌, Option, List, [], ◌∷◌, ◌++◌, map, filter, filter_map, head?, if◌then◌else◌,
  is_empty, or_else, unwrap_or,
}
use easysub.Error.{Result, ok, err, AppError}
use easysub.Text.{Str, codes, str_eq}
use easysub.Model.{Proxy, shadowsocks, kind_eq}
use easysub.Config.{AppConfig}
use easysub.Fetch.World.{FetchMetadata}
use easysub.Subscription.Request.{NodeConversionOptions, Loaded}

unfoldable pub apply_options : Option Bool → Option Bool → Option Bool → Proxy → Proxy
apply_options udp tfo skip_cert_verify node = record node {
  udp = or_else udp node.udp;
  tcp_fast_open = or_else tfo node.tcp_fast_open;
  skip_cert_verify = or_else skip_cert_verify node.skip_cert_verify;
}

unfoldable pub apply_node_options : List Proxy → NodeConversionOptions → AppConfig → List Proxy
unfolding apply_options
apply_node_options nodes options config =
    map
      (apply_options (or_else options.udp config.node_pref.udp_flag)
        (or_else options.tcp_fast_open config.node_pref.tcp_fast_open_flag)
        (or_else options.skip_cert_verify config.node_pref.skip_cert_verify_flag))
      nodes

unfoldable pub is_current : Proxy → Bool
is_current node = not (kind_eq node.kind shadowsocks) || not (str_eq node.method (codes "chacha20"))

unfoldable pub filter_nodes : NodeConversionOptions → AppConfig → List Proxy → List Proxy
unfolding is_current
filter_nodes options config nodes =
    if unwrap_or config.node_pref.filter_deprecated_nodes options.filter_deprecated
    then filter is_current nodes
    else nodes

-- The nodes of all sources, in the order of the list.
unfoldable pub all_nodes : List Loaded → List Proxy
all_nodes [] = []
all_nodes (l ∷ rest) = l.nodes ++ all_nodes rest

-- From the sorted results of the sources to the nodes of the profile.
unfoldable pub prepare_profile :
    NodeConversionOptions → AppConfig → List Loaded → Result (List Proxy)
unfolding all_nodes apply_node_options filter_nodes
prepare_profile options config loaded =
    let nodes = all_nodes loaded in
    let kept = filter_nodes options config (apply_node_options nodes options config) in
    if is_empty nodes
    then err AppError.bad_request
    else if is_empty kept
    then err AppError.bad_request
    else ok kept

-- The first value that is there and not empty.
unfoldable pub first_of : (FetchMetadata → Option Str) → List Loaded → Option Str
first_of select loaded =
    head? (filter (λ v. not (is_empty v)) (filter_map (λ l. select l.metadata) loaded))

unfoldable pub merge_fetch_metadata : List Loaded → FetchMetadata
unfolding first_of
merge_fetch_metadata loaded = record {
  subscription_userinfo = first_of (λ m. m.subscription_userinfo) loaded;
  profile_web_page_url = first_of (λ m. m.profile_web_page_url) loaded;
  profile_update_interval = first_of (λ m. m.profile_update_interval) loaded;
}
