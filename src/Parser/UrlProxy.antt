-- ===== src/Parser/UrlProxy.antt =====
-- crates/easysub-core/src/parser.rs 426-568: links that are URLs.
use easysub.Prelude.{
  ℕ, ◌&&◌, ◌==◌, true, false, not, List, [], ◌∷◌, filter, if◌then◌else◌, is_empty, unwrap_or,
  option_map,
}
use easysub.Error.{Result, ok, AppError, ok_or, ◌>>=◌}
use easysub.Text.{Str, codes, str_eq, one_of, split, starts_with}
use easysub.Text.Decimal.{show}
use easysub.Model.{ProxyKind, vless, trojan, snell, tuic, anytls, hysteria2, Proxy, new_proxy}
use easysub.Parser.Formats.{Url, Formats}
use easysub.Parser.Fields.{
  Query, query_value, non_empty, parse_bool, parse_u16, parse_u32, non_empty_name,
}
use easysub.Parser.Vmess.{replace_scheme}

unfoldable pub normalize_input : Str → Str
unfolding starts_with replace_scheme
normalize_input input =
    if starts_with (codes "hy2://") input
    then replace_scheme (codes "hy2://") (codes "hysteria2://") input
    else if starts_with (codes "vless1://") input
    then replace_scheme (codes "vless1://") (codes "vless://") input
    else if starts_with (codes "socks://") input
    then replace_scheme (codes "socks://") (codes "socks5://") input
    else input

module _ (query : Query) where
  vless_fields : Proxy → Proxy
  unfolding query_value non_empty one_of
  vless_fields proxy = record proxy {
    uuid = proxy.username;
    username = [];
    flow = query_value query (codes "flow" ∷ []);
    network = non_empty (query_value query (codes "type" ∷ codes "network" ∷ [])) (codes "tcp");
    tls =
        one_of (codes "tls" ∷ codes "reality" ∷ codes "xtls" ∷ [])
          (query_value query (codes "security" ∷ []));
  }

  -- A link without a password has it for a user name, or in the query.
  unfoldable pub take_password : List Str → Proxy → Proxy
  unfolding query_value
  take_password keys proxy =
      if is_empty proxy.password
      then (if is_empty proxy.username
          then record proxy { password = query_value query keys }
          else record proxy { password = proxy.username; username = [] })
      else proxy

  unfoldable pub secure_fields : Proxy → Proxy
  unfolding take_password
  secure_fields proxy = record (take_password (codes "password" ∷ codes "auth" ∷ []) proxy) {
    tls = true;
  }

  unfoldable pub trojan_network : Str
  unfolding query_value non_empty parse_bool
  trojan_network =
      if unwrap_or false (parse_bool (query_value query (codes "ws" ∷ [])))
      then codes "ws"
      else non_empty (query_value query (codes "type" ∷ codes "network" ∷ [])) (codes "tcp")

  tuic_fields : Proxy → Proxy
  unfolding query_value non_empty parse_bool parse_u32
  tuic_fields proxy = record proxy {
    uuid = non_empty proxy.username (query_value query (codes "uuid" ∷ []));
    username = [];
    password = non_empty proxy.password (query_value query (codes "password" ∷ []));
    congestion_control = query_value query (codes "congestion_control" ∷ []);
    udp_relay_mode = query_value query (codes "udp_relay_mode" ∷ []);
    heartbeat_interval = query_value query (codes "heartbeat_interval" ∷ codes "heartbeat" ∷ []);
    disable_sni = parse_bool (query_value query (codes "disable_sni" ∷ []));
    reduce_rtt = parse_bool (query_value query (codes "reduce_rtt" ∷ []));
    request_timeout = parse_u32 (query_value query (codes "request_timeout" ∷ []));
    max_udp_relay_packet_size =
        parse_u32 (query_value query (codes "max_udp_relay_packet_size" ∷ []));
    max_open_streams = parse_u32 (query_value query (codes "max_open_streams" ∷ []));
    fast_open = parse_bool (query_value query (codes "fast_open" ∷ []));
    tls = true;
  }

  snell_fields : Proxy → Proxy
  unfolding take_password query_value parse_u16
  snell_fields proxy = record (take_password (codes "psk" ∷ codes "password" ∷ []) proxy) {
    snell_version = parse_u16 (query_value query (codes "version" ∷ []));
    obfs = query_value query (codes "obfs" ∷ []);
    host = query_value query (codes "obfs-host" ∷ codes "obfs_host" ∷ codes "host" ∷ []);
  }

  unfoldable pub kind_fields : ProxyKind → Proxy → Proxy
  unfolding vless_fields secure_fields trojan_network tuic_fields snell_fields
  kind_fields vless proxy = vless_fields proxy
  kind_fields trojan proxy = record (secure_fields proxy) { network = trojan_network }
  kind_fields hysteria2 proxy = secure_fields proxy
  kind_fields anytls proxy = secure_fields proxy
  kind_fields tuic proxy = tuic_fields proxy
  kind_fields snell proxy = snell_fields proxy
  kind_fields kind proxy = proxy

  unfoldable pub common_fields : Proxy → Proxy
  unfolding query_value non_empty parse_bool parse_u32 split
  common_fields proxy = record proxy {
    server_name = query_value query (codes "sni" ∷ codes "peer" ∷ codes "servername" ∷ []);
    host = non_empty (query_value query (codes "host" ∷ [])) proxy.host;
    path =
        non_empty
          (query_value query
            (codes "path" ∷ codes "wspath" ∷ codes "serviceName" ∷ codes "key" ∷ []))
          proxy.path;
    network = non_empty proxy.network (query_value query (codes "type" ∷ codes "network" ∷ []));
    fingerprint =
        query_value query
          (codes "fp" ∷ codes "fingerprint" ∷ codes "pinSHA256" ∷ codes "hpkp" ∷ []);
    public_key = query_value query (codes "pbk" ∷ codes "public_key" ∷ []);
    short_id = query_value query (codes "sid" ∷ codes "short_id" ∷ []);
    obfs = query_value query (codes "obfs" ∷ []);
    obfs_password = query_value query (codes "obfs-password" ∷ codes "obfs_password" ∷ []);
    alpn =
        filter (λ item. not (is_empty item))
          (split (λ c. c == b',') (query_value query (codes "alpn" ∷ [])));
    skip_cert_verify =
        parse_bool (query_value query (codes "insecure" ∷ codes "allowInsecure" ∷ []));
    tcp_fast_open = parse_bool (query_value query (codes "tfo" ∷ codes "fast_open" ∷ []));
    up_mbps = parse_u32 (query_value query (codes "upmbps" ∷ codes "up" ∷ []));
    down_mbps = parse_u32 (query_value query (codes "downmbps" ∷ codes "down" ∷ []));
    group = query_value query (codes "group" ∷ []);
  }

  unfoldable pub hysteria2_fields : Proxy → Proxy
  unfolding query_value non_empty parse_u32 show
  hysteria2_fields proxy = record proxy {
    ports = non_empty (query_value query (codes "ports" ∷ codes "mport" ∷ [])) (show proxy.port);
    ca = query_value query (codes "ca" ∷ []);
    ca_str = query_value query (codes "ca_str" ∷ []);
    cwnd = parse_u32 (query_value query (codes "cwnd" ∷ []));
    hop_interval = parse_u32 (query_value query (codes "hop_interval" ∷ []));
  }

  -- A trojan over a web socket has the name of the server for a host that is not given.
  unfoldable pub trojan_host : Proxy → Str
  trojan_host proxy =
      if str_eq proxy.network (codes "ws") && is_empty proxy.host
      then proxy.server_name
      else proxy.host

  unfoldable pub late_fields : ProxyKind → Proxy → Proxy
  unfolding hysteria2_fields trojan_host
  late_fields hysteria2 proxy = hysteria2_fields proxy
  late_fields trojan proxy = record proxy { host = trojan_host proxy }
  late_fields kind proxy = proxy

  unfoldable pub session_fields : Proxy → Proxy
  unfolding query_value parse_u32
  session_fields proxy = record proxy {
    idle_session_check_interval =
        parse_u32 (query_value query (codes "idle_session_check_interval" ∷ []));
    idle_session_timeout = parse_u32 (query_value query (codes "idle_session_timeout" ∷ []));
    min_idle_session = parse_u32 (query_value query (codes "min_idle_session" ∷ []));
  }

-- The fields in the order in which the query fills them.
unfoldable pub query_fields : Query → ProxyKind → Proxy → Proxy
unfolding kind_fields common_fields late_fields session_fields
query_fields query kind proxy =
    session_fields query
      (late_fields query kind (common_fields query (kind_fields query kind proxy)))

module _ (formats : Formats) where
  unfoldable pub first_node : ProxyKind → Url → Str → ℕ → Proxy
  unfolding new_proxy non_empty_name
  first_node kind url server port = record (new_proxy kind server port) {
    name = non_empty_name formats (unwrap_or [] url.fragment) server port;
    username = formats.percent_decode url.username;
    password = unwrap_or [] (option_map formats.percent_decode url.password);
  }

  unfoldable pub parse_url_proxy : Str → ProxyKind → Result Proxy
  unfolding normalize_input first_node query_fields
  parse_url_proxy input kind =
      ok_or AppError.bad_request (formats.parse_url (normalize_input input)) >>= λ url.
      ok_or AppError.bad_request url.host_str >>= λ server.
      ok_or AppError.bad_request url.port_or_known_default >>= λ port.
      ok (query_fields url.query_pairs kind (first_node kind url server port))
