-- ===== src/Structured/Surge.antt =====
-- crates/easysub-core/src/structured.rs 115-250: the proxies of a Surge configuration.
use easysub.Prelude.{
  ℕ, ◌==◌, ◌||◌, ◌&&◌, Bool, false, Option, none, some, List, [], ◌∷◌, ◌++◌, ◌>>=◌, filter_map,
  if◌then◌else◌, is_empty, push_some, unwrap_or, option_map,
}
use easysub.Text.{
  Str, codes, str_eq, trim, trim_by, split_once, lines, strip_prefix, strip_suffix_char,
  starts_with_char, to_ascii_lowercase, eq_ignore_ascii_case,
}
use easysub.Model.{
  ProxyKind, shadowsocks, vmess, vless, trojan, http, https, socks5, snell, tuic, hysteria2,
  kind_eq, Proxy, new_proxy,
}
use easysub.Parser.Fields.{Query, query_value, parse_bool, parse_u16}
use easysub.Parser.Payload.{host_header, header_parts}
use easysub.Structured.Netch.{kind_named, has_endpoint, only_if}

abbrev is_csv_quote : ℕ → Bool
is_csv_quote c = c == b'\'' || c == b'"'

unfoldable pub unquote : Str → Str
unfolding trim_by
unquote = trim_by is_csv_quote

abbrev pub finish_field : Str → Str
finish_field current = unquote (trim current)

-- The fields that commas outside of quotes part; `current` is what is read of the present one.
unfoldable pub split_fields : Option ℕ → Str → Str → List Str
unfolding unquote trim
split_fields quote current [] = finish_field current ∷ []
split_fields (some q) current (c ∷ s) =
    let closed = split_fields none current s in
    let kept = split_fields (some q) (current ++ c ∷ []) s in
    if is_csv_quote c && q == c then closed else kept
split_fields none current (c ∷ s) =
    let opened = split_fields (some c) current s in
    let parted = split_fields none [] s in
    let kept = split_fields none (current ++ c ∷ []) s in
    if is_csv_quote c then opened else if c == b',' then finish_field current ∷ parted else kept

unfoldable pub split_csv : Str → List Str
unfolding split_fields
split_csv = split_fields none []

unfoldable pub surge_kinds : List (Str × ProxyKind)
surge_kinds =
    (codes "ss", shadowsocks)
    ∷ (codes "shadowsocks", shadowsocks)
    ∷ (codes "vmess", vmess)
    ∷ (codes "vless", vless)
    ∷ (codes "trojan", trojan)
    ∷ (codes "http", http)
    ∷ (codes "https", https)
    ∷ (codes "socks", socks5)
    ∷ (codes "socks5", socks5)
    ∷ (codes "snell", snell)
    ∷ (codes "tuic", tuic)
    ∷ (codes "hysteria2", hysteria2)
    ∷ []

unfoldable pub surge_option : Str → Option (Str × Str)
unfolding split_once trim to_ascii_lowercase unquote
surge_option field =
    option_map
      (λ (halves : Str × Str). (to_ascii_lowercase (trim halves.0), unquote (trim halves.1)))
      (split_once (codes "=") field)

-- Three kinds have a network.
unfoldable pub surge_network : ProxyKind → Str → Str
unfolding kind_eq
surge_network kind network =
    if is_empty network && (kind_eq kind vmess || kind_eq kind vless || kind_eq kind trojan)
    then codes "tcp"
    else network

unfoldable pub move_username : ProxyKind → Proxy → Proxy
unfolding kind_eq
move_username kind proxy =
    if kind_eq kind vless && is_empty proxy.uuid
    then record proxy { uuid = proxy.username; username = [] }
    else proxy

module _ (options : Query) where
  option_bool : List Str → Option Bool
  unfolding query_value parse_bool
  option_bool keys = parse_bool (query_value options keys)

  -- Network, path and host.
  unfoldable pub surge_transport : Str → Str × Str × Str
  unfolding option_bool query_value host_header header_parts
  surge_transport host =
      let network = query_value options (codes "network" ∷ []) in
      if unwrap_or false (option_bool (codes "ws" ∷ [])) || str_eq network (codes "ws")
      then (
        codes "ws",
        query_value options (codes "ws-path" ∷ codes "path" ∷ []),
        host_header host (header_parts (query_value options (codes "ws-headers" ∷ []))),
      )
      else (network, [], host)

  unfoldable pub surge_node : Str → ℕ → ProxyKind → Str → ℕ → Proxy
  unfolding surge_transport surge_network move_username query_value option_bool parse_u16 kind_eq
      new_proxy
  surge_node name group_id kind server port =
      let transport =
        surge_transport (query_value options (codes "obfs-host" ∷ codes "host" ∷ [])) in
      move_username kind (record (new_proxy kind server port) {
        group_id = group_id;
        name = name;
        username = query_value options (codes "username" ∷ codes "user" ∷ []);
        password = query_value options (codes "password" ∷ codes "psk" ∷ []);
        method =
            query_value options (codes "encrypt-method" ∷ codes "method" ∷ codes "cipher" ∷ []);
        uuid = query_value options (codes "uuid" ∷ codes "username" ∷ []);
        alter_id =
            unwrap_or 0 (parse_u16 (query_value options (codes "alter-id" ∷ codes "alterid" ∷ [])));
        flow = query_value options (codes "flow" ∷ []);
        server_name =
            query_value options (codes "sni" ∷ codes "servername" ∷ codes "tls-host" ∷ []);
        tls = unwrap_or (kind_eq kind trojan) (option_bool (codes "tls" ∷ []));
        skip_cert_verify = option_bool (codes "skip-cert-verify" ∷ codes "insecure" ∷ []);
        udp = option_bool (codes "udp" ∷ codes "udp-relay" ∷ []);
        tcp_fast_open = option_bool (codes "tfo" ∷ []);
        plugin = query_value options (codes "plugin" ∷ []);
        plugin_opts = query_value options (codes "plugin-opts" ∷ codes "plugin-opts-mode" ∷ []);
        snell_version = parse_u16 (query_value options (codes "version" ∷ []));
        obfs = query_value options (codes "obfs" ∷ []);
        network = surge_network kind transport.0;
        path = transport.1;
        host = transport.2;
      })

-- Kind, server and port stand first.
unfoldable pub surge_fields : Str → ℕ → List Str → Option Proxy
unfolding surge_kinds surge_option surge_node kind_named to_ascii_lowercase parse_u16 has_endpoint
    only_if
surge_fields name group_id (type_name ∷ server ∷ port_text ∷ rest) =
    kind_named surge_kinds (to_ascii_lowercase type_name) >>= λ kind.
    parse_u16 port_text >>= λ port.
    only_if (has_endpoint server port)
      (surge_node (filter_map surge_option rest) name group_id kind server port)
surge_fields name group_id fields = none

unfoldable pub parse_surge_proxy : Str → Str → ℕ → Option Proxy
unfolding surge_fields split_csv
parse_surge_proxy name definition group_id = surge_fields name group_id (split_csv definition)

unfoldable pub surge_line : ℕ → Str → Option Proxy
unfolding parse_surge_proxy split_once trim
surge_line group_id line = split_once (codes "=") line >>= λ halves.
    parse_surge_proxy (trim halves.0) (trim halves.1) group_id

-- The text between the brackets of a section's line.
unfoldable pub section_of : Str → Option Str
unfolding strip_prefix strip_suffix_char
section_of line = strip_prefix (codes "[") line >>= λ rest. strip_suffix_char b']' rest

-- Blank lines and comments.
unfoldable pub is_skipped_line : Str → Bool
is_skipped_line line = is_empty line || starts_with_char (λ c. c == b'#' || c == b';') line

unfoldable pub surge_lines : ℕ → Bool → List Str → List Proxy
unfolding surge_line section_of trim is_skipped_line eq_ignore_ascii_case
surge_lines group_id in_section [] = []
surge_lines group_id in_section (raw ∷ rest) =
    let line = trim raw in
    let stay = surge_lines group_id in_section rest in
    if is_skipped_line line then stay else elim (section_of line) [
      | some title ↦ surge_lines group_id (eq_ignore_ascii_case title (codes "proxy")) rest
      | none ↦ if in_section then push_some (surge_line group_id line) stay else stay
    ]

unfoldable pub parse_surge_proxies : Str → ℕ → List Proxy
unfolding surge_lines lines
parse_surge_proxies content group_id = surge_lines group_id false (lines content)
