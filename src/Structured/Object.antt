-- ===== src/Structured/Object.antt =====
-- crates/easysub-core/src/structured.rs 252-356: a node written as an object.
use easysub.Prelude.{
  ℕ, ◌||◌, Bool, true, Option, none, some, List, [], ◌∷◌, ◌>>=◌, head?, if◌then◌else◌, or_else,
  unwrap_or,
}
use easysub.Text.{Str, codes, to_ascii_lowercase}
use easysub.Json.{Fields, get, as_array, as_object}
use easysub.Model.{
  ProxyKind, shadowsocks, vmess, vless, trojan, http, https, socks5, snell, wireguard, tuic, anytls,
  hysteria2, kind_eq, Proxy, new_proxy, endpoint_name,
}
use easysub.Parser.Formats.{Formats}
use easysub.Parser.Fields.{non_empty}
use easysub.Structured.Fields.{
  read_text, text_of, value_text, read_boolean, number_u16, number_u32, duration_seconds, object_at,
}
use easysub.Structured.Details.{parse_transport, parse_tls_details, parse_wireguard}
use easysub.Structured.Netch.{kind_named, has_endpoint, only_if}

unfoldable pub object_kinds : List (Str × ProxyKind)
object_kinds =
    (codes "ss", shadowsocks)
    ∷ (codes "shadowsocks", shadowsocks)
    ∷ (codes "vmess", vmess)
    ∷ (codes "vless", vless)
    ∷ (codes "trojan", trojan)
    ∷ (codes "tuic", tuic)
    ∷ (codes "anytls", anytls)
    ∷ (codes "hysteria2", hysteria2)
    ∷ (codes "hy2", hysteria2)
    ∷ (codes "http", http)
    ∷ (codes "https", https)
    ∷ (codes "socks", socks5)
    ∷ (codes "socks5", socks5)
    ∷ (codes "snell", snell)
    ∷ (codes "wireguard", wireguard)
    ∷ []

unfoldable pub kind_of : Fields → Option ProxyKind
unfolding object_kinds kind_named read_text to_ascii_lowercase
kind_of fields = kind_named object_kinds (to_ascii_lowercase (read_text fields (codes "type" ∷ [])))

-- The first peer of a WireGuard node.
unfoldable pub peer_of : ProxyKind → Fields → Option Fields
unfolding get kind_eq
peer_of kind fields =
    if kind_eq kind wireguard
    then get (codes "peers") fields >>= as_array >>= head? >>= as_object
    else none

unfoldable pub server_of : Option Fields → Fields → Str
unfolding non_empty read_text text_of
server_of peer fields =
    non_empty (read_text fields (codes "server" ∷ [])) (text_of peer (codes "address" ∷ []))

unfoldable pub port_of : Option Fields → Fields → Option ℕ
unfolding number_u16
port_of peer fields =
    or_else (number_u16 fields (codes "port" ∷ codes "server_port" ∷ []))
      (peer >>= λ p. number_u16 p (codes "port" ∷ []))

unfoldable pub tls_flag : Fields → Option Bool
unfolding read_boolean object_at
tls_flag fields =
    or_else (read_boolean fields (codes "tls" ∷ []))
      (object_at (codes "tls") fields >>= λ tls. read_boolean tls (codes "enabled" ∷ []))

-- An HTTP node with TLS is an HTTPS node.
unfoldable pub secured_kind : ProxyKind → Option Bool → ProxyKind
secured_kind http (some true) = https
secured_kind kind flag = kind

unfoldable pub always_secure : ProxyKind → Bool
unfolding kind_eq
always_secure kind =
    kind_eq kind trojan || kind_eq kind tuic || kind_eq kind anytls || kind_eq kind hysteria2

unfoldable pub with_obfs : Option Fields → Proxy → Proxy
unfolding read_text
with_obfs none proxy = proxy
with_obfs (some obfs) proxy = record proxy {
  obfs = read_text obfs (codes "mode" ∷ []);
  host = read_text obfs (codes "host" ∷ []);
}

-- Kind, peer, server and port, which a node is built from; there is none without them.
unfoldable pub parse_with : Fields → (ProxyKind → Option Fields → Str → ℕ → Proxy) → Option Proxy
unfolding kind_of peer_of server_of port_of has_endpoint only_if
parse_with fields build = kind_of fields >>= λ kind.
    let peer = peer_of kind fields in
    let server = server_of peer fields in
    port_of peer fields >>= λ port. only_if (has_endpoint server port) (build kind peer server port)

module _ (formats : Formats) where
  unfoldable pub object_fields : Fields → ℕ → Proxy → Proxy
  unfolding read_text text_of non_empty value_text read_boolean number_u16 number_u32
      duration_seconds object_at tls_flag always_secure
  object_fields fields group_id proxy =
      let tls = object_at (codes "tls") fields in
      record proxy {
        group_id = group_id;
        name =
            non_empty (read_text fields (codes "name" ∷ codes "tag" ∷ []))
              (endpoint_name proxy.server proxy.port);
        group = read_text fields (codes "group" ∷ []);
        username = read_text fields (codes "username" ∷ []);
        password = read_text fields (codes "password" ∷ codes "psk" ∷ []);
        uuid = read_text fields (codes "uuid" ∷ []);
        method = read_text fields (codes "cipher" ∷ codes "method" ∷ codes "security" ∷ []);
        alter_id = unwrap_or 0 (number_u16 fields (codes "alterId" ∷ codes "alter_id" ∷ []));
        flow = read_text fields (codes "flow" ∷ []);
        network = read_text fields (codes "network" ∷ []);
        host = read_text fields (codes "host" ∷ []);
        path = read_text fields (codes "path" ∷ []);
        server_name =
            non_empty
              (read_text fields (codes "servername" ∷ codes "server_name" ∷ codes "sni" ∷ []))
              (text_of tls (codes "server_name" ∷ []));
        tls = unwrap_or (always_secure proxy.kind) (tls_flag fields);
        skip_cert_verify =
            or_else (read_boolean fields (codes "skip-cert-verify" ∷ codes "skip_cert_verify" ∷ []))
              (tls >>= λ t. read_boolean t (codes "insecure" ∷ []));
        udp = read_boolean fields (codes "udp" ∷ []);
        tcp_fast_open = read_boolean fields (codes "tfo" ∷ codes "tcp_fast_open" ∷ []);
        plugin = read_text fields (codes "plugin" ∷ []);
        plugin_opts = value_text formats fields (codes "plugin-opts" ∷ codes "plugin_opts" ∷ []);
        congestion_control =
            read_text fields (codes "congestion-controller" ∷ codes "congestion_control" ∷ []);
        udp_relay_mode = read_text fields (codes "udp-relay-mode" ∷ codes "udp_relay_mode" ∷ []);
        heartbeat_interval = read_text fields (codes "heartbeat-interval" ∷ codes "heartbeat" ∷ []);
        up_mbps = number_u32 fields (codes "up" ∷ codes "up_mbps" ∷ []);
        down_mbps = number_u32 fields (codes "down" ∷ codes "down_mbps" ∷ []);
        obfs = read_text fields (codes "obfs" ∷ []);
        obfs_password = read_text fields (codes "obfs-password" ∷ codes "obfs_password" ∷ []);
        ports = read_text fields (codes "ports" ∷ []);
        ca = read_text fields (codes "ca" ∷ []);
        ca_str = read_text fields (codes "ca-str" ∷ codes "ca_str" ∷ []);
        cwnd = number_u32 fields (codes "cwnd" ∷ []);
        hop_interval = duration_seconds fields (codes "hop-interval" ∷ codes "hop_interval" ∷ []);
        idle_session_check_interval =
            duration_seconds fields
              (codes "idle-session-check-interval" ∷ codes "idle_session_check_interval" ∷ []);
        idle_session_timeout =
            duration_seconds fields
              (codes "idle-session-timeout" ∷ codes "idle_session_timeout" ∷ []);
        min_idle_session =
            number_u32 fields (codes "min-idle-session" ∷ codes "min_idle_session" ∷ []);
        snell_version = number_u16 fields (codes "version" ∷ []);
      }

  unfoldable pub detailed_node : Fields → ℕ → ProxyKind → Str → ℕ → Proxy
  unfolding object_fields with_obfs object_at parse_transport parse_tls_details new_proxy
  detailed_node fields group_id kind server port =
      parse_tls_details fields (object_at (codes "tls") fields) (
        parse_transport fields (
          with_obfs (object_at (codes "obfs-opts") fields)
            (object_fields fields group_id (new_proxy kind server port))))

  -- What the kind, the peer and the endpoint are known for.
  unfoldable pub object_node : Fields → ℕ → ProxyKind → Option Fields → Str → ℕ → Proxy
  unfolding detailed_node parse_wireguard secured_kind tls_flag kind_eq
  object_node fields group_id kind peer server port =
      let secured = secured_kind kind (tls_flag fields) in
      let proxy = detailed_node fields group_id secured server port in
      if kind_eq secured wireguard then parse_wireguard fields peer proxy else proxy

  unfoldable pub parse_proxy : Fields → ℕ → Option Proxy
  unfolding parse_with object_node
  parse_proxy fields group_id = parse_with fields (object_node fields group_id)
