-- ===== src/Structured/Netch.antt =====
-- crates/easysub-core/src/structured.rs 42-113: the payload of a Netch link.
use easysub.Prelude.{
  ℕ, ◌==◌, ◌||◌, Bool, not, Option, none, some, List, [], ◌∷◌, ◌>>=◌, filter, filter_map, find_map,
  if◌then◌else◌, is_empty, unwrap_or,
}
use easysub.Text.{Str, codes, str_eq, split, trim, to_ascii_lowercase}
use easysub.Text.Decimal.{parse_unsigned}
use easysub.Json.{Fields, as_object}
use easysub.Model.{
  ProxyKind, shadowsocks, vmess, vless, trojan, http, https, socks5, snell, wireguard, kind_eq,
  Proxy, new_proxy, endpoint_name,
}
use easysub.Parser.Formats.{Formats}
use easysub.Parser.Fields.{non_empty}
use easysub.Structured.Fields.{
  read_text, value_text, read_boolean, number_u16, comma_parts, string_list,
}

-- `match` on a text, over a table.
unfoldable pub kind_named : List (Str × ProxyKind) → Str → Option ProxyKind
kind_named table name =
    find_map (λ (row : Str × ProxyKind). if str_eq row.0 name then some row.1 else none) table

netch_kinds : List (Str × ProxyKind)
netch_kinds =
    (codes "ss", shadowsocks)
    ∷ (codes "vmess", vmess)
    ∷ (codes "vless", vless)
    ∷ (codes "trojan", trojan)
    ∷ (codes "socks5", socks5)
    ∷ (codes "http", http)
    ∷ (codes "https", https)
    ∷ (codes "snell", snell)
    ∷ (codes "wireguard", wireguard)
    ∷ []

unfoldable pub netch_kind : Fields → Option ProxyKind
unfolding netch_kinds kind_named read_text to_ascii_lowercase
netch_kind fields =
    kind_named netch_kinds (to_ascii_lowercase (read_text fields (codes "Type" ∷ [])))

-- A node with no server or with port zero is none.
unfoldable pub has_endpoint : Str → ℕ → Bool
has_endpoint server port = not (is_empty server || port == 0)

unfoldable pub only_if {ℓ} : {A : Type ℓ} → Bool → A → Option A
only_if b a = if b then some a else none

unfoldable pub given_networks : Str → List Str → List Str
unfolding comma_parts
given_networks allowed fallback = if is_empty allowed then fallback else comma_parts allowed

unfoldable pub parse_bytes : Str → List ℕ
unfolding split trim parse_unsigned
parse_bytes s = filter_map (λ part. parse_unsigned 255 (trim part)) (split (λ c. c == b',') s)

module _ (formats : Formats) where
  unfoldable pub netch_node : Fields → ℕ → ProxyKind → Str → ℕ → Proxy
  unfolding read_text value_text read_boolean number_u16 string_list given_networks parse_bytes
      non_empty kind_eq new_proxy
  netch_node fields group_id kind server port =
      let fresh = new_proxy kind server port in
      record fresh {
        group_id = group_id;
        group = read_text fields (codes "Group" ∷ []);
        name = non_empty (read_text fields (codes "Remark" ∷ [])) (endpoint_name server port);
        username = read_text fields (codes "Username" ∷ []);
        password = read_text fields (codes "Password" ∷ []);
        method = read_text fields (codes "EncryptMethod" ∷ []);
        plugin = read_text fields (codes "Plugin" ∷ []);
        plugin_opts = value_text formats fields (codes "PluginOption" ∷ []);
        uuid =
            non_empty (read_text fields (codes "UUID" ∷ []))
              (read_text fields (codes "UserID" ∷ []));
        alter_id = unwrap_or 0 (number_u16 fields (codes "AlterID" ∷ []));
        network = read_text fields (codes "TransferProtocol" ∷ []);
        host = read_text fields (codes "Host" ∷ []);
        path = read_text fields (codes "Path" ∷ []);
        server_name = read_text fields (codes "ServerName" ∷ []);
        flow = read_text fields (codes "Flow" ∷ []);
        tls = unwrap_or (kind_eq kind https) (read_boolean fields (codes "TLSSecure" ∷ []));
        udp = read_boolean fields (codes "EnableUDP" ∷ []);
        tcp_fast_open = read_boolean fields (codes "EnableTFO" ∷ []);
        skip_cert_verify = read_boolean fields (codes "AllowInsecure" ∷ []);
        obfs = read_text fields (codes "OBFS" ∷ []);
        obfs_password = read_text fields (codes "OBFSParam" ∷ []);
        snell_version = number_u16 fields (codes "SnellVersion" ∷ []);
        wireguard_address =
            filter (λ address. not (is_empty address))
              (read_text fields (codes "SelfIP" ∷ [])
                ∷ read_text fields (codes "SelfIPv6" ∷ [])
                ∷ []);
        private_key = read_text fields (codes "PrivateKey" ∷ []);
        public_key = read_text fields (codes "PublicKey" ∷ []);
        pre_shared_key = read_text fields (codes "PreSharedKey" ∷ []);
        allowed_ips = given_networks (read_text fields (codes "AllowedIPs" ∷ [])) fresh.allowed_ips;
        dns_servers = string_list fields (codes "DnsServers" ∷ []);
        mtu = number_u16 fields (codes "Mtu" ∷ []);
        persistent_keepalive = number_u16 fields (codes "KeepAlive" ∷ []);
        reserved = parse_bytes (read_text fields (codes "ClientId" ∷ []));
      }

  unfoldable pub netch_proxy : Fields → ℕ → Option Proxy
  unfolding netch_node netch_kind read_text number_u16 has_endpoint only_if
  netch_proxy fields group_id = netch_kind fields >>= λ kind.
      number_u16 fields (codes "Port" ∷ []) >>= λ port.
      let server = read_text fields (codes "Hostname" ∷ []) in
      only_if (has_endpoint server port) (netch_node fields group_id kind server port)

  unfoldable pub parse_netch : Str → ℕ → Option Proxy
  unfolding netch_proxy
  parse_netch content group_id = formats.json_from_slice content >>= λ value.
      as_object value >>= λ fields. netch_proxy fields group_id
