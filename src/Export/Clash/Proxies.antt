-- ===== src/Export/Clash/Proxies.antt =====
-- crates/easysub-core/src/export/clash.rs 749-923: a proxy as an object of a Clash profile.
use easysub.Prelude.{
  ◌==◌, ◌&&◌, Bool, true, not, none, some, List, any, head?, filter, if◌then◌else◌, is_empty,
}
use easysub.Text.{Str, codes, str_eq}
use easysub.Json.{
  Value, Fields, boolean, unsigned, string, array, object, end, insert, remove, array_of,
}
use easysub.Model.{
  ProxyKind, shadowsocks, vmess, vless, trojan, http, https, socks5, snell, wireguard, tuic, anytls,
  hysteria2, Proxy,
}
use easysub.Export.Clash.Fields.{
  insert_text, insert_nonempty, insert_option, insert_flag, insert_list, add_transport,
  add_native_tls,
}

unfoldable pub shadowsocks_entries : Proxy → Fields → Fields
unfolding insert_nonempty insert_text
shadowsocks_entries proxy fields = insert_nonempty (codes "plugin-opts") proxy.plugin_opts (
    insert_nonempty (codes "plugin") proxy.plugin (
      insert_text (codes "password") proxy.password
        (insert_text (codes "cipher") proxy.method fields)))

unfoldable pub vmess_entries : Proxy → Fields → Fields
unfolding insert insert_text add_transport
vmess_entries proxy fields = add_transport proxy (
    insert_text (codes "cipher") (if is_empty proxy.method then codes "auto" else proxy.method) (
      insert (codes "alterId") (unsigned proxy.alter_id)
        (insert_text (codes "uuid") proxy.uuid fields)))

unfoldable pub vless_entries : Proxy → Fields → Fields
unfolding insert_nonempty insert_text add_transport
vless_entries proxy fields =
    add_transport proxy
      (insert_nonempty (codes "flow") proxy.flow (insert_text (codes "uuid") proxy.uuid fields))

unfoldable pub trojan_entries : Proxy → Fields → Fields
unfolding insert_nonempty insert_text add_transport remove
trojan_entries proxy fields =
    let carried = add_transport proxy (insert_text (codes "password") proxy.password fields) in
    let plain = remove (codes "servername") (remove (codes "tls") carried) in
    insert_nonempty (codes "sni") proxy.server_name
      (if str_eq proxy.network (codes "tcp") then remove (codes "network") plain else plain)

unfoldable pub tuic_entries : Proxy → Fields → Fields
unfolding insert insert_nonempty insert_text insert_option insert_flag add_native_tls
tuic_entries proxy fields =
    let named =
      insert_text (codes "password") proxy.password
        (insert_text (codes "uuid") proxy.uuid (insert (codes "version") (unsigned 5) fields)) in
    let timed = insert_option (codes "request-timeout") proxy.request_timeout (
      insert_flag (codes "reduce-rtt") proxy.reduce_rtt (
        insert_flag (codes "disable-sni") proxy.disable_sni
          (insert_nonempty (codes "heartbeat-interval") proxy.heartbeat_interval named))) in
    let tuned = insert_option (codes "max-udp-relay-packet-size") proxy.max_udp_relay_packet_size (
      insert_nonempty (codes "udp-relay-mode") proxy.udp_relay_mode
        (insert_nonempty (codes "congestion-controller") proxy.congestion_control timed)) in
    add_native_tls proxy (
      insert_flag (codes "fast-open") proxy.fast_open
        (insert_option (codes "max-open-streams") proxy.max_open_streams tuned))

unfoldable pub anytls_entries : Proxy → Fields → Fields
unfolding insert_text insert_option add_native_tls
anytls_entries proxy fields = insert_option (codes "min-idle-session") proxy.min_idle_session (
    insert_option (codes "idle-session-timeout") proxy.idle_session_timeout (
      insert_option (codes "idle-session-check-interval") proxy.idle_session_check_interval
        (add_native_tls proxy (insert_text (codes "password") proxy.password fields))))

unfoldable pub hysteria2_entries : Proxy → Fields → Fields
unfolding insert_text insert_nonempty insert_option add_native_tls
hysteria2_entries proxy fields =
    let hidden = insert_nonempty (codes "obfs-password") proxy.obfs_password (
      insert_nonempty (codes "obfs") proxy.obfs
        (insert_text (codes "password") proxy.password fields)) in
    let limited = insert_option (codes "down") proxy.down_mbps (
      insert_option (codes "up") proxy.up_mbps
        (insert_nonempty (codes "ports") proxy.ports hidden)) in
    let secured =
      insert_nonempty (codes "ca-str") proxy.ca_str
        (insert_nonempty (codes "ca") proxy.ca limited) in
    add_native_tls proxy (
      insert_option (codes "hop-interval") proxy.hop_interval
        (insert_option (codes "cwnd") proxy.cwnd secured))

unfoldable pub login_entries : Proxy → Fields → Fields
unfolding insert_nonempty
login_entries proxy fields =
    insert_nonempty (codes "password") proxy.password
      (insert_nonempty (codes "username") proxy.username fields)

unfoldable pub snell_entries : Proxy → Fields → Fields
unfolding insert insert_text insert_option
snell_entries proxy fields =
    let versioned =
      insert_option (codes "version") proxy.snell_version
        (insert_text (codes "psk") proxy.password fields) in
    if is_empty proxy.obfs && is_empty proxy.host
    then versioned
    else insert (codes "obfs-opts")
        (object (
          insert (codes "mode") (string proxy.obfs)
            (insert (codes "host") (string proxy.host) end)))
        versioned

abbrev pub is_ipv6 : Str → Bool
is_ipv6 address = any (λ c. c == b':') address

-- The first address that the test takes.
unfoldable pub insert_address : (Str → Bool) → Str → List Str → Fields → Fields
unfolding insert_text
insert_address test key addresses fields = elim (head? (filter test addresses)) [
  | none ↦ fields
  | some address ↦ insert_text key address fields
]

unfoldable pub wireguard_entries : Proxy → Fields → Fields
unfolding insert insert_address insert_nonempty insert_option insert_list
wireguard_entries proxy fields =
    let addressed = insert_address is_ipv6 (codes "ipv6") proxy.wireguard_address (
      insert_address (λ address. not (is_ipv6 address)) (codes "ip") proxy.wireguard_address
        fields) in
    let keyed = insert_nonempty (codes "pre-shared-key") proxy.pre_shared_key (
      insert_nonempty (codes "public-key") proxy.public_key
        (insert_nonempty (codes "private-key") proxy.private_key addressed)) in
    let routed =
      insert_list (codes "dns") proxy.dns_servers
        (insert_list (codes "allowed-ips") proxy.allowed_ips keyed) in
    let timed =
      insert_option (codes "persistent-keepalive") proxy.persistent_keepalive
        (insert_option (codes "mtu") proxy.mtu routed) in
    if is_empty proxy.reserved
    then timed
    else insert (codes "reserved") (array (array_of unsigned proxy.reserved)) timed

abbrev pub type_name : ProxyKind → Str
type_name shadowsocks = codes "ss"
type_name vmess = codes "vmess"
type_name vless = codes "vless"
type_name trojan = codes "trojan"
type_name tuic = codes "tuic"
type_name anytls = codes "anytls"
type_name hysteria2 = codes "hysteria2"
type_name http = codes "http"
type_name https = codes "http"
type_name socks5 = codes "socks5"
type_name snell = codes "snell"
type_name wireguard = codes "wireguard"

unfoldable pub kind_entries : ProxyKind → Proxy → Fields → Fields
unfolding shadowsocks_entries vmess_entries vless_entries trojan_entries tuic_entries anytls_entries
    hysteria2_entries login_entries snell_entries wireguard_entries insert
kind_entries shadowsocks proxy fields = shadowsocks_entries proxy fields
kind_entries vmess proxy fields = vmess_entries proxy fields
kind_entries vless proxy fields = vless_entries proxy fields
kind_entries trojan proxy fields = trojan_entries proxy fields
kind_entries tuic proxy fields = tuic_entries proxy fields
kind_entries anytls proxy fields = anytls_entries proxy fields
kind_entries hysteria2 proxy fields = hysteria2_entries proxy fields
kind_entries http proxy fields = login_entries proxy fields
kind_entries https proxy fields = insert (codes "tls") (boolean true) (login_entries proxy fields)
kind_entries socks5 proxy fields = login_entries proxy fields
kind_entries snell proxy fields = snell_entries proxy fields
kind_entries wireguard proxy fields = wireguard_entries proxy fields

-- What every kind has first; the kind's own fields come next.
unfoldable pub first_entries : Proxy → Fields
unfolding insert insert_text
first_entries proxy = insert_text (codes "type") (type_name proxy.kind) (
    insert (codes "port") (unsigned proxy.port)
      (insert_text (codes "server") proxy.server (insert_text (codes "name") proxy.name end)))

unfoldable pub proxy_fields : Proxy → Fields
unfolding first_entries kind_entries insert_flag
proxy_fields proxy =
    insert_flag (codes "tfo") proxy.tcp_fast_open
      (insert_flag (codes "udp") proxy.udp (kind_entries proxy.kind proxy (first_entries proxy)))

abbrev pub proxy_value : Proxy → Value
proxy_value proxy = object (proxy_fields proxy)
