-- ===== src/Model.antt =====
-- crates/easysub-core/src/model.rs: the proxy node that every parser builds and every exporter reads.
-- Integer fields are natural numbers; the parsers that fill them keep the bound of the Rust type.
use easysub.Prelude.{ℕ, Bool, true, false, Option, none, List, [], ◌∷◌, ◌++◌}
use easysub.Text.{Str, codes}
use easysub.Text.Decimal.{show}

pub data ProxyKind : Type 0 where
  shadowsocks vmess vless trojan http https socks5 snell wireguard tuic anytls hysteria2 : ProxyKind

unfoldable pub label : ProxyKind → Str
label shadowsocks = codes "Shadowsocks"
label vmess = codes "VMess"
label vless = codes "VLESS"
label trojan = codes "Trojan"
label http = codes "HTTP"
label https = codes "HTTPS"
label socks5 = codes "SOCKS5"
label snell = codes "Snell"
label wireguard = codes "WireGuard"
label tuic = codes "TUIC"
label anytls = codes "AnyTLS"
label hysteria2 = codes "Hysteria2"

-- `PartialEq`, derived.
unfoldable pub kind_eq : ProxyKind → ProxyKind → Bool
kind_eq shadowsocks shadowsocks = true
kind_eq vmess vmess = true
kind_eq vless vless = true
kind_eq trojan trojan = true
kind_eq http http = true
kind_eq https https = true
kind_eq socks5 socks5 = true
kind_eq snell snell = true
kind_eq wireguard wireguard = true
kind_eq tuic tuic = true
kind_eq anytls anytls = true
kind_eq hysteria2 hysteria2 = true
kind_eq a b = false

pub record Proxy : Type 0 where
  pub kind : ProxyKind
  pub group_id : ℕ
  pub group : Str
  pub name : Str
  pub server : Str
  pub port : ℕ
  pub username : Str
  pub password : Str
  pub method : Str
  pub uuid : Str
  pub alter_id : ℕ
  pub network : Str
  pub host : Str
  pub path : Str
  pub tls : Bool
  pub server_name : Str
  pub flow : Str
  pub fingerprint : Str
  pub public_key : Str
  pub short_id : Str
  pub plugin : Str
  pub plugin_opts : Str
  pub alpn : List Str
  pub udp : Option Bool
  pub tcp_fast_open : Option Bool
  pub skip_cert_verify : Option Bool
  pub congestion_control : Str
  pub udp_relay_mode : Str
  pub heartbeat_interval : Str
  pub disable_sni : Option Bool
  pub reduce_rtt : Option Bool
  pub request_timeout : Option ℕ
  pub max_udp_relay_packet_size : Option ℕ
  pub max_open_streams : Option ℕ
  pub fast_open : Option Bool
  pub up_mbps : Option ℕ
  pub down_mbps : Option ℕ
  pub ports : Str
  pub ca : Str
  pub ca_str : Str
  pub cwnd : Option ℕ
  pub hop_interval : Option ℕ
  pub obfs : Str
  pub obfs_password : Str
  pub idle_session_check_interval : Option ℕ
  pub idle_session_timeout : Option ℕ
  pub min_idle_session : Option ℕ
  pub snell_version : Option ℕ
  pub wireguard_address : List Str
  pub private_key : Str
  pub pre_shared_key : Str
  pub allowed_ips : List Str
  pub dns_servers : List Str
  pub mtu : Option ℕ
  pub persistent_keepalive : Option ℕ
  pub reserved : List ℕ

-- `format!("{server}:{port}")`.
unfoldable pub endpoint_name : Str → ℕ → Str
unfolding show
endpoint_name server port = server ++ b':' ∷ show port

-- `Proxy::new`.
unfoldable pub new_proxy : ProxyKind → Str → ℕ → Proxy
unfolding endpoint_name
new_proxy k s p = record {
  kind = k;
  group_id = 0;
  group = [];
  name = endpoint_name s p;
  server = s;
  port = p;
  username = [];
  password = [];
  method = [];
  uuid = [];
  alter_id = 0;
  network = [];
  host = [];
  path = [];
  tls = false;
  server_name = [];
  flow = [];
  fingerprint = [];
  public_key = [];
  short_id = [];
  plugin = [];
  plugin_opts = [];
  alpn = [];
  udp = none;
  tcp_fast_open = none;
  skip_cert_verify = none;
  congestion_control = [];
  udp_relay_mode = [];
  heartbeat_interval = [];
  disable_sni = none;
  reduce_rtt = none;
  request_timeout = none;
  max_udp_relay_packet_size = none;
  max_open_streams = none;
  fast_open = none;
  up_mbps = none;
  down_mbps = none;
  ports = [];
  ca = [];
  ca_str = [];
  cwnd = none;
  hop_interval = none;
  obfs = [];
  obfs_password = [];
  idle_session_check_interval = none;
  idle_session_timeout = none;
  min_idle_session = none;
  snell_version = none;
  wireguard_address = [];
  private_key = [];
  pre_shared_key = [];
  allowed_ips = codes "0.0.0.0/0" ∷ codes "::/0" ∷ [];
  dns_servers = [];
  mtu = none;
  persistent_keepalive = none;
  reserved = [];
}

pub data RuleBehavior : Type 0 where
  domain ip_cidr : RuleBehavior
