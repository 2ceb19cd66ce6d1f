-- ===== src/Structured/Details.antt =====
-- crates/easysub-core/src/structured.rs 358-453: transport, TLS and WireGuard of an object.
use easysub.Prelude.{
  ℕ, true, not, Option, none, some, List, [], ◌∷◌, ◌++◌, ◌>>=◌, filter, if◌then◌else◌, is_empty,
  or_else,
}
use easysub.Text.{Str, codes}
use easysub.Json.{Fields, get, as_object}
use easysub.Model.{Proxy}
use easysub.Parser.Fields.{non_empty}
use easysub.Structured.Fields.{
  read_text, text_of, object_at, first_string, string_list, byte_list, number_u16,
}

-- The host among the headers of a transport.
unfoldable pub headers_host : Fields → Str
unfolding text_of object_at
headers_host fields =
    text_of (object_at (codes "headers") fields) (codes "Host" ∷ codes "host" ∷ [])

unfoldable pub with_transport : Option Fields → Proxy → Proxy
unfolding read_text first_string headers_host non_empty
with_transport none proxy = proxy
with_transport (some transport) proxy = record proxy {
  network = read_text transport (codes "type" ∷ []);
  path = read_text transport (codes "path" ∷ codes "service_name" ∷ []);
  host = non_empty (first_string transport (codes "host" ∷ [])) (headers_host transport);
}

unfoldable pub with_ws : Option Fields → Proxy → Proxy
unfolding read_text headers_host
with_ws none proxy = proxy
with_ws (some ws) proxy = record proxy {
  network = codes "ws";
  path = read_text ws (codes "path" ∷ []);
  host = headers_host ws;
}

unfoldable pub with_grpc : Option Fields → Proxy → Proxy
unfolding read_text
with_grpc none proxy = proxy
with_grpc (some grpc) proxy = record proxy {
  network = codes "grpc";
  path = read_text grpc (codes "grpc-service-name" ∷ codes "service_name" ∷ []);
}

unfoldable pub with_h2 : Option Fields → Proxy → Proxy
unfolding read_text first_string
with_h2 none proxy = proxy
with_h2 (some h2) proxy = record proxy {
  network = codes "h2";
  path = read_text h2 (codes "path" ∷ []);
  host = first_string h2 (codes "host" ∷ []);
}

unfoldable pub parse_transport : Fields → Proxy → Proxy
unfolding with_transport with_ws with_grpc with_h2 object_at
parse_transport fields proxy = with_h2 (object_at (codes "h2-opts") fields) (
    with_grpc (object_at (codes "grpc-opts") fields) (
      with_ws (object_at (codes "ws-opts") fields)
        (with_transport (object_at (codes "transport") fields) proxy)))

unfoldable pub with_reality : Option Fields → Proxy → Proxy
unfolding read_text
with_reality none proxy = proxy
with_reality (some reality) proxy = record proxy {
  public_key = read_text reality (codes "public-key" ∷ codes "public_key" ∷ []);
  short_id = read_text reality (codes "short-id" ∷ codes "short_id" ∷ []);
  tls = true;
}

-- The list of an object that may not be there.
unfoldable pub list_of : Option Fields → List Str → List Str
unfolding string_list
list_of none keys = []
list_of (some fields) keys = string_list fields keys

unfoldable pub reality_options : Fields → Option Fields → Option Fields
unfolding get
reality_options fields tls =
    or_else (get (codes "reality-opts") fields) (tls >>= get (codes "reality")) >>= as_object

unfoldable pub parse_tls_details : Fields → Option Fields → Proxy → Proxy
unfolding with_reality reality_options string_list list_of read_text text_of object_at non_empty
parse_tls_details fields tls proxy =
    let alpn = string_list fields (codes "alpn" ∷ []) in
    with_reality (reality_options fields tls) (record proxy {
      alpn = if is_empty alpn then list_of tls (codes "alpn" ∷ []) else alpn;
      fingerprint =
          non_empty (read_text fields (codes "client-fingerprint" ∷ codes "fingerprint" ∷ []))
            (text_of (tls >>= object_at (codes "utls")) (codes "fingerprint" ∷ []));
    })

unfoldable pub peer_networks : Option Fields → Fields → List Str
unfolding string_list
peer_networks none fields = string_list fields (codes "allowed-ips" ∷ codes "allowed_ips" ∷ [])
peer_networks (some peer) fields = string_list peer (codes "allowed_ips" ∷ [])

unfoldable pub peer_reserved : Option Fields → Fields → List ℕ
unfolding byte_list
peer_reserved none fields = byte_list fields (codes "reserved" ∷ [])
peer_reserved (some peer) fields = byte_list peer (codes "reserved" ∷ [])

unfoldable pub parse_wireguard : Fields → Option Fields → Proxy → Proxy
unfolding string_list read_text text_of non_empty number_u16 peer_networks peer_reserved
parse_wireguard fields peer proxy =
    let networks = peer_networks peer fields in
    record proxy {
      wireguard_address =
          string_list fields (codes "address" ∷ [])
          ++ filter (λ address. not (is_empty address))
              (read_text fields (codes "ip" ∷ []) ∷ read_text fields (codes "ipv6" ∷ []) ∷ []);
      private_key = read_text fields (codes "private-key" ∷ codes "private_key" ∷ []);
      public_key =
          non_empty (read_text fields (codes "public-key" ∷ codes "public_key" ∷ []))
            (text_of peer (codes "public_key" ∷ []));
      pre_shared_key =
          non_empty (read_text fields (codes "pre-shared-key" ∷ codes "pre_shared_key" ∷ []))
            (text_of peer (codes "pre_shared_key" ∷ []));
      allowed_ips = if is_empty networks then codes "0.0.0.0/0" ∷ codes "::/0" ∷ [] else networks;
      dns_servers = string_list fields (codes "dns" ∷ []);
      mtu = number_u16 fields (codes "mtu" ∷ []);
      persistent_keepalive =
          or_else (peer >>= λ p. number_u16 p (codes "persistent_keepalive" ∷ []))
            (number_u16 fields (codes "persistent-keepalive" ∷ codes "persistent_keepalive" ∷ []));
      reserved = peer_reserved peer fields;
    }
