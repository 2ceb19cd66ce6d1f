-- ===== src/Export/Clash/Fields.antt =====
-- crates/easysub-core/src/export/clash.rs 925-1005: transport and TLS of a proxy, and the helpers.
use easysub.Prelude.{ℕ, Bool, true, Option, none, some, List, if◌then◌else◌, is_empty}
use easysub.Text.{Str, codes, str_eq}
use easysub.Json.{
  Value, Fields, boolean, unsigned, string, array, object, nil, cons, end, field, insert, array_of,
}
use easysub.Model.{Proxy}

-- `insert` of a text.
unfoldable pub insert_text : Str → Str → Fields → Fields
unfolding insert
insert_text key value = insert key (string value)

unfoldable pub insert_nonempty : Str → Str → Fields → Fields
unfolding insert_text
insert_nonempty key value fields = if is_empty value then fields else insert_text key value fields

unfoldable pub insert_option : Str → Option ℕ → Fields → Fields
unfolding insert
insert_option key none fields = fields
insert_option key (some n) fields = insert key (unsigned n) fields

unfoldable pub insert_flag : Str → Option Bool → Fields → Fields
unfolding insert
insert_flag key none fields = fields
insert_flag key (some b) fields = insert key (boolean b) fields

unfoldable pub insert_list : Str → List Str → Fields → Fields
unfolding insert
insert_list key values fields =
    if is_empty values then fields else insert key (array (array_of string values)) fields

abbrev pub one_item : Str → Value
one_item s = array (cons (string s) nil)

unfoldable pub ws_options : Proxy → Fields
unfolding insert insert_text
ws_options proxy =
    let fields = insert_text (codes "path") proxy.path end in
    if is_empty proxy.host
    then fields
    else insert (codes "headers") (object (field (codes "Host") (string proxy.host) end)) fields

unfoldable pub http_headers : Proxy → Fields
unfolding insert
http_headers proxy =
    if is_empty proxy.host then end else insert (codes "Host") (one_item proxy.host) end

unfoldable pub http_options : Proxy → Fields
unfolding insert http_headers
http_options proxy = insert (codes "method") (string (codes "GET")) (
    insert (codes "path") (one_item proxy.path)
      (insert (codes "headers") (object (http_headers proxy)) end))

unfoldable pub transport_options : Proxy → Fields → Fields
unfolding insert ws_options http_options
transport_options proxy fields =
    if str_eq proxy.network (codes "ws")
    then insert (codes "ws-opts") (object (ws_options proxy)) fields
    else if str_eq proxy.network (codes "http")
    then insert (codes "http-opts") (object (http_options proxy)) fields
    else if str_eq proxy.network (codes "grpc")
    then insert (codes "grpc-opts")
        (object (field (codes "grpc-service-name") (string proxy.path) end)) fields
    else if str_eq proxy.network (codes "h2")
    then insert (codes "h2-opts")
        (object (
          insert (codes "host") (one_item proxy.host)
            (insert (codes "path") (string proxy.path) end)))
        fields
    else fields

unfoldable pub reality_fields : Proxy → Fields → Fields
unfolding insert
reality_fields proxy fields =
    if is_empty proxy.public_key
    then fields
    else insert (codes "reality-opts")
        (object (
          insert (codes "public-key") (string proxy.public_key)
            (insert (codes "short-id") (string proxy.short_id) end)))
        fields

unfoldable pub add_tls : Proxy → Fields → Fields
unfolding insert_nonempty insert_flag reality_fields insert_list
add_tls proxy fields = insert_list (codes "alpn") proxy.alpn (
    reality_fields proxy (
      insert_flag (codes "skip-cert-verify") proxy.skip_cert_verify (
        insert_nonempty (codes "client-fingerprint") proxy.fingerprint
          (insert_nonempty (codes "servername") proxy.server_name fields))))

unfoldable pub add_transport : Proxy → Fields → Fields
unfolding insert_nonempty transport_options insert add_tls
add_transport proxy fields =
    let carried =
      transport_options proxy (insert_nonempty (codes "network") proxy.network fields) in
    if proxy.tls then add_tls proxy (insert (codes "tls") (boolean true) carried) else carried

unfoldable pub add_native_tls : Proxy → Fields → Fields
unfolding insert_nonempty insert_flag insert_list
add_native_tls proxy fields = insert_list (codes "alpn") proxy.alpn (
    insert_flag (codes "skip-cert-verify") proxy.skip_cert_verify (
      insert_nonempty (codes "fingerprint") proxy.fingerprint
        (insert_nonempty (codes "sni") proxy.server_name fields)))
