-- ===== src/Parser/Payload.antt =====
-- crates/easysub-core/src/parser.rs 203-222, 326-404: VMess payloads and the choice among the forms.
use easysub.Prelude.{
  ℕ, ◌++◌, ◌&&◌, ◌||◌, ◌==◌, false, not, none, some, List, [], ◌∷◌, map, if◌then◌else◌, head?,
  unwrap_or, option_map,
}
use easysub.Text.Utf8.{from_utf8}
use easysub.Error.{Result, ok, err, AppError, ok_or, ◌>>=◌, ◌>>◌, reject_if}
use easysub.Text.{
  Str, codes, str_eq, split, split_once, rsplit_once, starts_with, contains_str, trim,
  eq_ignore_ascii_case,
}
use easysub.Model.{vmess, Proxy, new_proxy, endpoint_name}
use easysub.Parser.Formats.{Formats}
use easysub.Parser.Fields.{
  Query, query_value, non_empty, parse_bool, parse_u16, decode_base64, split_endpoint,
}
use easysub.Parser.Links.{has_char}
use easysub.Parser.Vmess.{trim_quotes, apply_vmess_defaults, parse_vmess_json, parse_vmess_url}

-- A header of a list of them: the last named `host` counts.
unfoldable pub host_header : Str → List Str → Str
unfolding split_once eq_ignore_ascii_case trim
host_header host [] = host
host_header host (header ∷ rest) = elim (split_once (codes ":") header) [
  | none ↦ host_header host rest
  | some (name, value) ↦
      host_header (if eq_ignore_ascii_case (trim name) (codes "host") then trim value else host)
        rest
]

unfoldable pub header_parts : Str → List Str
unfolding split
header_parts = split (λ c. c == b'|' || c == 13 || c == 10)

unfoldable pub quan_option : Str → Str → Proxy → Proxy
unfolding host_header header_parts eq_ignore_ascii_case
quan_option key value proxy =
    if str_eq key (codes "group")
    then record proxy { group = value }
    else if str_eq key (codes "over-tls")
    then record proxy { tls = eq_ignore_ascii_case value (codes "true") }
    else if str_eq key (codes "tls-host")
    then record proxy { server_name = value }
    else if str_eq key (codes "obfs-path")
    then record proxy { path = value }
    else if str_eq key (codes "obfs") && eq_ignore_ascii_case value (codes "ws")
    then record proxy { network = codes "ws" }
    else if str_eq key (codes "obfs-header")
    then record proxy { host = host_header proxy.host (header_parts value) }
    else proxy

unfoldable pub quan_options : List Str → Proxy → Proxy
unfolding quan_option split_once trim trim_quotes
quan_options [] proxy = proxy
quan_options (option ∷ rest) proxy = elim (split_once (codes "=") option) [
  | none ↦ quan_options rest proxy
  | some (key, value) ↦ quan_options rest (quan_option (trim key) (trim_quotes (trim value)) proxy)
]

unfoldable pub quan_first : Str → Str → ℕ → Str → Str → Proxy
unfolding new_proxy trim_quotes
quan_first name server port method uuid = record (new_proxy vmess server port) {
  name = name;
  method = method;
  uuid = trim_quotes uuid;
  network = codes "tcp";
}

-- The name in front of the equals sign is the first of the parts.
unfoldable pub quan_parts : Str → Str → List Str
unfolding split trim
quan_parts name definition = map trim (split (λ c. c == b',') (trim name ++ b',' ∷ trim definition))

unfoldable pub rocket_node : Query → Str × Str → Str × ℕ → Proxy
unfolding query_value non_empty parse_bool parse_u16 new_proxy
rocket_node query secret endpoint = record (new_proxy vmess endpoint.0 endpoint.1) {
  uuid = secret.1;
  alter_id = unwrap_or 0 (parse_u16 (query_value query (codes "aid" ∷ [])));
  method = non_empty secret.0 (codes "auto");
  network =
      if str_eq (query_value query (codes "obfs" ∷ [])) (codes "websocket")
      then codes "ws"
      else non_empty (query_value query (codes "network" ∷ [])) (codes "tcp");
  host = query_value query (codes "obfsParam" ∷ codes "wsHost" ∷ []);
  path = query_value query (codes "path" ∷ codes "wspath" ∷ []);
  tls = unwrap_or false (parse_bool (query_value query (codes "tls" ∷ [])));
  name = non_empty (query_value query (codes "remarks" ∷ [])) (endpoint_name endpoint.0 endpoint.1);
}

-- The link without its scheme, and the part of that before a query or a fragment.
unfoldable pub raw_part : Str → Str
unfolding split_once
raw_part input =
    unwrap_or input (option_map (λ (halves : Str × Str). halves.1) (split_once (codes "://") input))

unfoldable pub encoded_part : Str → Str
unfolding split
encoded_part raw = unwrap_or raw (head? (split (λ c. c == b'?' || c == b'#') raw))

module _ (formats : Formats) where
  -- The parts by their places, six at least.
  unfoldable pub quan_node : List Str → Result Proxy
  unfolding quan_options quan_first eq_ignore_ascii_case parse_u16 apply_vmess_defaults
  quan_node (name ∷ type_name ∷ server ∷ port_text ∷ method ∷ uuid ∷ options) =
      reject_if (not (eq_ignore_ascii_case type_name (codes "vmess"))) AppError.bad_request
      >> (ok_or AppError.bad_request (parse_u16 port_text) >>= λ port.
          ok
            (apply_vmess_defaults (quan_options options (quan_first name server port method uuid))))
  quan_node parts = err AppError.bad_request

  unfoldable pub parse_vmess_quan : Str → Result Proxy
  unfolding quan_node quan_parts split_once
  parse_vmess_quan decoded =
      ok_or AppError.bad_request (split_once (codes "=") decoded) >>= λ halves.
      quan_node (quan_parts halves.0 halves.1)

  -- The query behind the payload.
  unfoldable pub rocket_query : Str → Query
  unfolding split_once split
  rocket_query raw = formats.form_pairs (elim (split_once (codes "?") raw) [
    | none ↦ []
    | some (before, query) ↦ unwrap_or query (head? (split (λ c. c == b'#') query))
  ])

  unfoldable pub parse_vmess_shadowrocket : Str → Str → Result Proxy
  unfolding rocket_query rocket_node rsplit_once split_once split_endpoint apply_vmess_defaults
  parse_vmess_shadowrocket decoded raw =
      ok_or AppError.bad_request (rsplit_once b'@' decoded) >>= λ halves.
      ok_or AppError.bad_request (split_once (codes ":") halves.0) >>= λ secret.
      split_endpoint formats halves.1 >>= λ endpoint.
      ok (apply_vmess_defaults (rocket_node (rocket_query raw) secret endpoint))

  unfoldable pub parse_payload : Str → Str → Result Proxy
  unfolding from_utf8 parse_vmess_json parse_vmess_quan parse_vmess_shadowrocket contains_str
  parse_payload raw bytes = elim (formats.json_from_slice bytes) [
    | some value ↦ parse_vmess_json formats value
    | none ↦ ok_or AppError.bad_request (from_utf8 bytes) >>= λ decoded.
        (if contains_str (codes "vmess,") decoded && has_char b'=' decoded
          then parse_vmess_quan decoded
          else parse_vmess_shadowrocket decoded raw)
  ]

  unfoldable pub parse_vmess : Str → Result Proxy
  unfolding parse_vmess_url parse_payload raw_part encoded_part starts_with decode_base64
  parse_vmess input =
      let raw = raw_part input in
      if starts_with (codes "vmess1://") input || has_char b'@' (encoded_part raw)
      then parse_vmess_url formats input
      else decode_base64 formats (encoded_part raw) >>= parse_payload raw
