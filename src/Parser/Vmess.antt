-- ===== src/Parser/Vmess.antt =====
-- crates/easysub-core/src/parser.rs 203-416: VMess links in their four forms.
use easysub.Prelude.{
  ℕ, ◌++◌, ◌&&◌, ◌==◌, Bool, false, not, Option, none, some, [], ◌∷◌, if◌then◌else◌, is_empty,
  is_some, unwrap_or, keep_if, option_map,
}
use easysub.Error.{Result, ok, AppError, ok_or, ◌>>=◌, ◌>>◌, reject_if}
use easysub.Text.{
  Str, codes, one_of, split_once, rsplit_once, starts_with_char, trim_by, trim_start_by,
  eq_ignore_ascii_case, strip_prefix,
}
use easysub.Text.Address.{is_ip_addr}
use easysub.Json.{Value}
use easysub.Model.{vmess, Proxy, new_proxy, endpoint_name}
use easysub.Parser.Formats.{Url, Formats}
use easysub.Parser.Fields.{
  Query, query_value, non_empty, parse_bool, parse_u16, json_string, non_empty_name,
}

-- `replacen(old, new, 1)` of a text that begins with `old`.
unfoldable pub replace_scheme : Str → Str → Str → Str
unfolding strip_prefix
replace_scheme old new input = elim (strip_prefix old input) [
  | none ↦ input
  | some rest ↦ new ++ rest
]

unfoldable pub trim_quotes : Str → Str
unfolding trim_by
trim_quotes = trim_by (λ c. c == b'"')

-- Host and path, which the first version of the format writes as one.
unfoldable pub json_host_path : Value → Str × Str
unfolding json_string one_of split_once
json_host_path value =
    let host = json_string value (codes "host") in
    let both : Str × Str = (host, json_string value (codes "path")) in
    if one_of ([] ∷ codes "1" ∷ []) (json_string value (codes "v"))
    then unwrap_or both (split_once (codes ";") host)
    else both

unfoldable pub json_node : Value → ℕ → Proxy
unfolding json_host_path json_string non_empty parse_u16 new_proxy
json_node value port =
    let server = json_string value (codes "add") in
    let target = json_host_path value in
    record (new_proxy vmess server port) {
      name = non_empty (json_string value (codes "ps")) (endpoint_name server port);
      uuid = json_string value (codes "id");
      alter_id = unwrap_or 0 (parse_u16 (json_string value (codes "aid")));
      network = non_empty (json_string value (codes "net")) (codes "tcp");
      host = target.0;
      path = target.1;
      tls = not (one_of ([] ∷ codes "none" ∷ []) (json_string value (codes "tls")));
      server_name = json_string value (codes "sni");
      method = non_empty (json_string value (codes "scy")) (codes "auto");
    }

-- The transport, whether TLS is on, and the credential, with a password and without.
unfoldable pub url_transport : Option Str → Str → Query → Str × Bool × Str
unfolding split_once eq_ignore_ascii_case non_empty query_value parse_bool
url_transport (some credential) username query = elim (split_once (codes "+") username) [
  | none ↦ (username, false, credential)
  | some (transport, security) ↦
      (transport, eq_ignore_ascii_case security (codes "tls"), credential)
]
url_transport none username query = (
  non_empty (query_value query (codes "network" ∷ [])) (codes "tcp"),
  unwrap_or false (parse_bool (query_value query (codes "tls" ∷ []))),
  username,
)

unfoldable pub split_alter_id : Str → Str × ℕ
unfolding rsplit_once parse_u16
split_alter_id credential =
    elim (keep_if (λ halves. is_some (parse_u16 halves.1)) (rsplit_once b'-' credential)) [
      | none ↦ (credential, 0)
      | some (uuid, aid) ↦ (uuid, unwrap_or 0 (parse_u16 aid))
    ]

unfoldable pub with_slash : Str → Str
unfolding starts_with_char
with_slash path =
    if not (is_empty path) && not (starts_with_char (λ c. c == b'/') path)
    then b'/' ∷ path
    else path

unfoldable pub apply_vmess_defaults : Proxy → Proxy
unfolding non_empty is_ip_addr
apply_vmess_defaults proxy = record proxy {
  network = non_empty proxy.network (codes "tcp");
  path = non_empty proxy.path (codes "/");
  host = if is_empty proxy.host && not (is_ip_addr proxy.server) then proxy.server else proxy.host;
}

module _ (formats : Formats) where
  unfoldable pub parse_vmess_json : Value → Result Proxy
  unfolding json_node json_string parse_u16 apply_vmess_defaults
  parse_vmess_json value =
      ok_or AppError.bad_request (parse_u16 (json_string value (codes "port"))) >>= λ port.
      ok (apply_vmess_defaults (json_node value port))

  unfoldable pub chosen_transport : Url → Str × Bool × Str
  unfolding url_transport
  chosen_transport url =
      url_transport (option_map formats.percent_decode url.password)
        (formats.percent_decode url.username) url.query_pairs

  unfoldable pub vmess_url_node : Url → Str → ℕ → Proxy
  unfolding chosen_transport split_alter_id with_slash query_value non_empty non_empty_name
      new_proxy trim_start_by
  vmess_url_node url server port =
      let query = url.query_pairs in
      let chosen = chosen_transport url in
      let user = split_alter_id chosen.2 in
      record (new_proxy vmess server port) {
        uuid = user.0;
        alter_id = user.1;
        network = chosen.0;
        tls = chosen.1;
        method =
            non_empty (query_value query (codes "security" ∷ codes "cipher" ∷ [])) (codes "auto");
        host = query_value query (codes "host" ∷ codes "ws.host" ∷ []);
        path = with_slash (
            non_empty (query_value query (codes "path" ∷ codes "key" ∷ []))
              (trim_start_by (λ c. c == b'/') url.path));
        server_name = query_value query (codes "sni" ∷ codes "peer" ∷ []);
        name = non_empty_name formats (unwrap_or [] url.fragment) server port;
      }

  unfoldable pub parse_vmess_url : Str → Result Proxy
  unfolding vmess_url_node replace_scheme chosen_transport split_alter_id apply_vmess_defaults
  parse_vmess_url input =
      ok_or AppError.bad_request
        (formats.parse_url (replace_scheme (codes "vmess1://") (codes "vmess://") input))
      >>= λ url. ok_or AppError.bad_request url.host_str >>= λ server.
          ok_or AppError.bad_request url.port >>= λ port.
          (reject_if (is_empty (split_alter_id (chosen_transport url).2).0) AppError.bad_request
            >> ok (apply_vmess_defaults (vmess_url_node url server port)))
