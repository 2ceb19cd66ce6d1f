-- ===== src/Parser/Links.antt =====
-- crates/easysub-core/src/parser.rs 130-201: Telegram and Shadowsocks links.
use easysub.Prelude.{
  ℕ, ◌==◌, Bool, Option, none, some, [], ◌∷◌, if◌then◌else◌, is_empty, any, unwrap_or,
}
use easysub.Text.Utf8.{from_utf8}
use easysub.Error.{Result, ok, AppError, ok_or, ◌>>=◌, ◌>>◌, reject_if}
use easysub.Text.{Str, codes, strip_prefix, split_once, rsplit_once}
use easysub.Model.{ProxyKind, https, shadowsocks, kind_eq, Proxy, new_proxy, endpoint_name}
use easysub.Parser.Formats.{Formats}
use easysub.Parser.Fields.{
  lookup_last, query_value, non_empty, parse_u16, decode_base64, split_endpoint, non_empty_name,
}

abbrev pub has_char : ℕ → Str → Bool
has_char c = any (λ d. d == c)

unfoldable pub with_plugin : Option Str → Proxy → Proxy
unfolding split_once
with_plugin none proxy = proxy
with_plugin (some value) proxy =
    let parts = unwrap_or (value, []) (split_once (codes ";") value) in
    record proxy { plugin = parts.0; plugin_opts = parts.1 }

-- What stands before the query and the fragment, the query, and the fragment.
unfoldable pub link_parts : Str → Str × Str × Str
unfolding split_once
link_parts raw =
    let outer = unwrap_or (raw, []) (split_once (codes "#") raw) in
    let inner = unwrap_or (outer.0, []) (split_once (codes "?") outer.0) in
    (inner.0, inner.1, outer.1)

module _ (formats : Formats) where
  unfoldable pub parse_telegram_proxy : Str → ProxyKind → Result Proxy
  unfolding query_value non_empty parse_u16 new_proxy kind_eq
  parse_telegram_proxy input kind = ok_or AppError.bad_request (formats.parse_url input) >>= λ url.
      let query = url.query_pairs in
      let server = query_value query (codes "server" ∷ []) in
      reject_if (is_empty server) AppError.bad_request
      >> (ok_or AppError.bad_request (parse_u16 (query_value query (codes "port" ∷ []))) >>= λ port.
          ok (record (new_proxy kind server port) {
            username = query_value query (codes "user" ∷ codes "username" ∷ []);
            password = query_value query (codes "pass" ∷ codes "password" ∷ []);
            group = query_value query (codes "group" ∷ []);
            name = non_empty (query_value query (codes "remarks" ∷ [])) (endpoint_name server port);
            tls = kind_eq kind https;
          }))

  -- A part that is base64 unless it holds the character.
  unfoldable pub text_with : ℕ → (Str → Str) → Str → Result Str
  unfolding from_utf8 decode_base64
  text_with c plain s =
      if has_char c s
      then ok (plain s)
      else decode_base64 formats s >>= λ bytes. ok_or AppError.bad_request (from_utf8 bytes)

  unfoldable pub shadowsocks_node : Str → Str → Str → Result Proxy
  unfolding text_with rsplit_once split_once split_endpoint new_proxy non_empty_name with_plugin
  shadowsocks_node authority query fragment = text_with b'@' (λ s. s) authority >>= λ plain.
      ok_or AppError.bad_request (rsplit_once b'@' plain) >>= λ halves.
      text_with b':' formats.percent_decode halves.0 >>= λ secret.
      ok_or AppError.bad_request (split_once (codes ":") secret) >>= λ credentials.
      split_endpoint formats halves.1 >>= λ endpoint. ok (
        with_plugin (lookup_last (codes "plugin") (formats.form_pairs query))
          (record (new_proxy shadowsocks endpoint.0 endpoint.1) {
            method = credentials.0;
            password = credentials.1;
            name = non_empty_name formats fragment endpoint.0 endpoint.1;
          }))

  unfoldable pub parse_shadowsocks : Str → Result Proxy
  unfolding shadowsocks_node strip_prefix link_parts
  parse_shadowsocks input =
      ok_or AppError.bad_request (strip_prefix (codes "ss://") input) >>= λ raw.
      let parts = link_parts raw in shadowsocks_node parts.0 parts.1 parts.2
