-- ===== src/Parser/Node.antt =====
-- crates/easysub-core/src/parser.rs 15-128: the choice of a parser, and subscriptions of links.
use easysub.Prelude.{
  ℕ, ◌&&◌, Bool, not, none, some, List, [], ◌∷◌, any, filter, filter_map, length, leb,
  if◌then◌else◌, is_empty, map, option_map, unwrap_or,
}
use easysub.Text.Utf8.{from_utf8}
use easysub.Error.{Result, ok, err, AppError, ok_or, ◌>>=◌, result_map, result_ok}
use easysub.Text.{
  Str, codes, trim, split_once, strip_prefix, starts_with, contains_str, lines, trim_start_matches,
}
use easysub.Model.{vless, trojan, http, https, socks5, snell, tuic, anytls, hysteria2, Proxy}
use easysub.Structured.Netch.{parse_netch}
use easysub.Structured.Document.{parse_structured}
use easysub.Parser.Formats.{Formats}
use easysub.Parser.Fields.{decode_base64}
use easysub.Parser.Links.{parse_telegram_proxy, parse_shadowsocks}
use easysub.Parser.Vmess.{trim_quotes}
use easysub.Parser.Payload.{parse_vmess}
use easysub.Parser.UrlProxy.{parse_url_proxy}

abbrev pub begins : Str → List Str → Bool
begins input prefixes = any (λ prefix. starts_with prefix input) prefixes

-- A link behind `tag:` and a comma.
unfoldable pub untag : Str → Str
unfolding strip_prefix split_once
untag input = elim (strip_prefix (codes "tag:") input) [
  | none ↦ input
  | some tagged ↦
      unwrap_or input
        (option_map (λ (halves : Str × Str). halves.1) (split_once (codes ",") tagged))
]

abbrev pub link_prefixes : List Str
link_prefixes =
    codes "ss://"
    ∷ codes "vmess://"
    ∷ codes "vmess1://"
    ∷ codes "vless://"
    ∷ codes "vless1://"
    ∷ codes "trojan://"
    ∷ codes "tuic://"
    ∷ codes "anytls://"
    ∷ codes "hysteria2://"
    ∷ codes "hy2://"
    ∷ codes "socks://"
    ∷ codes "socks5://"
    ∷ codes "snell://"
    ∷ codes "Netch://"
    ∷ codes "https://t.me/socks"
    ∷ codes "tg://socks"
    ∷ codes "https://t.me/http"
    ∷ codes "tg://http"
    ∷ []

unfoldable pub looks_like_proxy : Str → Bool
unfolding starts_with
looks_like_proxy value = begins value link_prefixes

module _ (formats : Formats) where
  unfoldable pub parse_netch_link : Str → ℕ → Result Proxy
  unfolding decode_base64 trim_start_matches parse_netch
  parse_netch_link input group_id =
      decode_base64 formats (trim_start_matches (codes "Netch://") input) >>= λ bytes.
      ok_or AppError.bad_request (parse_netch formats bytes group_id)

  -- What the beginnings of a link say, in the order in which they are asked.
  unfoldable pub dispatch : Str → ℕ → Result Proxy
  unfolding starts_with contains_str parse_telegram_proxy parse_shadowsocks parse_vmess
      parse_url_proxy parse_netch_link
  dispatch input group_id =
      if begins input (codes "https://t.me/socks" ∷ codes "tg://socks" ∷ [])
      then parse_telegram_proxy formats input socks5
      else if begins input (codes "https://t.me/http" ∷ codes "tg://http" ∷ [])
      then parse_telegram_proxy formats input
          (if contains_str (codes "/https") input then https else http)
      else if begins input (codes "ss://" ∷ [])
      then parse_shadowsocks formats input
      else if begins input (codes "vmess://" ∷ codes "vmess1://" ∷ [])
      then parse_vmess formats input
      else if begins input (codes "vless://" ∷ codes "vless1://" ∷ [])
      then parse_url_proxy formats input vless
      else if begins input (codes "trojan://" ∷ [])
      then parse_url_proxy formats input trojan
      else if begins input (codes "tuic://" ∷ [])
      then parse_url_proxy formats input tuic
      else if begins input (codes "anytls://" ∷ [])
      then parse_url_proxy formats input anytls
      else if begins input (codes "hysteria2://" ∷ codes "hy2://" ∷ [])
      then parse_url_proxy formats input hysteria2
      else if begins input (codes "socks://" ∷ codes "socks5://" ∷ [])
      then parse_url_proxy formats input socks5
      else if begins input (codes "snell://" ∷ [])
      then parse_url_proxy formats input snell
      else if begins input (codes "Netch://" ∷ [])
      then parse_netch_link input group_id
      else if begins input (codes "http://" ∷ codes "https://" ∷ [])
      then parse_url_proxy formats input
          (if starts_with (codes "https://") input then https else http)
      else err AppError.unsupported

  abbrev in_group : ℕ → Proxy → Proxy
  in_group g proxy = record proxy { group_id = g }

  unfoldable pub parse_node : Str → ℕ → Result Proxy
  unfolding dispatch untag trim trim_quotes
  parse_node input group_id =
      result_map (in_group group_id) (dispatch (untag (trim_quotes (trim input))) group_id)

  abbrev is_filled : Str → Bool
  is_filled line = not (is_empty (trim line))

  -- A single line that is no link may be the base64 of many.
  unfoldable pub subscription_text : Str → Str
  unfolding from_utf8 lines trim looks_like_proxy decode_base64
  subscription_text content =
      if leb (length (filter is_filled (lines content))) 1 && not (looks_like_proxy (trim content))
      then unwrap_or content (
          result_ok (
            decode_base64 formats (trim content) >>= λ bytes.
            ok_or AppError.bad_request (from_utf8 bytes)))
      else content

  -- Lines that are no nodes are passed over.
  unfoldable pub link_nodes : Str → ℕ → List Proxy
  unfolding parse_node lines trim
  link_nodes content first_group_id =
      filter_map (λ line. result_ok (parse_node line first_group_id))
        (filter (λ line. not (is_empty line)) (map trim (lines content)))

  unfoldable pub parse_subscription : Str → ℕ → Result (List Proxy)
  unfolding parse_structured subscription_text link_nodes
  parse_subscription content first_group_id =
      elim (parse_structured formats content first_group_id) [
        | some nodes ↦ ok nodes
        | none ↦
            (let nodes = link_nodes (subscription_text content) first_group_id in
              if is_empty nodes then err AppError.unsupported else ok nodes)
      ]
