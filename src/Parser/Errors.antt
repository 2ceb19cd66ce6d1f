-- ===== src/Parser/Errors.antt =====
-- The parsers of the single kinds of links fail with `bad_request` alone.
use easysub.Prelude.{ℕ, refl, inl, inr, Option, none, some, [], ◌∷◌, is_empty, Option-cases}
use easysub.Text.Utf8.{from_utf8}
use easysub.Error.{AppError, ok, ok_or}
use easysub.Error.Yields.{
  Yields, IsBadRequest, Yields-reject, Yields-or, Yields-next, Yields-if, Yields-mono,
}
use easysub.Text.{Str, codes, split_once, rsplit_once, strip_prefix, trim_start_matches}
use easysub.Model.{ProxyKind, Proxy}
use easysub.Structured.Netch.{parse_netch}
use easysub.Parser.Formats.{Formats}
use easysub.Parser.Fields.{query_value, parse_u16, decode_base64, split_endpoint}
use easysub.Parser.Links.{
  link_parts, text_with, parse_telegram_proxy, shadowsocks_node, parse_shadowsocks,
}
use easysub.Parser.Payload.{parse_vmess}
use easysub.Parser.UrlProxy.{parse_url_proxy}
use easysub.Parser.Complete.{
  decode_base64-errors, split_endpoint-errors, IsComplete, parse_vmess-IsComplete,
}
use easysub.Parser.Outcomes.{FitsLink, parse_url_proxy-FitsKind}
use easysub.Parser.Node.{parse_netch_link}

abbrev pub Anything {ℓ} : {A : Type ℓ} → A → Type 0
Anything a = Unit

abbrev pub AnyNode : Proxy → Type 0
AnyNode = Anything

utf8-errors :
    (bytes : Str) → Yields IsBadRequest Anything (ok_or AppError.bad_request (from_utf8 bytes))
utf8-errors bytes = elim (Option-cases (from_utf8 bytes)) [
  | inl e ↦ rw e refl
  | inr (t, e) ↦ rw e tt
]

netch_errors : (o : Option Proxy) → Yields IsBadRequest AnyNode (ok_or AppError.bad_request o)
netch_errors none = refl
netch_errors (some p) = tt

module _ (formats : Formats) where
  pub parse_telegram_proxy-errors :
      (input : Str) (kind : ProxyKind)
      → Yields IsBadRequest AnyNode (parse_telegram_proxy formats input kind)
  unfolding parse_telegram_proxy
  parse_telegram_proxy-errors input kind = Yields-or AnyNode (formats.parse_url input) _ (λ url.
      Yields-reject AnyNode (is_empty (query_value url.query_pairs (codes "server" ∷ []))) _ (λ h.
        Yields-or AnyNode (parse_u16 (query_value url.query_pairs (codes "port" ∷ []))) _
          (λ port. tt)))

  text_with-errors :
      (c : ℕ) (plain : Str → Str) (s : Str)
      → Yields IsBadRequest Anything (text_with formats c plain s)
  unfolding text_with
  text_with-errors c plain s =
      Yields-if Anything IsBadRequest _ (ok (plain s)) _ (λ h. tt)
        (λ h.
          Yields-next Anything (decode_base64 formats s) _ (decode_base64-errors formats s)
            (λ bytes. utf8-errors bytes))

  shadowsocks_node-errors :
      (authority query fragment : Str)
      → Yields IsBadRequest AnyNode (shadowsocks_node formats authority query fragment)
  unfolding shadowsocks_node
  shadowsocks_node-errors authority query fragment =
      Yields-next Anything (text_with formats b'@' (λ s. s) authority) _
        (text_with-errors b'@' (λ s. s) authority)
        (λ plain. Yields-or Anything (rsplit_once b'@' plain) _ (λ halves.
          Yields-next Anything (text_with formats b':' formats.percent_decode halves.0) _
            (text_with-errors b':' formats.percent_decode halves.0)
            (λ secret. Yields-or Anything (split_once (codes ":") secret) _ (λ credentials.
              Yields-next Anything (split_endpoint formats halves.1) _
                (split_endpoint-errors formats halves.1) (λ endpoint. tt)))))

  pub parse_shadowsocks-errors :
      (input : Str) → Yields IsBadRequest AnyNode (parse_shadowsocks formats input)
  unfolding parse_shadowsocks
  parse_shadowsocks-errors input =
      Yields-or Anything (strip_prefix (codes "ss://") input) _
        (λ raw. let parts = link_parts raw in shadowsocks_node-errors parts.0 parts.1 parts.2)

  pub parse_netch_link-errors :
      (input : Str) (g : ℕ) → Yields IsBadRequest AnyNode (parse_netch_link formats input g)
  unfolding parse_netch_link
  parse_netch_link-errors input g =
      Yields-next Anything (decode_base64 formats (trim_start_matches (codes "Netch://") input)) _
        (decode_base64-errors formats (trim_start_matches (codes "Netch://") input))
        (λ bytes. netch_errors (parse_netch formats bytes g))

  pub parse_vmess-errors : (input : Str) → Yields IsBadRequest AnyNode (parse_vmess formats input)
  parse_vmess-errors input =
      Yields-mono IsBadRequest IsBadRequest IsComplete AnyNode (parse_vmess formats input)
        (parse_vmess-IsComplete formats input) (λ e h. h) (λ p h. tt)

  pub parse_url_proxy-errors :
      (input : Str) (kind : ProxyKind)
      → Yields IsBadRequest AnyNode (parse_url_proxy formats input kind)
  parse_url_proxy-errors input kind =
      Yields-mono IsBadRequest IsBadRequest (FitsLink formats input kind) Anything
        (parse_url_proxy formats input kind) (parse_url_proxy-FitsKind formats input kind)
        (λ e h. h) (λ p h. tt)
