-- ===== src/Parser/Recognised.antt =====
-- Which errors `parse_node` gives, and that a text that looks like a proxy is never an unknown one.
use easysub.Prelude.{ℕ, ◌≡◌, refl, Bool, false, ◌||◌, List, [], ◌∷◌, arith, any, if◌then◌else◌}
use easysub.Error.{AppError, Result}
use easysub.Error.Yields.{Yields, IsBadRequest, Yields-if, Yields-mono}
use easysub.Text.{Str, codes, starts_with, contains_str}
use easysub.Model.{vless, trojan, http, https, socks5, snell, tuic, anytls, hysteria2, Proxy}
use easysub.Parser.Formats.{Formats}
use easysub.Parser.Links.{parse_telegram_proxy, parse_shadowsocks}
use easysub.Parser.Payload.{parse_vmess}
use easysub.Parser.UrlProxy.{parse_url_proxy}
use easysub.Parser.Errors.{
  AnyNode, parse_telegram_proxy-errors, parse_shadowsocks-errors, parse_netch_link-errors,
  parse_vmess-errors, parse_url_proxy-errors,
}
use easysub.Parser.Node.{begins, dispatch, parse_netch_link}

-- The beginnings that `dispatch` knows, by the branches that ask for them.
abbrev pub known_prefixes : List (List Str)
known_prefixes =
    (codes "https://t.me/socks" ∷ codes "tg://socks" ∷ [])
    ∷ (codes "https://t.me/http" ∷ codes "tg://http" ∷ [])
    ∷ (codes "ss://" ∷ [])
    ∷ (codes "vmess://" ∷ codes "vmess1://" ∷ [])
    ∷ (codes "vless://" ∷ codes "vless1://" ∷ [])
    ∷ (codes "trojan://" ∷ [])
    ∷ (codes "tuic://" ∷ [])
    ∷ (codes "anytls://" ∷ [])
    ∷ (codes "hysteria2://" ∷ codes "hy2://" ∷ [])
    ∷ (codes "socks://" ∷ codes "socks5://" ∷ [])
    ∷ (codes "snell://" ∷ [])
    ∷ (codes "Netch://" ∷ [])
    ∷ (codes "http://" ∷ codes "https://" ∷ [])
    ∷ []

unfoldable pub is_known : Str → Bool
is_known input = any (begins input) known_prefixes

not_or : (a b : Bool) → a ≡ false → b ≡ false → (a || b) ≡ false
not_or a b h k = ground arith

module _ (formats : Formats) where
  -- An error for an unknown beginning is given only for one.
  pub dispatch-errors :
      (P : AppError → Type 0) (input : Str) (g : ℕ)
      → ((e : AppError) → IsBadRequest e → P e)
      → (is_known input ≡ false → P AppError.unsupported)
      → Yields P AnyNode (dispatch formats input g)
  unfolding dispatch is_known
  dispatch-errors P input g bad unknown =
      let given : (b : Bool) (r s : Result Proxy)
          → Yields IsBadRequest AnyNode r
          → (b ≡ false → Yields P AnyNode s)
          → Yields P AnyNode (if b then r else s) =
        λ b r s h k.
          Yields-if AnyNode P b r s
            (λ e. Yields-mono IsBadRequest P AnyNode AnyNode r h bad (λ p u. u)) k in
      given (begins input (codes "https://t.me/socks" ∷ codes "tg://socks" ∷ []))
        (parse_telegram_proxy formats input socks5) _
        (parse_telegram_proxy-errors formats input socks5)
        (λ h1.
          given (begins input (codes "https://t.me/http" ∷ codes "tg://http" ∷ []))
            (parse_telegram_proxy formats input
              (if contains_str (codes "/https") input then https else http))
            _
            (parse_telegram_proxy-errors formats input
              (if contains_str (codes "/https") input then https else http))
            (λ h2.
              given (begins input (codes "ss://" ∷ [])) (parse_shadowsocks formats input) _
                (parse_shadowsocks-errors formats input)
                (λ h3.
                  given (begins input (codes "vmess://" ∷ codes "vmess1://" ∷ []))
                    (parse_vmess formats input) _ (parse_vmess-errors formats input)
                    (λ h4.
                      given (begins input (codes "vless://" ∷ codes "vless1://" ∷ []))
                        (parse_url_proxy formats input vless) _
                        (parse_url_proxy-errors formats input vless)
                        (λ h5.
                          given (begins input (codes "trojan://" ∷ []))
                            (parse_url_proxy formats input trojan) _
                            (parse_url_proxy-errors formats input trojan)
                            (λ h6.
                              given (begins input (codes "tuic://" ∷ []))
                                (parse_url_proxy formats input tuic) _
                                (parse_url_proxy-errors formats input tuic)
                                (λ h7.
                                  given (begins input (codes "anytls://" ∷ []))
                                    (parse_url_proxy formats input anytls) _
                                    (parse_url_proxy-errors formats input anytls)
                                    (λ h8.
                                      given
                                        (begins input (codes "hysteria2://" ∷ codes "hy2://" ∷ []))
                                        (parse_url_proxy formats input hysteria2) _
                                        (parse_url_proxy-errors formats input hysteria2)
                                        (λ h9.
                                          given
                                            (begins input
                                              (codes "socks://" ∷ codes "socks5://" ∷ []))
                                            (parse_url_proxy formats input socks5) _
                                            (parse_url_proxy-errors formats input socks5)
                                            (λ h10.
                                              given (begins input (codes "snell://" ∷ []))
                                                (parse_url_proxy formats input snell) _
                                                (parse_url_proxy-errors formats input snell)
                                                (λ h11.
                                                  given (begins input (codes "Netch://" ∷ []))
                                                    (parse_netch_link formats input g) _
                                                    (parse_netch_link-errors formats input g)
                                                    (λ h12.
                                                      given
                                                        (begins input
                                                          (codes "http://" ∷ codes "https://" ∷ []))
                                                        (parse_url_proxy formats input (
                                                          if starts_with (codes "https://") input
                                                          then https
                                                          else http))
                                                        _
                                                        (parse_url_proxy-errors formats input (
                                                          if starts_with (codes "https://") input
                                                          then https
                                                          else http))
                                                        (λ h13. unknown (
                                                          not_or _ _ h1 (
                                                            not_or _ _ h2 (
                                                            not_or _ _ h3 (
                                                            not_or _ _ h4 (
                                                            not_or _ _ h5 (
                                                            not_or _ _ h6 (
                                                            not_or _ _ h7 (
                                                            not_or _ _ h8 (
                                                            not_or _ _ h9 (
                                                            not_or _ _ h10 (
                                                            not_or _ _ h11 (
                                                            not_or _ _ h12 (
                                                            not_or _ _ h13
                                                            (refl)))))))))))))))))))))))))))
