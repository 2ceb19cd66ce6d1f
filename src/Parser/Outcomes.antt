-- ===== src/Parser/Outcomes.antt =====
-- What the other links give.
use easysub.Prelude.{
  ◌≡◌, ◌⊎◌, inl, inr, sym, ap, some, refl, ◌∙◌, Bool, true, false, not, ◌&&◌, ◌||◌, List, [], ◌∷◌,
  arith, is_empty, if◌then◌else◌, unwrap_or,
}
use easysub.Error.Yields.{Yields, IsBadRequest, Yields-or_known}
use easysub.Text.{Str, codes, str_eq}
use easysub.Text.Decimal.{show, is_empty-show}
use easysub.Model.{ProxyKind, vless, trojan, snell, tuic, anytls, hysteria2, Proxy}
use easysub.Parser.Formats.{Formats, Url}
use easysub.Parser.Fields.{Query, query_value, non_empty, parse_bool}
use easysub.Parser.UrlProxy.{
  normalize_input, kind_fields, common_fields, late_fields, trojan_network, trojan_host,
  hysteria2_fields, secure_fields, take_password, query_fields, first_node, parse_url_proxy,
}
use easysub.Parser.Complete.{is_empty-non_empty}

is_empty-if :
    (b : Bool) (s t : Str)
    → is_empty s ≡ false
    → is_empty t ≡ false
    → is_empty (if b then s else t) ≡ false
is_empty-if true s t h k = h
is_empty-if false s t h k = k

kept_host :
    (network host name : Str)
    → (not (str_eq network (codes "ws"))
        || not (is_empty (if str_eq network (codes "ws") && is_empty host then name else host))
        || is_empty name)
      ≡ true
kept_host network host name = ground arith

trojan_network-filled : (query : Query) → is_empty (trojan_network query) ≡ false
unfolding trojan_network
trojan_network-filled query =
    is_empty-if (unwrap_or false (parse_bool (query_value query (codes "ws" ∷ [])))) (codes "ws") _
      refl
      (is_empty-non_empty (query_value query (codes "type" ∷ codes "network" ∷ [])) (codes "tcp")
        refl)

-- What a link of each kind must give, where `user` is the user name of the link, decoded: a VLESS node
-- has it for its UUID and keeps no user name, a TUIC node has it for its UUID if it is not empty, a
-- node whose kind is always encrypted says so, and the ports of Hysteria2 are filled in.
unfoldable pub FitsKind : ProxyKind → Str → Proxy → Type 0
FitsKind vless user p = (p.uuid ≡ user) × (p.username ≡ []) × (is_empty p.network ≡ false)
FitsKind trojan user p =
    (p.tls ≡ true)
    × (is_empty p.network ≡ false)
    × ((not (str_eq p.network (codes "ws")) || not (is_empty p.host) || is_empty p.server_name)
        ≡ true)
FitsKind tuic user p =
    (p.tls ≡ true) × (p.username ≡ []) × ((is_empty user ≡ true) ⊎ (p.uuid ≡ user))
FitsKind anytls user p = p.tls ≡ true
FitsKind hysteria2 user p = (p.tls ≡ true) × (is_empty p.ports ≡ false)
FitsKind kind user p = Unit

non_empty_given : (s t : Str) → (is_empty s ≡ true) ⊎ (non_empty s t ≡ s)
unfolding non_empty
non_empty_given [] t = inl refl
non_empty_given (c ∷ s) t = inr refl

-- The kind, the server and the port of a node stay as they are.
abbrev IsSameEndpoint : Proxy → Proxy → Type 0
IsSameEndpoint p q = (p.kind ≡ q.kind) × (p.server ≡ q.server) × (p.port ≡ q.port)

IsSameEndpoint-trans :
    (p q r : Proxy) → IsSameEndpoint p q → IsSameEndpoint q r → IsSameEndpoint p r
IsSameEndpoint-trans p q r h k = (h.0 ∙ k.0, h.1 ∙ k.1, h.2 ∙ k.2)

take_password-IsSameEndpoint :
    (query : Query) (keys : List Str) (p : Proxy) → IsSameEndpoint (take_password query keys p) p
unfolding take_password
take_password-IsSameEndpoint query keys p = (ground arith, ground arith, ground arith)

kind_fields-IsSameEndpoint :
    (query : Query) (kind : ProxyKind) (p : Proxy) → IsSameEndpoint (kind_fields query kind p) p
unfolding kind_fields secure_fields
kind_fields-IsSameEndpoint query vless p = (refl, refl, refl)
kind_fields-IsSameEndpoint query trojan p =
    take_password-IsSameEndpoint query (codes "password" ∷ codes "auth" ∷ []) p
kind_fields-IsSameEndpoint query hysteria2 p =
    take_password-IsSameEndpoint query (codes "password" ∷ codes "auth" ∷ []) p
kind_fields-IsSameEndpoint query anytls p =
    take_password-IsSameEndpoint query (codes "password" ∷ codes "auth" ∷ []) p
kind_fields-IsSameEndpoint query tuic p = (refl, refl, refl)
kind_fields-IsSameEndpoint query snell p =
    take_password-IsSameEndpoint query (codes "psk" ∷ codes "password" ∷ []) p
kind_fields-IsSameEndpoint query kind p = (refl, refl, refl)

late_fields-IsSameEndpoint :
    (query : Query) (kind : ProxyKind) (p : Proxy) → IsSameEndpoint (late_fields query kind p) p
unfolding late_fields
late_fields-IsSameEndpoint query hysteria2 p = (refl, refl, refl)
late_fields-IsSameEndpoint query trojan p = (refl, refl, refl)
late_fields-IsSameEndpoint query kind p = (refl, refl, refl)

query_fields-IsSameEndpoint :
    (query : Query) (kind : ProxyKind) (p : Proxy) → IsSameEndpoint (query_fields query kind p) p
unfolding query_fields
query_fields-IsSameEndpoint query kind p =
    let filled = kind_fields query kind p in
    let common = common_fields query filled in
    let late : IsSameEndpoint (late_fields query kind common) filled =
      late_fields-IsSameEndpoint query kind common in
    IsSameEndpoint-trans (query_fields query kind p) filled p late
      (kind_fields-IsSameEndpoint query kind p)

is_empty-non_empty_first : (s t : Str) → is_empty s ≡ false → is_empty (non_empty s t) ≡ false
unfolding non_empty
is_empty-non_empty_first [] t h = cc
is_empty-non_empty_first (c ∷ s) t h = refl

common_fields-network :
    (query : Query) (p : Proxy)
    → is_empty p.network ≡ false
    → is_empty (common_fields query p).network ≡ false
unfolding common_fields
common_fields-network query p h =
    is_empty-non_empty_first p.network (query_value query (codes "type" ∷ codes "network" ∷ [])) h

vless_network : (query : Query) (p : Proxy) → is_empty (kind_fields query vless p).network ≡ false
unfolding kind_fields
vless_network query p =
    is_empty-non_empty (query_value query (codes "type" ∷ codes "network" ∷ [])) (codes "tcp") refl

trojan_network_kept :
    (query : Query) (p : Proxy) → is_empty (kind_fields query trojan p).network ≡ false
unfolding kind_fields
trojan_network_kept query p = trojan_network-filled query

hysteria2_ports : (query : Query) (p : Proxy) → is_empty (hysteria2_fields query p).ports ≡ false
unfolding hysteria2_fields
hysteria2_ports query p =
    is_empty-non_empty (query_value query (codes "ports" ∷ codes "mport" ∷ [])) (show p.port)
      (is_empty-show p.port)

trojan_host_kept :
    (query : Query) (p : Proxy)
    → (not (str_eq p.network (codes "ws"))
        || not (is_empty (late_fields query trojan p).host)
        || is_empty p.server_name)
      ≡ true
unfolding late_fields trojan_host
trojan_host_kept query p = kept_host p.network p.host p.server_name

query_fields-FitsKind :
    (query : Query) (kind : ProxyKind) (p : Proxy)
    → FitsKind kind p.username (query_fields query kind p)
unfolding query_fields FitsKind
query_fields-FitsKind query vless p =
    (refl, refl, common_fields-network query (kind_fields query vless p) (vless_network query p))
query_fields-FitsKind query trojan p = (
  refl,
  common_fields-network query (kind_fields query trojan p) (trojan_network_kept query p),
  trojan_host_kept query (common_fields query (kind_fields query trojan p)),
)
query_fields-FitsKind query tuic p = (refl, refl, non_empty_given p.username _)
query_fields-FitsKind query anytls p = refl
query_fields-FitsKind query hysteria2 p =
    (refl, hysteria2_ports query (common_fields query (kind_fields query hysteria2 p)))
query_fields-FitsKind query kind p = tt

module _ (formats : Formats) where
  -- The node is read from the link: of the kind asked for, with the server and the port of the URL, and
  -- with what its kind needs.
  abbrev pub FitsLink : Str → ProxyKind → Proxy → Type 0
  FitsLink input kind p =
      (url : Url) × (formats.parse_url (normalize_input input) ≡ some url)
      × (p.kind ≡ kind)
      × (url.host_str ≡ some p.server)
      × (url.port_or_known_default ≡ some p.port)
      × FitsKind kind (formats.percent_decode url.username) p

  -- A link that is a URL gives a node of the kind asked for, with the server and the port of the URL
  -- and with what that kind needs, or fails with `bad_request`. What a kind needs: a VLESS node has the
  -- user name of the URL, decoded, for its UUID, and no user name; a TUIC node has it for its UUID if it
  -- is not empty, and no user name; Trojan, TUIC, AnyTLS and Hysteria2 nodes are encrypted; VLESS and
  -- Trojan nodes have a network; a Trojan node over a web socket has a host if it has a server name;
  -- and a Hysteria2 node has ports.
  pub parse_url_proxy-FitsKind :
      (input : Str) (kind : ProxyKind)
      → Yields IsBadRequest (FitsLink input kind) (parse_url_proxy formats input kind)
  unfolding parse_url_proxy first_node
  parse_url_proxy-FitsKind input kind =
      Yields-or_known (FitsLink input kind) (formats.parse_url (normalize_input input)) _
        (λ url is_url. Yields-or_known (FitsLink input kind) url.host_str _ (λ server is_server.
          Yields-or_known (FitsLink input kind) url.port_or_known_default _ (λ port is_port.
            let node = first_node formats kind url server port in
            let same = query_fields-IsSameEndpoint url.query_pairs kind node in
            (
              url,
              is_url,
              same.0,
              is_server ∙ ap some (sym same.1),
              is_port ∙ ap some (sym same.2),
              query_fields-FitsKind url.query_pairs kind node,
            ))))
