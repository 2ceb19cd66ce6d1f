-- ===== src/Structured/Places.antt =====
-- The nodes of documents, and of a structured subscription as a whole.
use easysub.Prelude.{
  OfSome, OfSome-bind, OfSome-any, OfSome-or, ℕ, ◌≡◌, refl, ◌≤◌, Bool, true, false, Option, none,
  some, [], ◌∷◌, ◌>>=◌, if◌then◌else◌,
}
use easysub.Text.{Str, codes}
use easysub.Text.Decimal.{u16_max}
use easysub.Json.{Fields}
use easysub.Model.{ProxyKind, wireguard, kind_eq, Proxy, new_proxy}
use easysub.Parser.Formats.{Formats}
use easysub.Structured.Fields.{object_at, number_u16}
use easysub.Structured.Details.{
  with_transport, with_ws, with_grpc, with_h2, parse_transport, with_reality, reality_options,
  parse_tls_details, parse_wireguard,
}
use easysub.Structured.Object.{
  kind_of, peer_of, server_of, port_of, tls_flag, secured_kind, with_obfs, object_fields,
  detailed_node, object_node, parse_with, parse_proxy,
}
use easysub.Structured.Nodes.{SamePlace, SamePlace-trans}
use easysub.Structured.Endpoints.{InGroup, OfSome-endpoint, number_u16-le}

with_obfs-SamePlace : (o : Option Fields) (p : Proxy) → SamePlace p (with_obfs o p)
unfolding with_obfs
with_obfs-SamePlace none p = (refl, refl, refl, refl, refl, refl, refl)
with_obfs-SamePlace (some obfs) p = (refl, refl, refl, refl, refl, refl, refl)

with_transport-SamePlace : (o : Option Fields) (p : Proxy) → SamePlace p (with_transport o p)
unfolding with_transport
with_transport-SamePlace none p = (refl, refl, refl, refl, refl, refl, refl)
with_transport-SamePlace (some transport) p = (refl, refl, refl, refl, refl, refl, refl)

with_ws-SamePlace : (o : Option Fields) (p : Proxy) → SamePlace p (with_ws o p)
unfolding with_ws
with_ws-SamePlace none p = (refl, refl, refl, refl, refl, refl, refl)
with_ws-SamePlace (some ws) p = (refl, refl, refl, refl, refl, refl, refl)

with_grpc-SamePlace : (o : Option Fields) (p : Proxy) → SamePlace p (with_grpc o p)
unfolding with_grpc
with_grpc-SamePlace none p = (refl, refl, refl, refl, refl, refl, refl)
with_grpc-SamePlace (some grpc) p = (refl, refl, refl, refl, refl, refl, refl)

with_h2-SamePlace : (o : Option Fields) (p : Proxy) → SamePlace p (with_h2 o p)
unfolding with_h2
with_h2-SamePlace none p = (refl, refl, refl, refl, refl, refl, refl)
with_h2-SamePlace (some h2) p = (refl, refl, refl, refl, refl, refl, refl)

with_reality-SamePlace : (o : Option Fields) (p : Proxy) → SamePlace p (with_reality o p)
unfolding with_reality
with_reality-SamePlace none p = (refl, refl, refl, refl, refl, refl, refl)
with_reality-SamePlace (some reality) p = (refl, refl, refl, refl, refl, refl, refl)

parse_transport-SamePlace : (fields : Fields) (p : Proxy) → SamePlace p (parse_transport fields p)
unfolding parse_transport
parse_transport-SamePlace fields p =
    let p1 = with_transport (object_at (codes "transport") fields) p in
    let p2 = with_ws (object_at (codes "ws-opts") fields) p1 in
    let p3 = with_grpc (object_at (codes "grpc-opts") fields) p2 in
    let p4 = with_h2 (object_at (codes "h2-opts") fields) p3 in
    SamePlace-trans p p1 p4 (with_transport-SamePlace (object_at (codes "transport") fields) p) (
      SamePlace-trans p1 p2 p4 (with_ws-SamePlace (object_at (codes "ws-opts") fields) p1) (
        SamePlace-trans p2 p3 p4 (with_grpc-SamePlace (object_at (codes "grpc-opts") fields) p2)
          (with_h2-SamePlace (object_at (codes "h2-opts") fields) p3)))

parse_tls_details-SamePlace :
    (fields : Fields) (tls : Option Fields) (p : Proxy)
    → SamePlace p (parse_tls_details fields tls p)
unfolding parse_tls_details
parse_tls_details-SamePlace fields tls p = with_reality-SamePlace (reality_options fields tls) _

parse_wireguard-SamePlace :
    (b : Bool) (fields : Fields) (peer : Option Fields) (p : Proxy)
    → SamePlace p (if b then parse_wireguard fields peer p else p)
unfolding parse_wireguard
parse_wireguard-SamePlace true fields peer p = (refl, refl, refl, refl, refl, refl, refl)
parse_wireguard-SamePlace false fields peer p = (refl, refl, refl, refl, refl, refl, refl)

port_of-le :
    (peer : Option Fields) (fields : Fields) → OfSome (λ n. n ≤ u16_max) (port_of peer fields)
unfolding port_of
port_of-le peer fields =
    OfSome-or (λ n. n ≤ u16_max) (number_u16 fields (codes "port" ∷ codes "server_port" ∷ []))
      (peer >>= λ p. number_u16 p (codes "port" ∷ []))
      (number_u16-le fields (codes "port" ∷ codes "server_port" ∷ []))
      (OfSome-any (λ n. n ≤ u16_max) peer (λ p. number_u16 p (codes "port" ∷ []))
        (λ p. number_u16-le p (codes "port" ∷ [])))

module _ (formats : Formats) (fields : Fields) (g : ℕ) where
  detailed_node-SamePlace :
      (secured : ProxyKind) (server : Str) (port : ℕ)
      → SamePlace
          (object_fields formats fields g (new_proxy secured server port))
          (detailed_node formats fields g secured server port)
  unfolding detailed_node
  detailed_node-SamePlace secured server port =
      let tls = object_at (codes "tls") fields in
      let obfs = object_at (codes "obfs-opts") fields in
      let p1 = object_fields formats fields g (new_proxy secured server port) in
      let p2 = with_obfs obfs p1 in
      let p3 = parse_transport fields p2 in
      let p4 = parse_tls_details fields tls p3 in
      SamePlace-trans p1 p2 p4 (with_obfs-SamePlace obfs p1) (
        SamePlace-trans p2 p3 p4 (parse_transport-SamePlace fields p2)
          (parse_tls_details-SamePlace fields tls p3))

  pub object_node-SamePlace :
      (kind : ProxyKind) (peer : Option Fields) (server : Str) (port : ℕ)
      → SamePlace
          (object_fields formats fields g
            (new_proxy (secured_kind kind (tls_flag fields)) server port))
          (object_node formats fields g kind peer server port)
  unfolding object_node
  object_node-SamePlace kind peer server port =
      let secured = secured_kind kind (tls_flag fields) in
      let p1 = object_fields formats fields g (new_proxy secured server port) in
      let p2 = detailed_node formats fields g secured server port in
      let p3 = if kind_eq secured wireguard then parse_wireguard fields peer p2 else p2 in
      SamePlace-trans p1 p2 p3 (detailed_node-SamePlace secured server port)
        (parse_wireguard-SamePlace (kind_eq secured wireguard) fields peer p2)

  object_node-place :
      (kind : ProxyKind) (peer : Option Fields) (server : Str) (port : ℕ)
      → let p = object_node formats fields g kind peer server port in
        (p.group_id ≡ g) × (p.server ≡ server) × (p.port ≡ port)
  unfolding object_fields new_proxy
  object_node-place kind peer server port =
      let h = object_node-SamePlace kind peer server port in (h.0, h.1, h.2)

  parse_with-InGroup :
      (build : ProxyKind → Option Fields → Str → ℕ → Proxy)
      → ((kind : ProxyKind) (peer : Option Fields) (server : Str) (port : ℕ)
          → (build kind peer server port).group_id ≡ g
            × (build kind peer server port).server ≡ server
            × (build kind peer server port).port ≡ port)
      → OfSome (InGroup g) (parse_with fields build)
  unfolding parse_with
  parse_with-InGroup build place = OfSome-any (InGroup g) (kind_of fields) _ (λ kind.
      let peer = peer_of kind fields in
      OfSome-bind (λ n. n ≤ u16_max) (InGroup g) (port_of peer fields) _ (port_of-le peer fields)
        (λ port le.
          let server = server_of peer fields in
          OfSome-endpoint g server port (build kind peer server port) le
            (place kind peer server port)))

  pub parse_proxy-InGroup : OfSome (InGroup g) (parse_proxy formats fields g)
  unfolding parse_proxy
  parse_proxy-InGroup = parse_with-InGroup (object_node formats fields g) object_node-place
