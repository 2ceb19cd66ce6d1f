-- ===== src/Parser/Complete.antt =====
-- What every VMess node has, whichever form its link has.
use easysub.Prelude.{
  ◌≡◌, refl, inl, inr, true, false, not, ◌&&◌, ◌||◌, List, [], ◌∷◌, ◌++◌, arith, is_empty,
  if◌then◌else◌, Option-cases,
}
use easysub.Text.Utf8.{from_utf8}
use easysub.Error.{Result}
use easysub.Error.Yields.{Yields, IsBadRequest, Yields-next, Yields-reject, Yields-or, Yields-if}
use easysub.Text.{Str, codes, split_once, rsplit_once, eq_ignore_ascii_case, contains_str, trim}
use easysub.Text.Address.{is_ip_addr}
use easysub.Json.{Value}
use easysub.Model.{vmess, Proxy}
use easysub.Parser.Formats.{Formats}
use easysub.Parser.Fields.{
  non_empty, split_endpoint, parse_u16, json_string, decode_base64, decode_with, base64_engines,
}
use easysub.Parser.Links.{has_char}
use easysub.Parser.Vmess.{
  trim_quotes, apply_vmess_defaults, parse_vmess_json, vmess_url_node, json_node, chosen_transport,
  split_alter_id, replace_scheme, parse_vmess_url,
}
use easysub.Parser.Payload.{
  quan_option, quan_options, quan_node, quan_first, quan_parts, rocket_node, rocket_query,
  parse_vmess_quan, parse_vmess_shadowrocket, parse_payload, parse_vmess, raw_part, encoded_part,
}

pub decode_base64-errors :
    (formats : Formats) (input : Str)
    → Yields IsBadRequest (λ bytes. Unit {0}) (decode_base64 formats input)
unfolding decode_base64
decode_base64-errors formats input =
    elim (Option-cases (decode_with formats base64_engines (trim input))) [
      | inl e ↦ rw e refl
      | inr (bytes, e) ↦ rw e tt
    ]

pub split_endpoint-errors :
    (formats : Formats) (endpoint : Str)
    → Yields IsBadRequest (λ result. Unit {0}) (split_endpoint formats endpoint)
unfolding split_endpoint
split_endpoint-errors formats endpoint =
    Yields-or (λ result. Unit {0}) (formats.parse_url (codes "tcp://" ++ endpoint)) _
      (λ url.
        Yields-or (λ result. Unit {0}) url.host_str _
          (λ host. Yields-or (λ result. Unit {0}) url.port _ (λ port. tt)))

pub is_empty-non_empty : (s t : Str) → is_empty t ≡ false → is_empty (non_empty s t) ≡ false
unfolding non_empty
is_empty-non_empty [] t h = h
is_empty-non_empty (c ∷ s) t h = refl

quan_option-kind :
    (key value : Str) (p : Proxy) → p.kind ≡ vmess → (quan_option key value p).kind ≡ vmess
unfolding quan_option
quan_option-kind key value p h = ground arith

quan_options-kind :
    (options : List Str) (p : Proxy) → p.kind ≡ vmess → (quan_options options p).kind ≡ vmess
unfolding quan_options
quan_options-kind [] p h = h
quan_options-kind (option ∷ rest) p h = elim (Option-cases (split_once (codes "=") option)) [
  | inl e ↦ rw (e, quan_options) (quan_options-kind rest p h)
  | inr (halves, e) ↦
      rw (e, quan_options)
        (quan_options-kind rest (quan_option (trim halves.0) (trim_quotes (trim halves.1)) p)
          (quan_option-kind (trim halves.0) (trim_quotes (trim halves.1)) p h))
]

-- A host may be missing only where the server is an address or missing too.
unfoldable pub IsComplete : Proxy → Type 0
IsComplete p =
    (p.kind ≡ vmess)
    × (is_empty p.network ≡ false)
    × (is_empty p.path ≡ false)
    × ((not (is_empty p.host) || is_ip_addr p.server || is_empty p.server) ≡ true)

host_filled :
    (host server : Str)
    → (not (is_empty (if is_empty host && not (is_ip_addr server) then server else host))
        || is_ip_addr server
        || is_empty server)
      ≡ true
host_filled host server = ground arith

apply_vmess_defaults-IsComplete : (p : Proxy) → p.kind ≡ vmess → IsComplete (apply_vmess_defaults p)
unfolding apply_vmess_defaults IsComplete
apply_vmess_defaults-IsComplete p h = (
  h,
  is_empty-non_empty p.network (codes "tcp") refl,
  is_empty-non_empty p.path (codes "/") refl,
  host_filled p.host p.server,
)

module _ (formats : Formats) where
  abbrev Good : Result Proxy → Type 0
  Good = Yields IsBadRequest IsComplete

  parse_vmess_json-Good : (value : Value) → Good (parse_vmess_json formats value)
  unfolding parse_vmess_json json_node
  parse_vmess_json-Good value =
      Yields-or IsComplete (parse_u16 (json_string value (codes "port"))) _
        (λ port. apply_vmess_defaults-IsComplete (json_node value port) refl)

  parse_vmess_url-Good : (input : Str) → Good (parse_vmess_url formats input)
  unfolding parse_vmess_url vmess_url_node
  parse_vmess_url-Good input =
      Yields-or IsComplete
        (formats.parse_url (replace_scheme (codes "vmess1://") (codes "vmess://") input)) _
        (λ url. Yields-or IsComplete url.host_str _ (λ server.
          Yields-or IsComplete url.port _ (λ port.
            Yields-reject IsComplete (is_empty (split_alter_id (chosen_transport formats url).2).0)
              _
              (λ h.
                apply_vmess_defaults-IsComplete (vmess_url_node formats url server port) refl))))

  quan_node-Good : (parts : List Str) → Good (quan_node formats parts)
  unfolding quan_node quan_first
  quan_node-Good (name ∷ type_name ∷ server ∷ port_text ∷ method ∷ uuid ∷ options) =
      Yields-reject IsComplete (not (eq_ignore_ascii_case type_name (codes "vmess"))) _ (λ h.
        Yields-or IsComplete (parse_u16 port_text) _ (λ port.
          apply_vmess_defaults-IsComplete
            (quan_options options (quan_first name server port method uuid))
            (quan_options-kind options (quan_first name server port method uuid) refl)))
  quan_node-Good parts = refl

  parse_vmess_quan-Good : (decoded : Str) → Good (parse_vmess_quan formats decoded)
  unfolding parse_vmess_quan
  parse_vmess_quan-Good decoded =
      Yields-or IsComplete (split_once (codes "=") decoded) _
        (λ halves. quan_node-Good (quan_parts halves.0 halves.1))

  parse_vmess_shadowrocket-Good :
      (decoded raw : Str) → Good (parse_vmess_shadowrocket formats decoded raw)
  unfolding parse_vmess_shadowrocket rocket_node
  parse_vmess_shadowrocket-Good decoded raw =
      Yields-or IsComplete (rsplit_once b'@' decoded) _ (λ halves.
        Yields-or IsComplete (split_once (codes ":") halves.0) _ (λ secret.
          Yields-next IsComplete (split_endpoint formats halves.1) _
            (split_endpoint-errors formats halves.1)
            (λ endpoint.
              apply_vmess_defaults-IsComplete
                (rocket_node (rocket_query formats raw) secret endpoint) refl)))

  parse_payload-Good : (raw bytes : Str) → Good (parse_payload formats raw bytes)
  unfolding parse_payload
  parse_payload-Good raw bytes = elim (Option-cases (formats.json_from_slice bytes)) [
    | inl e ↦
        rw (e, parse_payload)
          (Yields-or IsComplete (from_utf8 bytes) _ (λ decoded.
            Yields-if IsComplete IsBadRequest
              (contains_str (codes "vmess,") decoded && has_char b'=' decoded) _ _
              (λ h. parse_vmess_quan-Good decoded)
              (λ h. parse_vmess_shadowrocket-Good decoded raw)))
    | inr (value, e) ↦ rw (e, parse_payload) (parse_vmess_json-Good value)
  ]

  -- A VMess link, in whichever of its forms, gives a node of that kind with a network and a path, and
  -- with a host unless its server is empty or an address; it fails with no error but `bad_request`.
  pub parse_vmess-IsComplete :
      (input : Str) → Yields IsBadRequest IsComplete (parse_vmess formats input)
  unfolding parse_vmess
  parse_vmess-IsComplete input =
      Yields-if IsComplete IsBadRequest _ (parse_vmess_url formats input) _
        (λ h. parse_vmess_url-Good input)
        (λ h.
          Yields-next IsComplete (decode_base64 formats (encoded_part (raw_part input))) _
            (decode_base64-errors formats (encoded_part (raw_part input)))
            (parse_payload-Good (raw_part input)))
