-- ===== src/Parser/Tests.antt =====
-- The properties of crates/easysub-core/src/parser.rs at concrete links.
use easysub.Prelude.{◌≡◌, refl, true, none, some, [], ◌∷◌, inr, map, if◌then◌else◌}
use easysub.Error.{AppError, ok, err, result_map}
use easysub.Error.Yields.{Yields, IsBadRequest}
use easysub.Text.{Str, codes, contains_str, trim}
use easysub.Model.{vless}
use easysub.Parser.Formats.{Formats, Url}
use easysub.Parser.Payload.{parse_vmess}
use easysub.Parser.UrlProxy.{parse_url_proxy}
use easysub.Parser.Node.{looks_like_proxy, parse_node, parse_subscription, untag}
use easysub.Parser.Vmess.{trim_quotes}
use easysub.Parser.Kept.{cleaned}
use easysub.Parser.Complete.{IsComplete, parse_vmess-IsComplete}
use easysub.Parser.Outcomes.{FitsLink, parse_url_proxy-FitsKind}
use easysub.Parser.Grouped.{IsLinkError, parse_node-recognised, parse_node-errors}

abbrev some_url : Url
some_url = record {
  host_str = some (codes "a.b");
  port = some 443;
  port_or_known_default = some 443;
  username = codes "id";
  password = none;
  path = [];
  fragment = some (codes "one");
  query_pairs = (codes "security", codes "tls") ∷ (codes "sni", codes "c.d") ∷ [];
}

-- Every text with a scheme is one URL, and base64 is left as it is.
abbrev some_formats : Formats
some_formats = record {
  parse_url = λ s. if contains_str (codes "://") s then some some_url else none;
  form_pairs = λ s. [];
  decode = λ engine s. some s;
  percent_decode = λ s. s;
  json_from_slice = λ bytes. none;
  json_to_string = λ v. none;
  yaml_from_str = λ text. none;
}

abbrev vless_link : Str
vless_link = codes "vless://x"

abbrev vmess_link : Str
vmess_link = codes "vmess://auto:u@a.b"

link_is_read : result_map (λ p. p.group_id) (parse_node some_formats vless_link 7) ≡ ok 7
unfolding parse_node contains_str
link_is_read = refl

name_is_read : result_map (λ p. p.name) (parse_node some_formats vless_link 7) ≡ ok (codes "one")
unfolding parse_node contains_str
name_is_read = refl

vmess_is_read : result_map (λ p. p.host) (parse_vmess some_formats vmess_link) ≡ ok (codes "a.b")
unfolding parse_vmess contains_str
vmess_is_read = refl

unknown_is_refused : parse_node some_formats (codes "gopher://x") 7 ≡ err AppError.unsupported
unfolding parse_node
unknown_is_refused = refl

parse_vmess-IsComplete_example :
    Yields IsBadRequest IsComplete (parse_vmess some_formats vmess_link)
parse_vmess-IsComplete_example = parse_vmess-IsComplete some_formats vmess_link

parse_url_proxy-FitsKind_example :
    Yields IsBadRequest
      (FitsLink some_formats vless_link vless)
      (parse_url_proxy some_formats vless_link vless)
parse_url_proxy-FitsKind_example = parse_url_proxy-FitsKind some_formats vless_link vless

-- A quoted link behind a tag.
abbrev tagged_link : Str
tagged_link = codes " \"tag:one,vless://x\" "

tagged_looks_right : looks_like_proxy (cleaned tagged_link) ≡ true
unfolding looks_like_proxy trim trim_quotes untag
tagged_looks_right = refl

parse_node-recognised_example :
    Yields IsBadRequest (λ p. p.group_id ≡ 7) (parse_node some_formats tagged_link 7)
parse_node-recognised_example =
    parse_node-recognised some_formats tagged_link 7 (inr tagged_looks_right)

parse_node-errors_example :
    Yields IsLinkError (λ p. p.group_id ≡ 7) (parse_node some_formats (codes "gopher://x") 7)
parse_node-errors_example = parse_node-errors some_formats (codes "gopher://x") 7

abbrev two_lines : Str
two_lines = codes "vless://x\nnot a link\n"

-- The second line is passed over.
one_line_is_read :
    result_map (map (λ p. p.name)) (parse_subscription some_formats two_lines 3)
    ≡ ok (codes "one" ∷ [])
unfolding parse_subscription contains_str
one_line_is_read = refl
