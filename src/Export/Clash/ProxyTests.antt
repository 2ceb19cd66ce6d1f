-- ===== src/Export/Clash/ProxyTests.antt =====
-- The proxies of crates/easysub-core/src/export/clash.rs at concrete nodes.
use easysub.Prelude.{◌≡◌, refl, ◌<◌, ◌≤◌, false, true, none, some, [], arith, is_empty}
use easysub.Text.{codes}
use easysub.Json.{get}
use easysub.Model.{https, trojan, Proxy, new_proxy}
use easysub.Parser.Formats.{Formats}
use easysub.Structured.Object.{parse_proxy}
use easysub.Export.Clash.Proxies.{proxy_fields}
use easysub.Export.Clash.RoundTrip.{ReadsBack, parse_proxy-proxy_fields}

abbrev no_formats : Formats
no_formats = record {
  parse_url = λ s. none;
  form_pairs = λ s. [];
  decode = λ engine s. none;
  percent_decode = λ s. s;
  json_from_slice = λ bytes. none;
  json_to_string = λ v. none;
  yaml_from_str = λ text. none;
}

abbrev some_node : Proxy
some_node = record (new_proxy https (codes "a.b") 443) { name = codes "one"; udp = some true }

abbrev trojan_node : Proxy
trojan_node = record (new_proxy trojan (codes "a.b") 443) {
  tls = true;
  network = codes "tcp";
  server_name = codes "c.d";
}

trojan_says_no_tls : get (codes "tls") (proxy_fields trojan_node) ≡ none
unfolding proxy_fields new_proxy get
trojan_says_no_tls = refl

node_is_filled : is_empty some_node.server ≡ false
unfolding new_proxy
node_is_filled = refl

port_is_low : 0 < some_node.port
unfolding new_proxy
port_is_low = omega arith

port_is_high : some_node.port ≤ 65535
unfolding new_proxy
port_is_high = omega arith

parse_proxy-proxy_fields_example :
    (q : Proxy) × (parse_proxy no_formats (proxy_fields some_node) 5 ≡ some q)
    × ReadsBack 5 some_node q
parse_proxy-proxy_fields_example =
    parse_proxy-proxy_fields some_node no_formats 5 node_is_filled port_is_low port_is_high
