-- ===== src/Lib.antt =====
-- easysub, a server and library that turns proxy subscriptions into profiles for Clash and sing-box:
-- a model of the core, crates/easysub-core, and theorems about it.
--
-- A request names sources and a target. The subscription service decides which sources the request
-- may use, fetches and parses them, several at a time, applies the options of the request to the
-- nodes, reads an external configuration with groups and rule sets, fetches these, and hands all to
-- an exporter, which renames the nodes, fills the groups and writes rules and rule providers. Binary
-- rule sets are encoded for the Clash core from normalised rules.
--
-- Files and code:
--   Prelude, Text     lists, keys, the search for a free name, the text operations of the standard
--                     library on lists of code points; a text has the order of its code points
--   Error, Model      error.rs, model.rs: error kinds without their messages, nodes
--   External          external.rs: parse reads the INI form, with Group.parse_group for a proxy
--                     group and parse_ruleset for a rule set
--   Group             group.rs: members picks the nodes of a group; Range and Matcher are the
--                     selectors, over a regular expression engine that is a parameter
--   Rules             rules.rs: Line cleans the lines, Common is parse_common_rules_filtered for the
--                     exporters, Normalize is normalize_rules for the encoder. The parsers of YAML
--                     and of networks, third-party crates, are the record Readers
--   Mrs               mrs.rs: merge_ranges, on addresses as numbers up to the largest one
--   Fetch             fetch.rs: get_with_metadata and all below it. The outside (environment, HTTP,
--                     files, percent decoding, the lookup and insertion of the cache) is the record
--                     Outside; an action takes what the cache holds and returns its result, what the
--                     cache holds then and the accesses it made, in order. The documented behaviour
--                     of the cache that a theorem relies on is Sizes.CacheAgrees
--   Config            config.rs: the settings, normalize, resolve_source
--   Subscription      subscription.rs: Guard is convert up to the first fetch, Load is what is done
--                     per source, Collect works out how many sources are loaded at a time and
--                     puts down what is documented of the unordered stream of futures_util, as
--                     a step relation that the theorems assume; Nodes is what follows. The parser of subscriptions is the record Load.Parser, which
--                     Parsed fills with the parser of the program
--   Json              the value type of serde_json: objects are lists of entries that ascend by key
--   Parser            parser.rs: Node is parse_node, looks_like_proxy and parse_subscription, Links
--                     the Telegram and Shadowsocks links, Vmess and Payload the VMess links, UrlProxy
--                     the links that are URLs. What the code takes of other packages is the record
--                     Formats: URLs, forms, base64, percent decoding, JSON, YAML
--   Structured        structured.rs: Surge, Netch, Object with Details for the objects of Clash and
--                     sing-box documents, Document for a subscription as a whole
--   Export.Names      export/mod.rs: prepare_nodes
--   Export.Clash      export/clash.rs: Adjacent is merge_adjacent_rulesets, Provider the names of
--                     providers, Ruleset and Rules the loop of to_clash_full_with_options with
--                     append_ruleset and append_geo_provider, Fields and Proxies are proxy_value
--   Template          template.rs: insert_dotted, the variables of render, format_duration; a panic is
--                     the absence of a result
--   Api               src/api.rs: the status of an error, split_sources, query_flag and
--                     request_base_url, on headers as a function from names
-- Tests beside each part run it on concrete input and apply its theorems there.
--
-- Numbers are natural numbers; a limit of zero becomes the largest usize, 2 ^ 64 - 1, where the code
-- says so, and an index is taken modulo 2 ^ 32 where it is cast. The searches for a free name run on
-- fuel, one more than the number of names in use, which is shown to be enough. All other loops are
-- recursions on lists. A HashMap is the list of pairs that it is collected from, of which the last of a
-- key counts. Bytes and texts are lists of numbers.
--
-- Not modelled: error messages, the weights and lifetimes that the cache is given for its entries,
-- the headers of responses, the YAML and JSON writers, the trie and the bytes of binary rule sets,
-- the groups of a Clash profile and its merge with the base, the exporter for sing-box, the Liquid
-- engine with the rule set tags, private subscriptions, and the handlers in src/api.rs.
pub mod Prelude
pub mod Text
pub mod Error
pub mod Model
pub mod External
pub mod Group
pub mod Json
pub mod Mrs
pub mod Parser
pub mod Export
pub mod Rules
pub mod Fetch
pub mod Config
pub mod Structured
pub mod Template
pub mod Api
pub mod Subscription
