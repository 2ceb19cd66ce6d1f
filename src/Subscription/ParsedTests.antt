-- ===== src/Subscription/ParsedTests.antt =====
-- Loading a source with the real parser at a concrete text.
use easysub.Prelude.{none, some, [], false}
use easysub.Error.Yields.{Yields}
use easysub.Text.{codes}
use easysub.Json.{object, array, string, unsigned, nil, cons, end, field}
use easysub.Fetch.World.{Outside}
use easysub.Fetch.{Fetcher}
use easysub.Parser.Formats.{Formats}
use easysub.Subscription.Request.{content}
use easysub.Subscription.Load.{load_subscription_input}
use easysub.Subscription.Parsed.{AnyError, IsLoad, real_parser, load_subscription_input-grouped}

abbrev no_outside : Outside
no_outside = record {
  env_var = λ name. none;
  percent_decode = λ s. s;
  send = λ url. none;
  size_of = λ path. none;
  bytes_of = λ path. none;
  cached = λ url store. none;
  insert = λ url value store. store;
}

abbrev small_fetcher : Fetcher
small_fetcher = record { max_bytes = 8; file_share_root = codes "/srv"; enable_file_share = false }

-- A document of one node.
abbrev one_node : Formats
one_node = record {
  parse_url = λ s. none;
  form_pairs = λ s. [];
  decode = λ engine s. none;
  percent_decode = λ s. s;
  json_from_slice = λ bytes. none;
  json_to_string = λ v. none;
  yaml_from_str = λ text. some (
      object (
        field (codes "proxies")
          (array (
            cons
              (object (
                field (codes "type") (string (codes "ss")) (
                  field (codes "server") (string (codes "a.b"))
                    (field (codes "port") (unsigned 443) end))))
              nil))
          end));
}

load_subscription_input-grouped_example :
    Yields AnyError
      (IsLoad 3)
      (load_subscription_input no_outside small_fetcher
        (real_parser one_node)
        (content (codes "proxies:\n"))
        3
        60
        []).result
load_subscription_input-grouped_example =
    load_subscription_input-grouped one_node 3 no_outside small_fetcher
      (content (codes "proxies:\n")) 60 []
