-- ===== src/Structured/Tests.antt =====
-- The properties of crates/easysub-core/src/structured.rs at concrete subscriptions.
use easysub.Prelude.{OfSome, ℕ, ◌≡◌, refl, none, some, [], ◌∷◌, All, map, option_map}
use easysub.Text.{Str, codes, starts_with_char, join, trim}
use easysub.Json.{object, array, string, unsigned, nil, cons, end, field}
use easysub.Parser.Formats.{Formats}
use easysub.Structured.Surge.{split_csv, unquote}
use easysub.Structured.Csv.{IsPlain, in_quotes, split_csv-join}
use easysub.Structured.Document.{parse_structured}
use easysub.Structured.Whole.{AreNodes, parse_structured-InGroup}

abbrev surge_text : Str
surge_text = codes "[Proxy]\nA = ss, a.b, 8388, encrypt-method=x, password=\"p,q\"\nB = ss, , 1\n"

-- A document of two nodes, of which one has no port.
abbrev yaml_formats : Formats
yaml_formats = record {
  parse_url = λ s. none;
  form_pairs = λ s. [];
  decode = λ engine s. none;
  percent_decode = λ s. s;
  json_from_slice = λ bytes. none;
  json_to_string = λ v. none;
  yaml_from_str = λ text. some (
      object (
        field (codes "proxies")
          (array (
            cons
              (object (
                field (codes "type") (string (codes "ss")) (
                  field (codes "server") (string (codes "a.b"))
                    (field (codes "port") (unsigned 443) end))))
              (cons (object (field (codes "type") (string (codes "ss")) end)) nil)))
          end));
}

surge_is_read :
    option_map
      (map {B = Str × Str} (λ p. (p.name, p.password)))
      (parse_structured yaml_formats surge_text 2)
    ≡ some ((codes "A", codes "p,q") ∷ [])
unfolding parse_structured starts_with_char
surge_is_read = refl

document_is_read :
    option_map
      (map {B = Str × ℕ} (λ p. (p.name, p.port)))
      (parse_structured yaml_formats (codes "proxies:\n") 2)
    ≡ some ((codes "a.b:443", 443) ∷ [])
unfolding parse_structured starts_with_char
document_is_read = refl

some_fields-IsPlain : All IsPlain (codes "ss" ∷ codes "p,q'r" ∷ [])
unfolding unquote trim
some_fields-IsPlain = ((refl, refl), ((refl, refl), tt))

parse_structured-InGroup_example : OfSome (AreNodes 2) (parse_structured yaml_formats surge_text 2)
parse_structured-InGroup_example = parse_structured-InGroup yaml_formats 2 surge_text

split_csv-join_example :
    split_csv (join (codes ",") (map in_quotes (codes "ss" ∷ codes "p,q'r" ∷ [])))
    ≡ codes "ss" ∷ codes "p,q'r" ∷ []
split_csv-join_example = split_csv-join (codes "ss") (codes "p,q'r" ∷ []) some_fields-IsPlain
