-- ===== src/Structured/Endpoints.antt =====
-- Every node of a structured subscription has a server, a port and the group asked for.
use easysub.Prelude.{
  OfSome, OfSome-bind, OfSome-any, OfSome-keep_if, OfSome-if, ℕ, ◌≡◌, refl, ◌<◌, ◌≤◌, Bool, true,
  false, ◌==◌, none, some, List, [], ◌∷◌, arith, all, is_empty, leb, leb→le,
}
use easysub.Text.{Str, codes}
use easysub.Text.Decimal.{parse_unsigned, parse_digits, is_decimal, value, u16_max}
use easysub.Json.{Fields, as_object}
use easysub.Model.{Proxy}
use easysub.Parser.Formats.{Formats}
use easysub.Parser.Fields.{parse_u16}
use easysub.Structured.Fields.{read_text, number_u64, number_upto, number_u16}
use easysub.Structured.Netch.{
  has_endpoint, only_if, netch_kind, netch_node, netch_proxy, parse_netch,
}

-- What every node of a structured subscription is to have.
unfoldable pub InGroup : ℕ → Proxy → Type 0
InGroup g p = (p.group_id ≡ g) × (is_empty p.server ≡ false) × (0 < p.port) × (p.port ≤ u16_max)

pub OfSome-only_if {ℓ} :
    {A : Type ℓ} (Q : A → Type 0) (b : Bool) (a : A) → (b ≡ true → Q a) → OfSome Q (only_if b a)
unfolding only_if
OfSome-only_if Q true a h = h refl
OfSome-only_if Q false a h = tt

pub number_u16-le :
    (fields : Fields) (keys : List Str) → OfSome (λ n. n ≤ u16_max) (number_u16 fields keys)
unfolding number_u16 number_upto
number_u16-le fields keys =
    OfSome-keep_if (λ n. leb n u16_max) (λ n. n ≤ u16_max) (number_u64 fields keys)
      (λ n h. leb→le n u16_max h)

parse_digits-le : (s : Str) → OfSome (λ n. n ≤ u16_max) (parse_digits u16_max s)
unfolding parse_digits
parse_digits-le [] = tt
parse_digits-le (c ∷ s) =
    OfSome-if (λ n. n ≤ u16_max) (all is_decimal (c ∷ s)) _ none
      (OfSome-keep_if (λ n. leb n u16_max) (λ n. n ≤ u16_max) (some (value (c ∷ s) 0))
        (λ n h. leb→le n u16_max h))
      tt

pub parse_u16-le : (s : Str) → OfSome (λ n. n ≤ u16_max) (parse_u16 s)
unfolding parse_u16 parse_unsigned
parse_u16-le [] = tt
parse_u16-le (c ∷ s) =
    OfSome-if (λ n. n ≤ u16_max) (c == b'+') (parse_digits u16_max s) (parse_digits u16_max (c ∷ s))
      (parse_digits-le s) (parse_digits-le (c ∷ s))

-- What an endpoint that is accepted is.
abbrev pub IsEndpoint : Str → ℕ → Type 0
IsEndpoint server port = (is_empty server ≡ false) × (0 < port) × (port ≤ u16_max)

pub OfSome-endpoint :
    (g : ℕ) (server : Str) (port : ℕ) (p : Proxy)
    → port ≤ u16_max
    → (p.group_id ≡ g) × (p.server ≡ server) × (p.port ≡ port)
    → OfSome (InGroup g) (only_if (has_endpoint server port) p)
unfolding has_endpoint InGroup
OfSome-endpoint g server port p le h =
    OfSome-only_if (InGroup g) (has_endpoint server port) p
      (λ e. (h.0, ground (arith, h.1), ground (arith, h.2), ground (arith, h.2)))

-- A Netch payload.
pub netch_proxy-InGroup :
    (formats : Formats) (fields : Fields) (g : ℕ)
    → OfSome (InGroup g) (netch_proxy formats fields g)
unfolding netch_proxy netch_node
netch_proxy-InGroup formats fields g = OfSome-any (InGroup g) (netch_kind fields) _ (λ kind.
    OfSome-bind (λ n. n ≤ u16_max) (InGroup g) (number_u16 fields (codes "Port" ∷ [])) _
      (number_u16-le fields (codes "Port" ∷ []))
      (λ port le.
        let server = read_text fields (codes "Hostname" ∷ []) in
        OfSome-endpoint g server port (netch_node formats fields g kind server port) le
          (refl, refl, refl)))

pub parse_netch-InGroup :
    (formats : Formats) (content : Str) (g : ℕ) → OfSome (InGroup g) (parse_netch formats content g)
unfolding parse_netch
parse_netch-InGroup formats content g =
    OfSome-any (InGroup g) (formats.json_from_slice content) _
      (λ v. OfSome-any (InGroup g) (as_object v) _ (λ fields. netch_proxy-InGroup formats fields g))
