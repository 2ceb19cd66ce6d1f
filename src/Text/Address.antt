-- ===== src/Text/Address.antt =====
-- `str::parse::<std::net::IpAddr>`, as far as whether it succeeds.
use easysub.Prelude.{
  ℕ, ◌+◌, ◌==◌, ◌&&◌, ◌||◌, ◌≡◌, refl, Bool, true, false, not, Option, none, some, List, [], ◌∷◌,
  all, leb, length, if◌then◌else◌, is_empty, is_some, option_map,
}
use easysub.Text.{Str, codes, split, split_once, starts_with_char}
use easysub.Text.Decimal.{parse_digits}

-- A byte in decimal, without zeros in front.
unfoldable pub is_octet : Str → Bool
unfolding parse_digits starts_with_char
is_octet s =
    is_some (parse_digits 255 s) && (length s == 1 || not (starts_with_char (λ c. c == b'0') s))

unfoldable pub is_ipv4_addr : Str → Bool
unfolding split is_octet
is_ipv4_addr s = let parts = split (λ c. c == b'.') s in length parts == 4 && all is_octet parts

unfoldable pub is_hex_digit : ℕ → Bool
is_hex_digit c =
    (leb b'0' c && leb c b'9') || (leb b'a' c && leb c b'f') || (leb b'A' c && leb c b'F')

-- One to four hexadecimal digits.
unfoldable pub is_group : Str → Bool
unfolding is_hex_digit
is_group s = not (is_empty s) && leb (length s) 4 && all is_hex_digit s

-- How many groups there are; an IPv4 address counts for two and may only be the last, if at all.
unfoldable pub count_groups : Bool → List Str → Option ℕ
unfolding is_group is_ipv4_addr
count_groups last [] = some 0
count_groups last (g ∷ []) =
    if is_group g then some 1 else if last && is_ipv4_addr g then some 2 else none
count_groups last (g ∷ h ∷ rest) =
    let more = option_map (λ n. n + 1) (count_groups last (h ∷ rest)) in
    if is_group g then more else none

unfoldable pub side_groups : Bool → Str → Option ℕ
unfolding count_groups split
side_groups last s = if is_empty s then some 0 else count_groups last (split (λ c. c == b':') s)

abbrev is_short : Option ℕ → Option ℕ → Bool
is_short (some n) (some m) = leb (n + m) 7
is_short n m = false

abbrev is_eight : Option ℕ → Bool
is_eight (some n) = n == 8
is_eight none = false

-- Eight groups, or a double colon for one at least.
unfoldable pub is_ipv6_addr : Str → Bool
unfolding side_groups split_once
is_ipv6_addr s = elim (split_once (codes "::") s) [
  | none ↦ is_eight (side_groups true s)
  | some (head, tail) ↦ is_short (side_groups false head) (side_groups true tail)
]

unfoldable pub is_ip_addr : Str → Bool
unfolding is_ipv4_addr is_ipv6_addr
is_ip_addr s = is_ipv4_addr s || is_ipv6_addr s

takes_addresses :
    all is_ip_addr (
      codes "1.2.3.4"
      ∷ codes "::"
      ∷ codes "fe80::1"
      ∷ codes "::ffff:1.2.3.4"
      ∷ codes "1:2:3:4:5:6:7:8"
      ∷ [])
    ≡ true
unfolding is_ip_addr
takes_addresses = refl

refuses_others :
    all
      (λ s. not (is_ip_addr s))
      (codes "01.2.3.4"
        ∷ codes "a.b"
        ∷ codes "[::1]"
        ∷ codes ":::"
        ∷ codes "1:2:3:4:5:6:7::8"
        ∷ codes "1.2.3.256"
        ∷ [])
    ≡ true
unfolding is_ip_addr
refuses_others = refl
