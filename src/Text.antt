-- ===== src/Text.antt =====
-- Texts as lists of characters, and the operations of Rust's `str` that the program calls.
pub mod Decimal
pub mod Chars
pub mod Begins
pub mod Address
pub mod Utf8
pub mod Signed
use Prim.Native.Char.{code}
use easysub.Prelude.{
  ℕ, zero, suc, ◌+◌, ◌-◌, ◌*◌, ◌≤◌, ◌≡◌, refl, Bool, true, false, not, ◌&&◌, ◌||◌, Option, none,
  some, List, [], ◌∷◌, ◌++◌, map, String, leb, ltb, ◌==◌, if◌then◌else◌, length, is_empty, all, any,
  list_same, nat_key, is_some, option_map, find_map,
}

abbrev pub Str : Type 0
Str = List ℕ

-- The characters of a literal.
abbrev pub codes : String → Str
codes String.[] = []
codes (String.◌∷◌ c s) = code c ∷ codes s

abbrev pub str_eq : Str → Str → Bool
str_eq = list_same

-- `matches!(value, "a" | "b" | …)` and `[…].contains(&value)`.
unfoldable pub one_of : List Str → Str → Bool
one_of names s = any (str_eq s) names

-- `char::is_whitespace`: Unicode's White_Space.
unfoldable pub is_whitespace : ℕ → Bool
is_whitespace c =
    (leb 9 c && leb c 13)
    || c == 32
    || c == 0x85
    || c == 0xa0
    || c == 0x1680
    || (leb 0x2000 c && leb c 0x200a)
    || c == 0x2028
    || c == 0x2029
    || c == 0x202f
    || c == 0x205f
    || c == 0x3000

unfoldable pub is_digit : ℕ → Bool
is_digit c = leb b'0' c && leb c b'9'

unfoldable pub is_ascii_alphanumeric : ℕ → Bool
unfolding is_digit
is_ascii_alphanumeric c = is_digit c || (leb b'a' c && leb c b'z') || (leb b'A' c && leb c b'Z')

unfoldable pub lower_char : ℕ → ℕ
lower_char c = if leb b'A' c && leb c b'Z' then c + 32 else c

unfoldable pub upper_char : ℕ → ℕ
upper_char c = if leb b'a' c && leb c b'z' then c - 32 else c

unfoldable pub to_ascii_lowercase : Str → Str
unfolding lower_char
to_ascii_lowercase = map lower_char

unfoldable pub to_ascii_uppercase : Str → Str
unfolding upper_char
to_ascii_uppercase = map upper_char

unfoldable pub eq_ignore_ascii_case : Str → Str → Bool
unfolding to_ascii_lowercase
eq_ignore_ascii_case s t = str_eq (to_ascii_lowercase s) (to_ascii_lowercase t)

unfoldable pub strip_prefix : Str → Str → Option Str
strip_prefix [] s = some s
strip_prefix (p ∷ ps) [] = none
strip_prefix (p ∷ ps) (c ∷ s) = let rest = strip_prefix ps s in if p == c then rest else none

unfoldable pub starts_with : Str → Str → Bool
unfolding strip_prefix
starts_with p s = is_some (strip_prefix p s)

unfoldable pub starts_with_char : (ℕ → Bool) → Str → Bool
starts_with_char p [] = false
starts_with_char p (c ∷ s) = p c

unfoldable pub ends_with_char : (ℕ → Bool) → Str → Bool
ends_with_char p [] = false
ends_with_char p (c ∷ []) = p c
ends_with_char p (c ∷ d ∷ s) = ends_with_char p (d ∷ s)

-- `strip_suffix` of one character.
unfoldable pub strip_suffix_char : ℕ → Str → Option Str
strip_suffix_char x [] = none
strip_suffix_char x (c ∷ []) = if c == x then some [] else none
strip_suffix_char x (c ∷ d ∷ s) = option_map (λ t. c ∷ t) (strip_suffix_char x (d ∷ s))

-- `str::contains` of a non-empty text.
unfoldable pub contains_str : Str → Str → Bool
unfolding starts_with
contains_str p [] = is_empty p
contains_str p (c ∷ s) = starts_with p (c ∷ s) || contains_str p s

-- `str::contains` of characters.
unfoldable pub contains_char : (ℕ → Bool) → Str → Bool
contains_char = any

unfoldable pub trim_start_by : (ℕ → Bool) → Str → Str
trim_start_by p [] = []
trim_start_by p (c ∷ s) = let rest = trim_start_by p s in if p c then rest else c ∷ s

unfoldable pub trim_end_by : (ℕ → Bool) → Str → Str
trim_end_by p [] = []
trim_end_by p (c ∷ s) = let rest = trim_end_by p s in if is_empty rest && p c then [] else c ∷ rest

-- `trim_matches` of characters.
unfoldable pub trim_by : (ℕ → Bool) → Str → Str
unfolding trim_start_by trim_end_by
trim_by p s = trim_end_by p (trim_start_by p s)

unfoldable pub trim : Str → Str
unfolding trim_by is_whitespace
trim = trim_by is_whitespace

-- `trim_start_matches` of a non-empty text: a prefix is taken off as often as there is one.
strip_all : ℕ → Str → Str → Str
unfolding strip_prefix
strip_all zero p s = s
strip_all (suc fuel) p s = elim (strip_prefix p s) [ none ↦ s | some rest ↦ strip_all fuel p rest ]

unfoldable pub trim_start_matches : Str → Str → Str
unfolding strip_all
trim_start_matches p s = strip_all (length s) p s

-- `split` at characters: always one part at least.
abbrev pub onto_first : ℕ → List Str → List Str
onto_first c [] = (c ∷ []) ∷ []
onto_first c (w ∷ ws) = (c ∷ w) ∷ ws

unfoldable pub split : (ℕ → Bool) → Str → List Str
split p [] = [] ∷ []
split p (c ∷ s) = let rest = split p s in if p c then [] ∷ rest else onto_first c rest

abbrev in_front : ℕ → Str × Str → Str × Str
in_front c (a, b) = (c ∷ a, b)

-- `split_once` at a non-empty text.
unfoldable pub split_once : Str → Str → Option (Str × Str)
unfolding strip_prefix
split_once p [] = none
split_once p (c ∷ s) = elim (strip_prefix p (c ∷ s)) [
  | some rest ↦ some ([], rest)
  | none ↦ option_map (in_front c) (split_once p s)
]

-- `rsplit_once` at one character.
unfoldable pub rsplit_once : ℕ → Str → Option (Str × Str)
rsplit_once x [] = none
rsplit_once x (c ∷ s) = elim (rsplit_once x s) [
  | some (a, b) ↦ some (c ∷ a, b)
  | none ↦ if c == x then some ([], s) else none
]

drop_cr : Str → Str
unfolding strip_suffix_char
drop_cr s = elim (strip_suffix_char 13 s) [ none ↦ s | some t ↦ t ]

-- The last piece is a line unless it is empty, and keeps its carriage return.
end_lines : List Str → List Str
unfolding drop_cr
end_lines [] = []
end_lines (w ∷ []) = if is_empty w then [] else w ∷ []
end_lines (w ∷ v ∷ ws) = drop_cr w ∷ end_lines (v ∷ ws)

unfoldable pub lines : Str → List Str
unfolding split end_lines
lines s = end_lines (split (λ c. c == 10) s)

-- `join`.
unfoldable pub join : Str → List Str → Str
join sep [] = []
join sep (w ∷ []) = w
join sep (w ∷ v ∷ ws) = w ++ (sep ++ join sep (v ∷ ws))

-- `replace` of one character by another.
unfoldable pub replace_char : ℕ → ℕ → Str → Str
replace_char x y = map (λ c. if c == x then y else c)

-- `value.into_iter().find_map` over a table of prefixes.
unfoldable pub strip_first {ℓ} : {A : Type ℓ} → List (Str × A) → Str → Option (A × Str)
unfolding strip_prefix
strip_first table s =
    find_map (λ row. option_map (λ rest. (row.1, rest)) (strip_prefix row.0 s)) table

lines_runs : lines (codes "a\r\nb\n") ≡ codes "a" ∷ codes "b" ∷ []
unfolding lines
lines_runs = refl

split_once_runs : split_once (codes "!!") (codes "a!!b!!c") ≡ some (codes "a", codes "b!!c")
unfolding split_once
split_once_runs = refl
