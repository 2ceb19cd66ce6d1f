-- ===== src/Text/Utf8.antt =====
-- `String::from_utf8`: the characters of bytes, or none where they are no UTF-8.
use easysub.Prelude.{
  ℕ, suc, zero, ◌+◌, ◌-◌, ◌*◌, ◌==◌, ◌&&◌, ◌≡◌, refl, true, false, Option, none, some, List, [],
  ◌∷◌, leb, ltb, if◌then◌else◌, option_map,
}
use easysub.Text.{Str}

-- The middle of a character: its bits so far, how many bytes come behind the next, and the bounds of the
-- next, which keep out the long forms, the surrogates and what is above the last character.
pub record Pending : Type 0 where
  pub bits : ℕ
  pub behind : ℕ
  pub low : ℕ
  pub high : ℕ

abbrev pub pending : ℕ → ℕ → ℕ → ℕ → Option Pending
pending bits behind low high =
    some (record { bits = bits; behind = behind; low = low; high = high })

-- A first byte that does not stand alone.
unfoldable pub lead_byte : ℕ → Option Pending
lead_byte b =
    if leb 0xc2 b && leb b 0xdf
    then pending (b - 0xc0) 0 0x80 0xbf
    else if b == 0xe0
    then pending 0 1 0xa0 0xbf
    else if b == 0xed
    then pending 13 1 0x80 0x9f
    else if leb 0xe1 b && leb b 0xef
    then pending (b - 0xe0) 1 0x80 0xbf
    else if b == 0xf0
    then pending 0 2 0x90 0xbf
    else if b == 0xf4
    then pending 4 2 0x80 0x8f
    else if leb 0xf1 b && leb b 0xf3
    then pending (b - 0xf0) 2 0x80 0xbf
    else none

unfoldable pub decode_bytes : Option Pending → List ℕ → Option Str
unfolding lead_byte
decode_bytes none [] = some []
decode_bytes (some p) [] = none
decode_bytes none (b ∷ rest) = elim (ltb b 0x80) [
  | true ↦ option_map (λ s. b ∷ s) (decode_bytes none rest)
  | false ↦ elim (lead_byte b) [ none ↦ none | some p ↦ decode_bytes (some p) rest ]
]
decode_bytes (some p) (b ∷ rest) = elim (leb p.low b && leb b p.high) [
  | false ↦ none
  | true ↦ elim p.behind [
    | zero ↦ option_map (λ s. (p.bits * 64 + (b - 0x80)) ∷ s) (decode_bytes none rest)
    | suc k ↦ decode_bytes (pending (p.bits * 64 + (b - 0x80)) k 0x80 0xbf) rest
  ]
]

unfoldable pub from_utf8 : List ℕ → Option Str
unfolding decode_bytes
from_utf8 bytes = decode_bytes none bytes

decodes :
    from_utf8 (0x61 ∷ 0xc3 ∷ 0xa9 ∷ 0xe2 ∷ 0x82 ∷ 0xac ∷ 0xf0 ∷ 0x9f ∷ 0x98 ∷ 0x80 ∷ [])
    ≡ some (0x61 ∷ 0xe9 ∷ 0x20ac ∷ 0x1f600 ∷ [])
unfolding from_utf8
decodes = refl

refuses_a_surrogate : from_utf8 (0xed ∷ 0xa0 ∷ 0x80 ∷ []) ≡ none
unfolding from_utf8
refuses_a_surrogate = refl
