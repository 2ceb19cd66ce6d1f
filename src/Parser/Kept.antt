-- ===== src/Parser/Kept.antt =====
-- A text that looks like a proxy begins with what `dispatch` knows, also once it is trimmed and its
-- tag is taken off.
use easysub.Prelude.{
  ℕ, ◌≡◌, refl, sym, ◌∙◌, ap, Bool, true, false, not, ◌&&◌, ◌||◌, ◌==◌, List, [], ◌∷◌, arith, any,
  any-append, ◌++◌, all, is_empty, list_same_iff, nat_key,
}
use easysub.Text.{Str, codes, str_eq, starts_with, trim, is_whitespace}
use easysub.Text.Begins.{clash, strip_prefix-clash, starts_with-trim_by}
use easysub.Parser.Vmess.{trim_quotes}
use easysub.Parser.Node.{begins, untag, link_prefixes, looks_like_proxy}
use easysub.Parser.Recognised.{known_prefixes, is_known}

abbrev is_double_quote : ℕ → Bool
is_double_quote c = c == b'"'

-- A beginning that trimming does not touch, and that no tag has.
abbrev is_firm : Str → Bool
is_firm p =
    not (any is_whitespace p)
    && not (any is_double_quote p)
    && not (is_empty p)
    && clash p (codes "tag:")

untag-kept : (p s : Str) → starts_with p s ≡ true → clash p (codes "tag:") ≡ true → untag s ≡ s
unfolding untag
untag-kept p s h k = rw (strip_prefix-clash p (codes "tag:") s h k) refl

abbrev pub cleaned : Str → Str
cleaned s = untag (trim_quotes (trim s))

firm_kept :
    (p s : Str)
    → starts_with p s ≡ true
    → any is_whitespace p ≡ false
    → any is_double_quote p ≡ false
    → is_empty p ≡ false
    → clash p (codes "tag:") ≡ true
    → starts_with p (cleaned s) ≡ true
unfolding trim trim_quotes
firm_kept p s h w q n k =
    let trimmed =
      starts_with-trim_by is_double_quote p (trim s) (starts_with-trim_by is_whitespace p s h w n) q
        n in
    rw (untag-kept p (trim_quotes (trim s)) trimmed k) trimmed

begins-cleaned :
    (ps : List Str) (s : Str)
    → all is_firm ps ≡ true
    → begins s ps ≡ true
    → begins (cleaned s) ps ≡ true
begins-cleaned [] s f h = cc
begins-cleaned (p ∷ ps) s f h = ground (arith, begins-cleaned ps s, firm_kept p s)

-- Whatever begins with one of the first texts begins with one of the second.
any_same :
    (p : Str) (qs : List Str) (s : Str)
    → any (str_eq p) qs ≡ true
    → starts_with p s ≡ true
    → begins s qs ≡ true
any_same p [] s h k = cc
any_same p (q ∷ qs) s h k = ground (
  arith,
  any_same p qs s,
  λ (e : str_eq p q ≡ true). ap (λ x. starts_with x s) ((list_same_iff p q).0 e),
)

begins-subset :
    (ps qs : List Str) (s : Str)
    → all (λ p. any (str_eq p) qs) ps ≡ true
    → begins s ps ≡ true
    → begins s qs ≡ true
begins-subset [] qs s f h = cc
begins-subset (p ∷ ps) qs s f h = ground (arith, begins-subset ps qs s, any_same p qs s)

abbrev concat : List (List Str) → List Str
concat [] = []
concat (g ∷ gs) = g ++ concat gs

begins-concat : (gs : List (List Str)) (s : Str) → begins s (concat gs) ≡ any (begins s) gs
begins-concat [] s = refl
begins-concat (g ∷ gs) s =
    any-append (λ p. starts_with p s) g (concat gs) ∙ ap (λ b. begins s g || b) (begins-concat gs s)

-- A link that begins with what `looks_like_proxy` asks for is known.
pub looks_like_proxy-is_known : (s : Str) → looks_like_proxy s ≡ true → is_known s ≡ true
unfolding looks_like_proxy is_known
looks_like_proxy-is_known s h =
    sym (begins-concat known_prefixes s)
    ∙ begins-subset link_prefixes (concat known_prefixes) s refl h

pub looks_like_proxy-cleaned :
    (s : Str) → looks_like_proxy s ≡ true → looks_like_proxy (cleaned s) ≡ true
unfolding looks_like_proxy is_whitespace clash
looks_like_proxy-cleaned s h = begins-cleaned link_prefixes s refl h
