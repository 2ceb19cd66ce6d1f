-- ===== src/Fetch/Escape.antt =====
-- A shared file lies below the directory of the shared files, as far as the text of its path says;
-- symbolic links are the file system's.
use easysub.Prelude.{
  ℕ, ◌≡◌, refl, sym, ◌∙◌, ap, inl, inr, Bool, true, false, not, ◌||◌, List, [], ◌∷◌, ◌++◌,
  append_assoc, arith, if◌then◌else◌, is_empty, unwrap_or, any, any-append, or-eq-false, Bool-cases,
}
use easysub.Error.{ok, result_ok}
use easysub.Text.{Str, codes, str_eq, split, onto_first, ends_with_char}
use easysub.Fetch.World.{Outside}
use easysub.Fetch.Paths.{
  Component, is_separator, is_absolute, components, components_of, first_component,
  later_components, is_normal, secure_join,
}

-- The directories that a path leads through, the last one first: empty segments and single dots
-- stay, two dots go up, where there is an up, and a name goes down.
abbrev parent : List Str → List Str
parent [] = []
parent (name ∷ up) = up

unfoldable pub step : Str → List Str → List Str
step s stack =
    if is_empty s || str_eq s (codes ".")
    then stack
    else if str_eq s (codes "..")
    then parent stack
    else s ∷ stack

abbrev pub walk : List Str → List Str → List Str
walk [] stack = stack
walk (s ∷ rest) stack = walk rest (step s stack)

abbrev pub place : Str → List Str
place path = walk (split is_separator path) []

-- Below a directory: some names more.
abbrev pub IsBelow : Str → Str → Type 0
IsBelow root path = (names : List Str) × (place path ≡ names ++ place root)

bad : List Component → Bool
bad = any (λ c. not (is_normal c))

walk-later :
    (segments stack : List Str)
    → bad (later_components segments) ≡ false
    → (names : List Str) × (walk segments stack ≡ names ++ stack)
unfolding bad later_components is_normal step
walk-later [] stack = λ h. ([], refl)
walk-later (s ∷ rest) stack = elim (Bool-cases (is_empty s || str_eq s (codes "."))) [
  | inl dot ↦ rw dot (walk-later rest stack)
  | inr named ↦ rw named (elim (Bool-cases (str_eq s (codes ".."))) [
    | inl up ↦ rw up (λ h. cc h)
    | inr down ↦ rw down (λ h.
        let (names, e) = walk-later rest (s ∷ stack) h in
        (names ++ (s ∷ []), e ∙ sym (append_assoc names (s ∷ []) stack)))
  ])
]

onto_first_cons : (c : ℕ) (ws : List Str) → (w : Str) × (vs : List Str) × (onto_first c ws ≡ w ∷ vs)
onto_first_cons c [] = (c ∷ [], [], refl)
onto_first_cons c (w ∷ ws) = (c ∷ w, ws, refl)

split_cons : (s : Str) → (w : Str) × (ws : List Str) × (split is_separator s ≡ w ∷ ws)
unfolding split
split_cons [] = ([], [], refl)
split_cons (c ∷ s) = elim (Bool-cases (is_separator c)) [
  | inl e ↦ rw e ([], split is_separator s, refl)
  | inr e ↦ rw e (onto_first_cons c (split is_separator s))
]

split-append :
    (a b : Str)
    → split is_separator (a ++ (b'/' ∷ b)) ≡ split is_separator a ++ split is_separator b
unfolding split
split-append [] b = refl
split-append (c ∷ a) b = elim (Bool-cases (is_separator c)) [
  | inl e ↦ rw e (ap (λ t. [] ∷ t) (split-append a b))
  | inr e ↦ rw (e, split-append a b) (onto_first-append c a b)
]
  where
    onto_first-append :
        (c : ℕ) (a b : Str)
        → onto_first c (split is_separator a ++ split is_separator b)
          ≡ onto_first c (split is_separator a) ++ split is_separator b
    onto_first-append c a b = let (w, ws, e) = split_cons a in rw e refl

walk-append : (ss ts stack : List Str) → walk (ss ++ ts) stack ≡ walk ts (walk ss stack)
walk-append [] ts stack = refl
walk-append (s ∷ ss) ts stack = walk-append ss ts (step s stack)

walk-first :
    (s : Str) (stack : List Str)
    → bad (first_component s) ≡ false
    → (names : List Str) × (step s stack ≡ names ++ stack)
unfolding bad first_component is_normal step
walk-first s stack = elim (Bool-cases (is_empty s)) [
  | inl none_there ↦ rw none_there (λ h. ([], refl))
  | inr named ↦ rw named (elim (Bool-cases (str_eq s (codes "."))) [
    | inl dot ↦ rw dot (λ h. cc h)
    | inr other ↦ rw other (elim (Bool-cases (str_eq s (codes ".."))) [
      | inl up ↦ rw up (λ h. cc h)
      | inr down ↦ rw down (λ h. (s ∷ [], refl))
    ])
  ])
]

walk-components :
    (segments stack : List Str)
    → bad (components_of segments) ≡ false
    → (names : List Str) × (walk segments stack ≡ names ++ stack)
unfolding components_of bad
walk-components [] stack h = ([], refl)
walk-components (s ∷ rest) stack h =
    let (here, there) =
      or-eq-false (bad (first_component s)) (bad (later_components rest)) (
        sym (any-append (λ c. not (is_normal c)) (first_component s) (later_components rest))
        ∙ h) in
    let (names, e) = walk-first s stack here in
    let (more, f) = walk-later rest (step s stack) there in
    (more ++ names, f ∙ ap (λ t. more ++ t) e ∙ sym (append_assoc more names stack))

ends_with_char_last :
    (s : Str) → ends_with_char is_separator s ≡ true → (a : Str) × (s ≡ a ++ (b'/' ∷ []))
unfolding ends_with_char
ends_with_char_last [] h = cc h
ends_with_char_last (c ∷ []) h = ([], ap (λ d. d ∷ []) (ground (arith, h)))
ends_with_char_last (c ∷ d ∷ s) h =
    let (a, e) = ends_with_char_last (d ∷ s) h in (c ∷ a, ap (λ t. c ∷ t) e)

-- A root that ends with a separator is as if it did not.
walk-separator :
    (a b : Str)
    → walk (split is_separator ((a ++ (b'/' ∷ [])) ++ b)) []
      ≡ walk (split is_separator b) (walk (split is_separator (a ++ (b'/' ∷ []))) [])
unfolding split step
walk-separator a b =
    rw
      (
        append_assoc a (b'/' ∷ []) b,
        split-append a b,
        split-append a [],
        walk-append (split is_separator a) (split is_separator b) [],
        walk-append (split is_separator a) ([] ∷ []) [],
      )
      refl

-- `path_join` of a relative path.
abbrev joined : Str → Str → Str
joined root path =
    if is_empty root
    then path
    else if ends_with_char is_separator root
    then root ++ path
    else root ++ (b'/' ∷ path)

ended-IsBelow :
    (root path : Str)
    → ends_with_char is_separator root ≡ true
    → bad (components_of (split is_separator path)) ≡ false
    → IsBelow root (root ++ path)
ended-IsBelow root path ends normal =
    let (a, e) = ends_with_char_last root ends in
    rw (e, walk-separator a path) (walk-components (split is_separator path) _ normal)

joined-IsBelow :
    (root path : Str)
    → bad (components_of (split is_separator path)) ≡ false
    → IsBelow root (joined root path)
unfolding split step
joined-IsBelow [] path normal = walk-components (split is_separator path) [] normal
joined-IsBelow (c ∷ r) path normal = elim (Bool-cases (ends_with_char is_separator (c ∷ r))) [
  | inl ends ↦ rw ends (ended-IsBelow (c ∷ r) path ends normal)
  | inr more ↦
      rw
        (
          more,
          split-append (c ∷ r) path,
          walk-append (split is_separator (c ∷ r)) (split is_separator path) [],
        )
        (walk-components (split is_separator path) _ normal)
]

ok-IsBelow : (root p path : Str) → IsBelow root p → ok p ≡ ok path → IsBelow root path
ok-IsBelow root p path h e = rw⁻¹ (ap (λ r. unwrap_or p (result_ok r)) e) h

-- A shared file that may be read lies below the root directory: its path leads to where the root's
-- leads and from there down by names only, whatever the request and the decoding of its escapes.
pub secure_join-IsBelow :
    (outside : Outside) (root relative path : Str)
    → secure_join outside root relative ≡ ok path
    → IsBelow root path
unfolding secure_join components bad
secure_join-IsBelow outside root relative path =
    let decoded = outside.percent_decode relative in
    elim (Bool-cases (is_absolute decoded)) [
      | inl absolute ↦ rw absolute (λ h. cc h)
      | inr plain ↦ rw plain (elim (Bool-cases (bad (components_of (split is_separator decoded)))) [
        | inl e ↦ rw e (λ h. cc h)
        | inr e ↦ rw e (ok-IsBelow root (joined root decoded) path (joined-IsBelow root decoded e))
      ])
    ]
