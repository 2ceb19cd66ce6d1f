-- ===== src/Fetch/Paths.antt =====
-- `secure_join`, with the paths of Unix as `std::path` takes them apart.
use easysub.Prelude.{
  ℕ, Bool, true, false, not, ◌||◌, List, [], ◌∷◌, ◌++◌, ◌==◌, if◌then◌else◌, is_empty, any,
}
use easysub.Error.{Result, ok, err, AppError}
use easysub.Text.{Str, codes, str_eq, split, starts_with_char, ends_with_char}
use easysub.Fetch.World.{Outside}

abbrev pub is_separator : ℕ → Bool
is_separator c = c == b'/'

pub data Component : Type 0 where
  root_dir cur_dir parent_dir : Component
  normal : Str → Component

-- Behind the first segment, empty segments and single dots are no components.
unfoldable pub later_components : List Str → List Component
later_components [] = []
later_components (s ∷ rest) =
    let more = later_components rest in
    if is_empty s || str_eq s (codes ".")
    then more
    else if str_eq s (codes "..")
    then parent_dir ∷ more
    else normal s ∷ more

-- The first segment is empty in an absolute path.
unfoldable pub first_component : Str → List Component
first_component s =
    if is_empty s
    then []
    else if str_eq s (codes ".")
    then cur_dir ∷ []
    else if str_eq s (codes "..")
    then parent_dir ∷ []
    else normal s ∷ []

unfoldable pub is_absolute : Str → Bool
unfolding starts_with_char
is_absolute = starts_with_char is_separator

unfoldable pub components_of : List Str → List Component
unfolding first_component later_components
components_of [] = []
components_of (s ∷ rest) = first_component s ++ later_components rest

unfoldable pub components : Str → List Component
unfolding components_of split is_absolute
components path =
    if is_absolute path
    then root_dir ∷ components_of (split is_separator path)
    else components_of (split is_separator path)

unfoldable pub is_normal : Component → Bool
is_normal (normal s) = true
is_normal _ = false

-- `Path::join`.
unfoldable pub path_join : Str → Str → Str
unfolding ends_with_char is_absolute
path_join root relative =
    if is_absolute relative || is_empty root
    then relative
    else if ends_with_char is_separator root
    then root ++ relative
    else root ++ (b'/' ∷ relative)

unfoldable pub secure_join : Outside → Str → Str → Result Str
unfolding components is_normal path_join is_absolute
secure_join outside root relative =
    let decoded = outside.percent_decode relative in
    if is_absolute decoded || any (λ c. not (is_normal c)) (components decoded)
    then err AppError.bad_request
    else ok (path_join root decoded)
