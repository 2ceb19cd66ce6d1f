-- ===== src/Json/Tests.antt =====
-- An object on small inputs.
use easysub.Prelude.{◌≡◌, refl, some}
use easysub.Text.{codes}
use easysub.Json.{unsigned, end, get, insert}

overwrites :
    get (codes "a") (insert (codes "a") (unsigned 2) (insert (codes "a") (unsigned 1) end))
    ≡ some (unsigned 2)
unfolding get insert
overwrites = refl
