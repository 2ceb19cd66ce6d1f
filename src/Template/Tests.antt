-- ===== src/Template/Tests.antt =====
-- The variables and the durations of templates at concrete values.
use easysub.Prelude.{◌≡◌, refl, none, some, is_some, [], ◌∷◌}
use easysub.Text.{codes}
use easysub.Json.{string, object, end, insert}
use easysub.Template.{insert_parts, insert_dotted, template_root, format_duration}
use easysub.Template.Dotted.{get_path, is_open, insert_parts-get_path, insert_parts-is_open}

a_scalar_blocks :
    insert_dotted
      (codes "clash.dns")
      (string (codes "x"))
      (insert (codes "clash") (string (codes "y")) end)
    ≡ none
unfolding insert_dotted insert
a_scalar_blocks = refl

is_inserted :
    insert_parts (codes "a" ∷ codes "b" ∷ []) (string (codes "x")) end
    ≡ some (insert (codes "a") (object (insert (codes "b") (string (codes "x")) end)) end)
unfolding insert_parts insert
is_inserted = refl

a_day : format_duration 432000 ≡ codes "5d"
unfolding format_duration
a_day = refl

insert_parts-get_path_example :
    get_path
      (codes "a" ∷ codes "b" ∷ [])
      (object (insert (codes "a") (object (insert (codes "b") (string (codes "x")) end)) end))
    ≡ some (string (codes "x"))
insert_parts-get_path_example =
    insert_parts-get_path (codes "a" ∷ codes "b" ∷ []) (string (codes "x")) end
      (insert (codes "a") (object (insert (codes "b") (string (codes "x")) end)) end) refl
      is_inserted

insert_parts-is_open_example :
    is_some (
      insert_parts
        (codes "a" ∷ codes "b" ∷ [])
        (string (codes "x"))
        (insert (codes "a") (string (codes "y")) end))
    ≡ is_open (codes "a" ∷ codes "b" ∷ []) (object (insert (codes "a") (string (codes "y")) end))
insert_parts-is_open_example =
    insert_parts-is_open (codes "a" ∷ codes "b" ∷ []) (string (codes "x"))
      (insert (codes "a") (string (codes "y")) end)

a_query_may_panic :
    template_root ((codes "clash", codes "x") ∷ (codes "clash.dns", codes "y") ∷ []) [] ≡ none
unfolding template_root
a_query_may_panic = refl
