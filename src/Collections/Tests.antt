-- ===== src/Collections/Tests.antt =====
-- The maps of BiHashMap at concrete entries.
use splinter.Prelude.{String, ◌≡◌, refl, ◌↔◌, some, string_eq}
use splinter.Prelude.Map
use splinter.Prelude.Map.{lookup}
use splinter.Collections.BiHashMap.{
  BiHashMap, new_map, get_by_key, get_by_value, insert, remove_by_key, remove_by_value,
}
use splinter.Collections.Bijection.{
  IsBijection, IsFree, insert-IsBijection, IsRemoval, remove-IsRemoval,
}

abbrev empty : BiHashMap String String
empty = new_map

abbrev one_map : BiHashMap String String
one_map = (insert "ONE" "1" empty).1

empty-IsBijection : IsBijection empty
unfolding lookup
empty-IsBijection k v = ((λ h. cc), (λ h. cc))

one_map-IsBijection : IsBijection one_map
unfolding lookup
one_map-IsBijection =
    (insert-IsBijection "ONE" "1" empty empty-IsBijection).1 ((λ k h. cc), (λ v h. cc))

insert-IsBijection_example : IsBijection (insert "TWO" "1" one_map).1 ↔ IsFree "TWO" "1" one_map
insert-IsBijection_example = insert-IsBijection "TWO" "1" one_map one_map-IsBijection

-- The key keeps the value that another key took over.
stale_value :
    (get_by_key "ONE" (insert "TWO" "1" one_map).1 ≡ some "1")
    × (get_by_value "1" (insert "TWO" "1" one_map).1 ≡ some "TWO")
unfolding insert Map.insert lookup
stale_value = (refl, refl)

remove-IsRemoval_example :
    IsRemoval "ONE" "1" one_map (remove_by_key "ONE" one_map)
    × IsRemoval "ONE" "1" one_map (remove_by_value "1" one_map)
unfolding insert Map.insert lookup
remove-IsRemoval_example = remove-IsRemoval "ONE" "1" one_map one_map-IsBijection refl
