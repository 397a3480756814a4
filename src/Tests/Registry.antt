-- ===== src/Tests/Registry.antt =====
-- A registry of one index, and the addition of another one and of a duplicate.
use esodm.Prelude.{
  ℕ, ◌≡◌, ◌⊎◌, refl, true, none, some, List, [], ◌∷◌, ◌++◌, map, text, is_empty, contains_any,
  contains_byte, bytes_eq,
}
use esodm.Error.{Err}
use esodm.Names.{Unicode, validate_name, validate_index_name}
use esodm.Join.{has}
use esodm.Registry.{Ensurer, indexes, check_entries, add}
use esodm.Registry.Distinct.{IsRegistered, add-IsRegistered}

abbrev ascii : Unicode
ascii = record { to_lower = λ s. s; valid_string = λ _. true }

abbrev users : Ensurer ℕ
users = record { index = text "users"; ensure = λ w. (none, w) }

abbrev posts : Ensurer ℕ
posts = record { index = text "posts"; ensure = λ w. (none, w) }

users-IsRegistered : IsRegistered ascii (users ∷ [])
unfolding validate_index_name validate_name indexes has is_empty contains_any contains_byte bytes_eq
users-IsRegistered = ((refl, tt), (refl, tt))

duplicate_refused : (add ascii (users ∷ []) (some posts ∷ some users ∷ [])).0 ≡ users ∷ []
unfolding add check_entries validate_index_name validate_name is_empty bytes_eq contains_any has
    indexes
duplicate_refused = refl

add-IsRegistered_example :
    ((new : List (Ensurer ℕ)) × ((some posts ∷ []) ≡ map some new)
      × IsRegistered ascii ((users ∷ []) ++ new)
      × (add ascii (users ∷ []) (some posts ∷ []) ≡ ((users ∷ []) ++ new, none)))
    ⊎ ((c : Err) × (add ascii (users ∷ []) (some posts ∷ []) ≡ (users ∷ [], some c))
        × ¬ (
            (new : List (Ensurer ℕ)) × ((some posts ∷ []) ≡ map some new)
            × IsRegistered ascii ((users ∷ []) ++ new)))
add-IsRegistered_example = add-IsRegistered ascii (users ∷ []) (some posts ∷ []) users-IsRegistered
