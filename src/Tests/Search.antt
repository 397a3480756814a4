-- ===== src/Tests/Search.antt =====
-- A search of a repository, and what the construction of searches refuses.
use esodm.Prelude.{
  bytes_eq, contains_any, List, pos, is_empty, All, ◌∷◌, ℕ, ◌≡◌, ◌↔◌, refl, true, Option, none,
  some, [], Bytes, text, negsuc,
}
use esodm.Error.{Err, ok, sentinel, validation}
use esodm.Write.{Values}
use esodm.Client.{Decoder}
use esodm.Client.Typed.{Typed}
use esodm.Search.{empty_search, with_option, size, reserved, param}
use esodm.Search.Building.{Call, build, size_call, param_call, IsOpen, build-IsOpen}
use esodm.Search.Complete.{Runs}
use esodm.Search.Runs.{search-Runs}
use esodm.Search.Running.{SearchResult, no_result, search}
use esodm.Tests.Repository.{repository}

-- An official builder that fails.
abbrev failing : Option Bytes → Bytes → Values → Typed ℕ
failing i body params = record {
  build = λ w. ((none, none), w);
  compatible_with = λ v. none;
  close_request = λ r w. w;
}

abbrev found : Decoder (SearchResult Bytes)
found = record { decode = λ b. (no_result, none); at_end = λ b. true }

negative_size :
    (param (text "routing") (text "u1") (size (negsuc 0) empty_search)).error
    ≡ some (sentinel validation)
unfolding param size
negative_size = refl

abbrev run_empty : (SearchResult Bytes × Option Err) × ℕ
run_empty = search (repository none) [] (λ _. ok []) (λ _. none) failing found empty_search 0

search-Runs_example :
    (run_empty ≡ ((no_result, none), 0))
    ↔ Runs (repository none) [] (λ _. ok []) (λ _. none) failing found empty_search 0 no_result 0
search-Runs_example =
    search-Runs (repository none) [] (λ _. ok []) (λ _. none) failing found empty_search 0 no_result
      0

abbrev calls : List Call
calls = size_call (pos 5) ∷ param_call (text "routing") (text "u1") ∷ []

no_error : (build calls empty_search).error ≡ none
unfolding build size param with_option reserved is_empty bytes_eq contains_any
no_error = refl

build-IsOpen_example :
    ((build (size_call (pos 5) ∷ []) empty_search).error ≡ none)
    × All IsOpen (build calls empty_search).params
build-IsOpen_example =
    build-IsOpen (size_call (pos 5) ∷ []) (param_call (text "routing") (text "u1") ∷ []) no_error
