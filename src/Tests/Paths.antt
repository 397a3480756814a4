-- ===== src/Tests/Paths.antt =====
-- The document "a/b" of the index "ev-1", and the escaping of an ID.
use esodm.Prelude.{
  ◌<◌, ◌≡◌, ◌≢◌, refl, true, some, All, text, arith, contains_byte, contains_any, is_empty,
  bytes_eq,
}
use esodm.Error.{ok}
use esodm.Names.{Unicode, validate_name, validate_index_name, validate_id}
use esodm.Paths.{
  segment, path_unescape, check_path, document_path, document_operation, request_operation,
  unescaped, path_escape,
}
use esodm.Paths.Segments.{IsInside, segment-path_unescape}
use esodm.Paths.Operations.{document_path-Accepted}

abbrev ascii : Unicode
ascii = record { to_lower = λ s. s; valid_string = λ _. true }

small_id : All (λ c. c < 256) (text "a/b")
small_id = (omega arith, (omega arith, (omega arith, tt)))

small_index : All (λ c. c < 256) (text "ev-1")
small_index = (omega arith, (omega arith, (omega arith, (omega arith, tt))))

index_accepted : validate_index_name ascii (text "ev-1") ≡ ok tt
unfolding validate_index_name validate_name is_empty bytes_eq contains_any contains_byte
index_accepted = refl

id_accepted : validate_id ascii (text "a/b") ≡ ok tt
unfolding validate_id is_empty
id_accepted = refl

segment_escapes : segment (text "a/b") ≡ text "a%2Fb"
unfolding segment bytes_eq path_escape unescaped contains_byte
segment_escapes = refl

segment-path_unescape_example :
    All IsInside (segment (text "a/b"))
    × (segment (text "a/b") ≢ text ".")
    × (segment (text "a/b") ≢ text "..")
    × (path_unescape (segment (text "a/b")) ≡ some (text "a/b"))
segment-path_unescape_example = segment-path_unescape (text "a/b") small_id

document_path-Accepted_example :
    (check_path (document_path (text "ev-1") (text "a/b")) ≡ ok tt)
    × (request_operation (text "HEAD") (document_path (text "ev-1") (text "a/b"))
        ≡ (document_operation (text "HEAD"), text "ev-1"))
document_path-Accepted_example =
    document_path-Accepted ascii (text "HEAD") (text "ev-1") (text "a/b") small_index small_id
      index_accepted id_accepted
