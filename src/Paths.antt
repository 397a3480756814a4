-- ===== src/Paths.antt =====
-- client.go: the paths of requests, and the names that telemetry gives to them.
pub mod Segments
pub mod Operations
use esodm.Prelude.{
  ℕ, zero, suc, ◌+◌, ◌-◌, ◌*◌, ◌/◌, ◌%◌, Bool, true, false, not, ◌&&◌, ◌||◌, Option, none, some,
  List, [], ◌∷◌, ◌++◌, Bytes, text, bytes_eq, is_empty, contains_byte, contains_any, has_prefix,
  split, ltb, leb, ◌==◌, if◌then◌else◌,
}
use esodm.Error.{Result, ok, err, reject, validation}

-- A byte that url.PathEscape keeps.
unfoldable pub unescaped : ℕ → Bool
unescaped c =
    (leb 97 c && leb c 122)
    || (leb 65 c && leb c 90)
    || (leb 48 c && leb c 57)
    || contains_byte (text "-_.~$&+=:@") c

abbrev pub hex_digit : ℕ → ℕ
hex_digit n = if ltb n 10 then 48 + n else 55 + n

abbrev pub escaped : ℕ → Bytes
escaped c = b'%' ∷ hex_digit (c / 16) ∷ hex_digit (c % 16) ∷ []

-- url.PathEscape
unfoldable pub path_escape : Bytes → Bytes
path_escape [] = []
path_escape (c ∷ s) =
    let rest = path_escape s in if unescaped c then c ∷ rest else escaped c ++ rest

-- What url.PathUnescape has read of an escape: nothing, its percent sign, or also its first digit.
pub data Escape : Type 0 where
  outside after_percent : Escape
  after_digit : ℕ → Escape

abbrev pub unhex : ℕ → Option ℕ
unhex c =
    if leb 48 c && leb c 57
    then some (c - 48)
    else if leb 97 c && leb c 102
    then some (c - 87)
    else if leb 65 c && leb c 70
    then some (c - 55)
    else none

abbrev pub push : ℕ → Option Bytes → Option Bytes
push c none = none
push c (some s) = some (c ∷ s)

unfoldable pub unescape_from : Escape → Bytes → Option Bytes
unescape_from outside [] = some []
unescape_from outside (c ∷ s) =
    let inside = unescape_from after_percent s in
    let rest = unescape_from outside s in if c == b'%' then inside else push c rest
unescape_from after_percent [] = none
unescape_from after_percent (c ∷ s) = elim (unhex c) [
  | none ↦ none
  | some high ↦ unescape_from (after_digit high) s
]
unescape_from (after_digit high) [] = none
unescape_from (after_digit high) (c ∷ s) =
    let rest = unescape_from outside s in
    elim (unhex c) [ none ↦ none | some low ↦ push (high * 16 + low) rest ]

-- url.PathUnescape
unfoldable pub path_unescape : Bytes → Option Bytes
path_unescape s = unescape_from outside s

-- index, _ := url.PathUnescape(s)
abbrev pub or_empty : Option Bytes → Bytes
or_empty none = []
or_empty (some s) = s

-- segment
unfoldable pub segment : Bytes → Bytes
segment s =
    if bytes_eq s (text ".")
    then text "%2E"
    else if bytes_eq s (text "..")
    then text "%2E%2E"
    else path_escape s

-- The test of an API path in Client.request.
unfoldable pub check_path : Bytes → Result (Unit {0})
check_path path =
    reject
      (not (has_prefix path (text "/"))
        || has_prefix path (text "//")
        || contains_any path (b'?' ∷ b'#' ∷ 13 ∷ 10 ∷ []))
      validation

-- strings.Trim(s, "/")
unfoldable pub trim_left : Bytes → Bytes
trim_left [] = []
trim_left (c ∷ s) = let rest = trim_left s in if c == b'/' then rest else c ∷ s

unfoldable pub trim_right : Bytes → Bytes
trim_right [] = []
trim_right (c ∷ s) =
    let rest = trim_right s in if is_empty rest && (c == b'/') then [] else c ∷ rest

abbrev pub last_part : Bytes → List Bytes → Bytes
last_part p [] = p
last_part p (q ∷ rest) = last_part q rest

-- The first switch, for a path of one part; none where it has no case.
unfoldable pub root_operation : Bytes → Option Bytes
root_operation p =
    if is_empty p
    then some (text "info")
    else if bytes_eq p (text "_bulk")
    then some (text "bulk")
    else if bytes_eq p (text "_msearch")
    then some (text "msearch")
    else if bytes_eq p (text "_mget")
    then some (text "mget")
    else if bytes_eq p (text "_search")
    then some (text "search")
    else if bytes_eq p (text "_pit")
    then some (text "pit.close")
    else if bytes_eq p (text "_reindex")
    then some (text "reindex")
    else none

abbrev pub several : List Bytes → Bool
several (q ∷ r ∷ rest) = true
several _ = false

-- The second switch, for a first part that starts with an underscore.
unfoldable pub system_operation : Bytes → List Bytes → Option Bytes
system_operation p rest =
    if bytes_eq p (text "_tasks")
    then (if several rest && bytes_eq (last_part p rest) (text "_cancel")
        then some (text "tasks.cancel")
        else some (text "tasks.get"))
    else if bytes_eq p (text "_aliases")
    then some (text "aliases")
    else if bytes_eq p (text "_index_template")
    then some (text "template.index")
    else if bytes_eq p (text "_component_template")
    then some (text "template.component")
    else if bytes_eq p (text "_data_stream")
    then some (text "data_stream")
    else if bytes_eq p (text "_ilm")
    then some (text "ilm.policy")
    else if bytes_eq p (text "_ingest")
    then (if bytes_eq (last_part p rest) (text "_simulate")
        then some (text "pipeline.simulate")
        else some (text "pipeline"))
    else none

-- The switch over the method of a document request.
unfoldable pub document_operation : Bytes → Bytes
document_operation method =
    if bytes_eq method (text "GET")
    then text "get"
    else if bytes_eq method (text "HEAD")
    then text "exists"
    else if bytes_eq method (text "DELETE")
    then text "delete"
    else text "index"

-- The cases of the third switch that name one operation each.
abbrev pub index_table : List (Bytes × Bytes)
index_table =
    (text "_update_by_query", text "update_by_query")
    ∷ (text "_delete_by_query", text "delete_by_query")
    ∷ (text "_mapping", text "mapping")
    ∷ (text "_settings", text "settings")
    ∷ (text "_refresh", text "refresh")
    ∷ (text "_alias", text "aliases")
    ∷ (text "_rollover", text "rollover")
    ∷ (text "_ilm", text "ilm.explain")
    ∷ (text "_mget", text "mget")
    ∷ (text "_msearch", text "msearch")
    ∷ (text "_bulk", text "bulk")
    ∷ (text "_create", text "create")
    ∷ (text "_update", text "update")
    ∷ (text "_search", text "search")
    ∷ (text "_count", text "count")
    ∷ (text "_pit", text "pit.open")
    ∷ []

unfoldable pub find_case : Bytes → List (Bytes × Bytes) → Option Bytes
find_case p [] = none
find_case p ((k, name) ∷ rest) =
    let later = find_case p rest in if bytes_eq p k then some name else later

-- The third switch, for an index and what follows it.
unfoldable pub index_operation : Bytes → Bytes → Option Bytes
index_operation method p =
    if bytes_eq p (text "_doc") then some (document_operation method) else find_case p index_table

abbrev pub or_admin : Bytes → Option Bytes → Bytes × Bytes
or_admin index (some name) = (name, index)
or_admin index none = (text "admin", [])

-- A switch that may fall through.
abbrev pub or_else : Option Bytes → Option Bytes → Option Bytes
or_else (some name) later = some name
or_else none later = later

-- requestOperation for the parts of a path.
unfoldable pub parts_operation : Bytes → List Bytes → Bytes × Bytes
parts_operation method [] = (text "admin", [])
parts_operation method (p ∷ []) =
    or_admin []
      (or_else (root_operation p) (if has_prefix p (text "_") then system_operation p [] else none))
parts_operation method (p ∷ q ∷ rest) =
    if has_prefix p (text "_")
    then or_admin [] (system_operation p (q ∷ rest))
    else or_admin (or_empty (path_unescape p)) (index_operation method q)

-- requestOperation of a method and an escaped path: the operation and the index
unfoldable pub request_operation : Bytes → Bytes → Bytes × Bytes
request_operation method path = parts_operation method (split b'/' (trim_right (trim_left path)))

-- "/" + segment(index) + "/_doc/" + segment(id)
unfoldable pub document_path : Bytes → Bytes → Bytes
document_path index id = text "/" ++ (segment index ++ (text "/_doc/" ++ segment id))
