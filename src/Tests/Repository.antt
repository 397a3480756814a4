-- ===== src/Tests/Repository.antt =====
-- A repository without hooks whose documents are byte strings, with and without a join field.
use esodm.Prelude.{
  ℕ, ◌≡◌, ◌↔◌, ◌⊎◌, refl, true, false, Option, none, some, [], ◌∷◌, Bytes, text, pos, is_empty,
  contains_byte, contains_any, bytes_eq,
}
use esodm.Error.{Result, ok, err, sentinel, validation, message}
use esodm.Names.{Unicode, validate_name, validate_index_name, validate_id}
use esodm.Write.{values, only_refresh, unset}
use esodm.Read.{no_options}
use esodm.Paths.{segment, path_escape, unescaped}
use esodm.Repository.Batches.{Header, header, normalize_bulk, check_bulk, bulk_body, prepare_bulk}
use esodm.Repository.BatchHeader.{IsChecked, IsHeader}
use esodm.Repository.BatchChecks.{normalize_bulk_idempotent, prepare_bulk-IsChecked}
use esodm.Bulk.{Operation, create}
use esodm.Join.{
  check_relation, has, JoinInfo, JoinJson, validate_join, relation_of, IsRelated,
  validate_join-IsRelated,
}
use esodm.Client.{Http}
use esodm.Effect.{◌>>=◌, lift}
use esodm.Repository.{Patch, Hooks, Model, Repository, no_write, no_metadata, model_options}
use esodm.Repository.Writing.{
  Prepared, prepare_document, prepare_write, write, run, write_options, apply_options, is_insert,
}
use esodm.Repository.Patching.{prepare_update, delete_document}
use esodm.Repository.Reading.{no_hit, get_with, exists_with}
use esodm.Repository.Delivery.{IsPrepared, IsDelivered, write-IsDelivered}
use esodm.Repository.Preparation.{IsReady, prepare_write-IsReady}
use esodm.Repository.Joins.{join_routing-required}

abbrev ascii : Unicode
ascii = record { to_lower = λ s. s; valid_string = λ _. true }

-- An index of questions and answers.
abbrev questions : JoinInfo
questions = record {
  field = text "kind";
  parents = text "question" ∷ [];
  children = text "answer" ∷ [];
}

-- Every document is an answer to the question "q1".
abbrev answers : JoinJson
answers = record {
  field = λ f b. ok b;
  relation = λ raw. some (text "answer", text "q1");
  string = λ b. err message;
}

abbrev no_hooks : Hooks Bytes ℕ ℕ
no_hooks = record {
  validate = none;
  before_write = none;
  after_write = none;
  after_read = none;
  before_patch = none;
  before_delete = none;
}

abbrev bytes_model : Model Bytes ℕ ℕ
bytes_model = record {
  routing = none;
  identity = none;
  stamper = none;
  updated_field = none;
  receiver = none;
  marshal = λ d. ok d;
}

abbrev silent : Http ℕ
silent = record {
  perform = λ r w. ((none, none), w);
  close_body = λ b w. w;
  observer = none;
  instrumentation = none;
  malformed = λ m p q. none;
}

abbrev pub repository : Option JoinInfo → Repository Bytes ℕ ℕ
repository join = record {
  unicode = ascii;
  major = pos 9;
  limit = 1024;
  schema = record { index = text "qa"; has_vectors = false; join = join };
  hooks = no_hooks;
  model = bytes_model;
  http = silent;
  json = record { envelope = λ b. none; cause = λ b. none; string = λ b. [] };
  join_json = answers;
  now = λ w. (w, w);
  encode_update = λ p b. ok [];
  routes = λ b. none;
  written = record { decode = λ b. (no_write, none); at_end = λ b. true };
  read = record {
    decode =
        λ b. ((record { metadata = no_metadata; source = b; routing_field = none }, true), none);
    at_end = λ b. true;
  };
}

abbrev creation : Prepared
creation = record {
  operation = create;
  method = text "PUT";
  path = text "/qa/_create/a1";
  query = (text "routing", text "q1") ∷ [];
  body = some (ok (text "{}"));
  routing = text "q1";
}

creates_answer :
    (prepare_write
      (repository (some questions))
      create
      (text "a1")
      (text "{}")
      (record (only_refresh unset) { routing = text "q1" })
      0).0
    ≡ ok creation
unfolding prepare_write ◌>>=◌ lift validate_index_name validate_name is_empty bytes_eq contains_any
    validate_id prepare_document values model_options validate_join relation_of check_relation has
    segment path_escape unescaped contains_byte
creates_answer = refl

prepare_write-IsReady_example :
    (validate_index_name ascii (text "qa") ≡ ok tt)
    × ((is_insert create ≡ true) ⊎ (validate_id ascii (text "a1") ≡ ok tt))
    × IsReady
        (repository (some questions))
        create
        (text "a1")
        (model_options none (text "{}") (record (only_refresh unset) { routing = text "q1" }))
        creation
prepare_write-IsReady_example =
    prepare_write-IsReady (repository (some questions)) create (text "a1") (text "{}")
      (record (only_refresh unset) { routing = text "q1" }) 0 creation creates_answer

write-IsDelivered_example :
    ((write (repository none) create (text "a1") (text "{}") (only_refresh unset) 0).0.1 ≡ none) ↔ (
      (p : Prepared) × (w : ℕ) × IsPrepared
        (repository none)
        create
        (text "a1")
        (text "{}")
        (only_refresh unset)
        0
        p
        w
      × IsDelivered (repository none) p w)
write-IsDelivered_example =
    write-IsDelivered (repository none) create (text "a1") (text "{}") (only_refresh unset) 0

no_given_options : write_options [] ≡ ok (only_refresh unset)
unfolding apply_options
no_given_options = refl

join_routing-required_example :
    (get_with (repository (some questions)) [] (text "a1") no_options 0
      ≡ ((no_hit (repository (some questions)) [], some (sentinel validation)), 0))
    × (exists_with (repository (some questions)) [] (text "a1") no_options 0
        ≡ ((false, some (sentinel validation)), 0))
    × (delete_document (repository (some questions)) (text "a1") [] 0
        ≡ ((no_write, some (sentinel validation)), 0))
    × (run
          (repository (some questions))
          (prepare_update (repository (some questions)) (text "a1") (ok []) (only_refresh unset) 0)
        ≡ ((no_write, some (sentinel validation)), 0))
join_routing-required_example =
    join_routing-required (repository (some questions)) [] questions (text "a1") no_options []
      (only_refresh unset) (ok []) 0 refl refl no_given_options refl

validate_join-IsRelated_example :
    (validate_join ascii answers (some questions) (text "{}") (text "q1") ≡ ok tt) ↔ (
      (r : Bytes × Bytes) × (relation_of ascii answers questions (text "{}") ≡ ok r)
      × IsRelated ascii answers questions (text "q1") r)
validate_join-IsRelated_example =
    validate_join-IsRelated ascii answers questions (text "{}") (text "q1")

-- A creation in a batch, which gets no ID.
abbrev batch_create : Operation Bytes (Patch ℕ)
batch_create = record {
  action = create;
  id = [];
  document = text "{}";
  patch = [];
  options = record (only_refresh unset) { routing = text "q1" };
}

normalizes : normalize_bulk none none batch_create ≡ ok batch_create
unfolding normalize_bulk model_options is_empty
normalizes = refl

normalize_bulk_idempotent_example : normalize_bulk none none batch_create ≡ ok batch_create
normalize_bulk_idempotent_example =
    normalize_bulk_idempotent none none batch_create batch_create normalizes

abbrev encoded_header : Header → Result Bytes
encoded_header h = ok []

abbrev batch_header : Header
batch_header = header (repository (some questions)) encoded_header batch_create

prepares :
    (prepare_bulk (repository (some questions)) encoded_header batch_create 0).0
    ≡ ok (batch_header, text "{}")
unfolding prepare_bulk check_bulk bulk_body normalize_bulk ◌>>=◌ lift validate_index_name
    validate_name is_empty bytes_eq contains_any contains_byte values model_options validate_join
    relation_of check_relation has validate_id
prepares = refl

prepare_bulk-IsChecked_example :
    (validate_index_name ascii (text "qa") ≡ ok tt)
    × ((op : Operation Bytes (Patch ℕ)) × (normalize_bulk none none batch_create ≡ ok op)
        × IsChecked (repository (some questions)) encoded_header op
        × IsHeader (repository (some questions)) encoded_header batch_header op)
prepare_bulk-IsChecked_example =
    prepare_bulk-IsChecked (repository (some questions)) encoded_header batch_create 0 batch_header
      (text "{}") prepares
