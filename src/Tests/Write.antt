-- ===== src/Tests/Write.antt =====
-- Tests of Write.
use esodm.Prelude.{◌≡◌, ◌↔◌, some, [], pos}
use esodm.Error.{ok}
use esodm.Write.{Values, WriteOptions, wait_for, values}
use esodm.Write.Values.{Accepted, values_iff}

abbrev options : WriteOptions
options = record {
  routing = [];
  refresh = wait_for;
  if_seq_no = some (pos 0);
  if_primary_term = some (pos 1);
  pipeline = [];
}

values_iff_example : ((v : Values) × (values options ≡ ok v)) ↔ Accepted options
values_iff_example = values_iff options
