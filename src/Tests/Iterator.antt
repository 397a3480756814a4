-- ===== src/Tests/Iterator.antt =====
-- Tests of Iterator on a server with two pages.
use esodm.Prelude.{
  ℕ, zero, suc, ◌≡◌, refl, inl, false, Option, some, none, List, [], ◌∷◌, ◌++◌, Bytes, text,
  bytes_eq, is_empty, arith,
}
use esodm.Error.{Err, ok}
use esodm.Iterator.{Hit, Iterator, Server, next}
use esodm.Iterator.Ownership.{
  CountsReleases, Owned, Advanced, next-Advanced, run, run-Owned, next_call, close_call,
}
use esodm.Iterator.Paging.{Delivers, each-Delivers, page, last_page}
use esodm.Iterator.Cursors.{Cursor, Codec, Documented, encode_cursor, decode_cursor, decode-encode}

abbrev hit : ℕ → Hit ℕ
hit n = record { source = n; sort = (n ∷ []) ∷ [] }

abbrev flat : List Bytes → Bytes
flat [] = []
flat (v ∷ vs) = v ++ 44 ∷ flat vs

-- The searches answered and the points in time released.
abbrev State : Type 0
State = ℕ × ℕ

abbrev answer : Bytes → Option (List Bytes) → State → ((Bytes × List (Hit ℕ)) × Option Err) × State
answer pit after (zero, d) = (((text "b", hit 7 ∷ hit 8 ∷ []), none), (1, d))
answer pit after (suc zero, d) = ((([], hit 9 ∷ []), none), (2, d))
answer pit after (suc (suc k), d) = ((([], []), none), (suc (suc k), d))

abbrev server : Server ℕ
server = record {
  World = State;
  ctx_err = λ _. none;
  marshal = flat;
  search = answer;
  delete_pit = λ _ w. (none, (w.0, suc (w.1)));
}

abbrev opened : Iterator ℕ
opened = record {
  pit = text "a";
  page = [];
  position = 0;
  current = none;
  after = [];
  error = none;
  closed = false;
  started = false;
}

abbrev releases : State → ℕ
releases w = w.1

counts_search :
    (pit : Bytes) (after : Option (List Bytes)) (w : State)
    → releases ((answer pit after w).1) ≡ releases w
counts_search pit after (zero, d) = refl
counts_search pit after (suc zero, d) = refl
counts_search pit after (suc (suc k), d) = refl

counting : CountsReleases server releases
counting = record { by_search = counts_search; by_delete = λ _ _. refl }

next-Advanced_example : Advanced server releases counting 0 (next server opened (0, 0))
next-Advanced_example =
    next-Advanced server releases counting 0 opened (0, 0) (inl (refl, refl, refl))

run-Owned_example :
    Owned server releases counting 0
      ((run server releases counting
        (next_call ∷ close_call ∷ next_call ∷ close_call ∷ [])
        opened
        (0, 0)).0)
      ((run server releases counting
        (next_call ∷ close_call ∷ next_call ∷ close_call ∷ [])
        opened
        (0, 0)).1)
run-Owned_example =
    run-Owned server releases counting 0 (next_call ∷ close_call ∷ next_call ∷ close_call ∷ [])
      opened (0, 0) (inl (refl, refl, refl))

each-Delivers_example : Delivers server 4 opened (0, 0) (hit 7 ∷ hit 8 ∷ hit 9 ∷ [])
unfolding bytes_eq
each-Delivers_example =
    each-Delivers server 4 opened (0, 0) [] ((hit 7 ∷ hit 8 ∷ []) ∷ (hit 9 ∷ []) ∷ []) refl refl
      refl refl
      (page {new = text "b"} {w' = (1, 0)} refl refl refl refl (
        page {new = []} {w' = (2, 0)} refl refl refl refl
          (last_page {new = []} {w' = (2, 0)} refl)))
      (omega arith)

abbrev resume_point : Cursor
resume_point = record { pit = text "a"; sort = (55 ∷ []) ∷ [] }

-- A codec of one cursor: a document of three bytes, and four characters for it.
abbrev codec : Codec
codec = record {
  marshal = λ _. ok (1 ∷ 2 ∷ 3 ∷ []);
  unmarshal = λ _. ok resume_point;
  encode_base64 = λ _. 65 ∷ 66 ∷ 67 ∷ 68 ∷ [];
  decode_base64 = λ _. some (1 ∷ 2 ∷ 3 ∷ []);
}

documented : Documented codec resume_point
documented = record {
  read_back = λ b e. refl;
  decode_back = λ b e. ground arith;
  base64_length = λ b e. ground arith;
}

decode-encode_example : decode_cursor codec (65 ∷ 66 ∷ 67 ∷ 68 ∷ []) ≡ ok resume_point
unfolding encode_cursor is_empty
decode-encode_example = decode-encode codec resume_point documented (65 ∷ 66 ∷ 67 ∷ 68 ∷ []) refl
