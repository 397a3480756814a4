-- ===== src/Repository/Joins.antt =====
-- An index with a join field: operations without a routing are refused before anything is reached.
use esodm.Prelude.{
  ◌≡◌, ◌⊎◌, inl, inr, refl, ap, ◌∙◌, Bool, true, false, not, ◌||◌, Option, none, some, List, [],
  Bytes, is_empty, bytes_eq, contains_any, length, ltb, text, ℤ,
}
use esodm.Error as Error
use esodm.Error.{Err, Result, ok, err, sentinel, reject, validation}
use esodm.Names.{
  Unicode, validate_id, validate_index_name, validate_name, name_specials, index_specials,
  bad_prefix,
}
use esodm.Write.{
  WriteOptions, Refresh, values, check_refresh, tokens, unset, no_refresh, now, wait_for, unknown,
}
use esodm.Read.{ReadOptions}
use esodm.Join.{JoinInfo, require_join_routing}
use esodm.Effect.{Effect, ◌>>=◌, lift}
use esodm.Repository.{Repository, no_write}
use esodm.Repository.Writing.{WriteOption, write_options, run}
use esodm.Repository.Patching.{prepare_update, prepare_delete, delete_document}
use esodm.Repository.Reading.{
  no_hit, check_get, check_exists, get_with, exists_with, get_checked, exists_checked,
}

-- A check that either passes or reports ErrValidation.
abbrev Rejects : {A : Type 0} → Result A → Type 0
Rejects {A = A} r = (r ≡ err (sentinel validation)) ⊎ ((a : A) × (r ≡ ok a))

reject-Rejects : (b : Bool) → Rejects (reject b validation)
reject-Rejects true = inl refl
reject-Rejects false = inr (tt, refl)

bind-Rejects :
    {A B : Type 0} (r : Result A) (next : A → Result B)
    → Rejects r
    → ((a : A) → Rejects (next a))
    → Rejects (Error.◌>>=◌ r next)
bind-Rejects r next (inl e) f = rw e (inl refl)
bind-Rejects r next (inr (a, e)) f = rw e (f a)

then-Rejects :
    {B : Type 0} (r : Result (Unit {0})) (next : Result B)
    → Rejects r
    → Rejects next
    → Rejects (Error.◌>>◌ r next)
then-Rejects r next (inl e) f = rw e (inl refl)
then-Rejects r next (inr (a, e)) f = rw e f

validate_id-Rejects : (u : Unicode) (id : Bytes) → Rejects (validate_id u id)
unfolding validate_id
validate_id-Rejects u id = reject-Rejects _

validate_index_name-Rejects : (u : Unicode) (name : Bytes) → Rejects (validate_index_name u name)
unfolding validate_index_name validate_name
validate_index_name-Rejects u name =
    then-Rejects _ _
      (reject-Rejects (
        is_empty name
        || bytes_eq name (text ".")
        || bytes_eq name (text "..")
        || contains_any name name_specials))
      (then-Rejects _ _
        (reject-Rejects (
          ltb 255 (length name)
          || not (u.valid_string name)
          || not (bytes_eq (u.to_lower name) name)
          || contains_any name index_specials))
        (reject-Rejects (bad_prefix name)))

check_refresh-Rejects : (v : Refresh) → Rejects (check_refresh v)
check_refresh-Rejects unset = inr (tt, refl)
check_refresh-Rejects no_refresh = inr (tt, refl)
check_refresh-Rejects now = inr (tt, refl)
check_refresh-Rejects wait_for = inr (tt, refl)
check_refresh-Rejects unknown = inl refl

tokens-Rejects : (seq term : Option ℤ) → Rejects (tokens seq term)
tokens-Rejects none none = inr ([], refl)
tokens-Rejects none (some t) = inl refl
tokens-Rejects (some s) none = inl refl
tokens-Rejects (some s) (some t) = then-Rejects _ _ (reject-Rejects _) (inr (_, refl))

values-Rejects : (o : WriteOptions) → Rejects (values o)
unfolding values
values-Rejects o = then-Rejects _ _ (check_refresh-Rejects o.refresh) (
    bind-Rejects (tokens o.if_seq_no o.if_primary_term) _
      (tokens-Rejects o.if_seq_no o.if_primary_term) (λ v. inr (_, refl)))

module _ {W A B : Type 0} where
  -- A check before what is refused in any case.
  lift-Refused :
      (r : Result A) (next : A → Effect W B) (w : W)
      → Rejects r
      → ((a : A) → next a w ≡ (err (sentinel validation), w))
      → (lift r >>= next) w ≡ (err (sentinel validation), w)
  unfolding ◌>>=◌ lift
  lift-Refused r next w (inl e) f = rw e refl
  lift-Refused r next w (inr (a, e)) f = rw e (f a)

  lift-passes :
      (r : Result A) (next : A → Effect W B) (w : W) (a : A)
      → r ≡ ok a
      → (lift r >>= next) w ≡ next a w
  unfolding ◌>>=◌ lift
  lift-passes r next w a e = rw e refl

module _ {Doc V W : Type 0} (r : Repository Doc V W) (zero_doc : Doc) where
  open r use {unicode, schema, hooks}

  abbrev invalid : Err
  invalid = sentinel validation

  -- The test of the routing, before what follows it.
  routing-Refused :
      {B : Type 0} (info : JoinInfo) (route : Bytes) (next : Unit {0} → Effect W B) (w : W)
      → schema.join ≡ some info
      → route ≡ []
      → (lift (require_join_routing schema.join route) >>= next) w ≡ (err invalid, w)
  unfolding ◌>>=◌ lift require_join_routing is_empty
  routing-Refused info route next w e f = rw (e, f) refl

  prepare_update-Refused :
      (info : JoinInfo) (id : Bytes) (body : Result Bytes) (o : WriteOptions) (w : W)
      → schema.join ≡ some info
      → o.routing ≡ []
      → prepare_update r id body o w ≡ (err invalid, w)
  unfolding prepare_update
  prepare_update-Refused info id body o w e f =
      lift-Refused (validate_index_name unicode schema.index) _ w
        (validate_index_name-Rejects unicode schema.index)
        (λ _. lift-Refused (validate_id unicode id) _ w (validate_id-Rejects unicode id) (λ _.
          lift-Refused (values o) _ w (values-Rejects o) (λ q.
            lift-Refused (reject (not (is_empty o.pipeline)) validation) _ w
              (reject-Rejects (not (is_empty o.pipeline)))
              (λ _. routing-Refused info o.routing _ w e f))))

  prepare_delete-Refused :
      (info : JoinInfo) (id : Bytes) (o : WriteOptions) (w : W)
      → schema.join ≡ some info
      → o.routing ≡ []
      → prepare_delete r id o w ≡ (err invalid, w)
  unfolding prepare_delete
  prepare_delete-Refused info id o w e f =
      lift-Refused (validate_id unicode id) _ w (validate_id-Rejects unicode id) (λ _.
        lift-Refused (values o) _ w (values-Rejects o) (λ q.
          lift-Refused (reject (not (is_empty o.pipeline)) validation) _ w
            (reject-Rejects (not (is_empty o.pipeline)))
            (λ _. routing-Refused info o.routing _ w e f)))

  delete_document-Refused :
      (info : JoinInfo) (id : Bytes) (options : List WriteOption) (o : WriteOptions) (w : W)
      → schema.join ≡ some info
      → write_options options ≡ ok o
      → o.routing ≡ []
      → delete_document r id options w ≡ ((no_write, some invalid), w)
  unfolding delete_document
  delete_document-Refused info id options o w e g f = ap (run r) (
      lift-Refused (validate_index_name unicode schema.index) _ w
        (validate_index_name-Rejects unicode schema.index)
        (λ _. lift-passes (write_options options) _ w o g ∙ prepare_delete-Refused info id o w e f))

  -- The test of the routing, at the end.
  routing-Fails :
      (info : JoinInfo) (route : Bytes) (w : W)
      → schema.join ≡ some info
      → route ≡ []
      → lift (require_join_routing schema.join route) w ≡ (err invalid, w)
  unfolding lift require_join_routing is_empty
  routing-Fails info route w e f = rw (e, f) refl

  check_get-Refused :
      (info : JoinInfo) (id : Bytes) (o : ReadOptions) (w : W)
      → schema.join ≡ some info
      → o.routing ≡ []
      → check_get r zero_doc id o w ≡ (err invalid, w)
  unfolding check_get
  check_get-Refused info id o w e f =
      lift-Refused (validate_index_name unicode schema.index) _ w
        (validate_index_name-Rejects unicode schema.index)
        (λ _.
          lift-Refused (validate_id unicode id) _ w (validate_id-Rejects unicode id)
            (λ _. routing-Fails info o.routing w e f))

  check_exists-Refused :
      (info : JoinInfo) (id : Bytes) (o : ReadOptions) (w : W)
      → schema.join ≡ some info
      → o.routing ≡ []
      → check_exists r zero_doc id o w ≡ (err invalid, w)
  unfolding check_exists
  check_exists-Refused info id o w e f =
      lift-Refused (validate_index_name unicode schema.index) _ w
        (validate_index_name-Rejects unicode schema.index)
        (λ _. routing-Refused info o.routing _ w e f)

  -- On an index with a join field, GetWith, ExistsWith and Delete without a routing, and an update
  -- without one behind the preparation of its patch, return ErrValidation and reach nothing: they
  -- send no request, run no hook and leave the world as it is.
  pub join_routing-required :
      (info : JoinInfo) (id : Bytes) (read : ReadOptions) (options : List WriteOption)
      (o : WriteOptions) (body : Result Bytes) (w : W)
      → schema.join ≡ some info
      → read.routing ≡ []
      → write_options options ≡ ok o
      → o.routing ≡ []
      → (get_with r zero_doc id read w ≡ ((no_hit r zero_doc, some invalid), w))
        × (exists_with r zero_doc id read w ≡ ((false, some invalid), w))
        × (delete_document r id options w ≡ ((no_write, some invalid), w))
        × (run r (prepare_update r id body o w) ≡ ((no_write, some invalid), w))
  unfolding get_with exists_with
  join_routing-required info id read options o body w e f g k = (
    ap (get_checked r zero_doc id read) (check_get-Refused info id read w e f),
    ap (exists_checked r zero_doc id read) (check_exists-Refused info id read w e f),
    delete_document-Refused info id options o w e g k,
    ap (run r) (prepare_update-Refused info id body o w e k),
  )
