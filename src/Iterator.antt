-- ===== src/Iterator.antt =====
-- iterator.go: an Iterator owns one point in time of the server, reads it page by page, and
-- releases it once. The deadline of five seconds in Close is that of the parameter `delete_pit`.
pub mod Cursors
pub mod Ownership
pub mod Paging
use esodm.Prelude.{
  ℕ, zero, suc, Bool, true, false, Option, none, some, List, [], ◌∷◌, Bytes, bytes_eq, is_empty,
  length, get_elem?, leb, if◌then◌else◌,
}
use esodm.Error.{Err, joined, message, is_err, not_found, Result, ok, err, sentinel, validation}

-- Hit, with its sort values as raw JSON; `source` stands for the fields the iterator hands on.
pub record Hit (Doc : Type 0) : Type 0 where
  pub source : Doc
  pub sort : List Bytes

-- Iterator; before the first call of Next there is no current hit, Go's zero Hit.
pub record Iterator (Doc : Type 0) : Type 0 where
  pub pit : Bytes
  pub page : List (Hit Doc)
  pub position : ℕ
  pub current : Option (Hit Doc)
  pub after : List Bytes
  pub error : Option Err
  pub closed : Bool
  pub started : Bool

-- What an iterator reaches: its context, json.Marshal of sort values, and the server. A search
-- takes the point in time and the sort values to search after; its answer carries the identifier
-- that replaces the point in time and the hits, beside the error of Repository.Search.
pub record Server (Doc : Type 0) : Type 1 where
  pub World : Type 0
  pub ctx_err : World → Option Err
  pub marshal : List Bytes → Bytes
  pub search : Bytes → Option (List Bytes) → World → ((Bytes × List (Hit Doc)) × Option Err) × World
  pub delete_pit : Bytes → World → Option Err × World

-- errors.Join of two errors that may be nil; a join of one error is that error.
abbrev pub join : Option Err → Option Err → Option Err
join none e = e
join (some a) none = some a
join (some a) (some b) = some (joined a b)

-- if errors.Is(err, ErrNotFound) { err = nil }
abbrev pub unless_missing : Option Err → Option Err
unless_missing none = none
unless_missing (some e) = if is_err e not_found then none else some e

-- The sort values of a page's last hit.
abbrev pub last_sort : {Doc : Type 0} → Hit Doc → List (Hit Doc) → List Bytes
last_sort hit [] = hit.sort
last_sort hit (next ∷ rest) = last_sort next rest

-- The steps of Next that follow a decision.
abbrev pub emit : {Doc : Type 0} → Iterator Doc → Iterator Doc
emit it = record it { current = get_elem? it.page it.position; position = suc it.position }

abbrev pub fail : {Doc : Type 0} → Err → Iterator Doc → Iterator Doc
fail e it = record it { error = some e }

-- if result.PITID != "" { it.pit = result.PITID }
abbrev pub renew : Bytes → Bytes → Bytes
renew [] pit = pit
renew (c ∷ new) pit = c ∷ new

abbrev pub renewed : {Doc : Type 0} → Bytes → Iterator Doc → Iterator Doc
renewed new it = record it { pit = renew new it.pit }

abbrev pub turned : {Doc : Type 0} → List (Hit Doc) → Iterator Doc → Iterator Doc
turned hits it = record it { page = hits; position = 0; started = true }

module _ {Doc : Type 0} (s : Server Doc) where
  open s use {World, ctx_err, marshal, search, delete_pit}

  abbrev pub released : Iterator Doc → Option Err × World → Iterator Doc × World
  released it (e, w) = (record it { closed = true; error = join it.error (unless_missing e) }, w)

  -- Iterator.Close; the error it returns is that of the iterator it leaves.
  unfoldable pub close : Iterator Doc → World → Iterator Doc × World
  close it w = if it.closed then (it, w) else released it (delete_pit it.pit w)

  -- _ = it.Close(); return false
  abbrev pub stop : Iterator Doc → World → (Bool × Iterator Doc) × World
  stop it w = let (it', w') = close it w in ((false, it'), w')

  -- The page of an answer without an error.
  unfoldable pub turn : List (Hit Doc) → Iterator Doc → World → (Bool × Iterator Doc) × World
  turn [] it w = stop (turned [] it) w
  turn (hit ∷ rest) it w = elim (last_sort hit rest) [
    | [] ↦ stop (fail message (turned (hit ∷ rest) it)) w
    | v ∷ vs ↦
        if bytes_eq (marshal it.after) (marshal (v ∷ vs))
        then stop (fail message (turned (hit ∷ rest) it)) w
        else ((true, emit (record (turned (hit ∷ rest) it) { after = v ∷ vs })), w)
  ]

  -- What Next does with the answer of a search.
  unfoldable pub receive :
      Iterator Doc → ((Bytes × List (Hit Doc)) × Option Err) × World → (Bool × Iterator Doc) × World
  receive it (((pit, hits), some e), w) = stop (fail e (renewed pit it)) w
  receive it (((pit, hits), none), w) = turn hits (renewed pit it) w

  -- The request for a page.
  abbrev pub fetch : Iterator Doc → World → (Bool × Iterator Doc) × World
  fetch it w = receive it (search it.pit (if it.started then some it.after else none) w)

  unfoldable pub advance : Iterator Doc → World → (Bool × Iterator Doc) × World
  advance it w = if leb (length it.page) it.position then fetch it w else ((true, emit it), w)

  abbrev pub has_error : Option Err → Bool
  has_error none = false
  has_error (some e) = true

  -- Iterator.Next
  unfoldable pub next : Iterator Doc → World → (Bool × Iterator Doc) × World
  next it w =
      if it.closed
      then ((false, it), w)
      else if has_error it.error
      then ((false, it), w)
      else elim (ctx_err w) [ some e ↦ stop (fail e it) w | none ↦ advance it w ]
