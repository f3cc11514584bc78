-- ===== src/EmailOutbox/Listing.antt =====
-- `listFiltered` of core/email/email-outbox.prisma.ts, with the cursors of core/pagination/cursor.ts.
-- The tests on the JSON payload, the database's order of ids, and the coding of a cursor as text
-- (JSON in base64url) are parameters.
use Prim.Native.String.{String}
use nest_base.Base.{
  ℕ, suc, Bool, true, ◌&&◌, ◌||◌, Option, none, some, List, [], ◌∷◌, length, take, filter, ltb, leb,
  ◌==◌, if◌then◌else◌,
}
use nest_base.EmailOutbox.Planner.{Status, pending, sent, dead_letter, cancelled}
use nest_base.EmailOutbox.Storage.{EmailOutboxRecord}

pub record CursorRecord : Type 0 where
  pub id : String
  pub sort_value : ℕ

-- A text that is empty counts as one that is not given.
pub record EmailOutboxListFilter : Type 0 where
  pub status : Option Status
  pub recipient : Option String
  pub template : Option String
  pub date_from : Option ℕ
  pub date_to : Option ℕ
  pub by_attempts : Bool
  pub cursor : Option String
  pub limit : Option ℕ

pub record EmailOutboxListResult (P : Type 0) : Type 0 where
  pub items : List (EmailOutboxRecord P)
  pub next_cursor : Option String
  pub total : ℕ

abbrev pub rank : Status → ℕ
rank pending = 0
rank sent = 1
rank dead_letter = 2
rank cancelled = 3

-- A condition that is there only if the filter has a value for it.
abbrev pub when_given : {A : Type 0} → Option A → (A → Bool) → Bool
when_given none test = true
when_given (some a) test = test a

-- filter.limit ?? 50
abbrev pub limit_of : Option ℕ → ℕ
limit_of none = 50
limit_of (some n) = n

module _ {P : Type 0} where
  abbrev pub sort_value_of : (by_attempts : Bool) → EmailOutboxRecord P → ℕ
  sort_value_of by_attempts r = if by_attempts then r.attempt_count else r.created_at

  abbrev pub cursor_record : (by_attempts : Bool) → EmailOutboxRecord P → CursorRecord
  cursor_record by_attempts r = record { id = r.id; sort_value = sort_value_of by_attempts r }

  -- items[items.length - 1]
  unfoldable pub last_of : List (EmailOutboxRecord P) → Option (EmailOutboxRecord P)
  last_of [] = none
  last_of (r ∷ []) = some r
  last_of (r ∷ q ∷ rows) = last_of (q ∷ rows)

  -- hasMore && items.length > 0 ? encodeCursor(...) : undefined
  unfoldable pub next_cursor_of :
      (encode_cursor : CursorRecord → String) (by_attempts has_more : Bool)
      → Option (EmailOutboxRecord P)
      → Option String
  next_cursor_of encode_cursor by_attempts has_more none = none
  next_cursor_of encode_cursor by_attempts has_more (some r) =
      if has_more then some (encode_cursor (cursor_record by_attempts r)) else none

module _ (id_lt : String → String → Bool) where
  -- The condition that the cursor adds to the WHERE clause, and the order of the rows: behind it.
  abbrev pub is_behind :
      {P : Type 0} → (by_attempts : Bool) → CursorRecord → EmailOutboxRecord P → Bool
  is_behind by_attempts c r =
      let value = sort_value_of by_attempts r in
      ltb value c.sort_value || (value == c.sort_value && id_lt c.id r.id)

  -- orderBy: the sort value descending, the id ascending
  unfoldable pub insert_by :
      {P : Type 0}
      → (by_attempts : Bool) → EmailOutboxRecord P
      → List (EmailOutboxRecord P)
      → List (EmailOutboxRecord P)
  insert_by by_attempts r [] = r ∷ []
  insert_by by_attempts r (q ∷ rows) =
      if is_behind by_attempts (cursor_record by_attempts q) r
      then q ∷ insert_by by_attempts r rows
      else r ∷ q ∷ rows

  unfoldable pub order_by :
      {P : Type 0} → (by_attempts : Bool) → List (EmailOutboxRecord P) → List (EmailOutboxRecord P)
  unfolding insert_by
  order_by by_attempts [] = []
  order_by by_attempts (r ∷ rows) = insert_by by_attempts r (order_by by_attempts rows)

module _ {P : Type 0} (contains_to : P → String → Bool) (template_is : P → String → Bool) where
  unfoldable pub matches : EmailOutboxListFilter → EmailOutboxRecord P → Bool
  matches f r =
      when_given f.status (λ s. rank r.status == rank s)
      && when_given f.recipient (contains_to r.payload)
      && when_given f.template (template_is r.payload)
      && when_given f.date_from (λ t. leb t r.created_at)
      && when_given f.date_to (λ t. leb r.created_at t)

  module _ (id_lt : String → String → Bool) (encode_cursor : CursorRecord → String)
      (decode_cursor : String → Option CursorRecord) where
    -- A cursor that cannot be read is ignored.
    unfoldable pub decoded : Option String → Option CursorRecord
    decoded none = none
    decoded (some text) = decode_cursor text

    -- The page, given the rows behind the cursor.
    unfoldable pub page_of :
        (by_attempts : Bool) (limit total : ℕ)
        → List (EmailOutboxRecord P)
        → EmailOutboxListResult P
    unfolding last_of next_cursor_of
    page_of by_attempts limit total rows =
        let found = take (suc limit) rows in
        let has_more = ltb limit (length found) in
        let items = if has_more then take limit found else found in
        record {
          items = items;
          next_cursor = next_cursor_of encode_cursor by_attempts has_more (last_of items);
          total = total;
        }

    unfoldable pub list_filtered :
        EmailOutboxListFilter → List (EmailOutboxRecord P) → EmailOutboxListResult P
    unfolding page_of decoded order_by matches
    list_filtered f rows =
        page_of f.by_attempts (limit_of f.limit) (length (filter (matches f) rows)) (
          filter
            (λ r.
              matches f r && when_given (decoded f.cursor) (λ c. is_behind id_lt f.by_attempts c r))
            (order_by id_lt f.by_attempts rows))
