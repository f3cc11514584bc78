-- ===== src/EmailOutbox/Paging.antt =====
-- Whoever follows the cursors of `listFiltered` sees every record that matches, once and in order.
use Prim.Native.String.{String}
use mathlib.Core.Path.{subst, ap₂}
use nest_base.Base.{
  ℕ, zero, suc, ◌≤◌, ◌<◌, Bool, true, false, ◌&&◌, Option, none, some, List, [], ◌∷◌, ◌++◌, length,
  length-take, take, filter, ltb, ◌≡◌, ◌≢◌, ◌⊎◌, refl, sym, ap, ◌∙◌, append-nil, append_assoc,
  Bool-cases, inl, inr, arith,
}
use nest_base.EmailOutbox.Storage.{EmailOutboxRecord}
use nest_base.EmailOutbox.Listing.{
  CursorRecord, EmailOutboxListFilter, EmailOutboxListResult, when_given, cursor_record, last_of,
  next_cursor_of, is_behind, order_by, matches, decoded, page_of, limit_of, list_filtered,
}
use nest_base.EmailOutbox.Order.{
  AreDistinct, and_true, length-filter_le, filter-filter, full_page, take-everything,
  last_of-append, IsOrdered, order_by-IsOrdered, filter-IsOrdered, filter-behind,
}

module _ {P : Type 0} (contains_to : P → String → Bool) (template_is : P → String → Bool)
    (id_lt : String → String → Bool) (encode_cursor : CursorRecord → String)
    (decode_cursor : String → Option CursorRecord) where
  abbrev page : EmailOutboxListFilter → List (EmailOutboxRecord P) → EmailOutboxListResult P
  page f rows = list_filtered contains_to template_is id_lt encode_cursor decode_cursor f rows

  abbrev starting : EmailOutboxListFilter → Option String → EmailOutboxListFilter
  starting f cursor = record f { cursor = cursor }

  abbrev followed :
      (String → List (EmailOutboxRecord P)) → Option String → List (EmailOutboxRecord P)
  followed next none = []
  followed next (some cursor) = next cursor

  abbrev with_next :
      (String → List (EmailOutboxRecord P)) → EmailOutboxListResult P → List (EmailOutboxRecord P)
  with_next next result = result.items ++ followed next result.next_cursor

  -- The items of the page, and of those behind it: a reader who asks with each page's cursor for the
  -- next page, as often as the fuel allows.
  unfoldable pub all_pages :
      (fuel : ℕ) → EmailOutboxListFilter → List (EmailOutboxRecord P) → List (EmailOutboxRecord P)
  all_pages zero f rows = []
  all_pages (suc fuel) f rows =
      with_next (λ cursor. all_pages fuel (starting f (some cursor)) rows) (page f rows)

  no_next :
      (by_attempts : Bool) (o : Option (EmailOutboxRecord P))
      → next_cursor_of encode_cursor by_attempts false o ≡ none
  unfolding next_cursor_of
  no_next by_attempts none = refl
  no_next by_attempts (some r) = refl

  abbrev read :
      (by_attempts : Bool) (limit total : ℕ) → List (EmailOutboxRecord P) → EmailOutboxListResult P
  read by_attempts limit total found =
      page_of contains_to template_is id_lt encode_cursor decode_cursor by_attempts limit total
        found

  last_page :
      (by_attempts : Bool) (limit total : ℕ) (found : List (EmailOutboxRecord P))
      → length found ≤ limit
      → ((read by_attempts limit total found).items ≡ found)
        × ((read by_attempts limit total found).next_cursor ≡ none)
  unfolding page_of
  last_page by_attempts limit total found h =
      let whole = take-everything (suc limit) found (omega arith) in
      let fits : ltb limit (length (take (suc limit) found)) ≡ false =
        ground (arith, length-take (suc limit) found) in
      (rw fits whole, rw fits (no_next by_attempts _))

  next_page :
      (by_attempts : Bool) (limit total : ℕ) (found : List (EmailOutboxRecord P))
      → suc limit < length found
      → (init : List (EmailOutboxRecord P)) × (x : EmailOutboxRecord P) × (rest : List
          (EmailOutboxRecord P))
        × (found ≡ init ++ (x ∷ rest))
        × (length rest < length found)
        × ((read by_attempts (suc limit) total found).items ≡ init ++ (x ∷ []))
        × ((read by_attempts (suc limit) total found).next_cursor
            ≡ some (encode_cursor (cursor_record by_attempts x)))
  unfolding page_of next_cursor_of
  next_page by_attempts limit total found h =
      let (init, x, rest, whole, page, fewer) = full_page limit found h in
      let more : ltb (suc limit) (length (take (suc (suc limit)) found)) ≡ true =
        ground (arith, length-take (suc (suc limit)) found) in
      (
        init,
        x,
        rest,
        whole,
        fewer,
        rw more page,
        rw more (
            ap (next_cursor_of encode_cursor by_attempts true)
              (ap last_of page ∙ last_of-append init x)),
      )

  module _ (id_irrefl : (a : String) → id_lt a a ≡ false)
      (id_trans : (a b c : String) → id_lt a b ≡ true → id_lt b c ≡ true → id_lt a c ≡ true)
      (id_total : (a b : String) → a ≢ b → (id_lt a b ≡ true) ⊎ (id_lt b a ≡ true))
      (decode_encode : (c : CursorRecord) → decode_cursor (encode_cursor c) ≡ some c)
      (f : EmailOutboxListFilter) (rows : List (EmailOutboxRecord P))
      (distinct : AreDistinct rows) where
    -- All the rows that match, in order.
    abbrev listed : List (EmailOutboxRecord P)
    listed = filter (matches contains_to template_is f) (order_by id_lt f.by_attempts rows)

    -- The rows that the statement reads from behind the cursor.
    abbrev behind_cursor : Option String → List (EmailOutboxRecord P)
    behind_cursor cursor =
        filter
          (λ r.
            matches contains_to template_is f r
            && when_given (decoded contains_to template_is id_lt encode_cursor decode_cursor cursor)
                (λ c. is_behind id_lt f.by_attempts c r))
          (order_by id_lt f.by_attempts rows)

    listed-IsOrdered : IsOrdered id_lt id_irrefl id_trans id_total f.by_attempts listed
    listed-IsOrdered =
        filter-IsOrdered id_lt id_irrefl id_trans id_total f.by_attempts
          (matches contains_to template_is f) _
          (order_by-IsOrdered id_lt id_irrefl id_trans id_total f.by_attempts rows distinct)

    -- Behind the cursor of a listed row are the rows that follow it.
    behind_cursor-rest :
        (before : List (EmailOutboxRecord P)) (x : EmailOutboxRecord P)
        (rest : List (EmailOutboxRecord P))
        → listed ≡ before ++ (x ∷ rest)
        → behind_cursor (some (encode_cursor (cursor_record f.by_attempts x))) ≡ rest
    unfolding decoded
    behind_cursor-rest before x rest e =
        let passes = matches contains_to template_is f in
        ap
          (λ o.
            filter (λ r. passes r && when_given o (λ c. is_behind id_lt f.by_attempts c r))
              (order_by id_lt f.by_attempts rows))
          (decode_encode (cursor_record f.by_attempts x))
        ∙ filter-filter passes (is_behind id_lt f.by_attempts (cursor_record f.by_attempts x)) _
        ∙ ap (filter (is_behind id_lt f.by_attempts (cursor_record f.by_attempts x))) e
        ∙ filter-behind id_lt id_irrefl id_trans id_total f.by_attempts before x rest
            (subst (IsOrdered id_lt id_irrefl id_trans id_total f.by_attempts) e listed-IsOrdered)

    from_start : behind_cursor none ≡ listed
    unfolding decoded
    from_start = and_true (matches contains_to template_is f) (order_by id_lt f.by_attempts rows)

    page-read :
        (limit : ℕ) (cursor : Option String) (found : List (EmailOutboxRecord P))
        → limit_of f.limit ≡ limit
        → behind_cursor cursor ≡ found
        → page (starting f cursor) rows
          ≡ read f.by_attempts limit
              (length (filter (matches contains_to template_is f) rows))
              found
    unfolding list_filtered matches
    page-read limit cursor found size here =
        ap₂
          (λ n behind.
            read f.by_attempts n (length (filter (matches contains_to template_is f) rows)) behind)
          size here

    -- One page, given that the pages behind its last item are read to the end.
    all_pages-step :
        (limit fuel : ℕ) (cursor : Option String) (before found : List (EmailOutboxRecord P))
        → limit_of f.limit ≡ suc limit
        → listed ≡ before ++ found
        → behind_cursor cursor ≡ found
        → ((above : List (EmailOutboxRecord P)) (x : EmailOutboxRecord P)
              (rest : List (EmailOutboxRecord P))
            → listed ≡ above ++ (x ∷ rest)
            → length rest < length found
            → all_pages fuel
                (starting f (some (encode_cursor (cursor_record f.by_attempts x))))
                rows
              ≡ rest)
        → all_pages (suc fuel) (starting f cursor) rows ≡ found
    unfolding all_pages
    all_pages-step limit fuel cursor before found size whole here onward =
        let total = length (filter (matches contains_to template_is f) rows) in
        let next : String → List (EmailOutboxRecord P) =
          λ c. all_pages fuel (starting f (some c)) rows in
        ap (with_next next) (page-read (suc limit) cursor found size here)
        ∙ elim (Bool-cases (ltb (suc limit) (length found))) [
          | inr fits ↦
              let (items, none_left) =
                last_page f.by_attempts (suc limit) total found (ground arith) in
              ap₂ (λ xs o. xs ++ followed next o) items none_left ∙ append-nil found
          | inl more ↦
              let (init, x, rest, parts, fewer, items, cursor') =
                next_page f.by_attempts limit total found (ground arith) in
              let split =
                whole ∙ ap (λ xs. before ++ xs) parts ∙ sym (append_assoc before init (x ∷ rest)) in
              ap₂ (λ xs o. xs ++ followed next o) items cursor'
              ∙ ap (λ xs. (init ++ (x ∷ [])) ++ xs) (onward (before ++ init) x rest split fewer)
              ∙ append_assoc init (x ∷ []) rest
              ∙ sym parts
        ]

    all_pages-rest :
        (limit fuel : ℕ) (cursor : Option String) (before found : List (EmailOutboxRecord P))
        → limit_of f.limit ≡ suc limit
        → listed ≡ before ++ found
        → behind_cursor cursor ≡ found
        → length found ≤ fuel
        → all_pages (suc fuel) (starting f cursor) rows ≡ found
    all_pages-rest limit zero cursor before found size whole here enough =
        all_pages-step limit zero cursor before found size whole here
          (λ above x rest split fewer. absurd (omega (arith, enough, fewer)))
    all_pages-rest limit (suc fuel) cursor before found size whole here enough =
        all_pages-step limit (suc fuel) cursor before found size whole here
          (λ above x rest split fewer.
            all_pages-rest limit fuel (some (encode_cursor (cursor_record f.by_attempts x)))
              (above ++ (x ∷ [])) rest size (split ∙ sym (append_assoc above (x ∷ []) rest))
              (behind_cursor-rest above x rest split) (omega (arith, enough, fewer)))

    -- A reader who starts without a cursor and follows the cursors of the pages gets every row that
    -- matches the filter once, in the order of the listing, with at most one page more than there are
    -- rows, where a page holds at least one row and no two rows have one id, if the order of ids is a
    -- total order and a cursor is read back as it was written.
    pub all_pages-listed :
        (limit : ℕ)
        → limit_of f.limit ≡ suc limit
        → all_pages (suc (length (order_by id_lt f.by_attempts rows))) (starting f none) rows
          ≡ filter (matches contains_to template_is f) (order_by id_lt f.by_attempts rows)
    all_pages-listed limit size =
        all_pages-rest limit (length (order_by id_lt f.by_attempts rows)) none [] listed size refl
          from_start
          (length-filter_le (matches contains_to template_is f) (order_by id_lt f.by_attempts rows))
