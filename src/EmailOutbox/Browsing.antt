-- ===== src/EmailOutbox/Browsing.antt =====
-- The admin's query, from its parameters to the last page.
use Prim.Native.String.{String}
use mathlib.Core.Path.{subst}
use nest_base.Base.{
  ℕ, zero, suc, ◌≤◌, Bool, true, false, ◌||◌, Option, none, some, List, length, filter, ltb,
  if◌then◌else◌, ◌≡◌, ◌≢◌, ◌⊎◌, refl, ap, arith,
}
use nest_base.Base.Decimal.{Whole, parse_int}
use nest_base.EmailOutbox.Storage.{EmailOutboxRecord}
use nest_base.EmailOutbox.Listing.{CursorRecord, EmailOutboxListFilter, limit_of, matches, order_by}
use nest_base.EmailOutbox.ListFilter.{
  ListFilterInput, Checked, and_next, limited, check_status, check_date, check_order, check_sort_by,
  check_limit, parse_outbox_list_filter,
}
use nest_base.EmailOutbox.Order.{AreDistinct}
use nest_base.EmailOutbox.Paging.{all_pages, all_pages-listed}

abbrev IfAccepted : {A : Type 0} → (A → Type 0) → Checked A → Type 0
IfAccepted P (Checked.accepted a) = P a
IfAccepted P (Checked.rejected reason) = Unit

and_next-IfAccepted :
    {A B : Type 0} (P : B → Type 0) (c : Checked A) (next : A → Checked B)
    → ((a : A) → c ≡ Checked.accepted a → IfAccepted P (next a))
    → IfAccepted P (and_next c next)
unfolding and_next
and_next-IfAccepted P (Checked.accepted a) next each = each a refl
and_next-IfAccepted P (Checked.rejected reason) next each = tt

unless_out :
    (out : Bool) (reason : String) (size n : ℕ)
    → (if out then Checked.rejected reason else Checked.accepted size) ≡ Checked.accepted n
    → (out ≡ false) × (size ≡ n)
unless_out true reason size n e = cc
unless_out false reason size n e = (refl, cc)

limited-positive : (o : Option Whole) (n : ℕ) → limited o ≡ Checked.accepted n → (1 ≤ n) × (n ≤ 200)
unfolding limited
limited-positive none n e = cc
limited-positive (some w) n e =
    let (inside, same) = unless_out (w.negative || ltb w.size 1 || ltb 200 w.size) _ w.size n e in
    (ground (arith, inside, same), ground (arith, inside, same))

default_limit : (n : ℕ) → Checked.accepted 50 ≡ Checked.accepted n → 50 ≡ n
default_limit n e = cc

check_limit-positive :
    (o : Option String) (n : ℕ) → check_limit o ≡ Checked.accepted n → (1 ≤ n) × (n ≤ 200)
unfolding check_limit
check_limit-positive none n e =
    let same = default_limit n e in (omega (arith, same), omega (arith, same))
check_limit-positive (some s) n e = limited-positive (parse_int s) n e

-- A page of this size holds a row.
abbrev IsSized : EmailOutboxListFilter → Type 0
IsSized f = (n : ℕ) × (f.limit ≡ some n) × (1 ≤ n) × (n ≤ 200)

check_limit-IsSized :
    (o : Option String) (build : ℕ → EmailOutboxListFilter)
    → ((n : ℕ) → (build n).limit ≡ some n)
    → IfAccepted IsSized (and_next (check_limit o) (λ limit. Checked.accepted (build limit)))
check_limit-IsSized o build sized =
    and_next-IfAccepted IsSized (check_limit o) (λ limit. Checked.accepted (build limit))
      λ limit checked.
        let (least, most) = check_limit-positive o limit checked in
        (limit, sized limit, least, most)

parse_outbox_list_filter-IsSized :
    (parse_date : String → Option ℕ) (input : ListFilterInput)
    → IfAccepted IsSized (parse_outbox_list_filter parse_date input)
unfolding parse_outbox_list_filter
parse_outbox_list_filter-IsSized parse_date input =
    and_next-IfAccepted IsSized (check_status input.status) _ λ status _.
      and_next-IfAccepted IsSized (check_date parse_date "invalid dateFrom " input.date_from) _
        λ date_from _.
          and_next-IfAccepted IsSized (check_date parse_date "invalid dateTo " input.date_to) _
            λ date_to _. and_next-IfAccepted IsSized (check_order date_from date_to) _ λ in_order _.
              and_next-IfAccepted IsSized (check_sort_by input.sort_by) _
                λ by_attempts _. check_limit-IsSized input.limit _ λ limit. refl

module _ {P : Type 0} (contains_to : P → String → Bool) (template_is : P → String → Bool)
    (id_lt : String → String → Bool) (encode_cursor : CursorRecord → String)
    (decode_cursor : String → Option CursorRecord) (id_lt-irrefl : (a : String) → id_lt a a ≡ false)
    (id_lt-trans : (a b c : String) → id_lt a b ≡ true → id_lt b c ≡ true → id_lt a c ≡ true)
    (id_lt-total : (a b : String) → a ≢ b → (id_lt a b ≡ true) ⊎ (id_lt b a ≡ true))
    (decode_cursor-encode : (c : CursorRecord) → decode_cursor (encode_cursor c) ≡ some c) where
  of_size :
      (n : ℕ) (f : EmailOutboxListFilter) (rows : List (EmailOutboxRecord P))
      → AreDistinct rows
      → f.limit ≡ some n
      → 1 ≤ n
      → all_pages contains_to template_is id_lt encode_cursor decode_cursor
          (suc (length (order_by id_lt f.by_attempts rows)))
          (record f { cursor = none })
          rows
        ≡ filter (matches contains_to template_is f) (order_by id_lt f.by_attempts rows)
  of_size zero f rows distinct size least = absurd (omega (arith, least))
  of_size (suc limit) f rows distinct size least =
      all_pages-listed contains_to template_is id_lt encode_cursor decode_cursor id_lt-irrefl
        id_lt-trans id_lt-total decode_cursor-encode f rows distinct limit (ap limit_of size)

  -- The reader of a query that `parse_outbox_list_filter` accepts, who starts without a cursor and
  -- follows the cursors of the pages, gets every row that matches the accepted filter once, in the
  -- order of the listing, with at most one page more than there are rows, where no two rows have one
  -- id, if the order of ids is a total order and a cursor is read back as it was written.
  pub all_pages-parse_outbox_list_filter :
      (parse_date : String → Option ℕ) (input : ListFilterInput) (f : EmailOutboxListFilter)
      (rows : List (EmailOutboxRecord P))
      → AreDistinct rows
      → parse_outbox_list_filter parse_date input ≡ Checked.accepted f
      → all_pages contains_to template_is id_lt encode_cursor decode_cursor
          (suc (length (order_by id_lt f.by_attempts rows)))
          (record f { cursor = none })
          rows
        ≡ filter (matches contains_to template_is f) (order_by id_lt f.by_attempts rows)
  all_pages-parse_outbox_list_filter parse_date input f rows distinct e =
      let (n, size, least, most) =
        subst (IfAccepted IsSized) e (parse_outbox_list_filter-IsSized parse_date input) in
      of_size n f rows distinct size least
