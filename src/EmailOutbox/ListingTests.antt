-- ===== src/EmailOutbox/ListingTests.antt =====
-- Pages of the admin's listing of mails, and the theorem on them at a concrete input.
use Prim.Native.Char.{code}
use Prim.Native.String.{String, [] as empty, ◌∷◌ as char}
use text.Mathlib.TextEquality.{Char-path}
use mathlib.Core.Path.{ap₂}
use mathlib.Core.Bool.{false≢true}
use nest_base.Base.{
  ℕ, zero, suc, Bool, true, false, ◌&&◌, ◌||◌, Option, none, some, List, [], ◌∷◌, length, filter,
  ltb, ◌==◌, str_eq, eq_iff, not, all, All, if◌then◌else◌, ◌≡◌, ◌≢◌, ◌⊎◌, refl, sym, ap, ◌∙◌,
  Bool-cases, inl, inr, arith,
}
use nest_base.EmailOutbox.Planner.{pending, dead_letter}
use nest_base.EmailOutbox.Storage.{send_template, EmailOutboxRecord}
use nest_base.EmailOutbox.Listing.{
  CursorRecord, EmailOutboxListFilter, order_by, matches, list_filtered,
}
use nest_base.EmailOutbox.Order.{AreDistinct}
use nest_base.EmailOutbox.Paging.{all_pages}
use nest_base.EmailOutbox.ListFilter.{
  ListFilterInput, Checked, parse_outbox_list_filter, given_text,
}
use nest_base.EmailOutbox.Browsing.{all_pages-parse_outbox_list_filter}
use nest_base.Base.Trim.{trim}
use nest_base.Base.Decimal.{skip_space, parse_int}

-- The order of texts by the codes of their characters.
before : String → String → Bool
before empty empty = false
before empty (char d t) = true
before (char c s) empty = false
before (char c s) (char d t) = ltb (code c) (code d) || (code c == code d && before s t)

before_irrefl : (a : String) → before a a ≡ false
unfolding before
before_irrefl empty = refl
before_irrefl (char c s) = ground (arith, before_irrefl s)

before_trans : (a b c : String) → before a b ≡ true → before b c ≡ true → before a c ≡ true
unfolding before
before_trans empty empty c h k = cc
before_trans empty (char d t) empty h k = cc
before_trans empty (char d t) (char e u) h k = refl
before_trans (char c s) empty e h k = cc
before_trans (char c s) (char d t) empty h k = cc
before_trans (char c s) (char d t) (char e u) h k = ground (arith, before_trans s t u)

before_total : (a b : String) → a ≢ b → (before a b ≡ true) ⊎ (before b a ≡ true)
unfolding before
before_total empty empty differ = absurd (differ refl)
before_total empty (char d t) differ = inl refl
before_total (char c s) empty differ = inr refl
before_total (char c s) (char d t) differ = elim (Bool-cases (code c == code d)) [
  | inl same ↦
      let chars = Char-path c d (ground arith) in
      elim (before_total s t (λ e. differ (ap₂ (λ x u. char x u) chars e))) [
        | inl less ↦ inl (ground (arith, less))
        | inr more ↦ inr (ground (arith, more))
      ]
  | inr other ↦ ground arith
]

-- A cursor as text: a tick for each unit of the sort value, a full stop and the id.
ticks : ℕ → String → String
ticks zero id = char "." id
ticks (suc n) id = char "|" (ticks n id)

bump : Option CursorRecord → Option CursorRecord
bump none = none
bump (some c) = some (record { id = c.id; sort_value = suc c.sort_value })

untick : String → Option CursorRecord
unfolding bump
untick empty = none
untick (char c s) =
    let rest = bump (untick s) in
    if code c == b'.' then some (record { id = s; sort_value = 0 }) else rest

untick-ticks :
    (n : ℕ) (id : String) → untick (ticks n id) ≡ some (record { id = id; sort_value = n })
unfolding untick ticks
untick-ticks zero id = refl
untick-ticks (suc n) id = ap bump (untick-ticks n id)

abbrev mail : (id : String) (attempts created : ℕ) → EmailOutboxRecord String
mail id attempts created = record {
  id = id;
  kind = send_template;
  payload = "ann";
  idempotency_key = none;
  status = if attempts == 5 then dead_letter else pending;
  attempt_count = attempts;
  next_attempt_at = none;
  claimed_at = none;
  last_error = none;
  succeeded_at = none;
  failed_at = none;
  created_at = created;
  updated_at = created;
}

abbrev five : List (EmailOutboxRecord String)
five = mail "d" 1 10 ∷ mail "b" 2 10 ∷ mail "e" 5 20 ∷ mail "a" 2 30 ∷ mail "c" 2 5 ∷ []

apart :
    (id : String) (rows : List (EmailOutboxRecord String))
    → all (λ q. not (str_eq q.id id)) rows ≡ true
    → All (λ q. q.id ≢ id) rows
apart id [] h = tt
apart id (q ∷ rows) h = elim (Bool-cases (str_eq q.id id)) [
  | inl same ↦ ground arith
  | inr other ↦ ((λ e. false≢true (sym other ∙ (eq_iff q.id id).1 e)), apart id rows (ground arith))
]

five_distinct : AreDistinct five
five_distinct = (
  apart "d" (mail "b" 2 10 ∷ mail "e" 5 20 ∷ mail "a" 2 30 ∷ mail "c" 2 5 ∷ []) refl,
  (
    apart "b" (mail "e" 5 20 ∷ mail "a" 2 30 ∷ mail "c" 2 5 ∷ []) refl,
    (
      apart "e" (mail "a" 2 30 ∷ mail "c" 2 5 ∷ []) refl,
      (apart "a" (mail "c" 2 5 ∷ []) refl, (tt, tt)),
    ),
  ),
)

-- The pending ones, those with most attempts first, two on a page.
abbrev pending_by_attempts : EmailOutboxListFilter
pending_by_attempts = record {
  status = some pending;
  recipient = none;
  template = none;
  date_from = none;
  date_to = none;
  by_attempts = true;
  cursor = none;
  limit = some 2;
}

abbrev is_to : String → String → Bool
is_to payload text = str_eq payload text

-- The same as a query.
abbrev query : ListFilterInput
query = record {
  status = some "pending";
  recipient = none;
  template = some "  ";
  date_from = some "";
  date_to = none;
  sort_by = some "attempts";
  cursor = none;
  limit = some " 2nd";
}

abbrev no_date : String → Option ℕ
no_date text = none

query_accepted : parse_outbox_list_filter no_date query ≡ Checked.accepted pending_by_attempts
unfolding parse_outbox_list_filter given_text trim skip_space parse_int
query_accepted = refl

all_pages-parse_outbox_list_filter_example :
    all_pages is_to is_to before
      (λ c. ticks c.sort_value c.id)
      untick
      (suc (length (order_by before true five)))
      pending_by_attempts
      five
    ≡ filter (matches is_to is_to pending_by_attempts) (order_by before true five)
all_pages-parse_outbox_list_filter_example =
    all_pages-parse_outbox_list_filter is_to is_to before (λ c. ticks c.sort_value c.id) untick
      before_irrefl before_trans before_total (λ c. untick-ticks c.sort_value c.id) no_date query
      pending_by_attempts five five_distinct query_accepted

no_limit_of_zero :
    parse_outbox_list_filter no_date (record query { limit = some "0" })
    ≡ Checked.rejected "limit must be an integer between 1 and 200"
unfolding parse_outbox_list_filter given_text trim skip_space parse_int
no_limit_of_zero = refl

first_page :
    (list_filtered is_to is_to before
      (λ c. ticks c.sort_value c.id)
      untick
      pending_by_attempts
      five).items
    ≡ mail "a" 2 30 ∷ mail "b" 2 10 ∷ []
unfolding list_filtered before
first_page = refl

all_in_order :
    all_pages is_to is_to before (λ c. ticks c.sort_value c.id) untick 6 pending_by_attempts five
    ≡ mail "a" 2 30 ∷ mail "b" 2 10 ∷ mail "c" 2 5 ∷ mail "d" 1 10 ∷ []
unfolding all_pages list_filtered before ticks untick
all_in_order = refl
