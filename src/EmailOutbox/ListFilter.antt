-- ===== src/EmailOutbox/ListFilter.antt =====
-- `parseOutboxListFilter` of core/email/email-outbox-action-planner.ts: the query of the admin's
-- listing. `new Date(text)` is a parameter, none for an invalid date.
use Prim.Native.String.{String, ◌++◌ as append}
use nest_base.Base.{ℕ, Bool, true, false, ◌||◌, Option, none, some, ltb, str_eq, if◌then◌else◌}
use nest_base.Base.Trim.{trim}
use nest_base.Base.Decimal.{Whole, parse_int}
use nest_base.EmailOutbox.Planner.{Status, pending, sent, dead_letter, cancelled}
use nest_base.EmailOutbox.Listing.{EmailOutboxListFilter}

pub record ListFilterInput : Type 0 where
  pub status : Option String
  pub recipient : Option String
  pub template : Option String
  pub date_from : Option String
  pub date_to : Option String
  pub sort_by : Option String
  pub cursor : Option String
  pub limit : Option String

pub data Checked (A : Type 0) : Type 0 where
  accepted : A → Checked A
  rejected : (reason : String) → Checked A

-- The next check, unless one before it has returned.
unfoldable pub and_next : {A B : Type 0} → Checked A → (A → Checked B) → Checked B
and_next (Checked.accepted a) next = next a
and_next (Checked.rejected reason) next = Checked.rejected reason

-- text?.trim() || undefined
unfoldable pub given_text : Option String → Option String
unfolding trim
given_text none = none
given_text (some s) = let trimmed = trim s in if str_eq trimmed "" then none else some trimmed

unfoldable pub quoted : (what text : String) → String
quoted what text = append what (append "\"" (append text "\""))

unfoldable pub check_status : Option String → Checked (Option Status)
unfolding quoted
check_status none = Checked.accepted none
check_status (some s) =
    if str_eq s ""
    then Checked.accepted none
    else if str_eq s "pending"
    then Checked.accepted (some pending)
    else if str_eq s "sent"
    then Checked.accepted (some sent)
    else if str_eq s "dead-letter"
    then Checked.accepted (some dead_letter)
    else if str_eq s "cancelled"
    then Checked.accepted (some cancelled)
    else Checked.rejected
        (append (quoted "invalid status " s) "; allowed: pending, sent, dead-letter, cancelled")

unfoldable pub dated : (what text : String) → Option ℕ → Checked (Option ℕ)
unfolding quoted
dated what text none = Checked.rejected (quoted what text)
dated what text (some t) = Checked.accepted (some t)

unfoldable pub check_date :
    (parse_date : String → Option ℕ) (what : String) → Option String → Checked (Option ℕ)
unfolding dated
check_date parse_date what none = Checked.accepted none
check_date parse_date what (some s) =
    if str_eq s "" then Checked.accepted none else dated what s (parse_date s)

unfoldable pub check_order : (date_from date_to : Option ℕ) → Checked Unit
check_order (some from) (some to) =
    if ltb to from
    then Checked.rejected "dateFrom must not be after dateTo"
    else Checked.accepted tt
check_order date_from date_to = Checked.accepted tt

unfoldable pub check_sort_by : Option String → Checked Bool
unfolding quoted
check_sort_by none = Checked.accepted false
check_sort_by (some s) =
    if str_eq s "" || str_eq s "time"
    then Checked.accepted false
    else if str_eq s "attempts"
    then Checked.accepted true
    else Checked.rejected (append (quoted "invalid sortBy " s) "; allowed: time, attempts")

unfoldable pub limited : Option Whole → Checked ℕ
limited none = Checked.rejected "limit must be an integer between 1 and 200"
limited (some n) =
    if n.negative || ltb n.size 1 || ltb 200 n.size
    then Checked.rejected "limit must be an integer between 1 and 200"
    else Checked.accepted n.size

unfoldable pub check_limit : Option String → Checked ℕ
unfolding limited
check_limit none = Checked.accepted 50
check_limit (some s) = limited (parse_int s)

unfoldable pub parse_outbox_list_filter :
    (parse_date : String → Option ℕ) → ListFilterInput → Checked EmailOutboxListFilter
unfolding and_next check_status check_date check_order check_sort_by check_limit given_text
parse_outbox_list_filter parse_date input = and_next (check_status input.status) λ status.
    and_next (check_date parse_date "invalid dateFrom " input.date_from) λ date_from.
      and_next (check_date parse_date "invalid dateTo " input.date_to) λ date_to.
        and_next (check_order date_from date_to) λ in_order.
          and_next (check_sort_by input.sort_by) λ by_attempts.
            and_next (check_limit input.limit) λ limit. Checked.accepted (record {
              status = status;
              recipient = given_text input.recipient;
              template = given_text input.template;
              date_from = date_from;
              date_to = date_to;
              by_attempts = by_attempts;
              cursor = input.cursor;
              limit = some limit;
            })
