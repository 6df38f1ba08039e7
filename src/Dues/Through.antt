-- ===== src/Dues/Through.antt =====
-- internal/ledger/dues_status.go: paidThrough, the month that a member is paid through without a break.
-- The source's loop has no bound of its own; here it runs on fuel.
use uruni.Base.{
  ℕ, zero, suc, ◌+◌, ◌-◌, ◌*◌, ◌<◌, ◌≡◌, ◌⊎◌, Bool, true, false, ◌||◌, not, Option, none, some, [],
  if◌then◌else◌,
}
use uruni.Base.Int.{pos, ltb_ℤ, ◌≤ℤ◌}
use uruni.Money.{Amount}
use uruni.Dates.{Text, text_lt, parse_period, format_month}
use uruni.Store.Rows.{Member}
use uruni.Dues.Pricing.{Pricing, price_at}
use uruni.Dues.Status.{DuesStatus, status_paid, classify_dues_month, member_owes_period}

abbrev is_paid : DuesStatus → Bool
is_paid status_paid = true
is_paid _ = false

module _ (member : Member) (prices : Pricing) (paid : Text → Amount) (waived : Text → Bool)
    (latest : Text) where
  -- The loop leaves at this month.
  abbrev pub stops_at : Text → Bool
  stops_at next = text_lt latest next || not (member_owes_period member next)

  -- `none` where nothing is owed for the month, else whether it is paid.
  unfoldable pub paid_at : Text → Option Bool
  unfolding classify_dues_month
  paid_at next = elim (price_at prices member.id next) [
    | none ↦ none
    | some (tier, owed) ↦ some (is_paid (classify_dues_month owed (paid next) (waived next)))
  ]

  -- The loop, from the month before `next`; `none` where the fuel runs out.
  unfoldable pub paid_through_from : ℕ → ℕ → Text → Option Text
  paid_through_from zero month through = none
  paid_through_from (suc fuel) month through =
      let next = format_month (pos (suc month)) in
      let skipped = paid_through_from fuel (suc month) through in
      let moved = paid_through_from fuel (suc month) next in
      if stops_at next
      then some through
      else elim (paid_at next) [ none ↦ skipped | some true ↦ moved | some false ↦ some through ]

  -- A month without a price, a month paid in full and not waived, and a month that has a price and is
  -- neither.
  abbrev pub IsUnpriced : ℕ → Type 0
  IsUnpriced i = price_at prices member.id (format_month (pos i)) ≡ none

  abbrev pub IsPaid : ℕ → Type 0
  IsPaid i =
      (tier : ℕ) × (owed : Amount) × (price_at prices member.id (format_month (pos i))
        ≡ some (tier, owed))
      × (waived (format_month (pos i)) ≡ false)
      × (owed ≤ℤ paid (format_month (pos i)))

  abbrev pub IsShort : ℕ → Type 0
  IsShort i =
      (tier : ℕ) × (owed : Amount) × (price_at prices member.id (format_month (pos i))
        ≡ some (tier, owed))
      × ((waived (format_month (pos i)) ≡ true) ⊎ (ltb_ℤ (paid (format_month (pos i))) owed ≡ true))

  -- Past the latest month paid, or outside the member's months.
  abbrev pub IsOutside : ℕ → Type 0
  IsOutside i =
      (text_lt latest (format_month (pos i)) ≡ true)
      ⊎ (member_owes_period member (format_month (pos i)) ≡ false)

  abbrev pub Between : ℕ → ℕ → (ℕ → Type 0) → Type 0
  Between month end P = (i : ℕ) → month < i → i < end → P i

  -- The answer of a walk from `month` that ends at `end`: what it started with where no month between
  -- has a price, else the last month between that has one.
  abbrev pub IsLast : ℕ → ℕ → Text → Text → Type 0
  IsLast month end through s =
      ((s ≡ through) × Between month end IsUnpriced)
      ⊎ ((k : ℕ) × (month < k)
          × (k < end)
          × IsPaid k
          × (s ≡ format_month (pos k))
          × Between k end IsUnpriced)

  -- The walk ends at the first month that is outside, or is priced and not paid.
  abbrev pub Walked : ℕ → Text → Text → Type 0
  Walked month through s =
      (end : ℕ) × (month < end)
      × (IsOutside end ⊎ IsShort end)
      × Between month end (λ i. IsUnpriced i ⊎ IsPaid i)
      × IsLast month end through s

-- `paidThrough`, with a step for each month up to the latest paid one.
unfoldable pub paid_through :
    Member → Pricing → (Text → Amount) → (Text → Bool) → Text → Text → Option Text
paid_through member prices paid waived period latest = elim (parse_period period) [
  | none ↦ none
  | some (y, m) ↦ elim (parse_period latest) [
    | none ↦ none
    | some (z, n) ↦
        paid_through_from member prices paid waived latest (suc (z * 12 + n - 1)) (y * 12 + m - 1)
          []
  ]
]
