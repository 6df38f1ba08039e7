-- ===== src/Dues/Pricing.antt =====
-- internal/ledger/pricing.go: the tier of a member and the rate of a tier at a period. A map from an
-- id to its timeline is a function.
use uruni.Base.{
  ℕ, zero, suc, ◌+◌, ◌/◌, Bool, true, not, Option, none, some, List, map, ltb, ◌==◌, if◌then◌else◌,
  is_some, any, filter, length, get_elem?,
}
use uruni.Base.Int.{ℤ}
use uruni.Dates.{Text, text_lt, take_month}
use uruni.Store.Rows.{MemberTier, DuesRate}

-- `tierSpan` and `rateSpan`
pub record Span (A : Type 0) : Type 0 where
  pub from : Text
  pub value : A

pub record Pricing : Type 0 where
  pub tiers : ℕ → List (Span (Option ℕ))
  pub rates : ℕ → List (Span ℤ)

abbrev pub tier_span : MemberTier → Span (Option ℕ)
tier_span r = record { from = r.effective_from; value = r.tier_id }

abbrev pub rate_span : DuesRate → Span ℤ
rate_span r = record { from = r.effective_from; value = r.amount }

-- `newPricing`
abbrev pub new_pricing : List MemberTier → List DuesRate → Pricing
new_pricing tier_rows rate_rows = record {
  tiers = λ member. map tier_span (filter (λ (r : MemberTier). r.member_id == member) tier_rows);
  rates = λ tier. map rate_span (filter (λ (r : DuesRate). r.tier_id == tier) rate_rows);
}

-- `hasTier`
abbrev pub has_tier : Pricing → ℕ → Bool
has_tier p member = any (λ (s : Span (Option ℕ)). is_some s.value) (p.tiers member)

-- sort.Search between two bounds: the fuel bounds their distance.
unfoldable pub search : ℕ → (ℕ → Bool) → ℕ → ℕ → ℕ
search zero f i j = i
search (suc fuel) f i j =
    let h = (i + j) / 2 in
    let right = search fuel f (suc h) j in
    let left = search fuel f i h in if ltb i j then (if not (f h) then right else left) else i

module _ {A : Type 0} where
  -- `spans[i].from > period`, where i is in range.
  abbrev pub starts_after : List (Span A) → Text → ℕ → Bool
  starts_after spans period i = elim (get_elem? spans i) [
    | none ↦ true
    | some s ↦ text_lt period s.from
  ]

  abbrev pub before : List (Span A) → ℕ → Option (Span A)
  before spans zero = none
  before spans (suc i) = get_elem? spans i

  -- The span just before the index that the search finds.
  unfoldable pub span_at : List (Span A) → Text → Option (Span A)
  span_at spans period =
      before spans (search (length spans) (starts_after spans period) 0 (length spans))

-- `tierAt`
unfoldable pub tier_at : Pricing → ℕ → Text → Option ℕ
tier_at p member period = elim (span_at (p.tiers member) period) [ none ↦ none | some s ↦ s.value ]

-- `rateAt`
unfoldable pub rate_at : Pricing → ℕ → Text → Option ℤ
rate_at p tier period = elim (span_at (p.rates tier) period) [ none ↦ none | some s ↦ some s.value ]

-- `priceAt`
unfoldable pub price_at : Pricing → ℕ → Text → Option (ℕ × ℤ)
price_at p member period = elim (tier_at p member period) [
  | none ↦ none
  | some tier ↦ elim (rate_at p tier period) [ none ↦ none | some amount ↦ some (tier, amount) ]
]

-- `currentTier`
unfoldable pub current_tier : Pricing → ℕ → Text → Text → Option ℕ
current_tier p member joined_on current_period =
    tier_at p member (
      if text_lt current_period (take_month joined_on)
      then take_month joined_on
      else current_period)
