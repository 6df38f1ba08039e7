-- ===== src/Dues/Standing.antt =====
-- internal/store/queries/member_tier.sql and dues_rate.sql: the rows in force, the views
-- member_tier_standing and dues_rate_standing, in the order of their months.
use uruni.Base.{
  ℕ, Bool, ◌&&◌, ◌||◌, not, some, List, [], ◌∷◌, leb, ◌==◌, if◌then◌else◌, is_same, any, all,
  filter,
}
use uruni.Dates.{Text, text_lt, text_eq}
use uruni.Store.Rows.{Db, MemberTier, DuesRate}
use uruni.Dues.Pricing.{Pricing, new_pricing}

module _ {A : Type 0} (from : A → Text) where
  -- Before the first row of a later month.
  unfoldable pub insert_by : A → List A → List A
  insert_by a [] = a ∷ []
  insert_by a (b ∷ rows) =
      let rest = insert_by a rows in if text_lt (from a) (from b) then a ∷ b ∷ rows else b ∷ rest

  -- ORDER BY effective_from
  unfoldable pub order_by : List A → List A
  unfolding insert_by
  order_by [] = []
  order_by (a ∷ rows) = insert_by a (order_by rows)

-- member_tier_standing: no other row of the member and the month has a larger correction.
abbrev pub tier_stands : List MemberTier → MemberTier → Bool
tier_stands rows r =
    all
      (λ (c : MemberTier).
        not ((c.member_id == r.member_id) && text_eq c.effective_from r.effective_from)
        || leb c.correction r.correction)
      rows

-- dues_rate_standing
abbrev pub rate_stands : List DuesRate → DuesRate → Bool
rate_stands rows r =
    not r.deleted
    && all
        (λ (c : DuesRate).
          not ((c.tier_id == r.tier_id) && text_eq c.effective_from r.effective_from)
          || leb c.correction r.correction)
        rows

-- ListMemberTiersForMember
unfoldable pub member_tiers_for_member : ℕ → ℕ → Db → List MemberTier
unfolding order_by
member_tiers_for_member fund member db =
    order_by (λ (r : MemberTier). r.effective_from)
      (filter
        (λ (r : MemberTier).
          (r.fund_id == fund) && (r.member_id == member) && tier_stands db.member_tiers r)
        db.member_tiers)

-- A tier that the member has a standing row for.
abbrev pub has_standing_tier : ℕ → ℕ → Db → ℕ → Bool
has_standing_tier fund member db tier =
    any
      (λ (r : MemberTier).
        (r.fund_id == fund)
        && (r.member_id == member)
        && is_same r.tier_id (some tier)
        && tier_stands db.member_tiers r)
      db.member_tiers

-- ListDuesRatesForMemberPricing; the order between the tiers does not matter to a pricing.
unfoldable pub dues_rates_for_member_pricing : ℕ → ℕ → Db → List DuesRate
unfolding order_by
dues_rates_for_member_pricing fund member db =
    order_by (λ (r : DuesRate). r.effective_from)
      (filter
        (λ (r : DuesRate).
          rate_stands db.dues_rates r && has_standing_tier fund member db r.tier_id)
        db.dues_rates)

-- `memberPricing`
unfoldable pub member_pricing : ℕ → ℕ → Db → Pricing
unfolding member_tiers_for_member dues_rates_for_member_pricing
member_pricing fund member db =
    new_pricing (member_tiers_for_member fund member db)
      (dues_rates_for_member_pricing fund member db)
