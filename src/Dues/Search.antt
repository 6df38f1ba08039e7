-- ===== src/Dues/Search.antt =====
-- internal/ledger/pricing.go: the binary search finds the latest span at or before the period.
use uruni.Base.{
  ℕ, zero, suc, ◌+◌, ◌-◌, ◌/◌, ◌≤◌, ◌<◌, ◌≡◌, ◌↔◌, refl, sym, ap, ◌∙◌, inl, inr, Bool, true, false,
  Option, none, some, List, [], ◌∷◌, arith, if◌then◌else◌, length, get_elem?, All, Bool-cases,
}
use uruni.Dates.{Text, text_lt}
use uruni.Base.Int.{ℤ}
use uruni.Dues.Pricing.{
  Pricing, tier_at, rate_at, price_at, Span, search, starts_after, before, span_at,
}

-- On a test that turns true at m and stays true, the search finds m.
search_threshold :
    (fuel : ℕ) (f : ℕ → Bool) (n m i j : ℕ)
    → ((k : ℕ) → k < n → (f k ≡ true) ↔ (m ≤ k))
    → i ≤ m
    → m ≤ j
    → j ≤ n
    → j - i ≤ fuel
    → search fuel f i j ≡ m
unfolding search
search_threshold zero f n m i j turn lo hi top enough = omega arith
search_threshold (suc fuel) f n m i j turn lo hi top enough = ground (
  arith,
  turn ((i + j) / 2),
  search_threshold fuel f n m (suc ((i + j) / 2)) j turn,
  search_threshold fuel f n m i ((i + j) / 2) turn,
)

text_lt_trans : (a b c : Text) → text_lt a b ≡ true → text_lt b c ≡ true → text_lt a c ≡ true
text_lt_trans a b [] p q = q
text_lt_trans a [] (z ∷ c) p q = ground arith
text_lt_trans [] (y ∷ b) (z ∷ c) p q = refl
text_lt_trans (x ∷ a) (y ∷ b) (z ∷ c) p q = ground (arith, text_lt_trans a b c)

module _ {A : Type 0} where
  -- The months of the spans rise.
  abbrev pub Ascending : List (Span A) → Type 0
  Ascending [] = Unit
  Ascending (s ∷ spans) = All (λ (t : Span A). text_lt s.from t.from ≡ true) spans × Ascending spans

  -- The last span that does not start after the period.
  unfoldable pub latest_at : List (Span A) → Text → Option (Span A)
  latest_at [] period = none
  latest_at (s ∷ spans) period =
      let later = latest_at spans period in
      elim later [ some t ↦ some t | none ↦ if text_lt period s.from then none else some s ]

  -- How many spans do not start after the period, up to the first that does.
  lead : List (Span A) → Text → ℕ
  lead [] period = 0
  lead (s ∷ spans) period =
      let rest = lead spans period in if text_lt period s.from then 0 else suc rest

  lead_bound : (spans : List (Span A)) (period : Text) → lead spans period ≤ length spans
  unfolding lead
  lead_bound [] period = omega arith
  lead_bound (s ∷ spans) period = ground (arith, lead_bound spans period)

  AllAfter : List (Span A) → Text → Type 0
  AllAfter spans period = All (λ (t : Span A). text_lt period t.from ≡ true) spans

  -- Spans that start after a later month start after an earlier one.
  after-AllAfter :
      (spans : List (Span A)) (period month : Text)
      → text_lt period month ≡ true
      → All (λ (t : Span A). text_lt month t.from ≡ true) spans
      → AllAfter spans period
  unfolding AllAfter
  after-AllAfter [] period month h k = tt
  after-AllAfter (t ∷ spans) period month h k =
      (text_lt_trans period month t.from h k.0, after-AllAfter spans period month h k.1)

  starts_after-AllAfter :
      (spans : List (Span A)) (period : Text) (k : ℕ)
      → AllAfter spans period
      → starts_after spans period k ≡ true
  unfolding AllAfter
  starts_after-AllAfter [] period k h = refl
  starts_after-AllAfter (s ∷ spans) period zero h = h.0
  starts_after-AllAfter (s ∷ spans) period (suc k) h = starts_after-AllAfter spans period k h.1

  latest_at-AllAfter :
      (spans : List (Span A)) (period : Text)
      → AllAfter spans period
      → latest_at spans period ≡ none
  unfolding AllAfter latest_at
  latest_at-AllAfter [] period h = refl
  latest_at-AllAfter (s ∷ spans) period h = rw (latest_at-AllAfter spans period h.1, h.0) refl

  -- The test that the search makes turns true at the lead.
  starts_after-lead :
      (spans : List (Span A)) (period : Text)
      → Ascending spans
      → (k : ℕ) → k < length spans
      → (starts_after spans period k ≡ true) ↔ (lead spans period ≤ k)
  unfolding lead AllAfter
  starts_after-lead [] period h k small = ground arith
  starts_after-lead (s ∷ spans) period h k small = elim (Bool-cases (text_lt period s.from)) [
    | inl e ↦
        rw (e, lead)
          (
            λ _. omega arith,
            λ _.
                starts_after-AllAfter (s ∷ spans) period k
                  (e, after-AllAfter spans period s.from e h.0),
          )
    | inr e ↦ rw (e, lead) (later k e (starts_after-lead spans period h.1) small)
  ]
    where
      later :
          (i : ℕ)
          → text_lt period s.from ≡ false
          → ((n : ℕ)
              → n < length spans
              → (starts_after spans period n ≡ true) ↔ (lead spans period ≤ n))
          → i < length (s ∷ spans)
          → (starts_after (s ∷ spans) period i ≡ true) ↔ (suc (lead spans period) ≤ i)
      later zero e turn below = ground arith
      later (suc i) e turn below = ground (arith, turn i)

  present :
      (s : Span A) (l : List (Span A)) (k : ℕ)
      → suc k ≤ length l
      → get_elem? l k
        ≡ elim (get_elem? l k) as (λ _. Option (Span A)) [ some t ↦ some t | none ↦ some s ]
  present s [] k small = ground arith
  present s (t ∷ l) zero small = refl
  present s (t ∷ l) (suc k) small = present s l k (omega arith)

  before-lead :
      (spans : List (Span A)) (period : Text)
      → Ascending spans
      → before spans (lead spans period) ≡ latest_at spans period
  unfolding lead latest_at
  before-lead [] period h = refl
  before-lead (s ∷ spans) period h = elim (Bool-cases (text_lt period s.from)) [
    | inl e ↦
        rw (latest_at-AllAfter spans period (after-AllAfter spans period s.from e h.0), e) refl
    | inr e ↦ rw e (
        step (lead spans period) (before-lead spans period h.1) (lead_bound spans period)
        ∙ opened (latest_at spans period) e)
  ]
    where
      opened :
          (o : Option (Span A))
          → text_lt period s.from ≡ false
          → elim o as (λ _. Option (Span A)) [ some t ↦ some t | none ↦ some s ]
            ≡ elim o as (λ _. Option (Span A)) [
              | some t ↦ some t
              | none ↦ if text_lt period s.from then none else some s
            ]
      opened none e = rw e refl
      opened (some t) e = refl

      step :
          (k : ℕ)
          → before spans k ≡ latest_at spans period
          → k ≤ length spans
          → get_elem? (s ∷ spans) k ≡ elim (latest_at spans period) as (λ _. Option (Span A)) [
            | some t ↦ some t
            | none ↦ some s
          ]
      step zero same small = rw (sym same) refl
      step (suc k) same small = rw (sym same) (present s spans k small)

  -- On spans whose months rise, the binary search answers with the latest one at or before the
  -- period, and with none where the first one starts after it.
  pub span_at_lem :
      (spans : List (Span A)) (period : Text)
      → Ascending spans
      → span_at spans period ≡ latest_at spans period
  unfolding span_at
  span_at_lem spans period h =
      let found =
        search_threshold (length spans) (starts_after spans period) (length spans)
          (lead spans period) 0 (length spans) (starts_after-lead spans period h) (omega arith)
          (lead_bound spans period) (omega arith) (omega arith) in
      rw found (before-lead spans period h)

-- The price by the two timelines: the tier of the latest row at or before the period, and the amount
-- of that tier's latest rate at or before it.
abbrev pub priced : Option (Span (Option ℕ)) → (ℕ → Option (Span ℤ)) → Option (ℕ × ℤ)
priced none rate = none
priced (some s) rate = elim s.value [
  | none ↦ none
  | some tier ↦ elim (rate tier) [ none ↦ none | some r ↦ some (tier, r.value) ]
]

-- On timelines whose months rise, priceAt answers with the tier that the member's latest row at or
-- before the period names and that tier's latest rate at or before it, and with nothing where
-- either is missing.
pub price_at_lem :
    (p : Pricing) (member : ℕ) (period : Text)
    → Ascending (p.tiers member)
    → ((tier : ℕ) → Ascending (p.rates tier))
    → price_at p member period
      ≡ priced (latest_at (p.tiers member) period) (λ tier. latest_at (p.rates tier) period)
unfolding price_at tier_at rate_at
price_at_lem p member period tiers rates =
    by_tier (span_at (p.tiers member) period)
    ∙ ap (λ o. priced o (λ tier. latest_at (p.rates tier) period))
        (span_at_lem (p.tiers member) period tiers)
  where
    by_rate :
        (tier : ℕ) (o : Option (Span ℤ))
        → o ≡ latest_at (p.rates tier) period
        → elim (elim o as (λ _. Option ℤ) [ none ↦ none | some r ↦ some r.value ])
            as (λ _. Option (ℕ × ℤ)) [ none ↦ none | some amount ↦ some (tier, amount) ]
          ≡ elim (latest_at (p.rates tier) period) as (λ _. Option (ℕ × ℤ)) [
            | none ↦ none
            | some r ↦ some (tier, r.value)
          ]
    by_rate tier none e = rw (sym e) refl
    by_rate tier (some r) e = rw (sym e) refl

    by_value :
        (v : Option ℕ)
        → elim v as (λ _. Option (ℕ × ℤ)) [
          | none ↦ none
          | some tier ↦ elim (rate_at p tier period) as (λ _. Option (ℕ × ℤ)) [
            | none ↦ none
            | some amount ↦ some (tier, amount)
          ]
        ]
          ≡ elim v as (λ _. Option (ℕ × ℤ)) [
            | none ↦ none
            | some tier ↦ elim (latest_at (p.rates tier) period) as (λ _. Option (ℕ × ℤ)) [
              | none ↦ none
              | some r ↦ some (tier, r.value)
            ]
          ]
    by_value none = refl
    by_value (some tier) =
        by_rate tier (span_at (p.rates tier) period)
          (span_at_lem (p.rates tier) period (rates tier))

    by_tier :
        (o : Option (Span (Option ℕ)))
        → elim (elim o as (λ _. Option ℕ) [ none ↦ none | some s ↦ s.value ])
            as (λ _. Option (ℕ × ℤ)) [
              | none ↦ none
              | some tier ↦ elim (rate_at p tier period) as (λ _. Option (ℕ × ℤ)) [
                | none ↦ none
                | some amount ↦ some (tier, amount)
              ]
            ]
          ≡ priced o (λ tier. latest_at (p.rates tier) period)
    by_tier none = refl
    by_tier (some s) = by_value s.value
