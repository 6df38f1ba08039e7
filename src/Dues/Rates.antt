-- ===== src/Dues/Rates.antt =====
-- internal/ledger/dues_rate.go: the trail of the rates as a map from a tier and a month to the amount
-- in force.
use uruni.Base.{
  ℕ, ◌<◌, ◌≡◌, refl, ap, ◌∙◌, subst, fun_ext, Bool, true, ◌&&◌, Option, none, some, List, [], ◌∷◌,
  ◌++◌, arith, ◌==◌, if◌then◌else◌, inl, inr, Bool-cases, Option-cases,
}
use uruni.Base.Int.{ℤ}
use uruni.Errors.{ok}
use uruni.Money.{Amount}
use uruni.Dates.{Text, text_eq}
use uruni.Dates.Window.{text_eq-eq}
use uruni.Store.Rows.{Db, DuesRate}
use uruni.Store.Action.{Env}
use uruni.Dues.Rate.{
  of_month, later_of, latest_of, new_rate, with_rates, insert_dues_rate, next_correction,
}

-- The abstract view: the amount of a tier from a month, where a rate starts there.
abbrev pub RateMap : Type 0
RateMap = ℕ → Text → Option ℤ

abbrev pub amount_of : Option DuesRate → Option ℤ
amount_of none = none
amount_of (some r) = if r.deleted then none else some r.amount

abbrev pub rate_map : List DuesRate → RateMap
rate_map rows tier month = amount_of (latest_of tier month rows)

abbrev pub put : ℕ → Text → Option ℤ → RateMap → RateMap
put tier month value rates t m = if (tier == t) && text_eq month m then value else rates t m

pub data RateOp : Type 0 where
  insert : ℕ → Text → ℤ → RateOp
  replace : ℕ → Text → ℤ → RateOp
  remove : ℕ → Text → RateOp

-- Inserting wants the month free; replacing and removing want it taken.
abbrev pub apply : RateOp → RateMap → Option RateMap
apply (insert tier month amount) rates = elim (rates tier month) [
  | none ↦ some (put tier month (some amount) rates)
  | some other ↦ none
]
apply (replace tier month amount) rates = elim (rates tier month) [
  | none ↦ none
  | some other ↦ some (put tier month (some amount) rates)
]
apply (remove tier month) rates = elim (rates tier month) [
  | none ↦ none
  | some other ↦ some (put tier month none rates)
]

later_of_assoc : (a b c : Option DuesRate) → later_of a (later_of b c) ≡ later_of (later_of a b) c
later_of_assoc a b c = ground arith

latest_of-append :
    (tier : ℕ) (month : Text) (rows : List DuesRate) (r : DuesRate)
    → latest_of tier month (rows ++ (r ∷ []))
      ≡ later_of (latest_of tier month rows) (if of_month tier month r then some r else none)
unfolding latest_of
latest_of-append tier month [] r = ground arith
latest_of-append tier month (x ∷ rows) r = rw (latest_of-append tier month rows r) (
    later_of_assoc (if of_month tier month x then some x else none) (latest_of tier month rows)
      (if of_month tier month r then some r else none))

-- The row that stands is one of the month.
pub latest_of-month :
    (tier : ℕ) (month : Text) (rows : List DuesRate) (r : DuesRate)
    → latest_of tier month rows ≡ some r
    → of_month tier month r ≡ true
unfolding latest_of
latest_of-month tier month [] r h = ground arith
latest_of-month tier month (x ∷ rows) r h = elim (Option-cases (latest_of tier month rows)) [
  | inl e ↦ ground arith
  | inr (s, e) ↦ ground (arith, latest_of-month tier month rows s e)
]

-- The row that is the month's latest, or none, has a smaller correction.
abbrev pub Newer : Option DuesRate → ℕ → Type 0
Newer none c = Unit
Newer (some l) c = l.correction < c

later_of-Newer :
    (o : Option DuesRate) (r : DuesRate) → Newer o r.correction → later_of o (some r) ≡ some r
later_of-Newer none r h = refl
later_of-Newer (some l) r h = ground arith

later_of-none : (o : Option DuesRate) → later_of o none ≡ o
later_of-none o = ground arith

-- A further row of a month replaces what the map says of the month.
rate_map-append :
    (rows : List DuesRate) (r : DuesRate)
    → Newer (latest_of r.tier_id r.effective_from rows) r.correction
    → rate_map (rows ++ (r ∷ []))
      ≡ put r.tier_id r.effective_from (amount_of (some r)) (rate_map rows)
rate_map-append rows r newer = fun_ext λ t. fun_ext λ m. elim (Bool-cases (of_month t m r)) [
  | inl e ↦
      let same : r.tier_id ≡ t = ground arith in
      let month : r.effective_from ≡ m = text_eq-eq r.effective_from m (ground arith) in
      let before =
        subst (λ x. Newer (latest_of t x rows) r.correction) month
          (subst (λ x. Newer (latest_of x r.effective_from rows) r.correction) same newer) in
      rw (latest_of-append t m rows r, e, later_of-Newer (latest_of t m rows) r before) refl
  | inr e ↦ rw (latest_of-append t m rows r, e, later_of-none (latest_of t m rows)) refl
]

pub row_inserted :
    (env : Env) (tier : ℕ) (amount : Amount) (month : Text) (c : ℕ) (gone : Bool) (db : Db)
    (r : DuesRate) (after : Db)
    → insert_dues_rate env tier amount month c gone db ≡ (ok r, after)
    → (r ≡ new_rate env tier amount month c gone db)
      × (after ≡ with_rates (db.dues_rates ++ (r ∷ [])) db)
unfolding insert_dues_rate
row_inserted env tier amount month c gone db r after h = ground arith

-- What an insert does to the map.
pub map_inserted :
    (env : Env) (tier : ℕ) (amount : Amount) (month : Text) (c : ℕ) (gone : Bool) (db : Db)
    (r : DuesRate) (after : Db)
    → insert_dues_rate env tier amount month c gone db ≡ (ok r, after)
    → Newer (latest_of tier month db.dues_rates) c
    → rate_map after.dues_rates
      ≡ put tier month (if gone then none else some amount) (rate_map db.dues_rates)
map_inserted env tier amount month c gone db r after h newer =
    let (made, left) = row_inserted env tier amount month c gone db r after h in
    ap (λ (x : Db). rate_map x.dues_rates) left
    ∙ ap (λ x. rate_map (db.dues_rates ++ (x ∷ []))) made
    ∙ rate_map-append db.dues_rates (new_rate env tier amount month c gone db) newer

pub free_month :
    (o : Option DuesRate) (c : ℕ) → next_correction o ≡ ok c → (amount_of o ≡ none) × Newer o c
unfolding next_correction
free_month none c h = (refl, tt)
free_month (some l) c h = ground arith

-- Putting the value that is there changes nothing.
pub put_same :
    (tier : ℕ) (month : Text) (amount : ℤ) (rates : RateMap)
    → rates tier month ≡ some amount
    → put tier month (some amount) rates ≡ rates
put_same tier month amount rates h = fun_ext λ t. fun_ext λ m.
    elim (Bool-cases ((tier == t) && text_eq month m)) [
      | inl e ↦
          let same : tier ≡ t = ground arith in
          let eq : month ≡ m = text_eq-eq month m (ground arith) in
          let there =
            subst (λ x. rates t x ≡ some amount) eq
              (subst (λ x. rates x month ≡ some amount) same h) in
          rw (e, there) refl
      | inr e ↦ rw e refl
    ]
