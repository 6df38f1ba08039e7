-- ===== src/Base/Lists.antt =====
-- Lists measured and indexed by native numbers, under the library's names, and list searches
-- whose tests are Boolean.
use Prim.Native.Nat.{ℕ, zero, suc, ◌+◌}
use mathlib.Core.Path.{◌≡◌, refl, ap, subst}
use mathlib.Core.Bool.{Bool, true, false, ◌&&◌, ◌||◌}
use mathlib.Core.List.{List, [], ◌∷◌, ◌++◌}
use mathlib.Core.Option.{Option, none, some}
use native.Mathlib.Omega.{arith}
use mathlib.Core.Logic.{inl, inr}
use uruni.Base.Tests.{if◌then◌else◌, Bool-cases}

module _ {ℓ} {A : Type ℓ} where
  abbrev pub length : List A → ℕ
  length [] = 0
  length (x ∷ xs) = suc (length xs)

  abbrev pub get_elem? : List A → ℕ → Option A
  get_elem? [] i = none
  get_elem? (x ∷ xs) zero = some x
  get_elem? (x ∷ xs) (suc i) = get_elem? xs i

  -- The first element that passes the test.
  abbrev pub find? : (A → Bool) → List A → Option A
  find? p [] = none
  find? p (x ∷ xs) = if p x then some x else find? p xs

  abbrev pub any : (A → Bool) → List A → Bool
  any p [] = false
  any p (x ∷ xs) = p x || any p xs

  abbrev pub all : (A → Bool) → List A → Bool
  all p [] = true
  all p (x ∷ xs) = p x && all p xs

  abbrev pub filter : (A → Bool) → List A → List A
  filter p [] = []
  filter p (x ∷ xs) = if p x then x ∷ filter p xs else filter p xs

  -- Every element satisfies the predicate.
  abbrev pub All {κ} : (A → Type κ) → List A → Type κ
  All P [] = Unit
  All P (x ∷ xs) = P x × All P xs

module _ {ℓ} {A : Type ℓ} where
  pub length-append : (xs ys : List A) → length (xs ++ ys) ≡ length xs + length ys
  length-append [] ys = omega arith
  length-append (x ∷ xs) ys = omega (arith, length-append xs ys)

  pub any-append : (p : A → Bool) (xs ys : List A) → any p (xs ++ ys) ≡ (any p xs || any p ys)
  any-append p [] ys = refl
  any-append p (x ∷ xs) ys = ground (arith, any-append p xs ys)

  pub any_congr : (p q : A → Bool) (xs : List A) → ((x : A) → p x ≡ q x) → any p xs ≡ any q xs
  any_congr p q [] h = refl
  any_congr p q (x ∷ xs) h = ground (arith, h x, any_congr p q xs h)

  pub filter_congr :
      (p q : A → Bool) (xs : List A) → All (λ x. p x ≡ q x) xs → filter p xs ≡ filter q xs
  filter_congr p q [] h = refl
  filter_congr p q (x ∷ xs) (hx, hxs) = ground (arith, hx, filter_congr p q xs hxs)

  pub All-map {κ ι} :
      (P : A → Type κ) (Q : A → Type ι) (xs : List A) → ((x : A) → P x → Q x) → All P xs → All Q xs
  All-map P Q [] f h = tt
  All-map P Q (x ∷ xs) f h = (f x h.0, All-map P Q xs f h.1)

  pub filter-append :
      (p : A → Bool) (xs ys : List A) → filter p (xs ++ ys) ≡ filter p xs ++ filter p ys
  filter-append p [] ys = refl
  filter-append p (x ∷ xs) ys = ground (arith, filter-append p xs ys)

  pub find?-append_some :
      (p : A → Bool) (xs ys : List A) (x : A) → find? p xs ≡ some x → find? p (xs ++ ys) ≡ some x
  find?-append_some p [] ys x h = ground arith
  find?-append_some p (y ∷ xs) ys x h = ground (arith, find?-append_some p xs ys x)

  pub find?-append_none :
      (p : A → Bool) (xs ys : List A) → any p xs ≡ false → find? p (xs ++ ys) ≡ find? p ys
  find?-append_none p [] ys h = refl
  find?-append_none p (y ∷ xs) ys h = ground (arith, find?-append_none p xs ys)

  -- What a search finds passes its test.
  pub find?-test : (p : A → Bool) (xs : List A) (x : A) → find? p xs ≡ some x → p x ≡ true
  find?-test p [] x h = ground arith
  find?-test p (y ∷ xs) x h = ground (arith, find?-test p xs x)

  pub All-append {κ} : (P : A → Type κ) (xs ys : List A) → All P xs → All P ys → All P (xs ++ ys)
  All-append P [] ys hx hy = hy
  All-append P (x ∷ xs) ys hx hy = (hx.0, All-append P xs ys hx.1 hy)

  -- What a search finds stands in the list.
  pub find?-split :
      (p : A → Bool) (xs : List A) (x : A)
      → find? p xs ≡ some x
      → (before : List A) × (after : List A) × (xs ≡ before ++ (x ∷ after))
  find?-split p [] x h = ground arith
  find?-split p (y ∷ xs) x h = elim (Bool-cases (p y)) [
    | inl e ↦ let same : y ≡ x = ground arith in ([], xs, ap (λ z. z ∷ xs) same)
    | inr e ↦
        let (before, after, split) = find?-split p xs x (ground arith) in
        (y ∷ before, after, ap (λ zs. y ∷ zs) split)
  ]

  -- A search finds an element of the list.
  pub All-find? {κ} :
      (P : A → Type κ) (p : A → Bool) (xs : List A) (x : A) → All P xs → find? p xs ≡ some x → P x
  All-find? P p [] x h e = ground arith
  All-find? P p (y ∷ xs) x h e = found (p y) (λ e'. All-find? P p xs x h.1 e') e
    where
      found :
          (b : Bool)
          → (find? p xs ≡ some x → P x)
          → (if b then some y else find? p xs) ≡ some x
          → P x
      found true rest e' = let same : y ≡ x = ground arith in subst P same h.0
      found false rest e' = rest e'
