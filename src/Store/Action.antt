-- ===== src/Store/Action.antt =====
-- internal/ledger/ledger.go, internal/txguard/txguard.go: a ledger call as a state transformer on
-- the database. What an action wrote before an error is still in its result; `with_tx` is what
-- rolls it back. `Env` is the ledger's clock, one reading of it for the whole call, and the mark
-- that the caller's context carries inside a transaction.
use uruni.Base.{ℕ, ◌≡◌, refl, ap, subst, Bool, true, false, Option, arith}
use uruni.Errors.{Err, Result, ok, err, nested}
use uruni.Dates.{Text}
use uruni.Store.Rows.{Db}

pub record Env : Type 0 where
  -- the clock, in UTC unix seconds
  pub now : ℕ
  -- the clock's calendar day in a time zone; `none` for a zone that does not load
  pub day_in : Text → Option Text
  -- `txguard.Marked`
  pub marked : Bool

abbrev pub Action {ℓ} : Type ℓ → Type ℓ
Action A = Db → Result A × Db

module _ {ℓ} {A : Type ℓ} where
  abbrev pub pure : A → Action A
  pure a db = (ok a, db)

  abbrev pub fail : Err → Action A
  fail e db = (err e, db)

  -- A query that reads.
  abbrev pub read : (Db → Result A) → Action A
  read q db = (q db, db)

infixl 5 ◌>>=◌ ◌>>◌
abbrev pub ◌>>=◌ {ℓ κ} : {A : Type ℓ} {B : Type κ} → Action A → (A → Action B) → Action B
◌>>=◌ m f db = let (r, db') = m db in elim r [ ok a ↦ f a db' | err e ↦ (err e, db') ]

abbrev pub ◌>>◌ {ℓ κ} : {A : Type ℓ} {B : Type κ} → Action A → Action B → Action B
m >> k = m >>= λ _. k

-- A check that writes nothing.
abbrev pub check : Result (Unit {0}) → Action (Unit {0})
check r db = (r, db)

-- `txguard.Mark`
abbrev pub mark : Env → Env
mark env = record env { marked = true }

abbrev pub pool_answer {ℓ} : {A : Type ℓ} → Bool → Result A → Db → Result A × Db
pool_answer true r db = (err nested, db)
pool_answer false r db = (r, db)

-- A read through the pool: `txguard.Pool` refuses it inside a transaction.
unfoldable pub pool_read {ℓ} : {A : Type ℓ} → Env → (Db → Result A) → Action A
pool_read env q db = pool_answer env.marked (q db) db

-- What is committed: an error rolls everything back.
abbrev pub commit {ℓ} : {A : Type ℓ} → Db → Result A × Db → Result A × Db
commit before (ok a, after) = (ok a, after)
commit before (err e, after) = (err e, before)

-- What a transaction leaves, by whether the caller's context was marked.
abbrev pub outcome {ℓ} : {A : Type ℓ} → Bool → Db → Result A × Db → Result A × Db
outcome true before x = (err nested, before)
outcome false before x = commit before x

-- `Ledger.withTx`
unfoldable pub with_tx {ℓ} : {A : Type ℓ} → Env → (Env → Action A) → Action A
with_tx env fn db = outcome env.marked db (fn (mark env) db)

-- A property of the result and of the database that a successful action leaves.
abbrev pub Post {ℓ κ} : {A : Type ℓ} → Result A × Db → (A → Db → Type κ) → Type κ
Post (ok a, db) Q = Q a db
Post (err e, db) Q = Unit

-- `m >>= f`, once `m` has answered.
abbrev continue {ℓ κ} : {A : Type ℓ} {B : Type κ} → Result A × Db → (A → Action B) → Result B × Db
continue (ok a, db) f = f a db
continue (err e, db) f = (err e, db)

continue-Post {ℓ κ ι ο} :
    {A : Type ℓ} {B : Type κ} (x : Result A × Db) (f : A → Action B) (R : A → Db → Type ι)
    (Q : B → Db → Type ο)
    → Post x R
    → ((a : A) (db : Db) → R a db → Post (f a db) Q)
    → Post (let (r, db') = x in elim r [ ok a ↦ f a db' | err e ↦ (err e, db') ]) Q
continue-Post (ok a, db) f R Q first rest = rest a db first
continue-Post (err e, db) f R Q first rest = tt

-- A bind ensures what its continuation ensures after what the first action ensures.
pub Post-bind {ℓ κ ι ο} :
    {A : Type ℓ} {B : Type κ} (m : Action A) (f : A → Action B) (db : Db) (R : A → Db → Type ι)
    (Q : B → Db → Type ο)
    → Post (m db) R
    → ((a : A) (db' : Db) → R a db' → Post (f a db') Q)
    → Post ((m >>= f) db) Q
Post-bind m f db R Q first rest = continue-Post (m db) f R Q first rest

read_cases {ℓ κ ο} :
    {A : Type ℓ} {B : Type κ} (r : Result A) (f : A → Action B) (db : Db) (Q : B → Db → Type ο)
    → ((a : A) → r ≡ ok a → Post (f a db) Q)
    → Post (elim r [ ok a ↦ f a db | err e ↦ (err e, db) ]) Q
read_cases (ok a) f db Q rest = rest a refl
read_cases (err e) f db Q rest = tt

-- A read leaves the database, and its continuation knows what was read.
pub Post-read {ℓ κ ο} :
    {A : Type ℓ} {B : Type κ} (q : Db → Result A) (f : A → Action B) (db : Db) (Q : B → Db → Type ο)
    → ((a : A) → q db ≡ ok a → Post (f a db) Q)
    → Post ((read q >>= f) db) Q
Post-read q f db Q rest = read_cases (q db) f db Q rest

last_cases {ℓ κ} :
    {A : Type ℓ} (r : Result A) (db : Db) (Q : A → Db → Type κ)
    → ((a : A) → r ≡ ok a → Q a db)
    → Post (r, db) Q
last_cases (ok a) db Q h = h a refl
last_cases (err e) db Q h = tt

-- A property of an action that holds whenever the action answers.
pub Post-answer {ℓ κ} :
    {A : Type ℓ} (x : Result A × Db) (Q : A → Db → Type κ)
    → ((a : A) (db : Db) → x ≡ (ok a, db) → Q a db)
    → Post x Q
Post-answer (ok a, db) Q h = h a db refl
Post-answer (err e, db) Q h = tt

pub Post-answered {ℓ κ} :
    {A : Type ℓ} (x : Result A × Db) (Q : A → Db → Type κ) (a : A) (db : Db)
    → x ≡ (ok a, db)
    → Post x Q
    → Q a db
Post-answered x Q a db h q = subst (λ y. Post y Q) h q

-- An action that answered did so through an answer of its first part.
pub bind_split {ℓ κ} :
    {A : Type ℓ} {B : Type κ} (m : Action A) (f : A → Action B) (db : Db) (b : B) (after : Db)
    → (m >>= f) db ≡ (ok b, after)
    → (a : A) × (mid : Db) × (m db ≡ (ok a, mid)) × (f a mid ≡ (ok b, after))
bind_split {A = A} m f db b after h = split (m db) refl h
  where
    split :
        (x : Result A × Db)
        → m db ≡ x
        → (let (r, d) = x in elim r [ ok a ↦ f a d | err e ↦ (err e, d) ]) ≡ (ok b, after)
        → (a : A) × (mid : Db) × (m db ≡ (ok a, mid)) × (f a mid ≡ (ok b, after))
    split (ok a, mid) e k = (a, mid, e, k)
    split (err e', mid) e k = ground arith

pub read_split {ℓ κ} :
    {A : Type ℓ} {B : Type κ} (q : Db → Result A) (f : A → Action B) (db : Db) (b : B) (after : Db)
    → (read q >>= f) db ≡ (ok b, after)
    → (a : A) × (q db ≡ ok a) × (f a db ≡ (ok b, after))
read_split {A = A} q f db b after h = split (q db) refl h
  where
    split :
        (x : Result A)
        → q db ≡ x
        → elim x [ ok a ↦ f a db | err e ↦ (err e, db) ] ≡ (ok b, after)
        → (a : A) × (q db ≡ ok a) × (f a db ≡ (ok b, after))
    split (ok a) e k = (a, e, k)
    split (err e') e k = ground arith

pub pure_split {ℓ} :
    {A : Type ℓ} (a b : A) (db after : Db) → pure a db ≡ (ok b, after) → (a ≡ b) × (db ≡ after)
pure_split a b db after h = ground arith

-- A read that ends an action.
pub read-Post {ℓ κ} :
    {A : Type ℓ} (q : Db → Result A) (db : Db) (Q : A → Db → Type κ)
    → ((a : A) → q db ≡ ok a → Q a db)
    → Post (read q db) Q
read-Post q db Q h = last_cases (q db) db Q h

pub Post-weaken {ℓ κ ο} :
    {A : Type ℓ} (x : Result A × Db) (P : A → Db → Type κ) (Q : A → Db → Type ο)
    → Post x P
    → ((a : A) (db : Db) → P a db → Q a db)
    → Post x Q
Post-weaken (ok a, db) P Q h k = k a db h
Post-weaken (err e, db) P Q h k = tt

pool_cases {ℓ κ ο} :
    {A : Type ℓ} {B : Type κ} (b : Bool) (r : Result A) (f : A → Action B) (db : Db)
    (Q : B → Db → Type ο)
    → ((a : A) → r ≡ ok a → Post (f a db) Q)
    → Post ((pool_answer b r >>= f) db) Q
pool_cases true r f db Q rest = tt
pool_cases false r f db Q rest = read_cases r f db Q rest

-- A pool read that answers leaves the database too.
pub Post-pool_read {ℓ κ ο} :
    {A : Type ℓ} {B : Type κ} (env : Env) (q : Db → Result A) (f : A → Action B) (db : Db)
    (Q : B → Db → Type ο)
    → ((a : A) → q db ≡ ok a → Post (f a db) Q)
    → Post ((pool_read env q >>= f) db) Q
unfolding pool_read
Post-pool_read env q f db Q rest = pool_cases env.marked (q db) f db Q rest

commit-Post {ℓ κ} :
    {A : Type ℓ} (before : Db) (x : Result A × Db) (Q : A → Db → Type κ)
    → Post x Q
    → Post (commit before x) Q
commit-Post before (ok a, after) Q h = h
commit-Post before (err e, after) Q h = tt

outcome-Post {ℓ κ} :
    {A : Type ℓ} (marked : Bool) (before : Db) (x : Result A × Db) (Q : A → Db → Type κ)
    → Post x Q
    → Post (outcome marked before x) Q
outcome-Post true before x Q h = tt
outcome-Post false before x Q h = commit-Post before x Q h

module _ {ℓ} {A : Type ℓ} where
  -- What the body ensures, the transaction ensures.
  pub with_tx-Post {κ} :
      (env : Env) (fn : Env → Action A) (db : Db) (Q : A → Db → Type κ)
      → Post (fn (mark env) db) Q
      → Post (with_tx env fn db) Q
  unfolding with_tx
  with_tx-Post env fn db Q h = outcome-Post env.marked db (fn (mark env) db) Q h

-- An action that answers, and then what follows it.
pub bind_ok {ℓ κ} :
    {A : Type ℓ} {B : Type κ} (m : Action A) (f : A → Action B) (db : Db) (a : A) (after : Db)
    → m db ≡ (ok a, after)
    → (m >>= f) db ≡ f a after
bind_ok {A = A} {B = B} m f db a after h =
    ap
      (λ (x : Result A × Db).
        let (r, d) = x in elim r as (λ _. Result B × Db) [ ok b ↦ f b d | err e ↦ (err e, d) ])
      h

-- A read that answers, and then what follows it.
pub read_ok {ℓ κ} :
    {A : Type ℓ} {B : Type κ} (q : Db → Result A) (f : A → Action B) (db : Db) (a : A)
    → q db ≡ ok a
    → (read q >>= f) db ≡ f a db
read_ok q f db a h = rw h refl

pub pool_read_ok {ℓ κ} :
    {A : Type ℓ} {B : Type κ} (env : Env) (q : Db → Result A) (f : A → Action B) (db : Db) (a : A)
    → env.marked ≡ false
    → q db ≡ ok a
    → (pool_read env q >>= f) db ≡ f a db
unfolding pool_read
pool_read_ok {A = A} env q f db a outside h = answered env.marked (q db) outside h
  where
    answered :
        (b : Bool) (r : Result A) → b ≡ false → r ≡ ok a → (pool_answer b r >>= f) db ≡ f a db
    answered b r e h' = rw (e, h') refl

pub with_tx_ok {ℓ} :
    {A : Type ℓ} (env : Env) (fn : Env → Action A) (db : Db) (a : A) (after : Db)
    → env.marked ≡ false
    → fn (mark env) db ≡ (ok a, after)
    → with_tx env fn db ≡ (ok a, after)
unfolding with_tx
with_tx_ok {A = A} env fn db a after outside h = answered env.marked (fn (mark env) db) outside h
  where
    answered :
        (b : Bool) (x : Result A × Db)
        → b ≡ false
        → x ≡ (ok a, after)
        → outcome b db x ≡ (ok a, after)
    answered b x e h' = rw (e, h') refl
