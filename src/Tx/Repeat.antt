-- ===== src/Tx/Repeat.antt =====
-- internal/ledger/idempotency.go: the repeat of a keyed write that answered.
use uruni.Base.{
  ℕ, ◌-◌, ◌<◌, ◌≡◌, refl, sym, ap, ◌∙◌, subst, true, false, ◌&&◌, some, List, [], ◌∷◌, arith, ltb,
  if◌then◌else◌, any, find?, find?-append_none, inl, inr, Bool-cases,
}
use uruni.Errors.{Result, ok, err, idempotency_key_reused}
use uruni.Dates.{Text, text_eq}
use uruni.Dates.Window.{text_eq_refl}
use uruni.Store.Rows.{Db, IdempotencyKey}
use uruni.Store.Action.{Env, Action, Post, Post-answered, commit, outcome, mark, with_tx}
use uruni.Store.Queries.{get_idempotency_key}
use uruni.Tx.{Idempotency, Reply, Codec, replay, keyed, with_idempotency}
use uruni.Tx.Replay.{with_keys, Answered, Recorded, with_idempotency-Post}

-- Records of other keys are passed over.
none_live :
    (key : Text) (now : ℕ) (others : List IdempotencyKey)
    → any (λ (k : IdempotencyKey). text_eq k.key key) others ≡ false
    → any (λ (k : IdempotencyKey). text_eq k.key key && ltb now k.expires_at) others ≡ false
none_live key now [] h = refl
none_live key now (k ∷ others) h = ground (arith, none_live key now others)

-- What a repeat is answered with.
abbrev pub repeat_answer : {A : Type 0} → Idempotency → Idempotency → A → Result (Reply A)
repeat_answer i again a =
    if text_eq i.fingerprint again.fingerprint
    then ok (record { value = a; replayed = true; age_seconds = again.now - i.now })
    else err idempotency_key_reused

nothing : {A : Type 0} (x : Result A × Db) → Post x (λ a d. Unit {0})
nothing (ok a, d) = tt
nothing (err e, d) = tt

module _ {A : Type 0} (codec : Codec A) where
  get_idempotency_key-Recorded :
      (i : Idempotency) (a : A) (after : Db) (now : ℕ)
      → now < i.expires_at
      → Recorded codec (some i) a after
      → get_idempotency_key i.key now after
        ≡ some (record {
          key = i.key;
          fingerprint = i.fingerprint;
          result = codec.encode a;
          created_at = i.now;
          expires_at = i.expires_at;
        })
  get_idempotency_key-Recorded i a after now live (others, split, once) =
      let test = λ (k : IdempotencyKey). text_eq k.key i.key && ltb now k.expires_at in
      let early : ltb now i.expires_at ≡ true = ground arith in
      ap (find? test) split
      ∙ find?-append_none test others _ (none_live i.key now others once)
      ∙ rw (text_eq_refl i.key, early) refl

  replayed :
      (again : Idempotency) (r : IdempotencyKey) (a : A)
      → codec.decode r.result ≡ some a
      → replay codec again r ≡ (
          if text_eq r.fingerprint again.fingerprint
          then ok (record { value = a; replayed = true; age_seconds = again.now - r.created_at })
          else err idempotency_key_reused)
  replayed again r a h = rw h refl

  keyed_repeated :
      (i again : Idempotency) (write : Action A) (a : A) (db : Db)
      → again.key ≡ i.key
      → again.now < i.expires_at
      → Recorded codec (some i) a db
      → keyed codec (some again) write db ≡ (repeat_answer i again a, db)
  unfolding keyed
  keyed_repeated i again write a db same live recorded =
      let found =
        subst
          (λ key.
            get_idempotency_key key again.now db
            ≡ some (record {
              key = i.key;
              fingerprint = i.fingerprint;
              result = codec.encode a;
              created_at = i.now;
              expires_at = i.expires_at;
            }))
          (sym same) (get_idempotency_key-Recorded i a db again.now live recorded) in
      rw (found, keyed)
        (ap (λ r. (r, db))
          (replayed again
            (record {
              key = i.key;
              fingerprint = i.fingerprint;
              result = codec.encode a;
              created_at = i.now;
              expires_at = i.expires_at;
            })
            a (codec.decode-encode a)))

  by_fingerprint :
      (i again : Idempotency) (a : A) (db : Db)
      → commit {A = Reply A} db (repeat_answer i again a, db) ≡ (repeat_answer i again a, db)
  by_fingerprint i again a db = elim (Bool-cases (text_eq i.fingerprint again.fingerprint)) [
    | inl e ↦ rw e refl
    | inr e ↦ rw e refl
  ]

  repeated :
      (env : Env) (i again : Idempotency) (body : Env → Action A) (a : A) (db : Db)
      → env.marked ≡ false
      → again.key ≡ i.key
      → again.now < i.expires_at
      → Recorded codec (some i) a db
      → with_idempotency env codec (some again) body db ≡ (repeat_answer i again a, db)
  unfolding with_idempotency with_tx
  repeated env i again body a db outside same live recorded =
      ap (λ b. outcome b db (keyed codec (some again) (body (mark env)) db)) outside
      ∙ ap (commit db) (keyed_repeated i again (body (mark env)) a db same live recorded)
      ∙ by_fingerprint i again a db

  -- A keyed write that answered for the first time answers its repeat: before the record expires, a
  -- call under the same key, whatever it would write, changes nothing. With the same fingerprint it
  -- answers with the first result, marked as replayed and with its age; with another one it is
  -- refused with ErrIdempotencyKeyReused.
  pub with_idempotency-repeat :
      (env env' : Env) (i again : Idempotency) (body body' : Env → Action A) (db : Db)
      (first : Reply A) (after : Db)
      → with_idempotency env codec (some i) body db ≡ (ok first, after)
      → first.replayed ≡ false
      → env'.marked ≡ false
      → again.key ≡ i.key
      → again.now < i.expires_at
      → with_idempotency env' codec (some again) body' after
        ≡ (repeat_answer i again first.value, after)
  with_idempotency-repeat env env' i again body body' db first after h is_first outside same live =
      let answered =
        Post-answered (with_idempotency env codec (some i) body db)
          (Answered codec (some i) db (λ a d. Unit {0})) first after h
          (with_idempotency-Post codec (body (mark env)) db (λ a d. Unit {0})
            (λ keys. nothing (body (mark env) (with_keys keys db))) (λ a d keys u. tt) env (some i)
            body refl) in
      elim answered [
        | inl (replayed, same_db, rest) ↦ ground arith
        | inr (new, u, recorded) ↦
            repeated env' i again body' first.value after outside same live recorded
      ]
