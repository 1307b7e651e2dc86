-- ===== src/Orders/Idempotency.antt =====
-- backend/src/modules/orders/domain/idempotency.ts: isValidIdempotencyKey, and
-- backend/src/modules/orders/application/idempotency.service.ts: the keys under which the answers to
-- requests are kept. The hash of a request, by SHA-256, is given. `A` is the type of an answer's body.
use brothers_book_house.Base.{
  Bool, Bool-cases, Option, [], any, ap, arith, false, get_or, if◌then◌else◌, inl, inr, is_some,
  leb, length, ltb, map_option, none, not, refl, some, some_and, sym, true, ℕ, ◌&&◌, ◌+◌, ◌==◌,
  ◌||◌, ◌∙◌, ◌∷◌, ◌≡◌, ◌≤◌,
}
use brothers_book_house.Base.Outcome.{Outcome, fail, ok, ok-inj}
use brothers_book_house.Base.Text.{Text}

-- letters, digits, `.`, `_`, `:` and `-`
abbrev pub is_key_char : ℕ → Bool
is_key_char c =
    (leb 65 c && leb c 90)
    || (leb 97 c && leb c 122)
    || (leb 48 c && leb c 57)
    || c == 46
    || c == 95
    || c == 58
    || c == 45

unfoldable pub is_valid_idempotency_key : Option Text → Bool
is_valid_idempotency_key none = false
is_valid_idempotency_key (some key) =
    leb 8 (length key) && leb (length key) 80 && not (any (λ c. not (is_key_char c)) key)

pub record Prepared : Type 0 where
  pub scope : ℕ
  pub key : Text
  pub hash : ℕ

pub record Answer (A : Type 0) : Type 0 where
  pub code : ℕ
  pub body : A

pub record KeyRow (A : Type 0) : Type 0 where
  pub scope : ℕ
  pub request_hash : ℕ
  pub expires_at : ℕ
  pub response : Option (Answer A)

-- 24 hours
abbrev pub ttl_ms : ℕ
ttl_ms = 86_400_000

unfoldable pub prepare : ℕ → Option Text → ℕ → Outcome Prepared
unfolding is_valid_idempotency_key
prepare scope key hash =
    if not (is_valid_idempotency_key key)
    then fail "idempotency.key_required"
    else ok (record { scope = scope; key = get_or key []; hash = hash })

abbrev pub same_text : Text → Text → Bool
same_text [] [] = true
same_text (a ∷ s) (b ∷ t) = a == b && same_text s t
same_text _ _ = false

same_text_refl : (t : Text) → same_text t t ≡ true
same_text_refl [] = refl
same_text_refl (c ∷ t) = ground (arith, same_text_refl t)

-- The rows by their key.
abbrev pub Keys : Type 0 → Type 0
Keys A = Text → Option (KeyRow A)

module _ {A : Type 0} where
  abbrev pub set_key : Text → Option (KeyRow A) → Keys A → Keys A
  set_key key row ks k = if same_text k key then row else ks k

  abbrev pub stored : Option (Answer A) → Outcome (Option (Answer A))
  stored none = fail "idempotency.in_progress"
  stored (some a) = ok (some a)

  abbrev pub lookup_row : Prepared → ℕ → Option (KeyRow A) → Outcome (Option (Answer A))
  lookup_row p now none = ok none
  lookup_row p now (some r) =
      if ltb r.expires_at now
      then ok none
      else if not (r.scope == p.scope) || not (r.request_hash == p.hash)
      then fail "idempotency.key_reused"
      else stored r.response

  unfoldable pub lookup : Prepared → ℕ → Keys A → Outcome (Option (Answer A))
  lookup p now ks = lookup_row p now (ks p.key)

  -- `create` refuses a key that is there; one that has expired is deleted first
  unfoldable pub claim : Prepared → ℕ → Keys A → Outcome (Keys A)
  claim p now ks =
      if some_and (ks p.key) (λ r. not (ltb r.expires_at now))
      then fail "key_collision"
      else ok (
          set_key p.key
            (some (record {
              scope = p.scope;
              request_hash = p.hash;
              expires_at = now + ttl_ms;
              response = none;
            }))
            ks)

  unfoldable pub complete : Text → Answer A → Keys A → Outcome (Keys A)
  complete key answer ks =
      if is_some (ks key)
      then ok (
          set_key key (map_option (λ (r : KeyRow A). record r { response = some answer }) (ks key))
            ks)
      else fail "key_missing"

  -- A key that was claimed and completed answers the same request until it expires, and refuses
  -- another.
  pub lookup-complete :
      (p q : Prepared) (now later : ℕ) (answer : Answer A) (ks claimed completed : Keys A)
      → claim p now ks ≡ ok claimed
      → complete p.key answer claimed ≡ ok completed
      → q.key ≡ p.key
      → later ≤ now + ttl_ms
      → lookup q later completed ≡ (
          if q.scope == p.scope && q.hash == p.hash
          then ok (some answer)
          else fail "idempotency.key_reused")
  unfolding claim complete lookup
  lookup-complete p q now later answer ks claimed completed c d same early =
      let fresh : KeyRow A = record {
        scope = p.scope;
        request_hash = p.hash;
        expires_at = now + ttl_ms;
        response = none;
      } in
      let self = same_text_refl p.key in
      elim (Bool-cases (some_and (ks p.key) (λ r. not (ltb r.expires_at now)))) [
        | inl t ↦ cc (rw t at c)
        | inr t ↦
            let got : claimed p.key ≡ some fresh =
              ap (λ (k : Keys A). k p.key) (sym (ok-inj (rw t at c))) ∙ rw self refl in
            let done : completed p.key ≡ some (record fresh { response = some answer }) =
              ap (λ (k : Keys A). k p.key) (sym (ok-inj (rw got at d))) ∙ rw self refl in
            let live : ltb (now + ttl_ms) later ≡ false = ground (arith, early) in
            rw same (rw done (rw live (ground arith)))
      ]
