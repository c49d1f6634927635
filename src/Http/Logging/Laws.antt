-- ===== src/Http/Logging/Laws.antt =====
-- What a line of the log holds.
use service_order_os_service.Prelude.{
  true, String, Option, none, some, List, [], ◌∷◌, any, All, subst, arith, ◌≡◌, refl, ◌∙◌,
  Bool-cases, ◌==◌, eq_iff, Option-cases, inl, inr, if◌then◌else◌,
}
use service_order_os_service.Prelude.Dict.{Dict, lookup, insert, lookup-insert}
use service_order_os_service.Json.{Json, str}
use service_order_os_service.Http.Logging.{LogRecord, logged_keys, add_attributes, payload_of}

-- The last of two values that are written, if there is one.
abbrev or_before : Option Json → Option Json → Option Json
or_before none before = before
or_before (some v) before = some v

lookup-add_attributes :
    (r : LogRecord) (k : String) (keys : List String) (payload : Dict Json)
    → lookup k (add_attributes r keys payload)
      ≡ or_before (if any (λ key. key == k) keys then r.attribute k else none) (lookup k payload)
unfolding add_attributes
lookup-add_attributes r k [] payload = refl
lookup-add_attributes r k (key ∷ keys) payload = elim (Option-cases (r.attribute key)) [
  | inl missing ↦ ground (arith, missing, eq_iff key k, lookup-add_attributes r k keys payload)
  | inr (v, there) ↦ ground (
    arith,
    there,
    eq_iff key k,
    lookup-add_attributes r k keys (insert key v payload),
    lookup-insert key k v payload,
  )
]

abbrev own_fields : LogRecord → Dict Json
own_fields r = ("level", str r.levelname) ∷ ("message", str r.message) ∷ ("logger", str r.name) ∷ []

or_none : (o : Option Json) → or_before o none ≡ o
or_none none = refl
or_none (some v) = refl

misses_one :
    (keys : List String) (d : Dict Json) (k : String)
    → All (λ key. lookup key d ≡ none) keys
    → any (λ key. key == k) keys ≡ true
    → lookup k d ≡ none
misses_one [] d k h e = absurd (ground (arith, e))
misses_one (key ∷ keys) d k (h, hs) e = elim (Bool-cases (key == k)) [
  | inl same ↦ subst (λ j. lookup j d ≡ none) ((eq_iff key k).0 same) h
  | inr other ↦ misses_one keys d k hs (ground (arith, other, e))
]

own_misses : (r : LogRecord) → All (λ key. lookup key (own_fields r) ≡ none) logged_keys
unfolding lookup
own_misses r = (refl, (refl, (refl, (refl, (refl, tt)))))

-- A line of the log has the level, the message and the name of the logger, whatever attributes the record
-- has, those of the five logged attributes that the record has, and nothing else.
pub payload_fields :
    (r : LogRecord) (k : String)
    → lookup k (payload_of r)
      ≡ (if any (λ key. key == k) logged_keys then r.attribute k else lookup k (own_fields r))
unfolding payload_of
payload_fields r k = elim (Bool-cases (any (λ key. key == k) logged_keys)) [
  | inr other ↦ lookup-add_attributes r k logged_keys (own_fields r) ∙ rw other refl
  | inl logged ↦
      lookup-add_attributes r k logged_keys (own_fields r)
      ∙ rw (logged, misses_one logged_keys (own_fields r) k (own_misses r) logged)
          (or_none (r.attribute k))
]
