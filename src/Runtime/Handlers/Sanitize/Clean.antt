-- ===== src/Runtime/Handlers/Sanitize/Clean.antt =====
-- What `_sanitize_payload` of src/hpl/runtime/effects/handlers.py leaves.
use hpl_spec.Base.{◌==◌}
use hpl_spec.Base.{subst}
use hpl_spec.Base.{
  String, Bool, true, false, Option, none, some, ◌≡◌, refl, ap, arith, Bool-cases, inl, inr, ◌↔◌,
  if◌then◌else◌, string_eq,
}
use hpl_spec.Base.Json.{
  Json, null, bool, int, float, str, arr, obj, Items, nil, cons, Fields, end, field, lookup, get,
}
use hpl_spec.Runtime.Handlers.Sanitize.{
  looks_like_secret_key, looks_like_secret_value, sanitize_payload, sanitize_items, sanitize_fields,
}

-- No key and no text anywhere in the value looks like a secret.
abbrev mutual
  pub IsClean : Json → Type 0
  IsClean (obj d) = IsCleanFields d
  IsClean (arr xs) = IsCleanItems xs
  IsClean (str s) = looks_like_secret_value s ≡ false
  IsClean _ = Unit {0}

  pub IsCleanItems : Items → Type 0
  IsCleanItems nil = Unit {0}
  IsCleanItems (cons x xs) = IsClean x × IsCleanItems xs

  pub IsCleanFields : Fields → Type 0
  IsCleanFields end = Unit {0}
  IsCleanFields (field k v d) = (looks_like_secret_key k ≡ false) × IsClean v × IsCleanFields d

redacted_quiet : looks_like_secret_value "REDACTED" ≡ false
unfolding looks_like_secret_value
redacted_quiet = refl

text-IsClean : (s : String) → IsClean (if looks_like_secret_value s then str "REDACTED" else str s)
text-IsClean s = elim (Bool-cases (looks_like_secret_value s)) [
  | inl e ↦ rw e redacted_quiet
  | inr e ↦ rw e e
]

kept-IsClean :
    (k : String) (v : Json) (d : Fields)
    → IsClean v
    → IsCleanFields d
    → IsCleanFields (if looks_like_secret_key k then d else field k v d)
kept-IsClean k v d clean rest = elim (Bool-cases (looks_like_secret_key k)) [
  | inl e ↦ rw e rest
  | inr e ↦ rw e (e, clean, rest)
]

mutual
  unfolding sanitize_payload

  pub sanitize_payload-IsClean : (v : Json) → IsClean (sanitize_payload v)
  sanitize_payload-IsClean (obj d) = sanitize_fields-IsClean d
  sanitize_payload-IsClean (arr xs) = sanitize_items-IsClean xs
  sanitize_payload-IsClean (str s) = text-IsClean s
  sanitize_payload-IsClean null = tt
  sanitize_payload-IsClean (bool b) = tt
  sanitize_payload-IsClean (int i) = tt
  sanitize_payload-IsClean (float x) = tt

  sanitize_items-IsClean : (xs : Items) → IsCleanItems (sanitize_items xs)
  sanitize_items-IsClean nil = tt
  sanitize_items-IsClean (cons x xs) = (sanitize_payload-IsClean x, sanitize_items-IsClean xs)

  pub sanitize_fields-IsClean : (d : Fields) → IsCleanFields (sanitize_fields d)
  sanitize_fields-IsClean end = tt
  sanitize_fields-IsClean (field k v d) =
      kept-IsClean k _ _ (sanitize_payload-IsClean v) (sanitize_fields-IsClean d)

mutual
  unfolding sanitize_payload

  clean_kept : (v : Json) → IsClean v → sanitize_payload v ≡ v
  clean_kept (obj d) c = ap obj (clean_fields_kept d c)
  clean_kept (arr xs) c = ap arr (clean_items_kept xs c)
  clean_kept (str s) c = rw c refl
  clean_kept null c = refl
  clean_kept (bool b) c = refl
  clean_kept (int i) c = refl
  clean_kept (float x) c = refl

  clean_items_kept : (xs : Items) → IsCleanItems xs → sanitize_items xs ≡ xs
  clean_items_kept nil c = refl
  clean_items_kept (cons x xs) (c, cs) = rw (clean_kept x c, clean_items_kept xs cs) refl

  clean_fields_kept : (d : Fields) → IsCleanFields d → sanitize_fields d ≡ d
  clean_fields_kept end c = refl
  clean_fields_kept (field k v d) (quiet, c, cs) =
      rw (quiet, clean_kept v c, clean_fields_kept d cs) refl

-- A value is left as it is exactly when no key and no text in it looks like a secret, and
-- sanitizing makes every value such a value.
pub sanitize_payload_iff :
    (v : Json)
    → ((sanitize_payload v ≡ v) ↔ IsClean v)
      × (sanitize_payload (sanitize_payload v) ≡ sanitize_payload v)
sanitize_payload_iff v = (
  (λ same. subst IsClean same (sanitize_payload-IsClean v), clean_kept v),
  clean_kept (sanitize_payload v) (sanitize_payload-IsClean v),
)

found-IsClean :
    (b : Bool) (w : Json) (o : Option Json) (v : Json)
    → (if b then some w else o) ≡ some v
    → IsClean w
    → (o ≡ some v → IsClean v)
    → IsClean v
found-IsClean true w o v e c rest = subst IsClean (ground (arith, e)) c
found-IsClean false w o v e c rest = rest e

-- What is found in a clean dict is clean.
pub lookup-IsClean :
    (k : String) (d : Fields) (v : Json) → lookup k d ≡ some v → IsCleanFields d → IsClean v
unfolding lookup
lookup-IsClean k end v e c = absurd (ground arith)
lookup-IsClean k (field j w d) v e (quiet, c, cs) =
    found-IsClean (k == j) w (lookup k d) v e c (λ found. lookup-IsClean k d v found cs)

pub get-IsClean : (k : String) (d : Fields) → IsCleanFields d → IsClean (get k d)
unfolding get
get-IsClean k d c = go (lookup k d) (λ v e. lookup-IsClean k d v e c)
  where
    go :
        (o : Option Json)
        → ((v : Json) → o ≡ some v → IsClean v)
        → IsClean (elim o [ none ↦ null | some v ↦ v ])
    go none found = tt
    go (some v) found = found v refl
