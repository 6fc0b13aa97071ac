-- ===== src/Runtime/Handlers/Sanitize.antt =====
-- `_sanitize_payload` of src/hpl/runtime/effects/handlers.py.
pub mod Clean
use Prim.Native.String
use text.Mathlib.Text.{starts_with}
use hpl_spec.Base.{String, Bool, ◌||◌, if◌then◌else◌}
use hpl_spec.Base.Text.{lower, occurs}
use hpl_spec.Base.Json.{Json, str, arr, obj, Items, nil, cons, Fields, end, field}

unfoldable pub looks_like_secret_key : String → Bool
unfolding lower occurs
looks_like_secret_key key =
    let lowered = lower key in
    occurs "secret" lowered
    || (occurs "password" lowered
        || (occurs "api_key" lowered || (occurs "apikey" lowered || occurs "token" lowered)))

unfoldable pub looks_like_secret_value : String → Bool
unfolding lower occurs
looks_like_secret_value value =
    let lowered = lower value in
    (starts_with lowered "sk_live" || starts_with lowered "sk_test")
    || (starts_with value "ghp_" || occurs "bearer " lowered)

unfoldable mutual
  unfolding looks_like_secret_key looks_like_secret_value

  pub sanitize_payload : Json → Json
  sanitize_payload (obj d) = obj (sanitize_fields d)
  sanitize_payload (arr xs) = arr (sanitize_items xs)
  sanitize_payload (str s) = if looks_like_secret_value s then str "REDACTED" else str s
  sanitize_payload v = v

  pub sanitize_items : Items → Items
  sanitize_items nil = nil
  sanitize_items (cons x xs) = cons (sanitize_payload x) (sanitize_items xs)

  pub sanitize_fields : Fields → Fields
  sanitize_fields end = end
  sanitize_fields (field k v d) =
      let rest = sanitize_fields d in
      if looks_like_secret_key k then rest else field k (sanitize_payload v) rest
