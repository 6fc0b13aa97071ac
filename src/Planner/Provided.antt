-- ===== src/Planner/Provided.antt =====
-- The token that a track needs, and lemmas on properties of all steps.
use hpl_spec.Base.{
  ℕ, suc, String, ◌≡◌, refl, Bool, true, false, ◌||◌, List, [], ◌∷◌, ◌++◌, All, contains, string_eq,
  if◌then◌else◌,
}
use hpl_spec.Base.Text.{upper}
use hpl_spec.Base.Json.{Fields}
use hpl_spec.Runtime.Token.{ExecutionToken}
use hpl_spec.Planner.{track_is}
use hpl_spec.Planner.Steps.{SchedulerContext, Numbered, number, text_or}
use hpl_spec.Planner.General.{backend_of}
use hpl_spec.Planner.Lanes.{}
use hpl_spec.Planner.Permits.{HasIo, HasNet}

abbrev pub io_scopes : List String
io_scopes = "BROKER_CONNECT" ∷ "ORDER_QUERY" ∷ "ORDER_SUBMIT" ∷ "RECONCILE" ∷ []

abbrev pub net_caps : List String
net_caps =
    "NET_CONNECT" ∷ "NET_HANDSHAKE" ∷ "NET_KEY_EXCHANGE" ∷ "NET_SEND" ∷ "NET_RECV" ∷ "NET_CLOSE"
    ∷ []

-- The token has the backends of the lowering and of the simulations, and the lane of the track.
pub record IsProvided (ctx : SchedulerContext) (t : ExecutionToken) : Type 0 where
  pub backend_allowed : contains t.allowed_backends (upper (backend_of ctx)) ≡ true
  pub classical_allowed : contains t.allowed_backends "CLASSICAL" ≡ true
  pub io_lane :
      (track_is "trading_io_shadow" ctx || track_is "trading_io_live_min" ctx) ≡ true
      → (scope : String) → contains io_scopes scope ≡ true
      → HasIo t (text_or "broker://demo" ctx.io_endpoint) scope
  pub net_lane :
      track_is "net_shadow" ctx ≡ true
      → (cap : String) → contains net_caps cap ≡ true
      → HasNet t (text_or "net://demo" ctx.net_endpoint) cap

-- What holds of the first and of the rest.
infixr 4 ◌&◌
abbrev pub ◌&◌ {ℓ κ} : {A : Type ℓ} {B : Type κ} → A → B → A × B
a & b = (a, b)

pub All-append {ℓ κ} :
    {A : Type ℓ} (P : A → Type κ) (xs ys : List A) → All P xs → All P ys → All P (xs ++ ys)
All-append P [] ys p q = q
All-append P (x ∷ xs) ys (p, ps) q = (p, All-append P xs ys ps q)

pub All-number :
    (P : Fields → Type 0) (i : ℕ) (ss : List Numbered)
    → All (λ s. (j : ℕ) → P (s j)) ss
    → All P (number i ss)
unfolding number
All-number P i [] h = tt
All-number P i (s ∷ ss) (h, hs) = (h i, All-number P (suc i) ss hs)

pub All-if {ℓ κ} :
    {A : Type ℓ} (P : A → Type κ) (b : Bool) (xs ys : List A)
    → (b ≡ true → All P xs)
    → (b ≡ false → All P ys)
    → All P (if b then xs else ys)
All-if P true xs ys h k = h refl
All-if P false xs ys h k = k refl
