-- ===== src/Planner/Permits.antt =====
-- What a token must grant for the contract to let the planned steps through.
use hpl_spec.Base.{
  ℕ, String, ◌<>◌, ◌≡◌, refl, Bool, true, false, ◌||◌, none, some, List, [], ◌∷◌, map, arith,
  contains, string_eq, is_empty,
}
use hpl_spec.Base.Text.{upper, decimal}
use hpl_spec.Base.Json.{Json, str, Fields, get, truthy}
use hpl_spec.Base.Json.Print.{to_text}
use hpl_spec.Runtime.Token.{ExecutionToken}
use hpl_spec.Runtime.Context.{RuntimeContext}
use hpl_spec.Runtime.Contract.{
  ExecutionContract, precondition_errors, step_errors, backend_errors, required_backend_of,
  measurement_errors, io_errors, io_granted, net_errors, net_granted, policy_texts, missing_names,
  endpoint_errors,
}
use hpl_spec.Runtime.Contract.Requires.{
  is_measure, is_delta_s, effect_type_of, io_required, net_required,
}
use hpl_spec.Planner.Steps.{Numbered, plain_step, step}

-- A contract that lists no steps and no backend.
abbrev pub open_contract : Bool → Bool → ExecutionContract
open_contract epoch signature = record {
  allowed_steps = [];
  require_epoch_verification = epoch;
  require_signature_verification = signature;
  required_backend = none;
}

-- An endpoint that a list allows; the empty list allows all.
abbrev pub allows : List String → Json → Bool
allows endpoints e = is_empty endpoints || contains endpoints (to_text e)

pub record HasIo (t : ExecutionToken) (endpoint : Json) (scope : String) : Type 0 where
  pub policy : Fields
  pub held : t.io_policy ≡ some policy
  pub allowed : truthy (get "io_allowed" policy) ≡ true
  pub listed : contains (map upper (policy_texts "io_scopes" policy)) (upper scope) ≡ true
  pub reachable : allows (policy_texts "io_endpoints_allowed" policy) endpoint ≡ true

pub record HasNet (t : ExecutionToken) (endpoint : Json) (cap : String) : Type 0 where
  pub policy : Fields
  pub held : t.net_policy ≡ some policy
  pub listed : contains (map upper (policy_texts "net_caps" policy)) (upper cap) ≡ true
  pub reachable : allows (policy_texts "net_endpoints_allowlist" policy) endpoint ≡ true

endpoint_errors-nil :
    (message : String) (endpoints : List String) (e : Json)
    → allows endpoints e ≡ true
    → endpoint_errors message endpoints e ≡ []
unfolding endpoint_errors
endpoint_errors-nil message endpoints e h = ground arith

-- The name of an effect that is no measurement.
abbrev pub NoMeasurement : String → Type 0
NoMeasurement effect =
    (truthy (str effect) ≡ true) × (is_measure effect ≡ false) × (is_delta_s effect ≡ false)

effect_type_of-plain_step :
    (name effect : String) (args requires : List (String × Json))
    → truthy (str effect) ≡ true
    → effect_type_of (plain_step name effect args requires) ≡ effect
unfolding effect_type_of plain_step get to_text
effect_type_of-plain_step name effect args requires h = ground arith

-- A step that is no measurement.
abbrev Plain : Fields → Type 0
Plain s = (is_measure (effect_type_of s) ≡ false) × (is_delta_s (effect_type_of s) ≡ false)

NoMeasurement-Plain :
    (name effect : String) (args requires : List (String × Json))
    → NoMeasurement effect
    → Plain (plain_step name effect args requires)
NoMeasurement-Plain name effect args requires (some_text, m, d) =
    rw (effect_type_of-plain_step name effect args requires some_text) (m, d)

measurement_errors-nil :
    (s : Fields) (t : ExecutionToken) → Plain s → measurement_errors s (some t) ≡ []
unfolding measurement_errors
measurement_errors-nil s t (m, d) = ground arith

module _ (epoch signature : Bool) (given : RuntimeContext) (t : ExecutionToken) where
  abbrev pub Permitted : Fields → Type 0
  Permitted s =
      precondition_errors (open_contract epoch signature) s
        (record given { execution_token = some t })
      ≡ []

  Permitted-parts :
      (s : Fields)
      → backend_errors (open_contract epoch signature) s (some t) ≡ []
      → Plain s
      → io_errors s (some t) ≡ []
      → net_errors s (some t) ≡ []
      → Permitted s
  unfolding precondition_errors step_errors
  Permitted-parts s b p i n = rw (b, measurement_errors-nil s t p, i, n) refl

  module _ (name : String) (args : List (String × Json)) where
    pub bare-Permitted :
        (effect : String) → NoMeasurement effect → Permitted (plain_step name effect args [])
    unfolding backend_errors required_backend_of io_errors io_required net_errors net_required
        plain_step get truthy
    bare-Permitted effect p =
        Permitted-parts (plain_step name effect args []) refl
          (NoMeasurement-Plain name effect args [] p) refl refl

    pub backend-Permitted :
        (effect backend : String)
        → contains t.allowed_backends (upper backend) ≡ true
        → NoMeasurement effect
        → Permitted (plain_step name effect args (("backend", str backend) ∷ []))
    unfolding backend_errors required_backend_of io_errors io_required net_errors net_required
        plain_step get truthy to_text
    backend-Permitted effect backend h p =
        Permitted-parts (plain_step name effect args (("backend", str backend) ∷ [])) (ground arith)
          (NoMeasurement-Plain name effect args (("backend", str backend) ∷ []) p) refl refl

    pub io-Permitted :
        (effect scope : String) (endpoint : Json)
        → HasIo t endpoint scope
        → NoMeasurement effect
        → Permitted
            (plain_step name effect args (("io_scope", str scope) ∷ ("io_endpoint", endpoint) ∷ []))
    unfolding backend_errors required_backend_of io_errors io_required net_errors net_required
        plain_step get truthy to_text io_granted missing_names
    io-Permitted effect scope endpoint h p =
        Permitted-parts
          (plain_step name effect args (("io_scope", str scope) ∷ ("io_endpoint", endpoint) ∷ []))
          refl
          (NoMeasurement-Plain name effect args
            (("io_scope", str scope) ∷ ("io_endpoint", endpoint) ∷ []) p)
          (rw (h.held, h.allowed, h.listed)
            (endpoint_errors-nil "EndpointNotAllowed" _ endpoint h.reachable))
          refl

    pub net-Permitted :
        (effect cap : String) (endpoint : Json)
        → HasNet t endpoint cap
        → NoMeasurement effect
        → Permitted
            (plain_step name effect args (("net_cap", str cap) ∷ ("net_endpoint", endpoint) ∷ []))
    unfolding backend_errors required_backend_of io_errors io_required net_errors net_required
        plain_step get truthy to_text net_granted missing_names
    net-Permitted effect cap endpoint h p =
        Permitted-parts
          (plain_step name effect args (("net_cap", str cap) ∷ ("net_endpoint", endpoint) ∷ []))
          refl
          (NoMeasurement-Plain name effect args
            (("net_cap", str cap) ∷ ("net_endpoint", endpoint) ∷ []) p)
          refl
          (rw (h.held, h.listed)
            (endpoint_errors-nil "NETEndpointNotAllowed" _ endpoint h.reachable))

  abbrev pub Always : Numbered → Type 0
  Always s = (j : ℕ) → Permitted (s j)

  module _ (name : String) (args : List (String × Json)) where
    pub bare-Always : (effect : String) → NoMeasurement effect → Always (step name effect args [])
    unfolding step
    bare-Always effect p j = bare-Permitted (name <> ("_" <> decimal j)) args effect p

    pub backend-Always :
        (effect backend : String)
        → contains t.allowed_backends (upper backend) ≡ true
        → NoMeasurement effect
        → Always (step name effect args (("backend", str backend) ∷ []))
    unfolding step
    backend-Always effect backend h p j =
        backend-Permitted (name <> ("_" <> decimal j)) args effect backend h p

    pub io-Always :
        (effect scope : String) (endpoint : Json)
        → HasIo t endpoint scope
        → NoMeasurement effect
        → Always (step name effect args (("io_scope", str scope) ∷ ("io_endpoint", endpoint) ∷ []))
    unfolding step
    io-Always effect scope endpoint h p j =
        io-Permitted (name <> ("_" <> decimal j)) args effect scope endpoint h p
