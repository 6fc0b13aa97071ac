-- ===== src/Runtime/Contract/Grants.antt =====
-- What the token grants to a step that the contract lets through.
use hpl_spec.Base.{
  String, ◌<>◌, ◌≡◌, refl, Bool, true, false, Option, none, some, List, [], ◌∷◌, ◌++◌, map,
  contains, string_eq, is_empty, Bool-cases, inl, inr, arith,
}
use hpl_spec.Base.Text.{upper}
use hpl_spec.Base.Json.{Fields, get, truthy}
use hpl_spec.Runtime.Token.{ExecutionToken}
use hpl_spec.Runtime.Context.{RuntimeContext}
use hpl_spec.Runtime.Contract.{
  ExecutionContract, unless, step_errors, backend_errors, measurement_errors, policy_texts,
  missing_names, io_granted, io_errors, net_granted, net_errors, precondition_errors, preconditions,
}
use hpl_spec.Runtime.Contract.Requires.{Required, io_required, net_required, step_id_of}

-- The token's policy allows IO and lists the scope; lists the capability.
abbrev pub HasScope : Option Fields → String → Type 0
HasScope policy name =
    (p : Fields) × (policy ≡ some p)
    × (truthy (get "io_allowed" p) ≡ true)
    × (contains (map upper (policy_texts "io_scopes" p)) (upper name) ≡ true)

abbrev HasCap : Option Fields → String → Type 0
HasCap policy name =
    (p : Fields) × (policy ≡ some p)
    × (contains (map upper (policy_texts "net_caps" p)) (upper name) ≡ true)

-- What a token grants a step.
pub record IsGranted (c : ExecutionContract) (t : ExecutionToken) (step : Fields) : Type 0 where
  pub listed : is_empty c.allowed_steps ≡ false → contains c.allowed_steps (step_id_of step) ≡ true
  pub io :
      (name : String) → contains (io_required step).names name ≡ true → HasScope t.io_policy name
  pub net :
      (name : String) → contains (net_required step).names name ≡ true → HasCap t.net_policy name

nil-append : (xs ys : List String) → xs ++ ys ≡ [] → (xs ≡ []) × (ys ≡ [])
nil-append [] ys h = (refl, h)
nil-append (x ∷ xs) ys h = cc

unless-nil : (b : Bool) (message : String) → unless b message ≡ [] → b ≡ true
unless-nil true message h = refl
unless-nil false message h = cc

missing_names-nil :
    (label : String) (allowed ns : List String) (n : String)
    → missing_names label allowed ns ≡ []
    → contains ns n ≡ true
    → contains allowed (upper n) ≡ true
unfolding missing_names
missing_names-nil label allowed [] n h m = cc
missing_names-nil label allowed (x ∷ ns) n h m =
    let message = label <> (":" <> x) in
    let both =
      nil-append (unless (contains allowed (upper x)) message) (missing_names label allowed ns) h in
    let found = unless-nil (contains allowed (upper x)) message both.0 in
    ground (arith, missing_names-nil label allowed ns n both.1, found)

some_name : (ns : List String) (n : String) → contains ns n ≡ true → is_empty ns ≡ false
some_name [] n h = cc
some_name (x ∷ ns) n h = refl

io_granted-nil :
    (r : Required) (p : Fields)
    → io_granted r p ≡ []
    → (truthy (get "io_allowed" p) ≡ true)
      × (missing_names "IOPermissionDenied" (map upper (policy_texts "io_scopes" p)) r.names ≡ [])
unfolding io_granted
io_granted-nil r p h = elim (Bool-cases (truthy (get "io_allowed" p))) [
  | inl allowed ↦ (allowed, (nil-append _ _ (rw allowed at h)).0)
  | inr denied ↦ cc (h, denied)
]

io-HasScope :
    (t : ExecutionToken) (step : Fields) (name : String)
    → io_errors step (some t) ≡ []
    → contains (io_required step).names name ≡ true
    → HasScope t.io_policy name
unfolding io_errors io_granted
io-HasScope t step name h m =
    granted t.io_policy (rw (some_name (io_required step).names name m) at h)
  where
    granted :
        (policy : Option Fields)
        → ◌≡◌ {A = List String}
            (elim policy [
              | none ↦ "IOPermissionDenied" ∷ []
              | some p ↦ io_granted (io_required step) p
            ])
            []
        → HasScope policy name
    granted none e = cc
    granted (some p) e =
        let g = io_granted-nil (io_required step) p e in
        (p, refl, g.0, missing_names-nil "IOPermissionDenied" _ (io_required step).names name g.1 m)

net-HasCap :
    (t : ExecutionToken) (step : Fields) (name : String)
    → net_errors step (some t) ≡ []
    → contains (net_required step).names name ≡ true
    → HasCap t.net_policy name
unfolding net_errors net_granted
net-HasCap t step name h m =
    granted t.net_policy (rw (some_name (net_required step).names name m) at h)
  where
    granted :
        (policy : Option Fields)
        → ◌≡◌ {A = List String}
            (elim policy [
              | none ↦ "NETPermissionDenied" ∷ []
              | some p ↦ net_granted (net_required step) p
            ])
            []
        → HasCap policy name
    granted none e = cc
    granted (some p) e = (
      p,
      refl,
      missing_names-nil "NETPermissionDenied" _ (net_required step).names name (nil-append _ _ e).0
          m,
    )

errors_nil : (xs : List String) → is_empty xs ≡ true → xs ≡ []
errors_nil [] h = refl
errors_nil (x ∷ xs) h = cc

listed_step :
    (c : ExecutionContract) (step : Fields)
    → step_errors c step ≡ []
    → is_empty c.allowed_steps ≡ false
    → contains c.allowed_steps (step_id_of step) ≡ true
unfolding step_errors
listed_step c step h full = unless-nil _ _ (rw full at h)

-- A step that the contract lets through under a token is among the contract's steps, if it lists
-- any; each IO scope that the step requires is, up to case, one of the token's IO policy, which
-- allows IO; and each NET capability that it requires is, up to case, one of its NET policy.
pub preconditions-IsGranted :
    (c : ExecutionContract) (step : Fields) (ctx : RuntimeContext) (t : ExecutionToken)
    → ctx.execution_token ≡ some t
    → (preconditions c step ctx).0 ≡ true
    → IsGranted c t step
unfolding preconditions precondition_errors
preconditions-IsGranted c step ctx t has passed =
    let all = rw has at (errors_nil (precondition_errors c step ctx) passed) in
    let (own, rest) = nil-append (step_errors c step) _ all in
    let (backend, rest2) = nil-append (backend_errors c step (some t)) _ rest in
    let (measured, rest3) = nil-append (measurement_errors step (some t)) _ rest2 in
    let (io, net) = nil-append (io_errors step (some t)) (net_errors step (some t)) rest3 in
    record {
      listed = listed_step c step own;
      io = λ name. io-HasScope t step name io;
      net = λ name. net-HasCap t step name net;
    }
