-- ===== src/Runtime/Handlers/Reconcile/Settles.antt =====
-- When `handle_io_reconcile` of src/hpl/runtime/effects/handlers.py settles a request.
use hpl_spec.Runtime.Handlers.Paths.{file_name}
use hpl_spec.Base.Dict.{lookup-insert_self}
use hpl_spec.Base.{
  String, Bool, true, false, not, Option, none, some, [], ◌∷◌, ◌++◌, ◌≡◌, ◌↔◌, refl, ap, ◌∙◌, arith,
  string_eq, ◌==◌, if◌then◌else◌, is_empty,
}
use hpl_spec.Base.Dict.{Dict, lookup, insert, lookup-insert}
use hpl_spec.Base.Json.{Json, bool, obj, Fields, get, truthy}
use hpl_spec.Base.Json.Print.{to_text, canonical_json}
use hpl_spec.Runtime.Token.{get_or}
use hpl_spec.Runtime.Context.{RuntimeContext, EffectStep, EffectResult}
use hpl_spec.Runtime.Handlers.Paths.{FilePath, present_value, path_text}
use hpl_spec.Runtime.Handlers.Action.{
  Action, Ended, World, Platform, ◌>>=◌, result_of, pure, write, digest_bytes,
}
use hpl_spec.Runtime.Handlers.Policy.{io_policy_of}
use hpl_spec.Runtime.Handlers.Files.{path_at}
use hpl_spec.Runtime.Handlers.Io.Guarded.{IsGranted}
use hpl_spec.Runtime.Handlers.Io.Reaches.{ensure_io_policy_iff}
use hpl_spec.Runtime.Handlers.Reconcile.{
  handle_io_reconcile, reconcile_reasons, status_differs, write_json_if, digest_if, remediate,
}
use hpl_spec.Runtime.Handlers.Runs.{
  Holds, run, check_run, needed_run, read_json_run, file_digest_run, emit_text_run, decided,
  decided_iff,
}

-- The response has the expected status, if one is given, and is not ambiguous.
pub record IsSettled (args response : Fields) : Type 0 where
  pub expected :
      (e : Json)
      → present_value (get "expected_status" args) ≡ some e
      → to_text (get "status" response) ≡ to_text e
  pub clear : truthy (get_or "ambiguous" (bool false) response) ≡ false

no_reasons :
    (differs ambiguous : Bool)
    → (not (
          is_empty {A = String} (
            (if differs then "status mismatch" ∷ [] else [])
            ++ (if ambiguous then "ambiguous response" ∷ [] else [])))
        ≡ false)
      ↔ ((differs ≡ false) × (ambiguous ≡ false))
no_reasons true ambiguous = (λ e. absurd (ground (arith, e)), λ e. absurd (ground (arith, e.0)))
no_reasons false true = (λ e. absurd (ground (arith, e)), λ e. absurd (ground (arith, e.1)))
no_reasons false false = (λ e. (refl, refl), λ e. refl)

status_differs_iff :
    (expected status : Json)
    → (status_differs expected status ≡ false)
      ↔ ((e : Json) → present_value expected ≡ some e → to_text status ≡ to_text e)
unfolding status_differs
status_differs_iff expected status = go (present_value expected)
  where
    go :
        (o : Option Json)
        → ((elim o [ none ↦ false | some e ↦ not (to_text status == to_text e) ]) ≡ false)
          ↔ ((e : Json) → o ≡ some e → to_text status ≡ to_text e)
    go none = (λ e x p. absurd (ground (arith, p)), λ f. refl)
    go (some x) = (λ e y p. ground (arith, e, p), λ f. ground (arith, f x refl))

reasons_iff :
    (args response : Fields)
    → (not (is_empty (reconcile_reasons args response)) ≡ false) ↔ IsSettled args response
unfolding reconcile_reasons
reasons_iff args response =
    let (sound, complete) =
      no_reasons (status_differs (get "expected_status" args) (get "status" response))
        (truthy (get_or "ambiguous" (bool false) response)) in
    (
      λ e. record {
        expected =
            (status_differs_iff (get "expected_status" args) (get "status" response)).0
              ((sound e).0);
        clear = (sound e).1;
      },
      λ settled. complete (
        (status_differs_iff (get "expected_status" args) (get "status" response)).1
            settled.expected,
        settled.clear,
      ),
    )

-- Every file that was there still is.
abbrev Kept : World → World → Type 0
Kept w w' =
    (name text : String)
    → lookup name w.files ≡ some text
    → (text' : String) × (lookup name w'.files ≡ some text')

-- The path, if there is one, names a file.
abbrev IsThere : World → Option FilePath → Type 0
IsThere w none = Unit {0}
IsThere w (some path) = (text : String) × Holds w path text

lookup-insert_kept :
    (name key t text : String) (files : Dict String String)
    → lookup name files ≡ some text
    → (text' : String) × (lookup name (insert key t files) ≡ some text')
lookup-insert_kept name key t text files e =
    rw (lookup-insert name key t files) (split (name == key))
  where
    split : (b : Bool) → (text' : String) × ((if b then some t else lookup name files) ≡ some text')
    split true = (t, refl)
    split false = (text, e)

write_json_if_run :
    {B : Type 0} (m : Platform) (path : Option FilePath) (d : Fields) (w : World)
    (f : Unit {0} → Action B)
    → (w' : World) × ((write_json_if m path d >>= f) w ≡ f tt w') × Kept w w' × IsThere w' path
unfolding write_json_if write pure ◌>>=◌
write_json_if_run m none d w f = (w, refl, (λ name text e. (text, e)), tt)
write_json_if_run m (some path) d w f = (
  record w { files = insert (path_text path) (canonical_json (obj d)) w.files },
  refl,
  (λ name text e. lookup-insert_kept name _ _ text w.files e),
  (_, lookup-insert_self (path_text path) (canonical_json (obj d)) w.files),
)

digest_if_run :
    {B : Type 0} (m : Platform) (path : Option FilePath) (digests : Dict String String) (w : World)
    (f : Dict String String → Action B)
    → IsThere w path
    → (digests' : Dict String String) × ((digest_if m path digests >>= f) w ≡ f digests' w)
unfolding digest_if pure
digest_if_run m none digests w f there = (digests, run (pure digests) digests w f refl)
digest_if_run m (some path) digests w f (text, held) =
    let digests' = insert (file_name path) (digest_bytes m text) digests in
    (
      digests',
      run (digest_if m (some path) digests) digests' w f (file_digest_run w m path text _ held),
    )

remediate_run :
    {B : Type 0} (m : Platform) (needs : Bool) (step : EffectStep) (ctx : RuntimeContext)
    (plan : Fields) (digests : Dict String String) (w : World) (f : Dict String String → Action B)
    → (digests' : Dict String String) × (w' : World) × ((remediate m needs step ctx plan digests
            >>= f)
          w
        ≡ f digests' w')
unfolding remediate pure
remediate_run m true step ctx plan digests w f = emit_text_run m _ _ _ digests w f
remediate_run m false step ctx plan digests w f = (digests, w, run (pure digests) digests w f refl)

Kept-IsThere :
    (w w' : World) (path : Option FilePath) → Kept w w' → IsThere w path → IsThere w' path
Kept-IsThere w w' none kept there = tt
Kept-IsThere w w' (some path) kept (text, held) = kept (path_text path) text held

-- The lane is granted, and both files are there and hold objects.
pub record IsReconcilable (m : Platform) (ctx : RuntimeContext) (step : EffectStep) (w : World)
    : Type 0 where
  pub granted : IsGranted m step (io_policy_of ctx) "RECONCILE"
  pub request_path : FilePath
  pub response_path : FilePath
  pub request_text : String
  pub response_text : String
  pub request : Fields
  pub response : Fields
  pub request_found : path_at m ctx step "request_path" ≡ some request_path
  pub response_found : path_at m ctx step "response_path" ≡ some response_path
  pub request_held : Holds w request_path request_text
  pub response_held : Holds w response_path response_text
  pub request_reads : m.loads request_text ≡ some (obj request)
  pub response_reads : m.loads response_text ≡ some (obj response)

module _ (m : Platform) (ctx : RuntimeContext) (step : EffectStep) (w : World)
    (i : IsReconcilable m ctx step w) where
  -- A reconciliation that the policy of the token grants, whose request and response are files that
  -- hold objects, returns, and succeeds exactly when the response has the expected status, if one is
  -- given, and is not ambiguous. This holds also where what it writes replaces its own inputs.
  pub handle_io_reconcile_iff :
      (r : EffectResult) × (result_of (handle_io_reconcile m step ctx w).0 ≡ some r)
      × ((r.is_ok ≡ true) ↔ IsSettled step.args i.response)
  unfolding handle_io_reconcile
  handle_io_reconcile_iff =
      let (w1, first, kept1, there1) = write_json_if_run m _ _ w _ in
      let (w2, second, kept2, there2) = write_json_if_run m _ _ w1 _ in
      let (t1, held1) = kept1 _ _ i.request_held in
      let (t2, held2) = kept2 _ _ held1 in
      let (u1, answered1) = kept1 _ _ i.response_held in
      let (u2, answered2) = kept2 _ _ answered1 in
      let (d1, third) = digest_if_run m _ _ w2 _ (Kept-IsThere w1 w2 _ kept2 there1) in
      let (d2, fourth) = digest_if_run m _ _ w2 _ there2 in
      let (digests, w3, fifth) = remediate_run m _ step ctx _ _ w2 _ in
      (
        _,
        ap (λ (p : Ended EffectResult × World). result_of p.0)
              (check_run w _ tt _ ((ensure_io_policy_iff m step ctx "RECONCILE").1 i.granted)
                ∙ (needed_run w _ i.request_path i.request_text _ _ i.request_found i.request_held
                    ∙ (needed_run w _ i.response_path i.response_text _ _ i.response_found
                          i.response_held
                        ∙ (read_json_run w m i.request_path i.request_text _ _ i.request_held
                              i.request_reads
                            ∙ (read_json_run w m i.response_path i.response_text _ _ i.response_held
                                  i.response_reads
                                ∙ (check_run w _ i.response _ refl
                                    ∙ (file_digest_run w m i.request_path i.request_text _
                                          i.request_held
                                        ∙ (file_digest_run w m i.response_path i.response_text _
                                              i.response_held
                                            ∙ (first
                                                ∙ (check_run w1 _ i.request _ refl
                                                    ∙ (second
                                                        ∙ (file_digest_run w2 m i.request_path t2 _
                                                            held2
                                                            ∙ (file_digest_run w2 m i.response_path
                                                            u2 _ answered2
                                                            ∙ (third
                                                            ∙ (fourth ∙ fifth)))))))))))))))
            ∙ decided step _ _ _ digests w3,
        (
          λ ok. (reasons_iff step.args i.response).0 ((decided_iff step _ _ _ digests).0 ok),
          λ settled.
              (decided_iff step _ _ _ digests).1 ((reasons_iff step.args i.response).1 settled),
        ),
      )
