-- ===== src/Runtime/Handlers/Runs.antt =====
-- How a handler of src/hpl/runtime/effects/handlers.py goes on where its inputs are there.
use hpl_spec.Base.{◌↔◌}
use hpl_spec.Base.{
  string_eq, String, Bool, true, false, Option, none, some, List, ◌≡◌, refl, ap, ◌∙◌, arith,
  if◌then◌else◌,
}
use hpl_spec.Base.Dict.{Dict, lookup}
use hpl_spec.Base.Json.{Json}
use hpl_spec.Runtime.Context.{EffectStep, EffectResult}
use hpl_spec.Runtime.Handlers.Paths.{FilePath, path_text}
use hpl_spec.Runtime.Handlers.Action.{
  Action, Ended, World, Platform, ◌>>=◌, check, pure, write, read, needed, exists, read_json,
  parse_json, file_digest, digest_bytes, refuse_when, or_raise, or_refuse, ok_result, refuse_with,
  result_of,
}
use hpl_spec.Runtime.Handlers.Artifacts.{emit_text}
use hpl_spec.Runtime.Handlers.Calls.{next, bind_next}

-- The file is there, with this text.
abbrev pub Holds : World → FilePath → String → Type 0
Holds w path text = lookup (path_text path) w.files ≡ some text

-- An action that ends well and leaves the world alone.
pub run :
    {A B : Type 0} (action : Action A) (a : A) (w : World) (f : A → Action B)
    → action w ≡ (Ended.done a, w)
    → (action >>= f) w ≡ f a w
run {A} {B} action a w f e = bind_next action f w ∙ ap (λ (p : Ended A × World). next p f) e

pub check_run :
    {A B : Type 0} (w : World) (e : Ended A) (a : A) (f : A → Action B)
    → e ≡ Ended.done a
    → (check e >>= f) w ≡ f a w
unfolding check
check_run w e a f passed = run (check e) a w f (rw passed refl)

exists_held :
    (w : World) (path : FilePath) (text : String) → Holds w path text → exists w path ≡ true
unfolding exists
exists_held w path text held = rw (held, exists) refl

needed_done :
    (w : World) (path : FilePath) (text : String) (r : EffectResult)
    → Holds w path text
    → needed (some path) r w ≡ (Ended.done path, w)
unfolding needed
needed_done w path text r held = rw (exists_held w path text held, needed) refl

read_done :
    (w : World) (path : FilePath) (text : String)
    → Holds w path text
    → read path w ≡ (Ended.done text, w)
unfolding read
read_done w path text held = rw held refl

module _ {B : Type 0} (w : World) where
  pub needed_run :
      (o : Option FilePath) (path : FilePath) (text : String) (r : EffectResult)
      (f : FilePath → Action B)
      → o ≡ some path
      → Holds w path text
      → (needed o r >>= f) w ≡ f path w
  needed_run o path text r f e held =
      run (needed o r) path w f
        (ap (λ (p : Option FilePath). needed p r w) e ∙ needed_done w path text r held)

  pub read_json_run :
      (m : Platform) (path : FilePath) (text : String) (v : Json) (f : Json → Action B)
      → Holds w path text
      → m.loads text ≡ some v
      → (read_json m path >>= f) w ≡ f v w
  unfolding read_json
  read_json_run m path text v f held e =
      run (read_json m path) v w f (run (read path) text w _ (read_done w path text held) ∙ loaded)
    where
      loaded : check (or_raise (m.loads text)) w ≡ (Ended.done v, w)
      loaded = unfold check in rw e refl

  pub parse_json_run :
      (m : Platform) (path : FilePath) (text : String) (v : Json) (r : EffectResult)
      (f : Json → Action B)
      → Holds w path text
      → m.loads text ≡ some v
      → (parse_json m path r >>= f) w ≡ f v w
  unfolding parse_json or_refuse
  parse_json_run m path text v r f held e =
      run (parse_json m path r) v w f
        (run (read path) text w _ (read_done w path text held) ∙ loaded)
    where
      loaded : check (or_refuse (m.loads text) r) w ≡ (Ended.done v, w)
      loaded = unfold check or_refuse in rw e refl

  pub file_digest_run :
      (m : Platform) (path : FilePath) (text : String) (f : String → Action B)
      → Holds w path text
      → (file_digest m path >>= f) w ≡ f (digest_bytes m text) w
  unfolding file_digest
  file_digest_run m path text f held =
      run (file_digest m path) (digest_bytes m text) w f
        (run (read path) text w _ (read_done w path text held) ∙ (unfold pure in refl))

-- An artifact is always written.
pub emit_text_run :
    {B : Type 0} (m : Platform) (path : Option FilePath) (role text : String)
    (digests : Dict String String) (w : World) (f : Dict String String → Action B)
    → (digests' : Dict String String) × (w' : World) × ((emit_text m path role text digests >>= f) w
        ≡ f digests' w')
unfolding emit_text write pure ◌>>=◌
emit_text_run m none role text digests w f = (_, _, refl)
emit_text_run m (some path) role text digests w f = (_, _, refl)

-- A handler that refuses by this test, and else succeeds.
pub decided :
    (step : EffectStep) (b : Bool) (kind : String) (reasons : List String)
    (digests : Dict String String) (w : World)
    → result_of
        ((refuse_when b (refuse_with step kind reasons digests) >>= λ u.
            pure (ok_result step digests))
          w).0
      ≡ some (if b then refuse_with step kind reasons digests else ok_result step digests)
unfolding refuse_when check pure ◌>>=◌
decided step true kind reasons digests w = refl
decided step false kind reasons digests w = refl

-- What such a handler returns is a success exactly when the test fails.
pub decided_iff :
    (step : EffectStep) (b : Bool) (kind : String) (reasons : List String)
    (digests : Dict String String)
    → ((if b then refuse_with step kind reasons digests else ok_result step digests).is_ok ≡ true)
      ↔ (b ≡ false)
decided_iff step true kind reasons digests =
    (λ e. absurd (ground (arith, e)), λ e. absurd (ground (arith, e)))
decided_iff step false kind reasons digests = (λ e. refl, λ e. refl)

-- A test in the middle of a handler.
pub refuse_when_stop :
    {B : Type 0} (b : Bool) (r : EffectResult) (f : Unit {0} → Action B) (w : World)
    → b ≡ true
    → (refuse_when b r >>= f) w ≡ (Ended.returned r, w)
unfolding refuse_when check ◌>>=◌
refuse_when_stop true r f w e = refl
refuse_when_stop false r f w e = absurd (ground (arith, e))

pub refuse_when_pass :
    {B : Type 0} (b : Bool) (r : EffectResult) (f : Unit {0} → Action B) (w : World)
    → b ≡ false
    → (refuse_when b r >>= f) w ≡ f tt w
unfolding refuse_when check ◌>>=◌
refuse_when_pass true r f w e = absurd (ground (arith, e))
refuse_when_pass false r f w e = refl

pub pure_result : (r : EffectResult) (w : World) → result_of (pure r w).0 ≡ some r
unfolding pure
pure_result r w = refl
