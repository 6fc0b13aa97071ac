-- ===== src/Runtime/Handlers/Calls.antt =====
-- What an action of src/hpl/runtime/effects/handlers.py adds to the calls of adapters.
use hpl_spec.Base.{
  ℤ, String, Option, none, some, List, [], ◌∷◌, ◌++◌, ◌≡◌, refl, ◌∙◌, ap, ◌⊎◌, inl, inr,
}
use hpl_spec.Base.Json.{Fields}
use hpl_spec.Runtime.Context.{RuntimeContext, EffectStep}
use hpl_spec.Base.Dict.{Dict}
use hpl_spec.Runtime.Handlers.Paths.{FilePath}
use hpl_spec.Runtime.Handlers.Action.{
  value_of, Action, Ended, World, AdapterCall, Platform, ◌>>=◌, check, pure, write, respond,
  call_adapter,
}
use hpl_spec.Runtime.Handlers.Artifacts.{
  emit_text, emit_if_path, emit_io_artifacts, emit_net_artifacts,
}

-- The action calls no adapter.
pub record Keeps {A : Type 0} (action : Action A) : Type 0 where
  pub same : (w : World) → (action w).1.calls ≡ w.calls

-- It calls no adapter, or it makes this one call and `P` holds.
pub record Makes {A : Type 0} (c : AdapterCall) (P : Type 0) (action : Action A) : Type 0 where
  pub at_most :
      (w : World) → ((action w).1.calls ≡ w.calls) ⊎ (((action w).1.calls ≡ w.calls ++ c ∷ []) × P)

pub pure-Keeps : {A : Type 0} (a : A) → Keeps (pure a)
unfolding pure
pure-Keeps a = record { same = λ w. refl }

module _ {A B : Type 0} where
  -- What comes after an action that ended like this.
  abbrev pub next : Ended A × World → (A → Action B) → Ended B × World
  next (Ended.raised, w) f = (Ended.raised, w)
  next (Ended.returned r, w) f = (Ended.returned r, w)
  next (Ended.done a, w) f = f a w

  next-Keeps :
      (p : Ended A × World) (f : A → Action B)
      → ((a : A) → Keeps (f a))
      → (next p f).1.calls ≡ p.1.calls
  next-Keeps (Ended.raised, w) f keeps = refl
  next-Keeps (Ended.returned r, w) f keeps = refl
  next-Keeps (Ended.done a, w) f keeps = (keeps a).same w

  pub bind_next :
      (action : Action A) (f : A → Action B) (w : World) → (action >>= f) w ≡ next (action w) f
  unfolding ◌>>=◌
  bind_next action f w = split (action w)
    where
      split : (p : Ended A × World) → ((λ (_ : World). p) >>= f) w ≡ next p f
      split (Ended.raised, w') = refl
      split (Ended.returned r, w') = refl
      split (Ended.done a, w') = refl

  pub bind_calls :
      (action : Action A) (f : A → Action B) (w : World)
      → ((a : A) → Keeps (f a))
      → ((action >>= f) w).1.calls ≡ (action w).1.calls
  bind_calls action f w keeps =
      ap (λ (p : Ended B × World). p.1.calls) (bind_next action f w) ∙ next-Keeps (action w) f keeps

  pub >>=-Keeps :
      {action : Action A} {f : A → Action B}
      → Keeps action
      → ((a : A) → Keeps (f a))
      → Keeps (action >>= f)
  >>=-Keeps {action} {f} first keeps = record {
    same = λ w. bind_calls action f w keeps ∙ first.same w;
  }

  pub >>=-Makes :
      {c : AdapterCall} {P : Type 0} {action : Action A} {f : A → Action B}
      → Makes c P action
      → ((a : A) → Keeps (f a))
      → Makes c P (action >>= f)
  >>=-Makes {c} {P} {action} {f} first keeps = record { at_most = λ w. go w (first.at_most w) }
    where
      go :
          (w : World)
          → ((action w).1.calls ≡ w.calls) ⊎ (((action w).1.calls ≡ w.calls ++ c ∷ []) × P)
          → (((action >>= f) w).1.calls ≡ w.calls)
            ⊎ ((((action >>= f) w).1.calls ≡ w.calls ++ c ∷ []) × P)
      go w (inl same) = inl (bind_calls action f w keeps ∙ same)
      go w (inr (made, p)) = inr (bind_calls action f w keeps ∙ made, p)

  -- What comes before may call nothing.
  pub before-Makes :
      {c : AdapterCall} {P : Type 0} {action : Action A} {f : A → Action B}
      → Keeps action
      → ((a : A) → Makes c P (f a))
      → Makes c P (action >>= f)
  before-Makes {c} {P} {action} {f} first rest = record {
    at_most = λ w. go w (action w) (first.same w) (bind_next action f w);
  }
    where
      go :
          (w : World) (p : Ended A × World)
          → p.1.calls ≡ w.calls
          → (action >>= f) w ≡ next p f
          → (((action >>= f) w).1.calls ≡ w.calls)
            ⊎ ((((action >>= f) w).1.calls ≡ w.calls ++ c ∷ []) × P)
      go w (Ended.raised, w') same e = inl (ap (λ (q : Ended B × World). q.1.calls) e ∙ same)
      go w (Ended.returned r, w') same e = inl (ap (λ (q : Ended B × World). q.1.calls) e ∙ same)
      go w (Ended.done a, w') same e = elim ((rest a).at_most w') [
        | inl kept ↦ inl (ap (λ (q : Ended B × World). q.1.calls) e ∙ (kept ∙ same))
        | inr (made, p) ↦ inr (
          ap (λ (q : Ended B × World). q.1.calls) e
              ∙ (made ∙ ap (λ (cs : List AdapterCall). cs ++ c ∷ []) same),
          p,
        )
      ]

  -- A check that passed may be used for what follows.
  pub check-Makes :
      {c : AdapterCall} {P : Type 0} (e : Ended A) {f : A → Action B}
      → ((a : A) → e ≡ Ended.done a → Makes c P (f a))
      → Makes c P (check e >>= f)
  unfolding check ◌>>=◌
  check-Makes Ended.raised after = record { at_most = λ w. inl refl }
  check-Makes (Ended.returned r) after = record { at_most = λ w. inl refl }
  check-Makes (Ended.done a) after = record { at_most = λ w. (after a refl).at_most w }

pub value-done : (e : Ended ℤ) (i : ℤ) → e ≡ Ended.done i → value_of e ≡ i
value-done e i found = ap value_of found

pub check_done :
    {A B : Type 0} (e : Ended A) (a : A) (f : A → Action B)
    → e ≡ Ended.done a
    → (check e >>= f) ≡ f a
unfolding check ◌>>=◌
check_done e a f passed = rw passed refl

pub check-Keeps : {A : Type 0} (e : Ended A) → Keeps (check e)
unfolding check
check-Keeps e = record { same = λ w. refl }

module _ (m : Platform) where
  emit_text-Keeps :
      (path : Option FilePath) (role text : String) (digests : Dict String String)
      → Keeps (emit_text m path role text digests)
  unfolding emit_text write pure ◌>>=◌
  emit_text-Keeps none role text digests = record { same = λ w. refl }
  emit_text-Keeps (some path) role text digests = record { same = λ w. refl }

  emit_if_path-Keeps :
      (path : Option FilePath) (d : Fields) (digests : Dict String String)
      → Keeps (emit_if_path m path d digests)
  unfolding emit_if_path
  emit_if_path-Keeps none d digests = pure-Keeps digests
  emit_if_path-Keeps (some path) d digests = emit_text-Keeps (some path) "" _ digests

  pub emit_io_artifacts-Keeps :
      (step : EffectStep) (ctx : RuntimeContext) (request response : Fields) (event_type : String)
      → Keeps (emit_io_artifacts m step ctx request response event_type)
  unfolding emit_io_artifacts
  emit_io_artifacts-Keeps step ctx request response event_type =
      search (>>=-Keeps, check-Keeps, emit_text-Keeps, pure-Keeps)

  pub emit_net_artifacts-Keeps :
      (step : EffectStep) (ctx : RuntimeContext) (request response : Fields) (event_type : String)
      → Keeps (emit_net_artifacts m step ctx request response event_type)
  unfolding emit_net_artifacts
  emit_net_artifacts-Keeps step ctx request response event_type =
      search (>>=-Keeps, emit_if_path-Keeps, pure-Keeps)

pub respond_calls :
    {A : Type 0} (a : A) (mock : Fields) (c : AdapterCall) (ask : A → Option Fields) (w : World)
    → (respond (some a) mock c ask w).1.calls ≡ w.calls ++ c ∷ []
unfolding respond call_adapter
respond_calls a mock c ask w = refl

-- A response asks an adapter at most once, and only if there is one.
pub respond-Makes :
    {A : Type 0} {P : Type 0} (found : Option A) (mock : Fields) (c : AdapterCall)
    (ask : A → Option Fields)
    → ((a : A) → found ≡ some a → P)
    → Makes c P (respond found mock c ask)
unfolding respond call_adapter pure
respond-Makes none mock c ask live = record { at_most = λ w. inl refl }
respond-Makes (some a) mock c ask live = record { at_most = λ w. inr (refl, live a refl) }
