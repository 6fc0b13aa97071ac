-- ===== src/Runtime/Handlers/Io/Written.antt =====
-- What the handlers of the broker lane of src/hpl/runtime/effects/handlers.py leave in files.
use hpl_spec.Runtime.Handlers.Io.{rounded_arg}
use hpl_spec.Base.{
  String, Bool, true, false, Option, none, some, [], ◌∷◌, ◌≡◌, refl, sym, ◌∙◌, ◌⊎◌, inl, inr, arith,
  ◌==◌, string_eq, subst, if◌then◌else◌,
}
use hpl_spec.Base.Dict.{Dict, lookup, insert, lookup-insert}
use hpl_spec.Base.Json.{Json, str, bool, obj, Fields, dict}
use hpl_spec.Base.Json.Print.{canonical_json}
use hpl_spec.Runtime.Context.{RuntimeContext, EffectStep}
use hpl_spec.Runtime.Handlers.Paths.{FilePath, path_text}
use hpl_spec.Runtime.Handlers.Action.{
  Action, Ended, World, Platform, ◌>>=◌, check, pure, write, respond, call_adapter, AdapterCall,
  or_raise,
}
use hpl_spec.Runtime.Handlers.Sanitize.{looks_like_secret_key, looks_like_secret_value}
use hpl_spec.Runtime.Handlers.Sanitize.Clean.{
  IsClean, IsCleanFields, sanitize_fields-IsClean, get-IsClean, lookup-IsClean,
}
use hpl_spec.Runtime.Handlers.Adapters.{Loaded, IoAdapter}
use hpl_spec.Runtime.Handlers.Artifacts.{emit_text, emit_io_artifacts}
use hpl_spec.Runtime.Handlers.Calls.{next, bind_next}
use hpl_spec.Runtime.Handlers.Io.{
  IoOperation, handle_io, io_exchange, handle_io_connect, handle_io_submit_order,
  handle_io_cancel_order, handle_io_query_fills,
}

-- The text of a JSON object in which nothing looks like a secret.
abbrev pub IsCleanText : String → Type 0
IsCleanText text = (d : Fields) × IsCleanFields d × (text ≡ canonical_json (obj d))

-- What a file holds afterwards, it held before, or it is such a text.
pub record WritesClean {A : Type 0} (action : Action A) : Type 0 where
  pub holds :
      (w : World) (name text : String)
      → lookup name (action w).1.files ≡ some text
      → (lookup name w.files ≡ some text) ⊎ IsCleanText text

module _ {A B : Type 0} where
  next_holds :
      (p : Ended A × World) (f : A → Action B) (name text : String)
      → ((a : A) → WritesClean (f a))
      → lookup name (next p f).1.files ≡ some text
      → (lookup name p.1.files ≡ some text) ⊎ IsCleanText text
  next_holds (Ended.raised, w) f name text cleans e = inl e
  next_holds (Ended.returned r, w) f name text cleans e = inl e
  next_holds (Ended.done a, w) f name text cleans e = (cleans a).holds w name text e

  >>=-WritesClean :
      {action : Action A} {f : A → Action B}
      → WritesClean action
      → ((a : A) → WritesClean (f a))
      → WritesClean (action >>= f)
  >>=-WritesClean {action} {f} first cleans = record {
    holds = λ w name text e. go w name text (
        next_holds (action w) f name text cleans (
          subst (λ (p : Ended B × World). lookup name p.1.files ≡ some text) (bind_next action f w)
            e));
  }
    where
      go :
          (w : World) (name text : String)
          → (lookup name (action w).1.files ≡ some text) ⊎ IsCleanText text
          → (lookup name w.files ≡ some text) ⊎ IsCleanText text
      go w name text (inl before) = first.holds w name text before
      go w name text (inr clean) = inr clean

check-WritesClean : {A : Type 0} (e : Ended A) → WritesClean (check e)
unfolding check
check-WritesClean e = record { holds = λ w name text before. inl before }

pure-WritesClean : {A : Type 0} (a : A) → WritesClean (pure a)
unfolding pure
pure-WritesClean a = record { holds = λ w name text before. inl before }

write-WritesClean :
    (path : FilePath) (text : String) → IsCleanText text → WritesClean (write path text)
unfolding write
write-WritesClean path text clean = record { holds = λ w name t e. go w name t e }
  where
    go :
        (w : World) (name t : String)
        → lookup name (insert (path_text path) text w.files) ≡ some t
        → (lookup name w.files ≡ some t) ⊎ IsCleanText t
    go w name t e =
        split (name == path_text path) (sym (lookup-insert name (path_text path) text w.files) ∙ e)
      where
        split :
            (b : Bool)
            → (if b then some text else lookup name w.files) ≡ some t
            → (lookup name w.files ≡ some t) ⊎ IsCleanText t
        split true e' = inr (subst IsCleanText (ground (arith, e')) clean)
        split false e' = inl e'

emit_text-WritesClean :
    (m : Platform) (path : Option FilePath) (role : String) (d : Fields)
    (digests : Dict String String)
    → IsCleanFields d
    → WritesClean (emit_text m path role (canonical_json (obj d)) digests)
unfolding emit_text
emit_text-WritesClean m none role d digests clean = pure-WritesClean _
emit_text-WritesClean m (some path) role d digests clean =
    >>=-WritesClean (write-WritesClean path _ (d, clean, refl)) (λ u. pure-WritesClean _)

-- An event has no key that looks like a secret.
event-IsClean :
    (event_type : String) (request_id status : Json)
    → looks_like_secret_value event_type ≡ false
    → IsClean request_id
    → IsClean status
    → IsCleanFields (
        dict (
          ("event_type", str event_type)
          ∷ ("request_id", request_id)
          ∷ ("response_status", status)
          ∷ ("mock", bool true)
          ∷ []))
unfolding looks_like_secret_key
event-IsClean event_type request_id status quiet c c' =
    (refl, quiet, (refl, c, (refl, c', (refl, tt, tt))))

check_then-WritesClean :
    {A B : Type 0} (e : Ended A) (f : A → Action B)
    → ((a : A) → e ≡ Ended.done a → WritesClean (f a))
    → WritesClean (check e >>= f)
unfolding check ◌>>=◌
check_then-WritesClean Ended.raised f after = record { holds = λ w name text e. inl e }
check_then-WritesClean (Ended.returned r) f after = record { holds = λ w name text e. inl e }
check_then-WritesClean (Ended.done a) f after = after a refl

or_raise-done : {A : Type 0} (o : Option A) (a : A) → or_raise o ≡ Ended.done a → o ≡ some a
or_raise-done none a e = absurd (ground arith)
or_raise-done (some b) a e = ground arith

emit_io_artifacts-WritesClean :
    (m : Platform) (step : EffectStep) (ctx : RuntimeContext) (request response : Fields)
    (event_type : String)
    → looks_like_secret_value event_type ≡ false
    → WritesClean (emit_io_artifacts m step ctx request response event_type)
unfolding emit_io_artifacts
emit_io_artifacts-WritesClean m step ctx request response event_type quiet =
    let asked = sanitize_fields-IsClean request in
    let answered = sanitize_fields-IsClean response in
    check_then-WritesClean _ _ (λ request_id found.
      >>=-WritesClean (emit_text-WritesClean m _ _ _ _ asked) (λ d.
        >>=-WritesClean (emit_text-WritesClean m _ _ _ _ answered) (λ d'.
          >>=-WritesClean
            (emit_text-WritesClean m _ _ _ _ (
              event-IsClean event_type request_id _ quiet
                (lookup-IsClean "request_id" _ request_id (or_raise-done _ _ found) asked)
                (get-IsClean "status" _ answered)))
            (λ digests. pure-WritesClean _))))

respond-WritesClean :
    {A : Type 0} (found : Option A) (mock : Fields) (c : AdapterCall) (ask : A → Option Fields)
    → WritesClean (respond found mock c ask)
unfolding respond call_adapter pure
respond-WritesClean none mock c ask = record { holds = λ w name text e. inl e }
respond-WritesClean (some a) mock c ask = record { holds = λ w name text e. inl e }

io_exchange-WritesClean :
    (m : Platform) (adapter : Loaded IoAdapter) (action : String) (request mock : Fields)
    (ask : IoAdapter → Option Fields) (step : EffectStep) (ctx : RuntimeContext)
    → looks_like_secret_value action ≡ false
    → WritesClean (io_exchange m adapter action request mock ask step ctx)
unfolding io_exchange
io_exchange-WritesClean m adapter action request mock ask step ctx quiet =
    >>=-WritesClean (check-WritesClean _) (λ found.
      >>=-WritesClean (respond-WritesClean found _ _ _)
        (λ response. emit_io_artifacts-WritesClean m step ctx request response action quiet))

rounded_arg-WritesClean :
    (m : Platform) (key : String) (step : EffectStep) → WritesClean (rounded_arg m key step)
unfolding rounded_arg
rounded_arg-WritesClean m key step = search (>>=-WritesClean, check-WritesClean, pure-WritesClean)

module _ (m : Platform) (adapter : Loaded IoAdapter) where
  handle_io-WritesClean :
      (op : IoOperation) (step : EffectStep) (ctx : RuntimeContext)
      → WritesClean (handle_io m adapter op step ctx)
  unfolding handle_io handle_io_connect handle_io_submit_order handle_io_cancel_order
      handle_io_query_fills looks_like_secret_value
  handle_io-WritesClean IoOperation.connect step ctx = >>=-WritesClean (check-WritesClean _) (λ u.
      >>=-WritesClean (check-WritesClean _)
        (λ timeout. io_exchange-WritesClean m adapter _ _ _ _ step ctx refl))
  handle_io-WritesClean IoOperation.submit_order step ctx =
      >>=-WritesClean (check-WritesClean _) (λ u.
        >>=-WritesClean (check-WritesClean _)
          (λ timeout. io_exchange-WritesClean m adapter _ _ _ _ step ctx refl))
  handle_io-WritesClean IoOperation.cancel_order step ctx =
      >>=-WritesClean (check-WritesClean _) (λ u. >>=-WritesClean (check-WritesClean _) (λ order_id.
        >>=-WritesClean (check-WritesClean _)
          (λ timeout. io_exchange-WritesClean m adapter _ _ _ _ step ctx refl)))
  handle_io-WritesClean IoOperation.query_fills step ctx =
      >>=-WritesClean (check-WritesClean _) (λ u. >>=-WritesClean (check-WritesClean _) (λ order_id.
        >>=-WritesClean (check-WritesClean _) (λ timeout.
          >>=-WritesClean (rounded_arg-WritesClean m "fill_qty" step) (λ qty.
            >>=-WritesClean (rounded_arg-WritesClean m "fill_price" step)
              (λ price. io_exchange-WritesClean m adapter _ _ _ _ step ctx refl)))))

  -- Whatever a handler of the broker lane is given and its adapter answers, a file that it has
  -- written holds a JSON object in which no key and no text looks like a secret.
  pub handle_io-IsCleanText :
      (op : IoOperation) (step : EffectStep) (ctx : RuntimeContext) (w : World) (name text : String)
      → lookup name (handle_io m adapter op step ctx w).1.files ≡ some text
      → (lookup name w.files ≡ some text) ⊎ IsCleanText text
  handle_io-IsCleanText op step ctx w name text held =
      (handle_io-WritesClean op step ctx).holds w name text held
