-- ===== src/Errors.antt =====
-- src/hpl/errors.py, with the result of a function that may raise one of its errors.
use hpl_spec.Base.{◌++◌}
use hpl_spec.Base.{ℕ, String, ◌<>◌, ◌≡◌, refl, Option, none, some, List, [], ◌∷◌, map}
use hpl_spec.Base.Text.{decimal, join}

pub record SourceLocation : Type 0 where
  pub line : ℕ
  pub column : ℕ

pub data ErrorKind : Type 0 where
  parse_error macro_expansion_error validation_error : ErrorKind

pub record HplError : Type 0 where
  pub kind : ErrorKind
  pub message : String
  pub location : Option SourceLocation
  pub path : Option (List ℕ)

abbrev location_parts : Option SourceLocation → List String
location_parts none = []
location_parts (some l) = ("@" <> (decimal l.line <> (":" <> decimal l.column))) ∷ []

-- An empty path is as good as none.
abbrev path_parts : Option (List ℕ) → List String
path_parts none = []
path_parts (some []) = []
path_parts (some (i ∷ p)) = ("path=[" <> (join ", " (map decimal (i ∷ p)) <> "]")) ∷ []

unfoldable pub error_text : HplError → String
unfolding decimal join
error_text e = join " " (e.message ∷ (location_parts e.location ++ path_parts e.path))

pub data Result {ℓ} (A : Type ℓ) : Type ℓ where
  ok : A → Result A
  err : HplError → Result A

pub ok-injective {ℓ} : {A : Type ℓ} {a b : A} → ok a ≡ ok b → a ≡ b
ok-injective h = cc

-- A raised error ends the chain.
infixl 5 ◌>>=◌
abbrev pub ◌>>=◌ {ℓ κ} : {A : Type ℓ} {B : Type κ} → Result A → (A → Result B) → Result B
err raised >>= next = err raised
ok value >>= next = next value

-- A check before the rest.
infixl 5 ◌>>◌
abbrev pub ◌>>◌ {ℓ} : {B : Type ℓ} → Result (Unit {0}) → Result B → Result B
checked >> rest = checked >>= λ passed. rest

pub >>-eq-ok :
    (checked rest : Result (Unit {0}))
    → (checked >> rest) ≡ ok tt
    → (checked ≡ ok tt) × (rest ≡ ok tt)
>>-eq-ok (err raised) rest h = cc
>>-eq-ok (ok tt) rest h = (refl, h)

-- A chain that succeeds had a first value.
pub >>=-eq-ok {ℓ κ} :
    {A : Type ℓ} {B : Type κ} (first : Result A) (next : A → Result B) {result : B}
    → (first >>= next) ≡ ok result
    → (value : A) × (first ≡ ok value) × (next value ≡ ok result)
>>=-eq-ok (err raised) next h = cc
>>=-eq-ok (ok value) next h = (value, refl, h)
