-- ===== src/Ctih/Attenuation.antt =====
-- Scopes ordered by what they list, and what `intersect` and `mint_child` make of them.
use hpl_spec.Base.{
  false, ℤ, pos, negsuc, leb_int, min_int, refl, String, ◌≡◌, true, List, [], ◌∷◌, ◌++◌, arith,
  contains, string_eq, select, contains-select,
}
use hpl_spec.Ctih.TokenTree.{TokenScope, intersect, DerivedToken}

-- All that `c` lists and switches on, `p` does too, and `c` has no more steps. A scope that lists no
-- tool is within every other here, although a session offers every tool under it.
pub record Within (c p : TokenScope) : Type 0 where
  pub backends :
      (b : String) → contains c.allowed_backends b ≡ true → contains p.allowed_backends b ≡ true
  pub steps : leb_int c.budget_steps p.budget_steps ≡ true
  pub io : c.enable_io ≡ true → p.enable_io ≡ true
  pub net : c.enable_net ≡ true → p.enable_net ≡ true
  pub tools :
      (t : String) → contains c.allow_tool_names t ≡ true → contains p.allow_tool_names t ≡ true

leb_int_trans : (i j k : ℤ) → leb_int i j ≡ true → leb_int j k ≡ true → leb_int i k ≡ true
unfolding leb_int
leb_int_trans (pos i) (pos j) (pos k) h g = ground (arith, h, g)
leb_int_trans (pos i) (pos j) (negsuc k) h g = g
leb_int_trans (pos i) (negsuc j) k h g = absurd (cc (h))
leb_int_trans (negsuc i) j (pos k) h g = refl
leb_int_trans (negsuc i) (pos j) (negsuc k) h g = absurd (cc (g))
leb_int_trans (negsuc i) (negsuc j) (negsuc k) h g = ground (arith, h, g)

leb_int_self : (i : ℤ) → leb_int i i ≡ true
unfolding leb_int
leb_int_self (pos i) = ground arith
leb_int_self (negsuc i) = ground arith

leb_int_total : (i j : ℤ) → leb_int i j ≡ false → leb_int j i ≡ true
unfolding leb_int
leb_int_total (pos i) (pos j) h = ground (arith, h)
leb_int_total (pos i) (negsuc j) h = refl
leb_int_total (negsuc i) (pos j) h = absurd (cc (h))
leb_int_total (negsuc i) (negsuc j) h = ground (arith, h)

min_int_left : (i j : ℤ) → leb_int (min_int i j) i ≡ true
unfolding min_int
min_int_left i j = ground (arith, leb_int_self i, leb_int_total i j)

min_int_right : (i j : ℤ) → leb_int (min_int i j) j ≡ true
unfolding min_int
min_int_right i j = ground (arith, leb_int_self j)

min_int_greatest :
    (i j k : ℤ) → leb_int k i ≡ true → leb_int k j ≡ true → leb_int k (min_int i j) ≡ true
unfolding min_int
min_int_greatest i j k h g = ground (arith, h, g)

select-left :
    (xs ys : List String) (a : String)
    → contains (select (contains xs) ys) a ≡ true
    → contains xs a ≡ true
select-left xs ys a h = ground (arith, contains-select (contains xs) ys a)

select-right :
    (xs ys : List String) (a : String)
    → contains (select (contains xs) ys) a ≡ true
    → contains ys a ≡ true
select-right xs ys a h = ground (arith, contains-select (contains xs) ys a)

select-both :
    (xs ys : List String) (a : String)
    → contains xs a ≡ true
    → contains ys a ≡ true
    → contains (select (contains xs) ys) a ≡ true
select-both xs ys a h k = ground (arith, contains-select (contains xs) ys a)

pub intersect-Within_self : (p r : TokenScope) → Within (intersect p r) p
unfolding intersect
intersect-Within_self p r = record {
  backends = λ b. select-left p.allowed_backends r.allowed_backends b;
  steps = min_int_left p.budget_steps r.budget_steps;
  io = λ h. ground arith;
  net = λ h. ground arith;
  tools = λ t. select-left p.allow_tool_names r.allow_tool_names t;
}

pub intersect-Within_request : (p r : TokenScope) → Within (intersect p r) r
unfolding intersect
intersect-Within_request p r = record {
  backends = λ b. select-right p.allowed_backends r.allowed_backends b;
  steps = min_int_right p.budget_steps r.budget_steps;
  io = λ h. ground arith;
  net = λ h. ground arith;
  tools = λ t. select-right p.allow_tool_names r.allow_tool_names t;
}

pub Within-intersect : (p r c : TokenScope) → Within c p → Within c r → Within c (intersect p r)
unfolding intersect
Within-intersect p r c h k = record {
  backends =
      λ b g. select-both p.allowed_backends r.allowed_backends b (h.backends b g) (k.backends b g);
  steps = min_int_greatest p.budget_steps r.budget_steps c.budget_steps h.steps k.steps;
  io = λ g. ground (arith, h.io g, k.io g);
  net = λ g. ground (arith, h.net g, k.net g);
  tools = λ t g. select-both p.allow_tool_names r.allow_tool_names t (h.tools t g) (k.tools t g);
}

-- The intersection of a parent's scope and a request is the greatest scope within both: a scope
-- is within it exactly if it is within the parent's scope and within the request.
pub intersect_greatest :
    (p r c : TokenScope)
    → (Within c p → Within c r → Within c (intersect p r))
      × (Within c (intersect p r) → Within c p × Within c r)
intersect_greatest p r c = (
  Within-intersect p r c,
  λ h. (trans_within h (intersect-Within_self p r), trans_within h (intersect-Within_request p r)),
)
  where
    trans_within :
        {q : TokenScope} → Within c (intersect p r) → Within (intersect p r) q → Within c q
    trans_within h k = record {
      backends = λ b g. k.backends b (h.backends b g);
      steps = leb_int_trans _ _ _ h.steps k.steps;
      io = λ g. k.io (h.io g);
      net = λ g. k.net (h.net g);
      tools = λ t g. k.tools t (h.tools t g);
    }

abbrev pub AllWithin : TokenScope → List DerivedToken → Type 0
AllWithin p [] = Unit
AllWithin p (c ∷ cs) = Within c.scope p × AllWithin p cs

pub AllWithin-concat :
    (p : TokenScope) (cs : List DerivedToken) (c : DerivedToken)
    → AllWithin p cs
    → Within c.scope p
    → AllWithin p (cs ++ c ∷ [])
AllWithin-concat p [] c h k = (k, tt)
AllWithin-concat p (d ∷ cs) c (h, hs) k = (h, AllWithin-concat p cs c hs k)
