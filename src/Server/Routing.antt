-- ===== src/Server/Routing.antt =====
-- The table of routes, against a router that takes the first route that fits.
use mathlib.Core.Path.{subst}
use delayed_wallet_transacti.Prelude.{
  String, ◌≡◌, refl, sym, ap, ◌∙◌, Bool, true, false, not, ◌&&◌, ◌==◌, ◌⊎◌, inl, inr, Option, none,
  some, List, [], ◌∷◌, Bool-cases, if◌then◌else◌, all, eq_iff, arith,
}
use delayed_wallet_transacti.Server.{Segment, literal, parameter, Route, routes, Params, Web}

abbrev keep : String × String → Option Params → Option Params
keep v none = none
keep v (some vs) = some (v ∷ vs)

-- The values of the parameters that make the pattern the path.
abbrev pub fits : List Segment → List String → Option Params
fits [] [] = some []
fits (literal l ∷ ss) (x ∷ xs) = let rest = fits ss xs in if l == x then rest else none
fits (parameter n ∷ ss) (x ∷ xs) = keep (n, x) (fits ss xs)
fits _ _ = none

abbrev pub first_of : Route → Option Params → Option (Route × Params) → Option (Route × Params)
first_of r none rest = rest
first_of r (some v) rest = some (r, v)

-- The first route of the method that fits the path.
abbrev pub first_fit : List Route → String → List String → Option (Route × Params)
first_fit [] m path = none
first_fit (r ∷ rs) m path =
    let rest = first_fit rs m path in
    if r.method == m then first_of r (fits r.pattern path) rest else rest

abbrev pub OneOf : Route → List Route → Type 0
OneOf r [] = ⊥
OneOf r (s ∷ rs) = (r ≡ s) ⊎ OneOf r rs

-- The router chooses among the routes that fit the request.
pub record IsFitting (web : Web) : Type 0 where
  pub fitting :
      (rs : List Route) (m : String) (path : List String) (r : Route) (values : Params)
      → web.choose rs m path ≡ some (r, values)
      → OneOf r rs × (r.method ≡ m) × (fits r.pattern path ≡ some values)

-- Whether some path fits both patterns.
abbrev overlap : List Segment → List Segment → Bool
overlap [] [] = true
overlap (literal a ∷ ss) (literal b ∷ ts) = a == b && overlap ss ts
overlap (literal a ∷ ss) (parameter n ∷ ts) = overlap ss ts
overlap (parameter n ∷ ss) (s ∷ ts) = overlap ss ts
overlap _ _ = false

abbrev clash : Route → Route → Bool
clash r s = r.method == s.method && overlap r.pattern s.pattern

abbrev unambiguous : List Route → Bool
unambiguous [] = true
unambiguous (r ∷ rs) = all (λ s. not (clash r s)) rs && unambiguous rs

keep-some :
    (v : String × String) (o : Option Params) (w : Params)
    → keep v o ≡ some w
    → (u : Params) × (o ≡ some u)
keep-some v none w e = cc
keep-some v (some u) w e = (u, refl)

fits-apart :
    (ss ts : List Segment) (xs : List String) (v : Params)
    → overlap ss ts ≡ false
    → fits ts xs ≡ some v
    → fits ss xs ≡ none
fits-apart [] [] xs v h e = cc
fits-apart [] (t ∷ ts) (x ∷ xs) v h e = refl
fits-apart [] (literal b ∷ ts) [] v h e = cc
fits-apart [] (parameter b ∷ ts) [] v h e = cc
fits-apart (literal a ∷ ss) ts [] v h e = refl
fits-apart (parameter a ∷ ss) ts [] v h e = refl
fits-apart (s ∷ ss) [] (x ∷ xs) v h e = cc
fits-apart (literal a ∷ ss) (literal b ∷ ts) (x ∷ xs) v h e = elim (Bool-cases (a == x)) [
  | inr no_case ↦ rw no_case refl
  | inl here ↦ elim (Bool-cases (b == x)) [
    | inr no_case ↦ ground (arith, eq_iff b x)
    | inl there ↦ rw here (
        fits-apart ss ts xs v (ground (arith, eq_iff a x, eq_iff b x, eq_iff a b))
          (ground (arith, eq_iff b x)))
  ]
]
fits-apart (literal a ∷ ss) (parameter n ∷ ts) (x ∷ xs) v h e =
    let (u, rest) = keep-some (n, x) (fits ts xs) v e in
    elim (Bool-cases (a == x)) [
      | inr no_case ↦ rw no_case refl
      | inl here ↦ rw here (fits-apart ss ts xs u h rest)
    ]
fits-apart (parameter n ∷ ss) (literal b ∷ ts) (x ∷ xs) v h e = elim (Bool-cases (b == x)) [
  | inr no_case ↦ ground (arith, eq_iff b x)
  | inl here ↦ ap (keep (n, x)) (fits-apart ss ts xs v h (ground (arith, eq_iff b x)))
]
fits-apart (parameter n ∷ ss) (parameter k ∷ ts) (x ∷ xs) v h e =
    let (u, rest) = keep-some (k, x) (fits ts xs) v e in
    ap (keep (n, x)) (fits-apart ss ts xs u h rest)

clash-all :
    (r s : Route) (rs : List Route)
    → all (λ x. not (clash s x)) rs ≡ true
    → OneOf r rs
    → clash s r ≡ false
clash-all r s [] h m = elim m [ ]
clash-all r s (x ∷ rs) h (inl e) = subst (λ y. clash s y ≡ false) (sym e) (ground arith)
clash-all r s (x ∷ rs) h (inr m) = clash-all r s rs (ground arith) m

-- A route that clashes with none that fits does not fit.
passed_over :
    (s r : Route) (m : String) (path : List String) (v : Params) (rest : Option (Route × Params))
    → clash s r ≡ false
    → r.method ≡ m
    → fits r.pattern path ≡ some v
    → (if s.method == m then first_of s (fits s.pattern path) rest else rest) ≡ rest
passed_over s r m path v rest h same f = elim (Bool-cases (s.method == m)) [
  | inr no_case ↦ rw no_case refl
  | inl here ↦
      rw
        (
          here,
          fits-apart s.pattern r.pattern path v
              (ground (arith, eq_iff s.method m, eq_iff s.method r.method)) f,
        )
        refl
]

first_fit-unambiguous :
    (rs : List Route) (m : String) (path : List String) (r : Route) (v : Params)
    → unambiguous rs ≡ true
    → OneOf r rs
    → r.method ≡ m
    → fits r.pattern path ≡ some v
    → first_fit rs m path ≡ some (r, v)
first_fit-unambiguous [] m path r v h one same f = elim one [ ]
first_fit-unambiguous (s ∷ rs) m path r v h (inl e) same f =
    subst (λ y. first_fit (y ∷ rs) m path ≡ some (r, v)) e (rw ((eq_iff r.method m).1 same, f) refl)
first_fit-unambiguous (s ∷ rs) m path r v h (inr t) same f =
    passed_over s r m path v (first_fit rs m path) (clash-all r s rs (ground arith) t) same f
    ∙ first_fit-unambiguous rs m path r v (ground arith) t same f

-- A request reaches at most one operation: if the router chooses one of the routes that fit a
-- request, then this is the first route registered that fits it, with the same values of its
-- parameters, so that neither the order of the registrations nor the router's preferences matter.
pub choose-first_fit :
    (web : Web) (m : String) (path : List String) (r : Route) (values : Params)
    → IsFitting web
    → web.choose routes m path ≡ some (r, values)
    → first_fit routes m path ≡ some (r, values)
choose-first_fit web m path r values is chosen =
    let (one, same, f) = is.fitting routes m path r values chosen in
    first_fit-unambiguous routes m path r values refl one same f
