-- ===== src/Tests/Events.antt =====
-- Events for the API's lambda, with a router that takes the first route that fits.
use delayed_wallet_transacti.Prelude.{
  String, ◌≡◌, refl, ap, ◌∙◌, inl, inr, Option, none, some, List, [], ◌∷◌, Bool-cases, eq_iff, ◌==◌,
}
use delayed_wallet_transacti.Errors.{message}
use delayed_wallet_transacti.Program.{ok, err}
use delayed_wallet_transacti.Handlers.{status_only}
use delayed_wallet_transacti.Server.{
  Route, route, routes, literal, parameter, Params, Web, cancel_transaction_by_id,
}
use delayed_wallet_transacti.Server.Routing.{
  fits, first_fit, first_of, OneOf, IsFitting, choose-first_fit,
}
use delayed_wallet_transacti.App.{EventJson}

abbrev pub web : Web
web = record {
  choose = first_fit;
  unrouted = λ r. status_only 404;
  bind_string = λ s. ok s;
  bind_uuid = λ s. ok s;
  bind_limit = λ q. ok none;
}

abbrev Fit : List Route → String → List String → Route → Params → Type 0
Fit rs m path r v = OneOf r rs × (r.method ≡ m) × (fits r.pattern path ≡ some v)

abbrev chosen : Route → Params → Option (Route × Params)
chosen r v = some (r, v)

route_of : (s r : Route) (u v : Params) → chosen s u ≡ chosen r v → r ≡ s
route_of s r u v e = cc

params_of : (s r : Route) (u v : Params) → chosen s u ≡ chosen r v → some u ≡ some v
params_of s r u v e = cc

first_of-Fit :
    (s : Route) (rs : List Route) (m : String) (path : List String) (r : Route) (v : Params)
    (o : Option Params) (rest : Option (Route × Params))
    → fits s.pattern path ≡ o
    → s.method ≡ m
    → (rest ≡ some (r, v) → Fit rs m path r v)
    → first_of s o rest ≡ some (r, v)
    → Fit (s ∷ rs) m path r v
first_of-Fit s rs m path r v none rest f same later e =
    let (one, others, fit) = later e in (inr one, others, fit)
first_of-Fit s rs m path r v (some u) rest f same later e =
    let e' = route_of s r u v e in
    (
      inl e',
      ap (λ (x : Route). x.method) e' ∙ same,
      ap (λ (x : Route). fits x.pattern path) e' ∙ f ∙ params_of s r u v e,
    )

first_fit-Fit :
    (rs : List Route) (m : String) (path : List String) (r : Route) (v : Params)
    → first_fit rs m path ≡ some (r, v)
    → Fit rs m path r v
first_fit-Fit [] m path r v e = cc
first_fit-Fit (s ∷ rs) m path r v e = elim (Bool-cases (s.method == m)) [
  | inr other ↦
      let (one, others, fit) = first_fit-Fit rs m path r v (rw other at e) in (inr one, others, fit)
  | inl same ↦
      first_of-Fit s rs m path r v _ _ refl ((eq_iff s.method m).0 same)
        (first_fit-Fit rs m path r v) (rw same at e)
]

pub web-IsFitting : IsFitting web
web-IsFitting = record { fitting = first_fit-Fit }

choose-first_fit_example :
    first_fit routes "DELETE" ("transactions" ∷ "t1" ∷ [])
    ≡ some (
      route "DELETE"
          (literal "transactions" ∷ parameter "transactionId" ∷ [])
          cancel_transaction_by_id,
      ("transactionId", "t1") ∷ [],
    )
choose-first_fit_example =
    choose-first_fit web "DELETE" ("transactions" ∷ "t1" ∷ []) _ _ web-IsFitting refl

-- The text is taken for the id of a transaction that is asked for.
abbrev pub events : EventJson
events = record {
  websocket_request = λ text. err (message text);
  http_request = λ text. ok (record {
    method = "GET";
    path = "transactions" ∷ text ∷ [];
    query = "";
    body = "";
    remote_addr = "";
  });
}
