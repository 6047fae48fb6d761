-- ===== src/Handlers/Transactions/Answers.antt =====
-- DELETE and GET /transactions/{transactionId}, by their responses.
use delayed_wallet_transacti.Prelude.{
  String, ◌≡◌, refl, sym, ◌∙◌, ◌⊎◌, inl, inr, none, some, Bool-cases,
}
use delayed_wallet_transacti.Prelude.Table.{lookup}
use delayed_wallet_transacti.Models.{Transaction}
use delayed_wallet_transacti.Errors.{errors_is, transaction_not_cancellable}
use delayed_wallet_transacti.Dynamo.{Db}
use delayed_wallet_transacti.Service.{World, Service, Seen}
use delayed_wallet_transacti.Program.{Result, ok, err, run}
use delayed_wallet_transacti.Program.Ensures.{
  Post, Ensures, sequential, run-Ensures, Ensures-attempt, Ensures-pure,
}
use delayed_wallet_transacti.Api.{Response, transaction, Environment}
use delayed_wallet_transacti.Api.Mapping.{to_api_transaction}
use delayed_wallet_transacti.Store.CancelTransaction.Outcome.{
  CancelledSeen, RefusedSeen, CancelOutcome, cancel-Outcome,
}
use delayed_wallet_transacti.Store.CancelTransaction.Reads.{TransactionRead, get_transaction-Reads}
use delayed_wallet_transacti.Handlers.{respond_json}
use delayed_wallet_transacti.Handlers.Transactions.{
  cancel_transaction_by_id, cancel_response, get_transaction_by_id, get_response,
}

absent : (tx : Transaction) → none ≡ some tx → ⊥
absent tx e = cc

-- What a DELETE has done, by its status.
abbrev pub DeleteOutcome : String → World → Post Response
DeleteOutcome id w (err e) v = ⊥
DeleteOutcome id w (ok resp) v =
    ((resp.status ≡ 204) × CancelledSeen id w v.db)
    ⊎ (((resp.status ≡ 409) × (v.db ≡ w.db) × RefusedSeen id w)
        ⊎ ((resp.status ≡ 500) × ((v.db ≡ w.db) ⊎ CancelledSeen id w v.db)))

-- The transaction that a GET shows, as it stands or as it stood.
pub record Shown (env : Environment) (id : String) (w : World) (resp : Response) : Type 0 where
  pub tx : Transaction
  pub seen_in : Db
  pub seen : Seen seen_in w
  pub found : lookup id seen_in.transactions ≡ some tx
  pub response : resp ≡ respond_json env 200 (transaction (to_api_transaction tx))

abbrev pub GetOutcome : Environment → String → World → Post Response
GetOutcome env id w (err e) v = ⊥
GetOutcome env id w (ok resp) v = (v ≡ w) × (Shown env id w resp ⊎ (resp.status ≡ 404))

module _ (env : Environment) where
  delete_outcome :
      (id : String) (w : World) (r : Result (Unit {0})) (v : World)
      → CancelOutcome id w r v
      → DeleteOutcome id w (ok (cancel_response env r)) v
  delete_outcome id w (ok _) v h = inl (refl, h)
  delete_outcome id w (err e) v h = elim (Bool-cases (errors_is e transaction_not_cancellable)) [
    | inl refused ↦ rw refused (inr (inl (refl, (h.1 refused).0, (h.1 refused).1)))
    | inr other ↦ rw other (inr (inr (refl, h.0)))
  ]

  get_outcome :
      (id : String) (w : World) (r : Result Transaction) (v : World)
      → TransactionRead id w r v
      → GetOutcome env id w (ok (get_response env r)) v
  get_outcome id w (ok tx) v (same, d, seen, found) =
      (same, inl (record { tx = tx; seen_in = d; seen = seen; found = found; response = refl }))
  get_outcome id w (err e) v (same, _) = (same, inr refl)

  pub cancel_by_id-Outcome :
      (id : String) (w : World)
      → Ensures sequential (cancel_transaction_by_id env id) w (DeleteOutcome id w)
  unfolding cancel_transaction_by_id
  cancel_by_id-Outcome id w =
      Ensures-attempt _ (CancelOutcome id w) _ w (cancel-Outcome env.attribute_value id w)
        λ r v h. Ensures-pure _ v (delete_outcome id w r v h)

  pub get_by_id-Outcome :
      (id : String) (w : World)
      → Ensures sequential (get_transaction_by_id env id) w (GetOutcome env id w)
  unfolding get_transaction_by_id
  get_by_id-Outcome id w =
      Ensures-attempt _ (TransactionRead id w) _ w (get_transaction-Reads env.attribute_value id w)
        λ r v h. Ensures-pure _ v (get_outcome id w r v h)

missing-Outcome :
    (id : String) (w : World) (r : Result Response) (v : World)
    → ((d : Db) → Seen d w → lookup id d.transactions ≡ none)
    → DeleteOutcome id w r v
    → (resp : Response) × (r ≡ ok resp) × (resp.status ≡ 500) × (v.db ≡ w.db)
missing-Outcome id w (err e) v missing h = elim h [ ]
missing-Outcome id w (ok resp) v missing (inl (_, c)) =
    elim (absent c.tx (sym (missing c.seen_in c.seen) ∙ c.found)) [ ]
missing-Outcome id w (ok resp) v missing (inr (inl (_, _, c))) =
    elim (absent c.tx (sym (missing c.seen_in c.seen) ∙ c.found)) [ ]
missing-Outcome id w (ok resp) v missing (inr (inr (status, inl same))) = (resp, refl, status, same)
missing-Outcome id w (ok resp) v missing (inr (inr (status, inr c))) =
    elim (absent c.tx (sym (missing c.seen_in c.seen) ∙ c.found)) [ ]

module _ (svc : Service) (env : Environment) where
  -- DELETE /transactions/{transactionId} always answers, with one of three statuses and never with
  -- 404. 204: a transaction was seen as RESERVED under the id, its funds have gone back and it is
  -- CANCELLED. 409: a transaction was seen under the id that was not RESERVED, and the tables are
  -- unchanged. 500: either the tables are unchanged or all of the cancellation was done.
  pub cancel_transaction_by_id-Outcome :
      (id : String) (s : svc.State)
      → let (r, s') = run svc (cancel_transaction_by_id env id) s in
        DeleteOutcome id (svc.world s) r (svc.world s')
  cancel_transaction_by_id-Outcome id s =
      run-Ensures svc (DeleteOutcome id (svc.world s)) (cancel_transaction_by_id env id) s
        (cancel_by_id-Outcome env id (svc.world s))

  -- DELETE /transactions/{transactionId}, if no transaction is stored under the id, in the tables
  -- as they stand or stood before an earlier write: the answer is 500, and the tables are
  -- unchanged.
  pub cancel_transaction_by_id-missing :
      (id : String) (s : svc.State)
      → ((d : Db) → Seen d (svc.world s) → lookup id d.transactions ≡ none)
      → let (r, s') = run svc (cancel_transaction_by_id env id) s in
        (resp : Response) × (r ≡ ok resp)
        × (resp.status ≡ 500)
        × ((svc.world s').db ≡ (svc.world s).db)
  cancel_transaction_by_id-missing id s missing =
      let (r, s') = run svc (cancel_transaction_by_id env id) s in
      missing-Outcome id (svc.world s) r (svc.world s') missing
        (cancel_transaction_by_id-Outcome id s)

  -- GET /transactions/{transactionId} always answers and changes nothing: with 200 and a
  -- transaction that is stored under the id, or was before an earlier write, or with 404.
  pub get_transaction_by_id-Outcome :
      (id : String) (s : svc.State)
      → let (r, s') = run svc (get_transaction_by_id env id) s in
        GetOutcome env id (svc.world s) r (svc.world s')
  get_transaction_by_id-Outcome id s =
      run-Ensures svc (GetOutcome env id (svc.world s)) (get_transaction_by_id env id) s
        (get_by_id-Outcome env id (svc.world s))
