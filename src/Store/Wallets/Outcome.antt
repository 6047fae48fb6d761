-- ===== src/Store/Wallets/Outcome.antt =====
-- All branches of CreateWallet and DeleteWallet.
use delayed_wallet_transacti.Prelude.{
  String, ◌≡◌, refl, ap, ◌⊎◌, inl, inr, true, Option, none, some, Option-cases, arith,
}
use delayed_wallet_transacti.Prelude.Int.{ℤ}
use delayed_wallet_transacti.Prelude.Table.{lookup, insert, erase}
use delayed_wallet_transacti.Models.{Wallet}
use delayed_wallet_transacti.Dynamo.{
  Db, Write, put_wallet, attribute_exists, attribute_not_exists, wallet_holds,
}
use delayed_wallet_transacti.Service.{
  World, Wrote, Service, Outcome, done, fault, WriteAnswers, time_now, write_item,
}
use delayed_wallet_transacti.Service.Faults.{write_fault_db}
use delayed_wallet_transacti.Program.{ok, err, run, pure, checked, ◌>>=◌}
use delayed_wallet_transacti.Program.Ensures.{
  Post, Ensures, sequential, run-Ensures, Ensures-perform, Ensures-require, Ensures-bind_checked,
  Ensures-checked, Ensures-pure,
}
use delayed_wallet_transacti.Program.Quiet.{Ensures-quiet}
use delayed_wallet_transacti.Store.Codec.{AttributeValue}
use delayed_wallet_transacti.Store.Wallets.{
  create_wallet, delete_wallet, create_wallet_error, delete_wallet_error,
}

-- The user had no wallet, and has the given one, but for its ttl.
pub record Opened (given : Wallet) (d e : Db) : Type 0 where
  pub ttl : ℤ
  pub unused : lookup given.user_id d.wallets ≡ none
  pub result :
      e ≡ record d { wallets = insert given.user_id (record given { ttl = ttl }) d.wallets }

-- The user had a wallet, and has none.
pub record Closed (user_id : String) (d e : Db) : Type 0 where
  pub wallet : Wallet
  pub found : lookup user_id d.wallets ≡ some wallet
  pub result : e ≡ record d { wallets = erase user_id d.wallets }

abbrev pub OpenOutcome : Wallet → Db → Post Wallet
OpenOutcome given d (ok new) v = Opened given d v.db × (new ≡ record given { ttl = new.ttl })
OpenOutcome given d (err e) v = (v.db ≡ d) ⊎ Opened given d v.db

abbrev pub CloseOutcome : String → Db → Post (Unit {0})
CloseOutcome user_id d (ok _) v = Closed user_id d v.db
CloseOutcome user_id d (err e) v = (v.db ≡ d) ⊎ Closed user_id d v.db

absent : (o : Option Wallet) → wallet_holds attribute_not_exists o ≡ true → o ≡ none
absent none h = refl
absent (some x) h = cc

put-Opened :
    (given : Wallet) (t : ℤ) (w v : World)
    → Wrote (put_wallet (record given { ttl = t }) attribute_not_exists) w v
    → Opened given w.db v.db
put-Opened given t w v h = record {
  ttl = t;
  unused = absent _ h.condition;
  result = ap (λ (x : World). x.db) h.result;
}

delete-Closed :
    (k : String) (w v : World)
    → Wrote (Write.delete_wallet k attribute_exists) w v
    → Closed k w.db v.db
delete-Closed k w v h = elim (Option-cases (lookup k w.db.wallets)) [
  | inl missing ↦ ground arith
  | inr (x, e) ↦ record { wallet = x; found = e; result = ap (λ (y : World). y.db) h.result }
]

open_outcome :
    (given : Wallet) (t : ℤ) (w : World) (r : Outcome (Unit {0})) (v : World)
    → WriteAnswers (put_wallet (record given { ttl = t }) attribute_not_exists) r w v
    → Ensures sequential
        (checked (create_wallet_error given.user_id) r >>= λ _. pure (record given { ttl = t }))
        v
        (OpenOutcome given w.db)
open_outcome given t w (done o) v a =
    Ensures-bind_checked _ _ _ v (λ _ _. Ensures-pure _ v (put-Opened given t w v a, refl))
      (λ e h. cc)
open_outcome given t w (fault e) v a =
    Ensures-bind_checked _ _ _ v (λ o h. cc)
      (λ _ _. write_fault_db _ e w v a (put-Opened given t w v))

close_outcome :
    (k : String) (w : World) (r : Outcome (Unit {0})) (v : World)
    → WriteAnswers (Write.delete_wallet k attribute_exists) r w v
    → Ensures sequential (checked (delete_wallet_error k) r) v (CloseOutcome k w.db)
close_outcome k w (done o) v a = Ensures-checked _ _ v (λ _ _. delete-Closed k w v a) (λ e h. cc)
close_outcome k w (fault e) v a =
    Ensures-checked _ _ v (λ o h. cc) (λ _ _. write_fault_db _ e w v a (delete-Closed k w v))

module _ (av : AttributeValue) where
  pub create-Outcome :
      (given : Wallet) (w : World)
      → Ensures sequential (create_wallet av given) w (OpenOutcome given w.db)
  unfolding create_wallet
  create-Outcome given w = Ensures-quiet time_now _ w tt λ now _.
      Ensures-require _ _ _ w
        (λ _. Ensures-perform (write_item _) _ w tt λ r v a. open_outcome given _ w r v a)
        (inl refl)

  pub delete-Outcome :
      (user_id : String) (w : World)
      → Ensures sequential (delete_wallet av user_id) w (CloseOutcome user_id w.db)
  unfolding delete_wallet
  delete-Outcome user_id w =
      Ensures-require _ _ _ w
        (λ _. Ensures-perform (write_item _) _ w tt λ r v a. close_outcome user_id w r v a)
        (inl refl)

module _ (svc : Service) (av : AttributeValue) where
  -- CreateWallet returns a wallet only for a user who had none: then it is stored with the given
  -- name, balance, reserved funds, version and time, and nothing else has changed. If it returns
  -- an error, the tables are unchanged or the wallet was stored all the same; a wallet that was
  -- there already is never overwritten.
  pub create_wallet-Outcome :
      (given : Wallet) (s : svc.State)
      → let (r, s') = run svc (create_wallet av given) s in
        OpenOutcome given (svc.world s).db r (svc.world s')
  create_wallet-Outcome given s =
      run-Ensures svc (OpenOutcome given (svc.world s).db) (create_wallet av given) s
        (create-Outcome av given (svc.world s))

  -- DeleteWallet succeeds only for a user who had a wallet: then that wallet is gone, and nothing
  -- else has changed. If it returns an error, the tables are unchanged or the wallet was deleted
  -- all the same.
  pub delete_wallet-Outcome :
      (user_id : String) (s : svc.State)
      → let (r, s') = run svc (delete_wallet av user_id) s in
        CloseOutcome user_id (svc.world s).db r (svc.world s')
  delete_wallet-Outcome user_id s =
      run-Ensures svc (CloseOutcome user_id (svc.world s).db) (delete_wallet av user_id) s
        (delete-Outcome av user_id (svc.world s))
