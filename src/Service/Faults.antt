-- ===== src/Service/Faults.antt =====
-- What a write or a transaction that ended in a fault may have done: nothing, or all of it.
use delayed_wallet_transacti.Prelude.{◌≡◌, ap, ◌⊎◌, inl, inr, List}
use delayed_wallet_transacti.Errors.{
  Fault, conditional_check_failed_exception, transaction_canceled_exception, gone_exception,
  other_fault,
}
use delayed_wallet_transacti.Dynamo.{Write}
use delayed_wallet_transacti.Service.{
  World, Wrote, WriteAnswers, Transacted, TransactAnswers, fault,
}

pub transact_fault :
    (xs : List Write) (e : Fault) (w w' : World)
    → TransactAnswers xs (fault e) w w'
    → (w' ≡ w) ⊎ Transacted xs w w'
transact_fault xs conditional_check_failed_exception w w' a = a
transact_fault xs (transaction_canceled_exception codes) w w' a = inl a.1
transact_fault xs gone_exception w w' a = a
transact_fault xs (other_fault m) w w' a = a

pub write_fault :
    (x : Write) (e : Fault) (w w' : World) → WriteAnswers x (fault e) w w' → (w' ≡ w) ⊎ Wrote x w w'
write_fault x conditional_check_failed_exception w w' a = inl a.1
write_fault x (transaction_canceled_exception codes) w w' a = a
write_fault x gone_exception w w' a = a
write_fault x (other_fault m) w w' a = a

-- The same of the tables, with what the caller makes of a transaction that went through.
pub transact_fault_db :
    (xs : List Write) (e : Fault) (w w' : World)
    → TransactAnswers xs (fault e) w w'
    → {P : Type 0} → (Transacted xs w w' → P)
    → (w'.db ≡ w.db) ⊎ P
transact_fault_db xs e w w' a {P} f = go (transact_fault xs e w w' a)
  where
    go : (w' ≡ w) ⊎ Transacted xs w w' → (w'.db ≡ w.db) ⊎ P
    go (inl same) = inl (ap (λ (u : World). u.db) same)
    go (inr t) = inr (f t)

pub write_fault_db :
    (x : Write) (e : Fault) (w w' : World)
    → WriteAnswers x (fault e) w w'
    → {P : Type 0} → (Wrote x w w' → P)
    → (w'.db ≡ w.db) ⊎ P
write_fault_db x e w w' a {P} f = go (write_fault x e w w' a)
  where
    go : (w' ≡ w) ⊎ Wrote x w w' → (w'.db ≡ w.db) ⊎ P
    go (inl same) = inl (ap (λ (u : World). u.db) same)
    go (inr t) = inr (f t)
