-- ===== src/Store/Queries/Reads.antt =====
-- What the methods that list items ensure, by the reply to their query: they change nothing, and
-- every item that they return stood in its table and matches.
use delayed_wallet_transacti.Prelude.{String, ◌≡◌, Bool, false, some, List}
use delayed_wallet_transacti.Prelude.Table.{lookup}
use delayed_wallet_transacti.Models.{Transaction, Wallet, LedgerEntry}
use delayed_wallet_transacti.Errors.{Error, Fault}
use delayed_wallet_transacti.Dynamo.{Db}
use delayed_wallet_transacti.Service.{World, FromSeen, Outcome, done, fault, InIndex}
use delayed_wallet_transacti.Program.{ok, err, pure, checked, require, ◌>>=◌}
use delayed_wallet_transacti.Program.Ensures.{
  Post, Ensures, sequential, Ensures-pure, Ensures-guard, Ensures-bind_checked,
}

module _ {A : Type 0} (Good : A → Db → Type 0) (readable : List A → Bool) (w : World) where
  -- The reply of a query brings good items and leaves the world as it is.
  abbrev pub Listed : Outcome (List A) → World → Type 0
  Listed (done xs) v = FromSeen Good w xs × (v ≡ w)
  Listed (fault e) v = v ≡ w

  -- A reply that the method cannot use: an error, or items that it cannot read.
  abbrev pub Unread : Outcome (List A) → Type 0
  Unread (done xs) = readable xs ≡ false
  Unread (fault e) = Unit

  -- The method returns just the items of the reply, or it cannot use it.
  abbrev pub Page : Outcome (List A) → Post (List A)
  Page reply (ok xs) v = (v ≡ w) × (reply ≡ done xs) × FromSeen Good w xs
  Page reply (err e) v = (v ≡ w) × Unread reply

  Listed-same : (r : Outcome (List A)) (v : World) → Listed r v → v ≡ w
  Listed-same (done xs) v (good, same) = same
  Listed-same (fault e) v same = same

  Listed-Page :
      (r : Outcome (List A)) (xs : List A) (v : World) → Listed r v → r ≡ done xs → Page r (ok xs) v
  Listed-Page r xs v h e = page (rw e at h)
    where
      page : Listed (done xs) v → Page r (ok xs) v
      page (good, same) = (same, e, good)

  fault-Unread : (r : Outcome (List A)) (f : Fault) → r ≡ fault f → Unread r
  fault-Unread r f e = rw e tt

  done-Unread : (r : Outcome (List A)) (xs : List A) → r ≡ done xs → readable xs ≡ false → Unread r
  done-Unread r xs e h = rw e h

  -- The reply is checked and read.
  pub reads_page :
      (g : Fault → Error) (e : Error) (r : Outcome (List A)) (v : World)
      → Listed r v
      → Ensures sequential
          (checked g r >>= λ items. require (readable items) e >>= λ _. pure items)
          v
          (Page r)
  reads_page g e r v h =
      Ensures-bind_checked _ _ r v
        (λ xs done_eq.
          Ensures-guard _ (readable xs) _ v (λ _. Ensures-pure xs v (Listed-Page r xs v h done_eq))
            (λ no_case. (Listed-same r v h, done-Unread r xs done_eq no_case)))
        (λ f fault_eq. (Listed-same r v h, fault-Unread r f fault_eq))

abbrev pub FromUser : String → Transaction → Db → Type 0
FromUser k = InIndex (λ y. y.from_user_id ≡ k)

abbrev pub StoredWallet : Wallet → Db → Type 0
StoredWallet x d = lookup x.user_id d.wallets ≡ some x

abbrev pub StoredEntry : LedgerEntry → Db → Type 0
StoredEntry x d = lookup x.entry_id d.ledger ≡ some x
