-- ===== src/Service/Reliable.antt =====
-- A service that does not fail for a while: fresh reads, writes that go through where their
-- conditions hold, messages that are sent, and UUIDs that are known beforehand.
use delayed_wallet_transacti.Prelude.{String, ◌≡◌, true, List, ◌∷◌}
use delayed_wallet_transacti.Prelude.Table.{lookup}
use delayed_wallet_transacti.Dynamo.{holds, all_hold, distinct_items}
use delayed_wallet_transacti.Service.{
  World, Call, Reply, done, Service, new_uuid, get_wallet_item, get_transaction_item, write_item,
  transact_write_items, send_message,
}

-- The reply when nothing is in the way.
abbrev pub Prompt : (c : Call) → Reply c → World → Type 0
Prompt (get_wallet_item k) r w = r ≡ done (lookup k w.db.wallets)
Prompt (get_transaction_item k) r w = r ≡ done (lookup k w.db.transactions)
Prompt (write_item x) r w = holds x w.db ≡ true → r ≡ done tt
Prompt (transact_write_items xs) r w =
    distinct_items xs ≡ true → all_hold xs w.db ≡ true → r ≡ done tt
Prompt (send_message _ _ _) r w = r ≡ done tt
Prompt _ r w = Unit

abbrev pub IsNotUuid : Call → Type 0
IsNotUuid new_uuid = ⊥
IsNotUuid _ = Unit

-- `Ready ids s`: the service answers promptly from `s` on, and the next UUIDs are `ids`.
pub record Reliable (svc : Service) : Type 1 where
  pub Ready : List String → svc.State → Type 0
  pub prompt :
      (ids : List String) (c : Call) (s : svc.State)
      → Ready ids s
      → Prompt c (svc.perform c s).0 (svc.world s)
  pub stays :
      (ids : List String) (c : Call) (s : svc.State)
      → IsNotUuid c
      → Ready ids s
      → Ready ids (svc.perform c s).1
  pub issues :
      (id : String) (ids : List String) (s : svc.State)
      → Ready (id ∷ ids) s
      → ((svc.perform new_uuid s).0 ≡ id) × Ready ids (svc.perform new_uuid s).1
