-- ===== src/Service/Pages.antt =====
-- The lists of items and messages that a service in memory replies with.
use delayed_wallet_transacti.Prelude.{
  String, ◌≡◌, refl, inl, inr, Bool, true, false, List, [], ◌∷◌, Bool-cases, if◌then◌else◌, ◌&&◌,
  ◌==◌, Option, none, some, ap, ◌∙◌, All, eq_iff, arith,
}
use delayed_wallet_transacti.Prelude.Table.{Table, lookup}
use delayed_wallet_transacti.Prelude.Int.{ℤ}
use delayed_wallet_transacti.Models.{Status}
use delayed_wallet_transacti.Dynamo.{Db, WebSocketConnection}
use delayed_wallet_transacti.Service.{World, FromSeen, SentBody, Connected}

abbrev pub is_reserved : Status → Bool
is_reserved Status.reserved = true
is_reserved _ = false

pub is_reserved-eq : (s : Status) → is_reserved s ≡ true → s ≡ Status.reserved
is_reserved-eq Status.reserved h = refl
is_reserved-eq Status.working h = cc
is_reserved-eq Status.approved h = cc
is_reserved-eq Status.completed h = cc
is_reserved-eq Status.cancelled h = cc
is_reserved-eq (Status.other u) h = cc

-- The items of a table that match and are filed under their own key.
module _ {V : Type 0} (key : V → String) (matches : V → Bool) where
  abbrev keep : String → Option V → List V → List V
  keep k none rest = rest
  keep k (some x) rest = if (key x == k) && matches x then x ∷ rest else rest

  unfoldable pub item_page : Table V → Table V → List V
  item_page table [] = []
  item_page table ((k, _) ∷ more) = keep k (lookup k table) (item_page table more)

  module _ (Good : V → Db → Type 0) (w : World) (table : Table V)
      (good : (x : V) → lookup (key x) table ≡ some x → matches x ≡ true → Good x w.db) where
    keep-FromSeen :
        (k : String) (o : Option V) (rest : List V)
        → lookup k table ≡ o
        → FromSeen Good w rest
        → FromSeen Good w (keep k o rest)
    keep-FromSeen k none rest found h = h
    keep-FromSeen k (some x) rest found h = elim (Bool-cases ((key x == k) && matches x)) [
      | inl yes_case ↦ rw yes_case (
        (
          w.db,
          inl refl,
          good x (ap (λ i. lookup i table) ((eq_iff (key x) k).0 (ground arith)) ∙ found)
              (ground arith),
        ),
        h,
      )
      | inr no_case ↦ rw no_case h
    ]

    pub item_page-FromSeen : (more : Table V) → FromSeen Good w (item_page table more)
    unfolding item_page
    item_page-FromSeen [] = tt
    item_page-FromSeen ((k, _) ∷ more) = keep-FromSeen k _ _ refl (item_page-FromSeen more)

unfoldable pub bodies : List (String × String × ℤ) → List String
bodies [] = []
bodies ((_, b, _) ∷ rest) = b ∷ bodies rest

sent_earlier :
    (m : String × String × ℤ) (rest : List (String × String × ℤ)) (bs : List String)
    → All (λ b. SentBody b rest) bs
    → All (λ b. SentBody b (m ∷ rest)) bs
sent_earlier m rest [] h = tt
sent_earlier m rest (b ∷ bs) h = (inr h.0, sent_earlier m rest bs h.1)

pub bodies-SentBody : (sent : List (String × String × ℤ)) → All (λ b. SentBody b sent) (bodies sent)
unfolding bodies
bodies-SentBody [] = tt
bodies-SentBody ((q, b, n) ∷ rest) =
    (inl refl, sent_earlier (q, b, n) rest (bodies rest) (bodies-SentBody rest))

abbrev keep_connection :
    String → Option WebSocketConnection → List WebSocketConnection → List WebSocketConnection
keep_connection k none rest = rest
keep_connection k (some c) rest = record c { connection_id = k } ∷ rest

unfoldable pub connection_page :
    Table WebSocketConnection → Table WebSocketConnection → List WebSocketConnection
connection_page table [] = []
connection_page table ((k, _) ∷ more) =
    keep_connection k (lookup k table) (connection_page table more)

keep_connection-FromSeen :
    (k : String) (w : World) (o : Option WebSocketConnection) (rest : List WebSocketConnection)
    → lookup k w.db.connections ≡ o
    → FromSeen (λ c. Connected c.connection_id) w rest
    → FromSeen (λ c. Connected c.connection_id) w (keep_connection k o rest)
keep_connection-FromSeen k w none rest found h = h
keep_connection-FromSeen k w (some c) rest found h = ((w.db, inl refl, (c, found)), h)

pub connection_page-FromSeen :
    (w : World) (more : Table WebSocketConnection)
    → FromSeen (λ c. Connected c.connection_id) w (connection_page w.db.connections more)
unfolding connection_page
connection_page-FromSeen w [] = tt
connection_page-FromSeen w ((k, _) ∷ more) =
    keep_connection-FromSeen k w _ _ refl (connection_page-FromSeen w more)
