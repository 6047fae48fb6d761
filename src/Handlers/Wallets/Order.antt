-- ===== src/Handlers/Wallets/Order.antt =====
-- The order of the wallets that ListWallets answers with.
use mathlib.Core.List.{Perm}
use mathlib.Core.List.Perm
use delayed_wallet_transacti.Prelude.{
  ℕ, ◌≡◌, true, false, inl, inr, List, [], ◌∷◌, ◌≤◌, All, ltb, Bool-cases, arith,
}
use delayed_wallet_transacti.Models.{Wallet}
use delayed_wallet_transacti.Handlers.Wallets.{insert_newest, sort_newest}

-- Created no later than the instant.
abbrev By : ℕ → Wallet → Type 0
By t v = v.created_at ≤ t

-- Each wallet was created no earlier than any after it.
abbrev pub IsNewestFirst : List Wallet → Type 0
IsNewestFirst [] = Unit
IsNewestFirst (w ∷ ws) = All (By w.created_at) ws × IsNewestFirst ws

By-later : (s t : ℕ) (ws : List Wallet) → s ≤ t → All (By s) ws → All (By t) ws
By-later s t [] le h = tt
By-later s t (w ∷ ws) le h = (omega (arith, le, h.0), By-later s t ws le h.1)

insert-By :
    (t : ℕ) (w : Wallet) (ws : List Wallet)
    → By t w
    → All (By t) ws
    → All (By t) (insert_newest w ws)
insert-By t w [] b h = (b, tt)
insert-By t w (v ∷ vs) b h = elim (Bool-cases (ltb w.created_at v.created_at)) [
  | inl older ↦ rw older (h.0, insert-By t w vs b h.1)
  | inr newer ↦ rw newer (b, h)
]

older-le : (a b : ℕ) → ltb a b ≡ true → a ≤ b
older-le a b h = ground arith

newer-le : (a b : ℕ) → ltb a b ≡ false → b ≤ a
newer-le a b h = ground arith

insert-IsNewestFirst :
    (w : Wallet) (ws : List Wallet) → IsNewestFirst ws → IsNewestFirst (insert_newest w ws)
insert-IsNewestFirst w [] h = (tt, tt)
insert-IsNewestFirst w (v ∷ vs) h = elim (Bool-cases (ltb w.created_at v.created_at)) [
  | inl older ↦ rw older (insert-By _ w vs (older-le _ _ older) h.0, insert-IsNewestFirst w vs h.1)
  | inr newer ↦
      let le = newer-le w.created_at v.created_at newer in
      rw newer ((le, By-later _ _ vs le h.0), h)
]

insert-Perm : (w : Wallet) (ws : List Wallet) → Perm (insert_newest w ws) (w ∷ ws)
insert-Perm w [] = Perm.rfl
insert-Perm w (v ∷ vs) = elim (Bool-cases (ltb w.created_at v.created_at)) [
  | inl older ↦ rw older (Perm.trans (Perm.cons v (insert-Perm w vs)) (Perm.swap w v vs))
  | inr newer ↦ rw newer Perm.rfl
]

pub sort_newest-Sorts :
    (ws : List Wallet) → IsNewestFirst (sort_newest ws) × Perm (sort_newest ws) ws
sort_newest-Sorts [] = (tt, Perm.rfl)
sort_newest-Sorts (w ∷ ws) =
    let (sorted, same) = sort_newest-Sorts ws in
    (insert-IsNewestFirst w _ sorted, Perm.trans (insert-Perm w _) (Perm.cons w same))
