-- ===== src/Handlers/Wallets.antt =====
-- pkg/handlers/wallets/wallets.go.
pub mod Order
pub mod Answers
use Prim.Native.String
use delayed_wallet_transacti.Prelude.{String, Bool, List, [], ◌∷◌, map, leb, ltb, if◌then◌else◌}
use delayed_wallet_transacti.Models.{Wallet}
use delayed_wallet_transacti.Errors.{error_text}
use delayed_wallet_transacti.Service.{time_now}
use delayed_wallet_transacti.Program.{Result, ok, err, Program, pure, perform, attempt, ◌>>=◌}
use delayed_wallet_transacti.Api.{NewWallet, Response, wallet, wallets, Environment}
use delayed_wallet_transacti.Api.Mapping.{to_api_wallet, to_domain_new_wallet}
use delayed_wallet_transacti.Store.Wallets.{create_wallet, delete_wallet, get_wallet, list_wallets}
use delayed_wallet_transacti.Handlers.{http_error, status_only, failed, respond_json}

-- `strings.Contains`
abbrev pub contains : String → String → Bool
contains s part = leb (String.find s part) (String.len s)

-- `sort.Slice` with `CreatedAt.After`: newest first. Go leaves the order of wallets of the same
-- instant open; here they keep theirs.
abbrev pub insert_newest : Wallet → List Wallet → List Wallet
insert_newest w [] = w ∷ []
insert_newest w (v ∷ vs) =
    let rest = insert_newest w vs in if ltb w.created_at v.created_at then v ∷ rest else w ∷ v ∷ vs

abbrev pub sort_newest : List Wallet → List Wallet
sort_newest [] = []
sort_newest (w ∷ ws) = insert_newest w (sort_newest ws)

module _ (env : Environment) where
  abbrev pub create_response : Result Wallet → Response
  create_response (ok created) = respond_json env 201 (wallet (to_api_wallet created))
  create_response (err e) =
      if contains (error_text env.fault_text e) "wallet already exists"
      then http_error "Wallet for this user already exists" 409
      else http_error (failed env "Failed to create wallet" e) 500

  unfoldable pub create_decoded : Result NewWallet → Program Response
  create_decoded (err e) = pure (http_error (failed env "Invalid request body" e) 400)
  create_decoded (ok new_wallet) = do
    now ← perform time_now
    created ← attempt (
        create_wallet env.attribute_value
          (record (to_domain_new_wallet new_wallet) { created_at = now }))
    pure (create_response created)

  unfoldable pub create_wallet_request : (body : String) → Program Response
  create_wallet_request body = create_decoded (env.json.decode_new_wallet body)

  abbrev pub delete_response : Result (Unit {0}) → Response
  delete_response (ok _) = status_only 204
  delete_response (err e) = http_error (failed env "Failed to delete wallet" e) 404

  unfoldable pub delete_wallet_request : String → Program Response
  delete_wallet_request user_id = do
    deleted ← attempt (delete_wallet env.attribute_value user_id)
    pure (delete_response deleted)

  abbrev pub wallets_response : Result (List Wallet) → Response
  wallets_response (ok ws) = respond_json env 200 (wallets (map to_api_wallet (sort_newest ws)))
  wallets_response (err e) = http_error (failed env "Failed to retrieve wallets" e) 500

  unfoldable pub list_wallets_request : Program Response
  list_wallets_request = do
    found ← attempt (list_wallets env.attribute_value)
    pure (wallets_response found)

  abbrev pub wallet_response : Result Wallet → Response
  wallet_response (ok found) = respond_json env 200 (wallet (to_api_wallet found))
  wallet_response (err e) = http_error (failed env "Failed to retrieve wallet" e) 404

  unfoldable pub get_wallet_by_user_id : String → Program Response
  get_wallet_by_user_id user_id = do
    found ← attempt (get_wallet env.attribute_value user_id)
    pure (wallet_response found)
