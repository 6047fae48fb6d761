-- ===== src/Errors.antt =====
-- pkg/storage/errors.go, and Go's error values as the store builds and inspects them: `errors.New`,
-- `fmt.Errorf` with and without `%w`, `errors.Is` and `errors.As`.
use Prim.Native.String
use delayed_wallet_transacti.Prelude.{String, Bool, true, false, List}

-- The sentinel errors of the storage package.
pub data Sentinel : Type 0 where
  insufficient_funds transaction_already_processing : Sentinel
  transaction_not_cancellable transaction_not_processable : Sentinel

-- The `Code` of one of DynamoDB's cancellation reasons.
pub data ReasonCode : Type 0 where
  no_reason conditional_check_failed : ReasonCode
  other_reason : String → ReasonCode

-- The errors of the AWS clients that the code tells apart, and all others.
pub data Fault : Type 0 where
  conditional_check_failed_exception : Fault
  transaction_canceled_exception : List ReasonCode → Fault
  gone_exception : Fault
  other_fault : String → Fault

pub data Error : Type 0 where
  sentinel : Sentinel → Error
  message : String → Error  -- `fmt.Errorf` without `%w`
  wrap : String → Error → Error  -- `fmt.Errorf("…: %w", err)`
  aws : Fault → Error

abbrev pub same_sentinel : Sentinel → Sentinel → Bool
same_sentinel insufficient_funds insufficient_funds = true
same_sentinel transaction_already_processing transaction_already_processing = true
same_sentinel transaction_not_cancellable transaction_not_cancellable = true
same_sentinel transaction_not_processable transaction_not_processable = true
same_sentinel _ _ = false

-- `errors.Is(err, target)` for a sentinel: the chain of wrapped errors is searched.
abbrev pub errors_is : Error → Sentinel → Bool
errors_is (sentinel s) t = same_sentinel s t
errors_is (message m) t = false
errors_is (wrap m e) t = errors_is e t
errors_is (aws f) t = false

-- `errors.As(err, &condCheckFailed)` on the error of a client call
abbrev pub is_condition_failure : Fault → Bool
is_condition_failure conditional_check_failed_exception = true
is_condition_failure _ = false

-- `errors.As(err, &goneErr)`
abbrev pub is_gone : Fault → Bool
is_gone gone_exception = true
is_gone _ = false

-- `errors.New` in pkg/storage/errors.go.
abbrev pub sentinel_text : Sentinel → String
sentinel_text insufficient_funds = "insufficient funds"
sentinel_text transaction_already_processing = "transaction is already being processed"
sentinel_text transaction_not_cancellable = "transaction not in a cancellable state"
sentinel_text transaction_not_processable = "transaction not in a processable state"

-- `err.Error()`, given the text of a client's error.
abbrev pub error_text : (Fault → String) → Error → String
error_text fault_text (sentinel s) = sentinel_text s
error_text fault_text (message m) = m
error_text fault_text (wrap m e) = String.◌++◌ m (String.◌++◌ ": " (error_text fault_text e))
error_text fault_text (aws f) = fault_text f
