-- ===== src/Store.antt =====
-- pkg/storage/dynamodb: the methods of `Store`. The four table names of a `Store`, which its
-- constructors take from the environment, are the four fields of `Db`: they are taken to name
-- four different tables. `attributevalue` is a parameter.
pub mod Codec
pub mod Wallets
pub mod CreateTransaction
pub mod SettleTransaction
pub mod CancelTransaction
pub mod Queries
pub mod Connections
pub mod Reliable
pub mod Guarded
