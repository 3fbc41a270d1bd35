-- ===== src/Provider/Rpc.antt =====
-- crates/provider/src/rpc.rs: `RpcProvider`. The node's answers are parameters.
use Prim.Native.String.{String, ◌++◌}
use argus_core.Base.{ℕ, List, [], map, Option, none, some}
use argus_core.Provider.{DataProvider}
use argus_core.Types.{
  Address, B256, U256, Transaction, ArgusResult, ok, err, ArgusError, invalid_input, provider,
  ◌>>=◌,
}

-- A reply of the node, or the text of the error.
pub data Reply {ℓ} (A : Type ℓ) : Type ℓ where
  reply : A → Reply A
  failure : String → Reply A

-- `.map_err(|e| ArgusError::Provider(format!(..)))`
abbrev pub map_err {ℓ} : {A : Type ℓ} → (String → String) → Reply A → ArgusResult A
map_err f (reply a) = ok a
map_err f (failure e) = err (provider (f e))

-- `.ok_or_else(..)`
abbrev pub ok_or {ℓ} : {A : Type ℓ} → ArgusError → Option A → ArgusResult A
ok_or e (some a) = ok a
ok_or e none = err e

-- A transaction of a block as alloy presents it.
pub record RpcTransaction : Type 0 where
  pub tx_hash : B256
  pub signer : Address
  pub to : Option Address
  pub input : List ℕ
  pub value : U256
  pub gas_limit : ℕ

pub record RpcProvider (P : Type 0) : Type 0 where
  pub provider : P
  pub rpc_url : String

-- `connect`: `dial` is the connection attempt of alloy.
unfoldable pub connect : {P : Type 0} → (String → Reply P) → String → ArgusResult (RpcProvider P)
connect dial String.[] = err (invalid_input "RPC URL must not be empty")
connect dial rpc_url = do
  p ← map_err (λ e. "Failed to connect to " ++ (rpc_url ++ (": " ++ e))) (dial rpc_url)
  ok (record { provider = p; rpc_url = rpc_url })

unfoldable pub to_transaction : RpcTransaction → Transaction
to_transaction tx = record {
  hash = tx.tx_hash;
  from = tx.signer;
  to = tx.to;
  input = tx.input;
  value = tx.value;
  gas = tx.gas_limit;
}

-- `get_block_transactions`: `show` prints the block number, `block` is the node's answer.
unfoldable pub get_block_transactions :
    (ℕ → String) → ℕ → Reply (Option (List RpcTransaction)) → ArgusResult (List Transaction)
unfolding to_transaction
get_block_transactions show block_number block = do
  found ← map_err (λ e. "Failed to fetch block " ++ (show block_number ++ (": " ++ e))) block
  txs ← ok_or (provider ("Block " ++ (show block_number ++ " not found"))) found
  ok (map to_transaction txs)

unfoldable pub get_pending_transactions : ArgusResult (List Transaction)
get_pending_transactions = ok []

-- `impl DataProvider for RpcProvider`, with the node's answers as `block_at`.
abbrev pub data_provider :
    {P : Type 0}
    → (ℕ → String)
    → (P → ℕ → Reply (Option (List RpcTransaction)))
    → RpcProvider P
    → DataProvider
data_provider show block_at rpc = record {
  get_block_transactions = λ n. get_block_transactions show n (block_at rpc.provider n);
  get_pending_transactions = get_pending_transactions;
}

-- `into_provider`
abbrev pub into_provider : {P : Type 0} → RpcProvider P → P
into_provider rpc = rpc.provider
