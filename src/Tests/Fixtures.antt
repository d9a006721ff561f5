-- ===== src/Tests/Fixtures.antt =====
-- Concrete stand-ins for the libraries and the node.
use charon.Logs.{Log, TransactionReceipt}
use charon.Prelude.{ℕ, ◌⊎◌, inl, inr, [], ◌∷◌, ◌++◌, Text, codes, text_eq, if◌then◌else◌, pos}
use charon.Hex.Digits.{digit}
use charon.Rpc.{HexUtil, Node}

-- One digit is enough here.
abbrev pub decode_one : Text → Text ⊎ ℕ
decode_one s = if text_eq s (codes "0x1") then inr 1 else inl (codes "invalid hex string")

abbrev pub hex_util : HexUtil
hex_util = record {
  encode_uint64 = λ n. codes "0x" ++ (digit n ∷ []);
  decode_uint64 = decode_one;
  decode_big = decode_one;
}

-- The hash of a block, here two digits.
abbrev pub chain : ℕ → Text
chain n = b'a' ∷ digit n ∷ []

abbrev pub node_at : ℕ → Node
node_at count = record {
  get_block_count = inr (pos count);
  get_block_chain_info = inr (pos count);
  get_block_hash = λ n. inr (chain n);
  search_logs = λ req. inr [];
  chain = codes "regtest";
}

abbrev pub transfer : Log
transfer = record {
  address = codes "aA01";
  topics = codes "ddf2" ∷ codes "01" ∷ [];
  data_hex = [];
  index = 0;
}

abbrev approval : Log
approval = record {
  address = codes "aA01";
  topics = codes "8c5b" ∷ codes "01" ∷ [];
  data_hex = [];
  index = 0;
}

abbrev pub receipt : TransactionReceipt
receipt = record {
  block_hash = codes "b1";
  block_number = 7;
  transaction_hash = codes "c1";
  transaction_index = 0;
  from = codes "f0";
  to = codes "f1";
  cumulative_gas_used = 0;
  gas_used = 0;
  contract_address = codes "aA01";
  excepted = codes "None";
  logs = approval ∷ transfer ∷ transfer ∷ [];
}
