-- ===== src/Tests/Fixtures.antt =====
-- A concrete outside: a bundler that accepts what it is sent, and dispatches that the handlers accept.
use cryptokorr.Common.{
  ◌∷◌, ◌==◌, Text, codes, none, some, [], ◌++◌, length, true, replicate, drop, ◌+◌, ◌*◌, ◌-◌,
}
use cryptokorr.Contracts.Primitives.{Zod}
use cryptokorr.Contracts.Dispatch.{DispatchTransfer, DispatchMorphoDeposit, SwapRoute, DispatchSwap}
use cryptokorr.Contracts.Permission.{PermissionBlock}
use cryptokorr.Effect.{answered, Env, BaseClients, World}
use cryptokorr.Revoke.Guards.{HexTools}
use cryptokorr.Revoke.Cryptographic.{OperatorConfig, Sdk}
use cryptokorr.Grant.{GrantSdk, GrantConfig, GrantResult}

abbrev pub plan_id : Text
plan_id = codes "0b7e2c94-6d1a-4a53-8f0e-2f6c1d9a4b10"

abbrev pub emitted_at : Text
emitted_at = codes "2026-01-01T00:00:00.000Z"

-- Formats told apart by their length.
abbrev pub zod : Zod
zod = record { is_uuid = λ s. length s == 36; is_datetime = λ s. length s == 24 }

abbrev pub env : Env
env = record {
  zod = zod;
  date_parse = λ s. some 2000;
  encode_transfer = λ to amount. answered (codes "0xa9059cbb");
  encode_approve = λ spender amount. answered (codes "0x095ea7b3");
  encode_deposit = λ amount receiver. answered (codes "0x6e553f65");
  encode_execute = λ target value inner. answered (codes "0xb61d27f6");
  encode_execute_batch = λ targets values inner. answered (codes "0x47e1da2a");
  hash_user_op = λ chain_id entry_point op. codes "0xAB" ++ op.call_data;
  clock = λ h. emitted_at;
  clock_ms = λ h. 2000;
  get_nonce = λ h entry_point sender key. answered 7;
  estimate_fees = λ h. answered (record { max_fee_per_gas = 20; max_priority_fee_per_gas = 2 });
  estimate_gas = λ h op.
      answered
        (record { call_gas_limit = 9; verification_gas_limit = 8; pre_verification_gas = 5 });
  sign_message = λ h hash. answered (codes "0x01");
  send_user_operation = λ h op. answered (codes "0xab" ++ op.call_data);
  wait_for_receipt = λ h hash. answered (record {
    success = true;
    transaction_hash = codes "0xcd";
    block_number = 12;
    reason = none;
  });
  post_callback = λ h payload. answered (record { is_ok = true; status = 200; body = [] });
}

abbrev pub clients : BaseClients
clients = record {
  chain_id = 84532;
  smart_account_address = codes "0x5a";
  entry_point_address = codes "0x71";
}

abbrev pub world : World
world = record { callback_seq = 0; history = [] }

abbrev pub transfer : DispatchTransfer
transfer = record {
  contract_version = 1;
  action = codes "transfer";
  execution_plan_id = plan_id;
  intent_id = plan_id;
  smart_account_id = codes "acct";
  chain = codes "base";
  asset = codes "USDC";
  amount = codes "1.25";
  target_address = codes "0x9f";
  target_counterparty_id = none;
  delegation_id = codes "dlg";
  correlation_id = plan_id;
  emitted_at = emitted_at;
}

abbrev pub deposit_on : Text → DispatchMorphoDeposit
deposit_on chain = record {
  contract_version = 1;
  action = codes "morpho_deposit";
  execution_plan_id = plan_id;
  intent_id = plan_id;
  smart_account_id = codes "acct";
  chain = chain;
  asset = codes "USDC";
  amount = codes "3.5";
  vault_address = codes "0xe4";
  receiver = codes "0x5a";
  snapshot_id = none;
  snapshot_payload_hash = none;
  policy_rule_ids = [];
  delegation_id = codes "dlg";
  correlation_id = plan_id;
  emitted_at = emitted_at;
}

abbrev pub route_by : Text → SwapRoute
route_by provider = record {
  venue = codes "0x";
  path = [];
  swap_target_contract = some (codes "0xc1");
  calldata = some (codes "0xc2");
  spender = some (codes "0xc3");
  source_token_address = some (codes "0xc4");
  destination_token_address = some (codes "0xc5");
  minimum_output_amount = some (codes "2.4");
  value = some (codes "0");
  route_provider = some provider;
  deadline = some emitted_at;
}

abbrev pub swap_on : Text → Text → DispatchSwap
swap_on chain provider = record {
  contract_version = 1;
  action = codes "swap";
  execution_plan_id = plan_id;
  intent_id = plan_id;
  smart_account_id = codes "acct";
  chain = chain;
  input_asset = codes "USDC";
  output_asset = codes "weth";
  input_amount = codes "2.5";
  expected_output = codes "2.4";
  slippage_bps = 50;
  route = route_by provider;
  delegation_id = codes "dlg";
  correlation_id = plan_id;
  emitted_at = emitted_at;
}

abbrev pub usdc_address : Text
usdc_address = codes "0x36"

-- viem's functions, on texts that are hex strings.
abbrev pub hex_tools : HexTools
hex_tools = record {
  is_hex = λ s. true;
  pad_right = λ n s. s ++ replicate (2 * n + 2 - length s) b'0';
  concat_hex = λ s t. s ++ drop 2 t;
}

abbrev pub session_address : Text
session_address = codes "0x99" ++ replicate 38 b'0'

-- A ZeroDev SDK whose plugins have one pinned policy.
abbrev pub sdk : Sdk
sdk = record {
  hex = hex_tools;
  build_validator = λ h key. answered tt;
  stub_signer = λ h signer. answered (some (codes "0x6a6f069e2a08c2468e7724ab3250cdbfba14d4ff"));
  deserialize = λ h blob signer. answered (
      some (record {
        serialization_params =
            some (some (some (codes "0x67b436cad8a6d025df6c82c5bb43fbf11fc5b9b7") ∷ []));
      }));
  build_account = λ h. answered tt;
  uninstall = λ h blob. answered (codes "0xee");
  wait_for_uninstall = λ h hash. answered (record {
    success = true;
    transaction_hash = codes "0xcd";
    block_number = 12;
    reason = none;
  });
}

abbrev pub operator : OperatorConfig
operator = record {
  operator_private_key = some (codes "0x07");
  operator_address = some (codes "0x08");
}

abbrev pub block : PermissionBlock
block = record {
  blob = codes "blob";
  permission_id = codes "0x11223344";
  validation_id = codes "0x0211223344" ++ replicate 32 b'0';
  kernel_version = codes "0.3.1";
  package_version = codes "5.6.3";
  session_signer_address = some session_address;
  installed_at_block = none;
  install_tx_hash = none;
}

-- The same SDK at a grant, with keys that are their own addresses.
abbrev pub grant_sdk : GrantSdk
grant_sdk = record {
  hex = hex_tools;
  address_of_key = λ key. answered key;
  encode_call = λ to value inner. answered inner;
  build_validator = λ h key. answered tt;
  build_session_signer = λ h key. answered tt;
  build_permission = λ h. answered (codes "0x11223344");
  build_account = λ h. answered tt;
  install = λ h call_data limits. answered (codes "0xee");
  wait_for_install = λ h hash. answered (record {
    success = true;
    transaction_hash = codes "0xcd";
    block_number = 12;
    reason = none;
  });
  serialize = λ h. answered (codes "blob");
}

abbrev pub grant_config : GrantConfig
grant_config = record {
  operator = operator;
  base_chain_id = 84532;
  delegation_signer_key = session_address;
}

abbrev pub grant : GrantResult
grant = record {
  permission_id = codes "0x11223344";
  validation_id = codes "0x0211223344" ++ replicate 32 b'0';
  session_signer_address = session_address;
  install_tx_hash = codes "0xcd";
  install_block_number = 12;
  blob = codes "blob";
}
