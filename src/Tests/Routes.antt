-- ===== src/Tests/Routes.antt =====
-- chain_adapter/src/app.ts and install/session_signer.ts: requests with and without the secret.
use cryptokorr.Common.{Text, codes, text_eq, replicate, ◌≡◌, ◌↔◌, refl, none, some, [], ◌++◌}
use cryptokorr.Effect.{answered, failed, ok}
use cryptokorr.Auth.{verify_dispatch_auth}
use cryptokorr.App.{AppDeps, AppState, transfer, serve, handle_request}
use cryptokorr.App.Authorized.{serve-unauthorized}
use cryptokorr.App.Answers.{transfer_request, internal_error, IsTransferAnswer, serve-transfer}
use cryptokorr.Install.{SessionAccounts, SignInstallResult, sign_install_session_portion}
use cryptokorr.Install.Portion.{Signs, sign_install_session_portion_iff}
use cryptokorr.Tests.Fixtures
use cryptokorr.Tests.Fixtures.{env, clients, world, usdc_address, session_address}

abbrev accounts : SessionAccounts
accounts = record {
  address_of = λ key. answered session_address;
  sign_message = λ key hash. answered (codes "0x01");
}

abbrev hex_32 : Text
hex_32 = codes "0x" ++ replicate 64 b'7'

abbrev deps : AppDeps
deps = record {
  env = env;
  clients = clients;
  accounts = accounts;
  sha256 = λ s. s;
  dispatch_auth_secret = codes "s3cret";
  delegation_signer_key = hex_32;
  usdc_contract_address = usdc_address;
  contract_version = 1;
}

abbrev state : AppState
state = record {
  world = world;
  revokes = record { in_flight = []; running = [] };
  grants = record { in_flight = []; running = [] };
}

serve-unauthorized_example :
    ((serve deps none (transfer (some Fixtures.transfer)) state).0.status ≡ 401)
    × ((serve deps none (transfer (some Fixtures.transfer)) state).1 ≡ state)
serve-unauthorized_example =
    serve-unauthorized deps (λ s e. e) none (transfer (some Fixtures.transfer)) state (λ e. cc)
      (λ e. cc)

presented : verify_dispatch_auth (λ s. s) (codes "s3cret") (some (codes "Bearer s3cret")) ≡ none
unfolding verify_dispatch_auth text_eq
presented = refl

serve-transfer_example : IsTransferAnswer (answered (some Fixtures.transfer)) state (
    handle_request deps
      (some (codes "Bearer s3cret"))
      (transfer_request (answered (some Fixtures.transfer)))
      state)
serve-transfer_example =
    serve-transfer deps (some (codes "Bearer s3cret")) (answered (some Fixtures.transfer)) state
      presented

malformed_body :
    (handle_request deps none (failed (codes "Unexpected end of JSON input")) state).0
    ≡ internal_error
unfolding handle_request
malformed_body = refl

abbrev signature : SignInstallResult
signature = record { signature = codes "0x01"; session_signer_address = session_address }

sign_install_session_portion_iff_example :
    (sign_install_session_portion accounts hex_32 hex_32 (some session_address) world
      ≡ (ok signature, world))
    ↔ Signs accounts hex_32 hex_32 (some session_address) signature
sign_install_session_portion_iff_example =
    sign_install_session_portion_iff accounts hex_32 hex_32 (some session_address) signature world
