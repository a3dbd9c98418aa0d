-- ===== src/Auth.antt =====
-- chain_adapter/src/app.ts: `makeVerifyDispatchAuth`, the check before every route but /health.
-- `none` is a request that may pass, and a failure is answered with a 401. SHA-256 is node's.
pub mod Bearer
use cryptokorr.Common.{
  Text, codes, text_eq, nonempty, Bool, ◌&&◌, Option, none, some, [], if◌then◌else◌,
}
use cryptokorr.Config.Assets.{before, after}

pub data AuthFailure : Type 0 where
  server_misconfigured missing_authorization invalid_authorization_scheme invalid_credentials :
      AuthFailure

unfoldable pub rest_of : Option Text → Text
rest_of none = []
rest_of (some s) = s

-- What precedes the first space, and what follows it.
unfoldable pub split_bearer : Text → Text × Text
unfolding before after rest_of
split_bearer header = (before b' ' header, rest_of (after b' ' header))

module _ (sha256 : Text → Text) where
  -- `timingSafeEqual` on the two hashes.
  unfoldable pub constant_time_equals : Text → Text → Bool
  constant_time_equals a b = text_eq (sha256 a) (sha256 b)

  unfoldable pub check_bearer : Text → Text → Text → Option AuthFailure
  unfolding constant_time_equals
  check_bearer expected_secret scheme token =
      if text_eq scheme (codes "Bearer") && nonempty token
      then if constant_time_equals token expected_secret then none else some invalid_credentials
      else some invalid_authorization_scheme

  unfoldable pub check_header : Text → Option Text → Option AuthFailure
  unfolding check_bearer split_bearer
  check_header expected_secret none = some missing_authorization
  check_header expected_secret (some header) =
      if nonempty header
      then check_bearer expected_secret (split_bearer header).0 (split_bearer header).1
      else some missing_authorization

  unfoldable pub verify_dispatch_auth : Text → Option Text → Option AuthFailure
  unfolding check_header
  verify_dispatch_auth expected_secret header =
      if nonempty expected_secret
      then check_header expected_secret header
      else some server_misconfigured
