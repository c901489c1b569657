-- ===== src/Security.antt =====
-- Who may call: security/auth.py and security/policies.py. `JwtUser.from_token` and the policy engine
-- are of the celine.sdk package, and are parameters. An answer of the middleware or of a dependency
-- other than the handler's is an `http_error` here, whether the code returns or raises it.
pub mod Policies
pub mod Auth
pub mod Laws
mod Tests
