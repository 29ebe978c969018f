-- ===== src/Message.antt =====
-- src/message.rs: the CAIP-122 message. The clock and the calendar are chrono's: a time is a value
-- of a type `T`, given with the operations that src/ calls on it.
use aqua_auth.Prelude.{[], ◌++◌, Option, none, some, Result, ok, err, ◌>>=◌, ok_or, map_err}
use aqua_auth.Prelude.Int.{ℤ}
use aqua_auth.Env.{Env}
use aqua_auth.Errors.{AuthError, crypto, unsupported_method}
use aqua_auth.Text.{Text, codes, strip_prefix}
use aqua_auth.Did.Method.{find_did_method, address_for_message, method_label, chain_id}

pub record Chrono (T : Type 0) : Type 0 where
  -- `t + Duration::seconds(n)`
  pub plus_seconds : T → ℤ → T
  -- `t.timestamp()`
  pub timestamp : T → ℤ
  -- `t.format("%Y-%m-%dT%H:%M:%S%.3fZ")`
  pub format : T → Text

pub record MessageParams (T : Type 0) : Type 0 where
  pub did : Text
  pub domain : Text
  pub uri : Text
  pub nonce : Text
  pub issued_at : T
  pub expiration_time : T

-- the `Chain ID` line, if `method.chain_id` gives a chain of the namespace `eip155`
unfoldable pub chain_line : {E : Type 0} → Result E (Option Text) → Text
chain_line (err e) = []
chain_line (ok none) = []
chain_line (ok (some chain)) = elim (strip_prefix (codes "eip155:") chain) [
  | none ↦ []
  | some id ↦ codes "\nChain ID: " ++ id
]

unfoldable pub message_text : {T : Type 0} → Chrono T → MessageParams T → Text → Text → Text → Text
message_text chrono params method_label identifier chain =
    params.domain
    ++ (codes " wants you to sign in with your "
        ++ (method_label
            ++ (codes " account:\n"
                ++ (identifier
                    ++ (codes "\n\nSign in to Aqua Node\n\nURI: "
                        ++ (params.uri
                            ++ (codes "\nVersion: 1\nNonce: "
                                ++ (params.nonce
                                    ++ (codes "\nIssued At: "
                                        ++ (chrono.format params.issued_at
                                            ++ (codes "\nExpiration Time: "
                                                ++ (chrono.format params.expiration_time
                                                    ++ chain))))))))))))

unfoldable pub build_message :
    {T : Type 0} → Env → Chrono T → MessageParams T → Result AuthError Text
build_message env chrono params = do
  method ← ok_or (find_did_method env params.did) (crypto (unsupported_method params.did))
  identifier ← map_err crypto (address_for_message env method params.did)
  label ← map_err crypto (method_label env method params.did)
  ok (message_text chrono params label identifier (chain_line (chain_id env method params.did)))
