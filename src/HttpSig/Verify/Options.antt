-- ===== src/HttpSig/Verify/Options.antt =====
-- The options of a verification (src/http_sig/verify.rs) and the parts of a request
-- (src/http_sig/mod.rs), as their callers build them.
use aqua_auth.Prelude.{ℕ, none, some}
use aqua_auth.Text.{Text, codes}
use aqua_auth.HttpSig.Base.{RequestParts}
use aqua_auth.HttpSig.Replay.{NonceReplayGuard}
use aqua_auth.HttpSig.Verify.{VerifyOptions}

abbrev pub tag_aqua_internal : Text
tag_aqua_internal = codes "aqua-auth"

abbrev pub tag_web_bot_auth : Text
tag_web_bot_auth = codes "web-bot-auth"

-- seconds
abbrev pub default_clock_skew : ℕ
default_clock_skew = 60

-- `VerifyOptions::new`
abbrev pub options_for : Text → VerifyOptions
options_for expected_tag = record {
  expected_tag = expected_tag;
  clock_skew = default_clock_skew;
  replay_guard = none;
}

abbrev pub aqua_internal : VerifyOptions
aqua_internal = options_for tag_aqua_internal

abbrev pub web_bot_auth : VerifyOptions
web_bot_auth = options_for tag_web_bot_auth

abbrev pub with_replay_guard : VerifyOptions → NonceReplayGuard → VerifyOptions
with_replay_guard opts guard = record opts { replay_guard = some guard }

abbrev pub with_clock_skew : VerifyOptions → ℕ → VerifyOptions
with_clock_skew opts skew = record opts { clock_skew = skew }

-- `RequestParts::new`
abbrev pub parts_of : Text → Text → RequestParts
parts_of method target_uri = record {
  method = method;
  target_uri = target_uri;
  signature_agent = none;
}

abbrev pub with_signature_agent : RequestParts → Text → RequestParts
with_signature_agent parts value = record parts { signature_agent = some value }
