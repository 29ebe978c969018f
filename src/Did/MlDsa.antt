-- ===== src/Did/MlDsa.antt =====
-- src/aqua/ml_dsa.rs: the gate on the hint encoding of an ML-DSA-87 signature, and `verify`.
pub mod Hints
use aqua_auth.Prelude.{
  ℕ, zero, suc, ◌+◌, ◌-◌, Bool, true, false, not, ◌&&◌, List, [], ◌∷◌, Option, none, some, Result,
  ok, err, ◌>>=◌, ◌>>◌, ok_or, guard, map_err, if◌then◌else◌, ◌==◌, ltb, leb, length, take, drop,
  any, all,
}
use aqua_auth.Env.{Env}
use aqua_auth.Errors.{CryptoError, SignatureFault, HintDefect, invalid_signature}
use aqua_auth.Text.{Text, Bytes}

abbrev pub signature_bytes : ℕ
signature_bytes = 4627

abbrev pub public_key_bytes : ℕ
public_key_bytes = 2592

abbrev pub omega_count : ℕ
omega_count = 75

abbrev pub hint_offset : ℕ
hint_offset = signature_bytes - (omega_count + 8)

-- Gates 1 and 2: the loop over the cuts, with `running`; the result is the last cut.
unfoldable pub walk_cuts : ℕ → Bytes → Result HintDefect ℕ
walk_cuts running [] = ok running
walk_cuts running (cut ∷ cuts) =
    let rest = walk_cuts cut cuts in
    if ltb cut running
    then err HintDefect.cumulative_count_not_monotone
    else if ltb omega_count cut
    then err HintDefect.cumulative_count_above_omega
    else rest

-- `!window.windows(2).any(|w| w[0] >= w[1])`
unfoldable pub is_increasing : Bytes → Bool
is_increasing [] = true
is_increasing (a ∷ []) = true
is_increasing (a ∷ b ∷ s) = ltb a b && is_increasing (b ∷ s)

-- Gate 4: the loop over the cuts, with `start`. `indices[start..end]` panics unless
-- `start <= end <= indices.len()`; a panic is `none`.
unfoldable pub walk_windows : Bytes → ℕ → Bytes → Option (Result HintDefect (Unit {0}))
walk_windows indices start [] = some (ok tt)
walk_windows indices start (end ∷ cuts) =
    let rest = walk_windows indices end cuts in
    if leb start end && leb end (length indices)
    then (if is_increasing (take (end - start) (drop start indices))
        then rest
        else some (err HintDefect.indices_not_strictly_increasing))
    else none

-- Gate 3: `indices[max_cut..]` panics past the end.
unfoldable pub unused_are_zero : Bytes → ℕ → Option Bool
unused_are_zero indices max_cut =
    if leb max_cut (length indices)
    then some (not (any (λ b. not (b == 0)) (drop max_cut indices)))
    else none

-- the gates over the index bytes and the cuts
unfoldable pub check_hint : Bytes → Bytes → Option (Result HintDefect (Unit {0}))
check_hint indices cuts = elim (walk_cuts 0 cuts) [
  | err d ↦ some (err d)
  | ok max_cut ↦ elim (unused_are_zero indices max_cut) [
    | none ↦ none
    | some false ↦ some (err HintDefect.unused_hint_byte_non_zero)
    | some true ↦ walk_windows indices 0 cuts
  ]
]

unfoldable pub hint_encoding_is_canonical : Bytes → Option (Result HintDefect (Unit {0}))
hint_encoding_is_canonical sig =
    let hint = drop hint_offset sig in check_hint (take omega_count hint) (drop omega_count hint)

-- The gate as `verify` calls it. `none`, a panic of the gate, is unreachable: see MlDsa/Hints.
unfoldable pub gated : Bytes → Result CryptoError (Unit {0})
gated sig = elim (hint_encoding_is_canonical sig) [
  | none ↦ err (invalid_signature SignatureFault.malformed)
  | some (ok u) ↦ ok tt
  | some (err d) ↦ err (invalid_signature (SignatureFault.hint_encoding d))
]

module _ (env : Env) where
  unfoldable pub verify : Bytes → Bytes → Bytes → Result CryptoError Bool
  verify public_key signature message = do
    guard (length public_key == public_key_bytes)
        (invalid_signature (SignatureFault.public_key_length public_key_bytes (length public_key)))
    guard (length signature == signature_bytes)
        (invalid_signature (SignatureFault.signature_length signature_bytes (length signature)))
    gated signature
    elim (env.ml_dsa_signature signature) [
      | none ↦ ok false
      | some decoded ↦ ok (env.ml_dsa_verify public_key message decoded)
    ]
