-- ===== src/HttpSig/Replay.antt =====
-- src/http_sig/replay.rs: the guard that remembers the nonces of accepted signatures, each with the
-- `expires` of its signature. Calls are taken one at a time.
pub mod Once
use aqua_auth.Prelude.{
  ℕ, ◌+◌, max, ◌≡◌, Bool, true, false, List, [], ◌∷◌, Option, none, some, Result, ok, err, arith,
  if◌then◌else◌,
}
use aqua_auth.Prelude.Int.{ℤ, pos_part, neg_part, leb_ℤ, ltb_ℤ}
use aqua_auth.Text.{Text}
use aqua_auth.Table.{Table, contains_key, insert, retain, len}
use aqua_auth.Table.Minimum.{Rank}
use aqua_auth.Table.Bounded.{remove_min, make_room}
use aqua_auth.HttpSig.Errors.{HttpSigError, nonce_replayed}

abbrev pub max_seen_nonces : ℕ
max_seen_nonces = 8192

pub record NonceReplayGuard : Type 0 where
  pub seen : Table ℤ
  pub capacity : ℕ

-- `capacity.max(1)`
unfoldable pub with_capacity : ℕ → NonceReplayGuard
with_capacity capacity = record { seen = []; capacity = max capacity 1 }

pub leb_ℤ_total : (a b : ℤ) → leb_ℤ a b ≡ false → leb_ℤ b a ≡ true
leb_ℤ_total a b h = ground arith

pub leb_ℤ_trans : (a b c : ℤ) → leb_ℤ a b ≡ true → leb_ℤ b c ≡ true → leb_ℤ a c ≡ true
leb_ℤ_trans a b c h k = ground arith

abbrev pub by_expires : Rank ℤ
by_expires = record { le = leb_ℤ; le_total = leb_ℤ_total; le_trans = leb_ℤ_trans }

-- `cleanup_expired_at`
unfoldable pub cleanup_expired_at : ℤ → Table ℤ → Table ℤ
cleanup_expired_at now = retain (λ expires_at. ltb_ℤ now expires_at)

unfoldable pub evict_soonest_expiring : Table ℤ → Table ℤ
evict_soonest_expiring = remove_min by_expires

-- the part of `check_and_record_at` that makes room
unfoldable pub room_for_one : ℕ → ℤ → Table ℤ → Table ℤ
room_for_one capacity now = make_room by_expires (λ expires_at. ltb_ℤ now expires_at) capacity

-- the `entry` at the end: occupied, or vacant and filled
unfoldable pub record_vacant :
    Text → ℤ → NonceReplayGuard → NonceReplayGuard × Result HttpSigError (Unit {0})
record_vacant nonce expires_at g =
    if contains_key nonce g.seen
    then (g, err nonce_replayed)
    else (record g { seen = insert nonce expires_at g.seen }, ok tt)

unfoldable pub check_and_record_at :
    NonceReplayGuard → Text → ℤ → ℤ → NonceReplayGuard × Result HttpSigError (Unit {0})
unfolding record_vacant
check_and_record_at g nonce expires_at now =
    if contains_key nonce g.seen
    then (g, err nonce_replayed)
    else record_vacant nonce expires_at (record g { seen = room_for_one g.capacity now g.seen })
