-- ===== src/Session/InMemory.antt =====
-- `InMemoryBackend` of src/session_backend.rs, over a `DashMap` from tokens to sessions.
pub mod Laws
use aqua_auth.Prelude.{
  ℕ, ◌-◌, Bool, true, false, List, [], ◌∷◌, map, Option, none, some, Result, ok, err, if◌then◌else◌,
  ltb, length, keep,
}
use aqua_auth.Errors.{AuthError}
use aqua_auth.Text.{Text, text_eq}
use aqua_auth.Table
use aqua_auth.Table.{Table, values}
use aqua_auth.Session.Backend.{Session, SessionBackend}

unfoldable pub insert : Session → Table Session → Table Session × Result AuthError (Unit {0})
insert s t = (Table.insert s.token s t, ok tt)

unfoldable pub remove : Text → Table Session → Table Session × Bool
remove token t = elim (Table.get token t) [
  | none ↦ (t, false)
  | some s ↦ (Table.remove token t, true)
]

unfoldable pub entries_for_did : Text → Table Session → Table Session
entries_for_did did = keep (λ e. text_eq e.1.did did)

unfoldable pub sessions_for_did : Text → Table Session → List Session
unfolding entries_for_did
sessions_for_did did t = values (entries_for_did did t)

-- the loop `for token in tokens { remove }`
unfoldable pub remove_each : List Text → Table Session → Table Session
remove_each [] t = t
remove_each (token ∷ tokens) t = remove_each tokens (Table.remove token t)

unfoldable pub remove_all_for_did : Text → Table Session → Table Session × ℕ
unfolding entries_for_did remove_each
remove_all_for_did did t =
    let tokens = map (λ (e : Text × Session). e.0) (entries_for_did did t) in
    (remove_each tokens t, length tokens)

unfoldable pub purge_expired : ℕ → Table Session → Table Session × ℕ
purge_expired now t =
    let t' = Table.retain (λ s. ltb now s.valid_until) t in (t', length t - length t')

abbrev pub in_memory : SessionBackend (Table Session)
in_memory = record {
  insert = insert;
  get = Table.get;
  remove = remove;
  sessions_for_did = sessions_for_did;
  remove_all_for_did = remove_all_for_did;
  purge_expired = purge_expired;
  all = values;
  len = length;
}
