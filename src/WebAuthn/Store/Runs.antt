-- ===== src/WebAuthn/Store/Runs.antt =====
-- Runs of calls of the credential store of src/webauthn_store.rs.
use aqua_auth.Prelude.{
  ℕ, ◌≤◌, ◌≡◌, ◌≢◌, refl, sym, ap, ◌∙◌, List, [], ◌∷◌, Option, some, arith, Bool-cases,
  Option-cases, All, ltb, inl, inr,
}
use mathlib.Core.Path.{subst}
use aqua_auth.Text.{Text, Bytes, text_eq}
use aqua_auth.Text.Laws.{text_eq→eq, ne→text_eq}
use aqua_auth.Table
use aqua_auth.Table.{Table}
use aqua_auth.Table.Laws.{get-remove, get-insert}
use aqua_auth.WebAuthn.Store.{
  StoredCredential, NewCredential, InMemoryWebauthnStore, stored, bump, insert, update_sign_count,
  delete,
}

-- The calls that write: `insert` at a time, `update_sign_count` and `delete`.
pub data Call : Type 0 where
  inserts : NewCredential → ℕ → Call
  updates : Bytes → ℕ → Call
  deletes : Text → Bytes → Call

unfoldable pub apply : Call → InMemoryWebauthnStore → InMemoryWebauthnStore
unfolding insert update_sign_count delete
apply (inserts cred now) s = (insert cred now s).0
apply (updates id new_count) s = (update_sign_count id new_count s).0
apply (deletes did id) s = (delete did id s).0

unfoldable pub run : List Call → InMemoryWebauthnStore → InMemoryWebauthnStore
unfolding apply
run [] s = s
run (call ∷ calls) s = run calls (apply call s)

-- The call neither registers the credential again nor deletes it for its owner.
abbrev pub Spares : Bytes → Text → Call → Type 0
Spares id owner (inserts cred now) = cred.credential_id ≢ id
Spares id owner (updates other new_count) = Unit
Spares id owner (deletes did other) = (other ≡ id) → (did ≢ owner)

-- The same credential, with a counter that is not below.
pub record IsLater (c c' : StoredCredential) : Type 0 where
  pub same_did : c'.did ≡ c.did
  pub same_key : c'.public_key ≡ c.public_key
  pub count_le : c.sign_count ≤ c'.sign_count

IsLater-refl : (c : StoredCredential) → IsLater c c
IsLater-refl c = record { same_did = refl; same_key = refl; count_le = omega arith }

IsLater-trans : (a b c : StoredCredential) → IsLater a b → IsLater b c → IsLater a c
IsLater-trans a b c h k = record {
  same_did = k.same_did ∙ h.same_did;
  same_key = k.same_key ∙ h.same_key;
  count_le = omega (arith, h.count_le, k.count_le);
}

bump-IsLater : (c : StoredCredential) (n : ℕ) → IsLater c (bump c n)
unfolding bump
bump-IsLater c n = elim (Bool-cases (ltb c.sign_count n)) [
  | inl e ↦ rw (bump, e) (record { same_did = refl; same_key = refl; count_le = ground arith })
  | inr e ↦ rw (bump, e) (IsLater-refl c)
]

-- what is found under `id` is a later state of `c`
abbrev Holds : Bytes → StoredCredential → InMemoryWebauthnStore → Type 0
Holds id c s = (c' : StoredCredential) × (Table.get id s.creds ≡ some c') × IsLater c c'

stored-eq :
    (other id : Bytes) (s : InMemoryWebauthnStore) (cred c : StoredCredential)
    → other ≡ id
    → Table.get other s.creds ≡ some cred
    → Table.get id s.creds ≡ some c
    → cred ≡ c
stored-eq other id s cred c same there h =
    let both : ◌≡◌ {A = Option StoredCredential} (some cred) (some c) =
      sym there ∙ ap (λ k. Table.get k s.creds) same ∙ h in
    ground (arith, both)

apply-Holds :
    (call : Call) (s : InMemoryWebauthnStore) (id : Bytes) (c : StoredCredential)
    → Table.get id s.creds ≡ some c
    → Spares id c.did call
    → Holds id c (apply call s)
unfolding apply insert update_sign_count delete
apply-Holds (inserts cred now) s id c h spares = elim (Bool-cases s.poisoned) [
  | inl e ↦ (c, (simp (apply, insert, e) h), IsLater-refl c)
  | inr e ↦
      let other = ne→text_eq cred.credential_id id spares in
      let found : Table.get id (Table.insert cred.credential_id (stored cred now) s.creds)
          ≡ some c =
        rw (get-insert id cred.credential_id (stored cred now) s.creds, other) h in
      (c, simp (apply, insert, e) found, IsLater-refl c)
]
apply-Holds (updates other n) s id c h spares = elim (Bool-cases s.poisoned) [
  | inl e ↦ (c, (simp (apply, update_sign_count, e) h), IsLater-refl c)
  | inr e ↦ elim (Option-cases (Table.get other s.creds)) [
    | inl absent ↦ (c, (simp (apply, update_sign_count, e, absent) h), IsLater-refl c)
    | inr (cred, there) ↦ elim (Bool-cases (text_eq other id)) [
      | inr differs ↦
          let found : Table.get id (Table.insert other (bump cred n) s.creds) ≡ some c =
            rw (get-insert id other (bump cred n) s.creds, differs) h in
          (c, simp (apply, update_sign_count, e, there) found, IsLater-refl c)
      | inl same ↦
          let found : Table.get id (Table.insert other (bump cred n) s.creds) ≡ some (bump cred n) =
            rw (get-insert id other (bump cred n) s.creds, same) refl in
          let same_cred : cred ≡ c =
            stored-eq other id s cred c (text_eq→eq other id same) there h in
          (
            bump cred n,
            simp (apply, update_sign_count, e, there) found,
            rw (sym same_cred) (bump-IsLater cred n),
          )
    ]
  ]
]
apply-Holds (deletes did other) s id c h spares = elim (Bool-cases s.poisoned) [
  | inl e ↦ (c, (simp (apply, delete, e) h), IsLater-refl c)
  | inr e ↦ elim (Option-cases (Table.get other s.creds)) [
    | inl absent ↦ (c, (simp (apply, delete, e, absent) h), IsLater-refl c)
    | inr (cred, there) ↦ elim (Bool-cases (text_eq cred.did did)) [
      | inr stranger ↦ (c, simp (apply, delete, e, there, stranger) h, IsLater-refl c)
      | inl owner ↦
          let differs = ne→text_eq other id (λ same. spares same (
            sym (text_eq→eq cred.did did owner)
            ∙ ap (λ x. x.did) (stored-eq other id s cred c same there h))) in
          let found : Table.get id (Table.remove other s.creds) ≡ some c =
            rw (get-remove id other s.creds, differs) h in
          (c, simp (apply, delete, e, there, owner) found, IsLater-refl c)
    ]
  ]
]

-- A credential stays, with its owner and its key, and its counter never falls, through any calls
-- that do not register it again and do not delete it in the name of its owner.
pub credential_kept :
    (calls : List Call) (s : InMemoryWebauthnStore) (id : Bytes) (c : StoredCredential)
    → Table.get id s.creds ≡ some c
    → All (Spares id c.did) calls
    → (c' : StoredCredential) × (Table.get id (run calls s).creds ≡ some c') × IsLater c c'
unfolding run
credential_kept [] s id c h spares = (c, h, IsLater-refl c)
credential_kept (call ∷ calls) s id c h (spared, rest) =
    let (c1, found, later) = apply-Holds call s id c h spared in
    let (c2, found2, later2) =
      credential_kept calls (apply call s) id c1 found
        (subst (λ did. All (Spares id did) calls) (sym later.same_did) rest) in
    (c2, found2, IsLater-trans c c1 c2 later later2)
