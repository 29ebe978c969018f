-- ===== src/Session/Capacity.antt =====
-- What `create` does to the sessions that are there: `SessionStore` over any lawful backend.
use aqua_auth.Prelude.{
  ℕ, ◌+◌, ◌≤◌, ◌<◌, max, ◌≡◌, ◌≢◌, refl, ap, ◌⊎◌, inl, inr, some, err, arith, leb, lt→ltb, length,
  Bool-cases,
}
use aqua_auth.Env.{Env}
use aqua_auth.Errors.{session_store_full}
use aqua_auth.Text.{Text, Bytes, text_eq}
use aqua_auth.Text.Laws.{text_eq→eq, ne→text_eq}
use aqua_auth.Session.Backend.{Session, SessionBackend, BackendLaws}
use aqua_auth.Session.Store.{Limits, new_session, enforce_per_did_cap, admit, create}
use aqua_auth.Session.Policy.{enforce-cases}

module _ {B : Type 0} (be : SessionBackend B) {IsValid : B → Type 0} (laws : BackendLaws be IsValid)
    (env : Env) (limits : Limits) (did : Text) (token_bytes : Bytes) where
  same_owner :
      (s mine : Session) (b : B) {t u : Text}
      → be.get t b ≡ some s
      → be.get u b ≡ some mine
      → mine.did ≡ did
      → u ≡ t
      → s.did ≡ did
  same_owner s mine b {t = t} {u = u} there found owned p =
      let moved : be.get t b ≡ some mine = rw p at (found) in
      let eq : mine ≡ s = ground (arith, moved, there) in rw (← eq) owned

  module _ (now : ℕ) (b : B) where
    unfoldable pub evicted : B
    evicted = enforce_per_did_cap be limits.max_sessions_per_did did b

    pub evicted-IsValid : IsValid b → IsValid evicted
    unfolding evicted
    evicted-IsValid v = elim (enforce-cases be limits.max_sessions_per_did did b) [
      | inl (few, same) ↦ rw same v
      | inr (s, mine, same) ↦ rw same (laws.remove_valid s.token b v)
    ]

    pub admit-IsValid : IsValid b → IsValid (admit be env limits did token_bytes now b).0
    unfolding admit evicted
    admit-IsValid v = laws.insert_valid _ _ (evicted-IsValid v)

    len-evicted : be.len evicted ≤ be.len b
    unfolding evicted
    len-evicted = elim (enforce-cases be limits.max_sessions_per_did did b) [
      | inl (few, same) ↦ rw same (omega arith)
      | inr (s, mine, same) ↦ rw same (laws.len-remove s.token b)
    ]

    len-admit : be.len (admit be env limits did token_bytes now b).0 ≤ be.len b + 1
    unfolding admit evicted
    len-admit = omega (arith, len-evicted, laws.len-insert _ evicted)

    -- its own sessions stay below the quota, the others' do not grow
    count-evicted :
        IsValid b
        → length (be.sessions_for_did did b) ≤ max limits.max_sessions_per_did 1
        → length (be.sessions_for_did did evicted) < max limits.max_sessions_per_did 1
    unfolding evicted
    count-evicted v h = elim (enforce-cases be limits.max_sessions_per_did did b) [
      | inl (few, same) ↦ rw same few
      | inr (s, mine, same) ↦ rw same (omega (arith, laws.for_did-remove-lt did s b v mine))
    ]

    count-evicted-le :
        (other : Text)
        → length (be.sessions_for_did other evicted) ≤ length (be.sessions_for_did other b)
    unfolding evicted
    count-evicted-le other = elim (enforce-cases be limits.max_sessions_per_did did b) [
      | inl (few, same) ↦ rw same (omega arith)
      | inr (s, mine, same) ↦ rw same (laws.for_did-remove other s.token b)
    ]

    count-admit :
        (other : Text)
        → IsValid b
        → length (be.sessions_for_did other b) ≤ max limits.max_sessions_per_did 1
        → length (be.sessions_for_did other (admit be env limits did token_bytes now b).0)
          ≤ max limits.max_sessions_per_did 1
    unfolding admit evicted new_session
    count-admit other v h = elim (Bool-cases (text_eq did other)) [
      | inl same ↦
          let eq : did ≡ other = text_eq→eq did other same in
          let own = count-evicted v (rw eq h) in
          ground (
            arith,
            laws.for_did-insert other (new_session env limits did token_bytes now) evicted,
            same,
            ap (λ (d : Text). length (be.sessions_for_did d evicted)) eq,
            own,
          )
      | inr different ↦ ground (
        arith,
        laws.for_did-insert other (new_session env limits did token_bytes now) evicted,
        different,
        count-evicted-le other,
      )
    ]

    -- another DID's session is neither evicted nor overwritten
    get-admit :
        (token : Text) (s : Session)
        → IsValid b
        → be.get token b ≡ some s
        → s.did ≢ did
        → env.hex_encode token_bytes ≢ token
        → be.get token (admit be env limits did token_bytes now b).0 ≡ some s
    unfolding admit evicted new_session
    get-admit token s v stored other fresh =
        rw
          (laws.get-insert_other token (new_session env limits did token_bytes now) evicted
            (evicted-IsValid v) (ne→text_eq _ token fresh))
          kept
      where
        kept : be.get token evicted ≡ some s
        kept = elim (enforce-cases be limits.max_sessions_per_did did b) [
          | inl (few, same) ↦ rw same stored
          | inr (mine, found, same) ↦
              let (there, owned) = laws.for_did_stored did b v found in
              rw (same, laws.get-remove token mine.token b v)
                (rw
                  (ne→text_eq mine.token token
                    (λ p. other (same_owner s mine b stored there owned p)))
                  stored)
        ]

  module _ (swept now : ℕ) (b : B) where
    -- what `create` comes down to: a new session, with or without a sweep before it, or a refusal
    pub create-cases :
        ((be.len b < limits.max_sessions)
          × (create be env limits did token_bytes swept now b
              ≡ admit be env limits did token_bytes now b))
        ⊎ ((be.len (be.purge_expired swept b).0 < limits.max_sessions)
            × (create be env limits did token_bytes swept now b
                ≡ admit be env limits did token_bytes now (be.purge_expired swept b).0))
        ⊎ ((limits.max_sessions ≤ be.len (be.purge_expired swept b).0)
            × (create be env limits did token_bytes swept now b
                ≡ ((be.purge_expired swept b).0, err (session_store_full limits.max_sessions))))
    unfolding create
    create-cases = elim (Bool-cases (leb limits.max_sessions (be.len b))) [
      | inr below ↦ inl (ground arith, rw (below, create) refl)
      | inl full ↦
          elim (Bool-cases (leb limits.max_sessions (be.len (be.purge_expired swept b).0))) [
            | inr below ↦ inr (inl (ground arith, rw (full, below, create) refl))
            | inl still ↦ inr (inr (ground arith, rw (full, still, create) refl))
          ]
    ]

    -- `create` keeps the number of sessions within the capacity, over any backend that keeps the laws
    -- of the trait.
    pub create_len :
        be.len b ≤ limits.max_sessions
        → be.len (create be env limits did token_bytes swept now b).0 ≤ limits.max_sessions
    create_len h = elim create-cases [
      | inl (below, same) ↦ rw same (omega (arith, below, len-admit now b))
      | inr (inl (below, same)) ↦
          rw same (omega (arith, below, len-admit now (be.purge_expired swept b).0))
      | inr (inr (full, same)) ↦ rw same (omega (arith, h, laws.len-purge swept b))
    ]

    pub create-IsValid : IsValid b → IsValid (create be env limits did token_bytes swept now b).0
    create-IsValid v = elim create-cases [
      | inl (below, same) ↦ rw same (admit-IsValid now b v)
      | inr (inl (below, same)) ↦ rw same (admit-IsValid now _ (laws.purge_valid swept b v))
      | inr (inr (full, same)) ↦ rw same (laws.purge_valid swept b v)
    ]

    -- `create` keeps the sessions of every DID within the quota, where a quota of 0 counts as 1, in a
    -- valid state of any backend that keeps the laws.
    pub create_count :
        (other : Text)
        → IsValid b
        → length (be.sessions_for_did other b) ≤ max limits.max_sessions_per_did 1
        → length (be.sessions_for_did other (create be env limits did token_bytes swept now b).0)
          ≤ max limits.max_sessions_per_did 1
    create_count other v h =
        let swept_count : length (be.sessions_for_did other (be.purge_expired swept b).0)
            ≤ max limits.max_sessions_per_did 1 =
          omega (arith, h, laws.for_did-purge other swept b) in
        elim create-cases [
          | inl (below, same) ↦ rw same (count-admit now b other v h)
          | inr (inl (below, same)) ↦
              rw same (count-admit now _ other (laws.purge_valid swept b v) swept_count)
          | inr (inr (full, same)) ↦ rw same swept_count
        ]

    -- In a valid state, a stored session that has not expired at the sweep and belongs to another DID
    -- is still stored after `create`, unless the new token is the same as its own.
    pub create_keeps :
        (token : Text) (s : Session)
        → IsValid b
        → be.get token b ≡ some s
        → swept < s.valid_until
        → s.did ≢ did
        → env.hex_encode token_bytes ≢ token
        → be.get token (create be env limits did token_bytes swept now b).0 ≡ some s
    create_keeps token s v stored live other fresh =
        let kept : be.get token (be.purge_expired swept b).0 ≡ some s =
          rw (laws.get-purge token swept b v, stored, lt→ltb swept s.valid_until live) refl in
        elim create-cases [
          | inl (below, same) ↦ rw same (get-admit now b token s v stored other fresh)
          | inr (inl (below, same)) ↦
              rw same (get-admit now _ token s (laws.purge_valid swept b v) kept other fresh)
          | inr (inr (full, same)) ↦ rw same kept
        ]
