-- ===== src/Session/InMemory/Laws.antt =====
-- `InMemoryBackend` keeps the laws of the trait.
use aqua_auth.Prelude.{
  ok, ℕ, ◌+◌, ◌≤◌, ◌<◌, ◌≡◌, refl, sym, ap, ◌∙◌, ◌⊎◌, inl, inr, Bool, true, false, not, List, [],
  ◌∷◌, map, Option, none, some, arith, if◌then◌else◌, ltb, length, keep, any, Bool-cases,
  Option-cases, All,
}
use mathlib.Core.List.{Memᴰ}
use aqua_auth.Text.{Text, text_eq}
use aqua_auth.Text.Laws.{text_eq_refl, text_eq_iff, text_eq→eq}
use aqua_auth.Table
use aqua_auth.Table.{Table, get, values, HasUniqueKeys}
use aqua_auth.Table.Laws
use aqua_auth.Session.Backend.{Session, BackendLaws, passing}
use aqua_auth.Session.InMemory.{
  insert, remove, entries_for_did, sessions_for_did, remove_each, remove_all_for_did, purge_expired,
  in_memory,
}

-- Each session stands under its own token.
abbrev pub IsKeyed : Table Session → Type 0
IsKeyed = All (λ e. e.1.token ≡ e.0)

pub record IsValid (t : Table Session) : Type 0 where
  pub unique : HasUniqueKeys t
  pub keyed : IsKeyed t

remove-IsKeyed : (k : Text) (t : Table Session) → IsKeyed t → IsKeyed (Table.remove k t)
unfolding Table.remove
remove-IsKeyed k [] h = tt
remove-IsKeyed k (e ∷ t) (he, h) = ground (arith, remove-IsKeyed k t h)

retain-IsKeyed : (p : Session → Bool) (t : Table Session) → IsKeyed t → IsKeyed (Table.retain p t)
unfolding Table.retain
retain-IsKeyed p [] h = tt
retain-IsKeyed p (e ∷ t) (he, h) = ground (arith, retain-IsKeyed p t h)

insert-IsValid : (s : Session) (t : Table Session) → IsValid t → IsValid (insert s t).0
unfolding insert Table.insert
insert-IsValid s t v = record {
  unique = Laws.insert-HasUniqueKeys s.token s t v.unique;
  keyed = (refl, remove-IsKeyed s.token t v.keyed);
}

remove_table : (k : Text) (t : Table Session) → (remove k t).0 ≡ Table.remove k t
unfolding remove
remove_table k t = elim (Option-cases (get k t)) [
  | inl e ↦ rw (e, remove) (sym (Laws.remove_absent k t e))
  | inr (s, e) ↦ rw (e, remove) refl
]

remove-IsValid : (k : Text) (t : Table Session) → IsValid t → IsValid (remove k t).0
remove-IsValid k t v =
    rw remove_table (record {
      unique = Laws.remove-HasUniqueKeys k t v.unique;
      keyed = remove-IsKeyed k t v.keyed;
    })

purge-IsValid : (now : ℕ) (t : Table Session) → IsValid t → IsValid (purge_expired now t).0
unfolding purge_expired
purge-IsValid now t v = record {
  unique = Laws.retain-HasUniqueKeys _ t v.unique;
  keyed = retain-IsKeyed _ t v.keyed;
}

remove_each-IsValid :
    (tokens : List Text) (t : Table Session) → IsValid t → IsValid (remove_each tokens t)
unfolding remove_each
remove_each-IsValid [] t v = v
remove_each-IsValid (k ∷ tokens) t v =
    remove_each-IsValid tokens (Table.remove k t) (record {
      unique = Laws.remove-HasUniqueKeys k t v.unique;
      keyed = remove-IsKeyed k t v.keyed;
    })

get-token :
    (k : Text) (t : Table Session) {s : Session} → IsKeyed t → get k t ≡ some s → s.token ≡ k
unfolding get
get-token k [] h e = cc
get-token k (x ∷ t) {s} (hx, h) e = elim (Bool-cases (text_eq k x.0)) [
  | inl same ↦
      let eq : x.1 ≡ s = ground arith in
      ground (arith, ap (λ (r : Session). r.token) eq, text_eq→eq k x.0 same)
  | inr other ↦ get-token k t {s = s} h (ground arith)
]

get-remove_each :
    (k : Text) (tokens : List Text) (t : Table Session)
    → get k (remove_each tokens t) ≡ (if any (λ u. text_eq u k) tokens then none else get k t)
unfolding remove_each
get-remove_each k [] t = refl
get-remove_each k (u ∷ tokens) t =
    ground (arith, get-remove_each k tokens (Table.remove u t), Laws.get-remove k u t)

-- A token is among those of a DID exactly when the session stored under it has the DID.
tokens_for_did :
    (k did : Text) (t : Table Session)
    → HasUniqueKeys t
    → any (λ u. text_eq u k) (map (λ (e : Text × Session). e.0) (entries_for_did did t))
      ≡ elim (get k t) [ none ↦ false | some s ↦ text_eq s.did did ]
unfolding entries_for_did get
tokens_for_did k did [] u = refl
tokens_for_did k did (x ∷ t) (fresh, u) = elim (Bool-cases (text_eq k x.0)) [
  | inl same ↦
      let gone : get k t ≡ none = rw (text_eq→eq k x.0 same) fresh in
      ground (arith, tokens_for_did k did t u, gone, text_eq_iff k x.0, text_eq_iff x.0 k)
  | inr other ↦ ground (arith, tokens_for_did k did t u, text_eq_iff k x.0, text_eq_iff x.0 k)
]

get-remove_all :
    (k did : Text) (t : Table Session)
    → IsValid t
    → get k (remove_all_for_did did t).0
      ≡ passing (λ s. if text_eq s.did did then false else true) (get k t)
unfolding remove_all_for_did
get-remove_all k did t v =
    rw get-remove_each (rw (tokens_for_did k did t v.unique) (passed (get k t)))
  where
    passed :
        (o : Option Session)
        → (if elim o [ none ↦ false | some s ↦ text_eq s.did did ] then none else o)
          ≡ passing (λ s. if text_eq s.did did then false else true) o
    passed none = refl
    passed (some s) = ground arith

get-purge :
    (k : Text) (now : ℕ) (t : Table Session)
    → IsValid t
    → get k (purge_expired now t).0 ≡ passing (λ s. ltb now s.valid_until) (get k t)
unfolding purge_expired
get-purge k now t v = rw (Laws.get-retain k _ t v.unique) (passed (get k t))
  where
    passed :
        (o : Option Session)
        → ◌≡◌ {A = Option Session}
            (elim o [ none ↦ none | some s ↦ if ltb now s.valid_until then some s else none ])
            (passing (λ s. ltb now s.valid_until) o)
    passed none = refl
    passed (some s) = refl

sessions_for_did-cons :
    (did : Text) (x : Text × Session) (t : Table Session)
    → sessions_for_did did (x ∷ t)
      ≡ (if text_eq x.1.did did then x.1 ∷ sessions_for_did did t else sessions_for_did did t)
unfolding sessions_for_did entries_for_did
sessions_for_did-cons did x t = ground arith

mem_if :
    (b : Bool) (x : Session) (xs : List Session) {s : Session}
    → Memᴰ s (if b then x ∷ xs else xs)
    → ((b ≡ true) × (s ≡ x)) ⊎ Memᴰ s xs
mem_if true x xs (Memᴰ.head p) = inl (refl, p)
mem_if true x xs (Memᴰ.tail m) = inr m
mem_if false x xs m = inr m

mem-sessions_for_did-cons :
    (did : Text) (x : Text × Session) (t : Table Session) {s : Session}
    → Memᴰ s (sessions_for_did did (x ∷ t))
    → ((text_eq x.1.did did ≡ true) × (s ≡ x.1)) ⊎ Memᴰ s (sessions_for_did did t)
mem-sessions_for_did-cons did x t m =
    mem_if (text_eq x.1.did did) x.1 (sessions_for_did did t) (rw sessions_for_did-cons at m)

for_did_stored :
    (did : Text) (t : Table Session) {s : Session}
    → IsKeyed t
    → HasUniqueKeys t
    → Memᴰ s (sessions_for_did did t)
    → (get s.token t ≡ some s) × (s.did ≡ did)
unfolding get
for_did_stored did [] k u m = unfold sessions_for_did entries_for_did in elim m [ ]
for_did_stored did (x ∷ t) {s} (kx, k) (fresh, u) m = elim (mem-sessions_for_did-cons did x t m) [
  | inl (mine, here) ↦ rw here (rw (kx, text_eq_refl x.0) (refl, text_eq→eq x.1.did did mine))
  | inr later ↦
      let (stored, owned) = for_did_stored did t {s = s} k u later in
      elim (Bool-cases (text_eq s.token x.0)) [
        | inl same ↦ absurd (lost s.token x.0 (text_eq→eq s.token x.0 same) fresh stored)
        | inr other ↦ (rw other stored, owned)
      ]
]
  where
    lost : (j k : Text) → j ≡ k → get k t ≡ none → get j t ≡ some s → ⊥
    lost j k p gone stored = cc (rw (← p) at gone)

length-sessions_for_did :
    (did : Text) (t : Table Session)
    → length (sessions_for_did did t) ≡ length (entries_for_did did t)
unfolding sessions_for_did entries_for_did
length-sessions_for_did did [] = refl
length-sessions_for_did did (x ∷ t) = ground (arith, length-sessions_for_did did t)

for_did-keep :
    (did : Text) (p : Text × Session → Bool) (t : Table Session)
    → length (entries_for_did did (keep p t)) ≤ length (entries_for_did did t)
unfolding entries_for_did
for_did-keep did p [] = omega arith
for_did-keep did p (x ∷ t) = ground (arith, for_did-keep did p t)

for_did-remove :
    (did k : Text) (t : Table Session)
    → length (sessions_for_did did (remove k t).0) ≤ length (sessions_for_did did t)
unfolding Table.remove
for_did-remove did k t =
    rw (remove_table, length-sessions_for_did, length-sessions_for_did) (for_did-keep did _ t)

for_did-purge :
    (did : Text) (now : ℕ) (t : Table Session)
    → length (sessions_for_did did (purge_expired now t).0) ≤ length (sessions_for_did did t)
unfolding purge_expired Table.retain
for_did-purge did now t =
    rw (length-sessions_for_did, length-sessions_for_did) (for_did-keep did _ t)

for_did-insert :
    (did : Text) (s : Session) (t : Table Session)
    → length (sessions_for_did did (insert s t).0)
      ≤ (if text_eq s.did did then 1 else 0) + length (sessions_for_did did t)
unfolding insert Table.insert Table.remove
for_did-insert did s t =
    rw (sessions_for_did-cons, length-sessions_for_did)
      (ground (
        arith,
        for_did-keep did (λ e. not (text_eq s.token e.0)) t,
        length-sessions_for_did did (keep (λ e. not (text_eq s.token e.0)) t),
      ))

for_did-remove-lt :
    (did : Text) (t : Table Session) {s : Session}
    → IsKeyed t
    → Memᴰ s (sessions_for_did did t)
    → length (sessions_for_did did (Table.remove s.token t)) < length (sessions_for_did did t)
unfolding Table.remove
for_did-remove-lt did [] k m = unfold sessions_for_did entries_for_did in elim m [ ]
for_did-remove-lt did (x ∷ t) {s} (kx, k) m = elim (mem-sessions_for_did-cons did x t m) [
  | inl (mine, here) ↦
      let own : text_eq s.token x.0 ≡ true =
        rw (ap (λ (r : Session). r.token) here ∙ kx) (text_eq_refl x.0) in
      rw (own, sessions_for_did-cons, mine) (omega (arith, kept_le))
  | inr later ↦
      let ih = for_did-remove-lt did t {s = s} k later in
      elim (Bool-cases (text_eq s.token x.0)) [
        | inl same ↦ rw (same, sessions_for_did-cons) (ground (arith, ih))
        | inr other ↦
            rw (other, sessions_for_did-cons, sessions_for_did-cons did x t) (ground (arith, ih))
      ]
]
  where
    kept_le :
        length (sessions_for_did did (keep (λ e. not (text_eq s.token e.0)) t))
        ≤ length (sessions_for_did did t)
    kept_le = rw (length-sessions_for_did, length-sessions_for_did did t) (for_did-keep did _ t)

-- The default backend keeps every law that the session store relies on.
pub in_memory_laws : BackendLaws in_memory IsValid
unfolding insert
in_memory_laws = record {
  insert_valid = insert-IsValid;
  remove_valid = remove-IsValid;
  purge_valid = purge-IsValid;
  remove_all_valid = λ did t v.
      unfold remove_all_for_did in
      remove_each-IsValid (map (λ (e : Text × Session). e.0) (entries_for_did did t)) t v;
  get-inserted = λ s t v stored. rw (Laws.get-insert, text_eq_refl s.token) refl;
  get-insert_other = λ k s t v other. rw (Laws.get-insert, other) refl;
  get-remove = λ k u t v. rw remove_table (Laws.get-remove k u t);
  get-purge = get-purge;
  get-remove_all = get-remove_all;
  get-token = λ k t {s} v e. get-token k t {s = s} v.keyed e;
  len-insert = λ s t. Laws.len-insert-le s.token s t;
  len-remove = λ k t. rw remove_table (Laws.len-remove-le k t);
  len-purge = λ now t. unfold purge_expired in Laws.len-retain-le _ t;
  for_did_stored = λ did t {s} v m. for_did_stored did t {s = s} v.keyed v.unique m;
  for_did-insert = for_did-insert;
  for_did-remove = for_did-remove;
  for_did-remove-lt = λ did s t v m. rw remove_table (for_did-remove-lt did t {s = s} v.keyed m);
  for_did-purge = for_did-purge;
}

-- The default backend never fails to insert.
pub in_memory-insert_ok : (s : Session) (t : Table Session) → (in_memory.insert s t).1 ≡ ok tt
unfolding insert
in_memory-insert_ok s t = refl
