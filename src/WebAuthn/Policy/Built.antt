-- ===== src/WebAuthn/Policy/Built.antt =====
-- What a built policy (src/webauthn_policy.rs) admits.
use aqua_auth.Prelude.{
  ◌≡◌, ◌≢◌, ◌↔◌, ◌⊎◌, inl, inr, refl, sym, ap, ◌∙◌, Bool, true, false, not, ◌&&◌, List, [], ◌∷◌,
  ◌++◌, some, Result, ok, >>=-eq-ok, guard-eq-ok, ok-inj, guard, arith, any, All, All-append,
  All-find, any-append-false, ◌>>=◌, Bool-cases, length, ◌==◌,
}
use mathlib.Core.List.{Memᴰ}
use mathlib.Core.Path.{subst}
use aqua_auth.Env.{Env}
use aqua_auth.Text.{Text, Bytes, text_eq, as_bytes, to_ascii_lowercase, trim_end_matches}
use aqua_auth.Text.Laws.{text_eq→eq, text_eq_refl, text_eq_comm}
use aqua_auth.Text.Ends.{ends_with, ends_with_sound, ends_with-append}
use aqua_auth.WebAuthn.Web.{Web}
use aqua_auth.WebAuthn.Policy.{
  PolicyError, RpEntry, AssertionPolicy, AssertionPolicyBuilder, builder, listed, allows_origin,
  entry_for_rp_id_hash, host_within_rp_id, push_new, is_empty, validate_rp_id, normalise_origin,
  add_origins, add_related, add_rp, rp, rp_with_related_origins, require_uv, build,
}

-- the host as it is compared
abbrev pub bare_host : Text → Text
bare_host raw = to_ascii_lowercase (trim_end_matches (λ c. c == b'.') raw)

-- A host is within an RP ID exactly when it is the RP ID or ends in a dot and the RP ID.
pub host_within_iff :
    (raw rp_id : Text)
    → (host_within_rp_id raw rp_id ≡ true)
      ↔ ((bare_host raw ≡ rp_id) ⊎ ((labels : Text) × (bare_host raw ≡ labels ++ b'.' ∷ rp_id)))
unfolding host_within_rp_id
host_within_iff raw rp_id = (to, from)
  where
    to :
        host_within_rp_id raw rp_id ≡ true
        → (bare_host raw ≡ rp_id) ⊎ ((labels : Text) × (bare_host raw ≡ labels ++ b'.' ∷ rp_id))
    to h = elim (Bool-cases (text_eq (bare_host raw) rp_id)) [
      | inl same ↦ inl (text_eq→eq _ _ same)
      | inr other ↦ inr (ends_with_sound (b'.' ∷ rp_id) (bare_host raw) (ground (arith, h, other)))
    ]

    from :
        (bare_host raw ≡ rp_id) ⊎ ((labels : Text) × (bare_host raw ≡ labels ++ b'.' ∷ rp_id))
        → host_within_rp_id raw rp_id ≡ true
    from (inl same) = rw (host_within_rp_id, same, text_eq_refl rp_id) refl
    from (inr (labels, same)) =
        let below : ends_with (b'.' ∷ rp_id) (bare_host raw) ≡ true =
          rw (same, ends_with-append labels (b'.' ∷ rp_id)) refl in
        ground (arith, below)

not-eq-true : (b : Bool) → not b ≡ true → b ≡ false
not-eq-true true h = cc
not-eq-true false h = refl

-- A call of the builder.
pub data Call : Type 0 where
  rp_of : Text → List Text → Call
  rp_related_of : Text → List Text → List Text → Call
  require_uv_of : Bool → Call

-- One of the calls gives these origins and related origins for this RP ID; `rp` gives no related
-- ones.
abbrev pub IsDeclared : Text → List Text → List Text → List Call → Type 0
IsDeclared raw_id origins related calls =
    Memᴰ (rp_related_of raw_id origins related) calls
    ⊎ (Memᴰ (rp_of raw_id origins) calls × (related ≡ []))

module _ (env : Env) (web : Web) where
  -- The browser's form of one of the origins that were given for an RP ID, whose host is within it.
  pub record IsOwnOrigin (origins : List Text) (rp_id origin : Text) : Type 0 where
    pub raw : Text
    pub host : Text
    pub given : Memᴰ raw origins
    pub normal : normalise_origin web raw ≡ ok (origin, host)
    pub within : host_within_rp_id host rp_id ≡ true

  -- The browser's form of one of the related origins that were given, which is not an IP address.
  pub record IsRelatedOrigin (related : List Text) (origin : Text) : Type 0 where
    pub raw : Text
    pub host : Text
    pub given : Memᴰ raw related
    pub normal : normalise_origin web raw ≡ ok (origin, host)
    pub no_ip : web.is_ip host ≡ false

  abbrev pub IsAdmitted : List Text → List Text → Text → Text → Type 0
  IsAdmitted origins related rp_id origin =
      IsOwnOrigin origins rp_id origin ⊎ IsRelatedOrigin related origin

  -- An entry is that of one of the calls: the RP ID of the call in its normal form, its hash, and
  -- origins that the lists of this call admit.
  pub record IsEntry (calls : List Call) (e : RpEntry) : Type 0 where
    pub raw_id : Text
    pub origins : List Text
    pub related : List Text
    pub declared : IsDeclared raw_id origins related calls
    pub valid_id : validate_rp_id web raw_id ≡ ok e.rp_id
    pub hash : e.rp_id_hash ≡ env.sha256 (as_bytes e.rp_id)
    pub admitted : All (IsAdmitted origins related e.rp_id) e.origins

  -- no two entries for one RP ID
  abbrev pub IsDistinct : List RpEntry → Type 0
  IsDistinct [] = Unit
  IsDistinct (e ∷ es) = (any (λ x. text_eq x.rp_id e.rp_id) es ≡ false) × IsDistinct es

  push_new-All :
      (P : Text → Type 0) (origin : Text) (origins : List Text)
      → P origin
      → All P origins
      → All P (push_new origin origins)
  unfolding push_new
  push_new-All P origin origins p h = elim (Bool-cases (listed origin origins)) [
    | inl e ↦ rw (push_new, e) h
    | inr e ↦ rw (push_new, e) (All-append P origins (origin ∷ []) h (p, tt))
  ]

  module _ (own all_related : List Text) (rp_id : Text) where
    add_origins-All :
        (raws normalised : List Text) {origins : List Text}
        → ((raw : Text) → Memᴰ raw raws → Memᴰ raw own)
        → All (IsAdmitted own all_related rp_id) normalised
        → add_origins web rp_id raws normalised ≡ ok origins
        → All (IsAdmitted own all_related rp_id) origins
    unfolding add_origins
    add_origins-All [] normalised given h e =
        subst (All (IsAdmitted own all_related rp_id)) (ok-inj e) h
    add_origins-All (raw ∷ raws) normalised {origins} given h e =
        let ((origin, host), e1, h1) = >>=-eq-ok (normalise_origin web raw) _ e in
        let (u, e2, h2) = >>=-eq-ok (guard (host_within_rp_id host rp_id) _) _ h1 in
        let admitted : IsAdmitted own all_related rp_id origin = inl (record {
          raw = raw;
          host = host;
          given = given raw (Memᴰ.head refl);
          normal = e1;
          within = guard-eq-ok _ _ e2;
        }) in
        add_origins-All raws (push_new origin normalised) {origins = origins}
          (λ r m. given r (Memᴰ.tail m))
          (push_new-All (IsAdmitted own all_related rp_id) origin normalised admitted h) h2

    add_related-All :
        (raws normalised : List Text) {origins : List Text}
        → ((raw : Text) → Memᴰ raw raws → Memᴰ raw all_related)
        → All (IsAdmitted own all_related rp_id) normalised
        → add_related web raws normalised ≡ ok origins
        → All (IsAdmitted own all_related rp_id) origins
    unfolding add_related
    add_related-All [] normalised given h e =
        subst (All (IsAdmitted own all_related rp_id)) (ok-inj e) h
    add_related-All (raw ∷ raws) normalised {origins} given h e =
        let ((origin, host), e1, h1) = >>=-eq-ok (normalise_origin web raw) _ e in
        let (u, e2, h2) = >>=-eq-ok (guard (not (web.is_ip host)) _) _ h1 in
        let admitted : IsAdmitted own all_related rp_id origin = inr (record {
          raw = raw;
          host = host;
          given = given raw (Memᴰ.head refl);
          normal = e1;
          no_ip = not-eq-true _ (guard-eq-ok _ _ e2);
        }) in
        add_related-All raws (push_new origin normalised) {origins = origins}
          (λ r m. given r (Memᴰ.tail m))
          (push_new-All (IsAdmitted own all_related rp_id) origin normalised admitted h) h2

  append-IsDistinct :
      (es : List RpEntry) (e : RpEntry)
      → any (λ x. text_eq x.rp_id e.rp_id) es ≡ false
      → IsDistinct es
      → IsDistinct (es ++ e ∷ [])
  append-IsDistinct [] e fresh h = (refl, tt)
  append-IsDistinct (x ∷ es) e fresh (first, rest) =
      let differs : text_eq x.rp_id e.rp_id ≡ false = ground (arith, fresh) in
      let later : any (λ y. text_eq y.rp_id e.rp_id) es ≡ false = ground (arith, fresh, differs) in
      let last : text_eq e.rp_id x.rp_id ≡ false = text_eq_comm e.rp_id x.rp_id ∙ differs in
      (
        any-append-false (λ y. text_eq y.rp_id x.rp_id) es (e ∷ []) first (ground (arith, last)),
        append-IsDistinct es e later rest,
      )

  pub record IsValid (calls : List Call) (es : List RpEntry) : Type 0 where
    pub all_entries : All (IsEntry calls) es
    pub distinct : IsDistinct es

  add_rp-IsValid :
      (calls : List Call) (b b' : AssertionPolicyBuilder) (raw_id : Text)
      (origins related : List Text)
      → IsDeclared raw_id origins related calls
      → IsValid calls b.entries
      → add_rp web env b raw_id origins related ≡ ok b'
      → IsValid calls b'.entries × (b'.require_uv ≡ b.require_uv)
  unfolding add_rp
  add_rp-IsValid calls b b' raw_id origins related declared v h =
      let (rp_id, e1, h1) = >>=-eq-ok (validate_rp_id web raw_id) _ h in
      let (u2, e2, h2) =
        >>=-eq-ok (guard (not (any (λ e. text_eq e.rp_id rp_id) b.entries)) _) _ h1 in
      let (u3, e3, h3) = >>=-eq-ok (guard (not (is_empty origins && is_empty related)) _) _ h2 in
      let (own, e4, h4) = >>=-eq-ok (add_origins web rp_id origins []) _ h3 in
      let (normalised, e5, h5) = >>=-eq-ok (add_related web related own) _ h4 in
      let new : RpEntry = record {
        rp_id = rp_id;
        rp_id_hash = env.sha256 (as_bytes rp_id);
        origins = normalised;
      } in
      let within = add_origins-All origins related rp_id origins [] (λ r m. m) tt e4 in
      let is_entry : IsEntry calls new = record {
        raw_id = raw_id;
        origins = origins;
        related = related;
        declared = declared;
        valid_id = e1;
        hash = refl;
        admitted = add_related-All origins related rp_id related own (λ r m. m) within e5;
      } in
      let fresh = not-eq-true _ (guard-eq-ok _ _ e2) in
      (
        subst (IsValid calls) (ap (λ x. x.entries) (ok-inj h5)) (record {
          all_entries =
              All-append (IsEntry calls) b.entries (new ∷ []) v.all_entries (is_entry, tt);
          distinct = append-IsDistinct b.entries new fresh v.distinct;
        }),
        sym (ap (λ x. x.require_uv) (ok-inj h5)),
      )

  listed→ :
      (P : Text → Type 0) (origin : Text) (origins : List Text)
      → All P origins
      → listed origin origins ≡ true
      → P origin
  unfolding listed
  listed→ P origin [] h e = cc
  listed→ P origin (x ∷ xs) (p, h) e = elim (Bool-cases (text_eq x origin)) [
    | inl same ↦ subst P (text_eq→eq x origin same) p
    | inr other ↦ listed→ P origin xs h (ground (arith, e, other))
  ]

  unfoldable pub call : Call → AssertionPolicyBuilder → Result PolicyError AssertionPolicyBuilder
  call (rp_of raw_id origins) b = rp web env b raw_id origins
  call (rp_related_of raw_id origins related) b =
      rp_with_related_origins web env b raw_id origins related
  call (require_uv_of on) b = ok (require_uv on b)

  -- a chain of calls
  unfoldable pub declare :
      List Call → AssertionPolicyBuilder → Result PolicyError AssertionPolicyBuilder
  unfolding call
  declare [] b = ok b
  declare (c ∷ calls) b = do b' ← call c b; declare calls b'

  -- whether user verification is required: as the last call of `require_uv` says
  abbrev pub wanted_uv : Bool → List Call → Bool
  wanted_uv on [] = on
  wanted_uv on (rp_of raw_id origins ∷ calls) = wanted_uv on calls
  wanted_uv on (rp_related_of raw_id origins related ∷ calls) = wanted_uv on calls
  wanted_uv on (require_uv_of on' ∷ calls) = wanted_uv on' calls

  declare-IsValid :
      (all_calls calls : List Call) (b b' : AssertionPolicyBuilder)
      → ((c : Call) → Memᴰ c calls → Memᴰ c all_calls)
      → IsValid all_calls b.entries
      → declare calls b ≡ ok b'
      → IsValid all_calls b'.entries × (b'.require_uv ≡ wanted_uv b.require_uv calls)
  unfolding declare call rp rp_with_related_origins require_uv
  declare-IsValid all_calls [] b b' given v h = (
    subst (IsValid all_calls) (ap (λ x. x.entries) (ok-inj h)) v,
    sym (ap (λ x. x.require_uv) (ok-inj h)),
  )
  declare-IsValid all_calls (rp_of raw_id origins ∷ calls) b b' given v h =
      let (b1, e, h1) = >>=-eq-ok (add_rp web env b raw_id origins []) _ h in
      let (v1, same) =
        add_rp-IsValid all_calls b b1 raw_id origins []
          (inr (given (rp_of raw_id origins) (Memᴰ.head refl), refl)) v e in
      let (v', uv) = declare-IsValid all_calls calls b1 b' (λ c m. given c (Memᴰ.tail m)) v1 h1 in
      (v', uv ∙ ap (λ on. wanted_uv on calls) same)
  declare-IsValid all_calls (rp_related_of raw_id origins related ∷ calls) b b' given v h =
      let (b1, e, h1) = >>=-eq-ok (add_rp web env b raw_id origins related) _ h in
      let (v1, same) =
        add_rp-IsValid all_calls b b1 raw_id origins related
          (inl (given (rp_related_of raw_id origins related) (Memᴰ.head refl))) v e in
      let (v', uv) = declare-IsValid all_calls calls b1 b' (λ c m. given c (Memᴰ.tail m)) v1 h1 in
      (v', uv ∙ ap (λ on. wanted_uv on calls) same)
  declare-IsValid all_calls (require_uv_of on ∷ calls) b b' given v h =
      declare-IsValid all_calls calls (require_uv on b) b' (λ c m. given c (Memᴰ.tail m)) v h

  -- The entries of a policy that was built by any calls have distinct RP IDs. Each is the entry of one
  -- of the calls: the hash of its RP ID, with origins that this call lists for it, within the RP ID,
  -- or lists as related, of which `rp` lists none. There is an entry, and user verification is
  -- required as the last call of `require_uv` says, and without one.
  pub built-IsValid :
      (calls : List Call) (b : AssertionPolicyBuilder) (p : AssertionPolicy)
      → declare calls builder ≡ ok b
      → build b ≡ ok p
      → IsValid calls p.entries × (p.entries ≢ []) × (p.require_uv ≡ wanted_uv true calls)
  unfolding builder build
  built-IsValid calls b p h e =
      let (valid, uv) =
        declare-IsValid calls calls builder b (λ c m. m)
          (record { all_entries = tt; distinct = tt }) h in
      let (u, some_entry, e1) = >>=-eq-ok (guard (not (length b.entries == 0)) _) _ e in
      let same = ap (λ x. x.entries) (ok-inj e1) in
      let nonempty = guard-eq-ok _ _ some_entry in
      (
        subst (IsValid calls) same valid,
        λ empty. ground (arith, nonempty, same ∙ empty),
        sym (ap (λ x. x.require_uv) (ok-inj e1)) ∙ uv,
      )

  -- What a built policy rests on when it allows an origin for an RP ID hash: one of the calls, whose
  -- RP ID has this hash, and whose lists admit the origin.
  pub record IsGranted (calls : List Call) (hash : Bytes) (origin : Text) : Type 0 where
    pub raw_id : Text
    pub rp_id : Text
    pub origins : List Text
    pub related : List Text
    pub declared : IsDeclared raw_id origins related calls
    pub valid_id : validate_rp_id web raw_id ≡ ok rp_id
    pub hashed : hash ≡ env.sha256 (as_bytes rp_id)
    pub admitted : IsAdmitted origins related rp_id origin

  -- An origin that a built policy allows for an RP ID hash was given in one of the calls, whose RP ID
  -- has this hash: as an origin, and then its host is within the RP ID, or as a related origin in a
  -- call of `rp_with_related_origins`, and then its host is not an IP address.
  pub allowed-IsGranted :
      (calls : List Call) (b : AssertionPolicyBuilder) (p : AssertionPolicy) (hash : Bytes)
      (e : RpEntry) (origin : Text)
      → declare calls builder ≡ ok b
      → build b ≡ ok p
      → entry_for_rp_id_hash p hash ≡ some e
      → allows_origin e origin ≡ true
      → IsGranted calls hash origin
  unfolding entry_for_rp_id_hash allows_origin
  allowed-IsGranted calls b p hash e origin h build_eq found allowed =
      let (valid, nonempty, uv) = built-IsValid calls b p h build_eq in
      let (entry, same) =
        All-find (IsEntry calls) (λ x. text_eq x.rp_id_hash hash) p.entries valid.all_entries
          found in
      record {
        raw_id = entry.raw_id;
        rp_id = e.rp_id;
        origins = entry.origins;
        related = entry.related;
        declared = entry.declared;
        valid_id = entry.valid_id;
        hashed = sym (text_eq→eq e.rp_id_hash hash same) ∙ entry.hash;
        admitted =
            listed→ (IsAdmitted entry.origins entry.related e.rp_id) origin e.origins entry.admitted
              allowed;
      }
