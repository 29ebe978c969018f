-- ===== src/Did/MlDsa/Hints.antt =====
-- The gate on the hint encoding (src/aqua/ml_dsa.rs): its slices are in range.
use aqua_auth.Prelude.{
  ℕ, zero, suc, ◌-◌, ◌≤◌, ◌≡◌, ◌≢◌, refl, inl, inr, Bool, true, [], ◌∷◌, none, some, ok, arith,
  length, take, drop, Bool-cases, Result-cases, leb,
}
use aqua_auth.Text.{Bytes}
use aqua_auth.Did.MlDsa.{
  signature_bytes, omega_count, hint_offset, walk_cuts, walk_windows, unused_are_zero, check_hint,
  hint_encoding_is_canonical,
}

-- cuts that do not fall from `start` on, stay at most 75, and end in `last`
abbrev IsChain : ℕ → Bytes → ℕ → Type 0
IsChain start [] last = start ≡ last
IsChain start (cut ∷ cuts) last = (start ≤ cut) × (cut ≤ omega_count) × IsChain cut cuts last

walk_cuts-IsChain :
    (cuts : Bytes) (start : ℕ) {last : ℕ} → walk_cuts start cuts ≡ ok last → IsChain start cuts last
unfolding walk_cuts
walk_cuts-IsChain [] start h = ground arith
walk_cuts-IsChain (cut ∷ cuts) start {last} h =
    (ground arith, ground arith, walk_cuts-IsChain cuts cut {last = last} (ground arith))

IsChain-last :
    (cuts : Bytes) (start last : ℕ)
    → IsChain start cuts last
    → start ≤ omega_count
    → last ≤ omega_count
IsChain-last [] start last h bound = omega (arith, h, bound)
IsChain-last (cut ∷ cuts) start last (up, top, rest) bound = IsChain-last cuts cut last rest top

walk_windows-total :
    (indices cuts : Bytes) (start last : ℕ)
    → length indices ≡ omega_count
    → IsChain start cuts last
    → walk_windows indices start cuts ≢ none
unfolding walk_windows
walk_windows-total indices [] start last size h = λ p. cc
walk_windows-total indices (cut ∷ cuts) start last size (up, top, rest) =
    ground (arith, size, up, top, walk_windows-total indices cuts cut last size rest)

unused_are_zero-total :
    (indices : Bytes) (last : ℕ)
    → length indices ≡ omega_count
    → last ≤ omega_count
    → (b : Bool) × (unused_are_zero indices last ≡ some b)
unfolding unused_are_zero
unused_are_zero-total indices last size bound =
    let fits : leb last (length indices) ≡ true = ground (arith, size, bound) in rw fits (_, refl)

check_hint-total :
    (indices cuts : Bytes) → length indices ≡ omega_count → check_hint indices cuts ≢ none
unfolding check_hint
check_hint-total indices cuts size = elim (Result-cases (walk_cuts 0 cuts)) [
  | inr (d, bad) ↦ rw (bad, check_hint) (λ p. cc)
  | inl (last, walked) ↦
      let chain = walk_cuts-IsChain cuts 0 {last = last} walked in
      let bound = IsChain-last cuts 0 last chain (omega arith) in
      let (b, found) = unused_are_zero-total indices last size bound in
      elim (Bool-cases b) [
        | inl clean ↦
            rw (walked, found, clean, check_hint)
              (walk_windows-total indices cuts 0 last size chain)
        | inr dirty ↦ rw (walked, found, dirty, check_hint) (λ p. cc)
      ]
]

length-drop : (n : ℕ) (s : Bytes) → length (drop n s) ≡ length s - n
length-drop zero s = omega arith
length-drop (suc n) [] = omega arith
length-drop (suc n) (b ∷ s) = omega (arith, length-drop n s)

length-take : (n : ℕ) (s : Bytes) → n ≤ length s → length (take n s) ≡ n
length-take zero s h = refl
length-take (suc n) [] h = omega (arith, h)
length-take (suc n) (b ∷ s) h = omega (arith, length-take n s (omega (arith, h)))

-- On a signature of the length that `verify` lets through, the gate gives an answer: none of its
-- slices is out of range, whatever the bytes are.
pub hint_gate_total :
    (sig : Bytes) → length sig ≡ signature_bytes → hint_encoding_is_canonical sig ≢ none
unfolding hint_encoding_is_canonical
hint_gate_total sig size = check_hint-total _ _ (
    length-take omega_count (drop hint_offset sig)
      (omega (arith, size, length-drop hint_offset sig)))
