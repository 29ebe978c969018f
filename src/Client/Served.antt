-- ===== src/Client/Served.antt =====
-- The two sides of a login: a message that src/message.rs builds passes the checks of src/client.rs.
use aqua_auth.Prelude.{
  ℕ, ◌≡◌, ◌≢◌, refl, sym, ap, ◌∙◌, Bool, true, false, not, ◌&&◌, List, [], ◌∷◌, ◌++◌, Option, none,
  some, ok, arith, ◌==◌, all, append_assoc, Bool-cases, ==_iff, inl, inr, ok-inj,
}
use aqua_auth.Env.{Env}
use aqua_auth.Text.{Text, Bytes, codes, contains, split, strip_prefix, is_whitespace}
use aqua_auth.Text.Ends.{pieces}
use aqua_auth.Text.Pieces.{
  split-cut, pieces-cut, trim_end-none, trim-none, trim-space, all-weaken, all-contains,
}
use aqua_auth.Did.Method.{Method, find_did_method, address_for_message, method_label, chain_id}
use aqua_auth.Did.Parse.{identifier_from_message}
use aqua_auth.Message.{Chrono, MessageParams, message_text, build_message, chain_line}
use aqua_auth.WebAuthn.Web.{Web}
use aqua_auth.Client.{
  ChallengeEnvelope, Signer, find_uri, non_empty, uri_line, origin_of, expected_identifier,
  request_of, signed_session_request,
}
use aqua_auth.Client.Binding.{IsBound, HasPlainSchemes, check_challenge_iff}

-- a word: neither empty nor with white space
abbrev pub IsWord : Text → Type 0
IsWord s = (all (λ c. not (is_whitespace c)) s ≡ true) × (s ≢ [])

-- no line break in it
abbrev pub IsLine : Text → Type 0
IsLine s = all (λ c. not (c == b'\n') && not (c == b'\r')) s ≡ true

-- the line that a message starts with
abbrev pub first_line : Text → Text → Text
first_line domain label =
    domain ++ (codes " wants you to sign in with your " ++ (label ++ codes " account:"))

-- the message with its first line, identifier and URI apart
abbrev laid_out : Text → Text → Text → Text → Text
laid_out first identifier uri rest =
    first
    ++ b'\n'
      ∷ (identifier ++ b'\n' ∷ (codes "\nSign in to Aqua Node\n\nURI: " ++ (uri ++ b'\n' ∷ rest)))

four-append : (a b c d t : Text) → (a ++ (b ++ (c ++ d))) ++ t ≡ a ++ (b ++ (c ++ (d ++ t)))
four-append a b c d t =
    append_assoc a (b ++ (c ++ d)) t
    ∙ ap (λ x. a ++ x) (append_assoc b (c ++ d) t ∙ ap (λ x. b ++ x) (append_assoc c d t))

message_text-eq :
    {T : Type 0} (chrono : Chrono T) (params : MessageParams T) (label identifier chain : Text)
    → (rest : Text) × (message_text chrono params label identifier chain
        ≡ laid_out (first_line params.domain label) identifier params.uri rest)
unfolding message_text
message_text-eq chrono params label identifier chain = (
  _,
  sym (
      four-append params.domain (codes " wants you to sign in with your ") label (codes " account:")
        _),
)

line-no_newline : (s : Text) → IsLine s → contains b'\n' s ≡ false
line-no_newline s h =
    all-contains b'\n' s (all-weaken _ (λ c. not (c == b'\n')) s (λ c. λ e. ground arith) h)

line-no_return : (s : Text) → IsLine s → all (λ c. not (c == b'\r')) s ≡ true
line-no_return s h = all-weaken _ (λ c. not (c == b'\r')) s (λ c. λ e. ground arith) h

-- A character that fails a test is none that passes it.
test-ne : (p : ℕ → Bool) (c d : ℕ) → p d ≡ true → not (p c) ≡ true → (c == d) ≡ false
test-ne p c d passes fails = elim (Bool-cases (c == d)) [
  | inr e ↦ e
  | inl e ↦
      let same : c ≡ d = (==_iff c d).0 e in
      let both : p c ≡ true = ap p same ∙ passes in absurd (ground (arith, both, fails))
]

word-IsLine : (s : Text) → IsWord s → IsLine s
unfolding is_whitespace
word-IsLine s (h, nonempty) =
    all-weaken (λ c. not (is_whitespace c)) (λ c. not (c == b'\n') && not (c == b'\r')) s
      (λ c. λ e.
        let newline = test-ne is_whitespace c b'\n' refl e in
        let return = test-ne is_whitespace c b'\r' refl e in rw (newline, return) refl)
      h

find_uri-skip :
    (line : Text) (lines : List Text)
    → IsLine line
    → strip_prefix (codes "URI:") line ≡ none
    → find_uri (line ∷ lines) ≡ find_uri lines
unfolding find_uri
find_uri-skip line lines h e =
    rw (find_uri, trim_end-none (λ c. c == b'\r') line (line-no_return line h), e) refl

find_uri-hit :
    (uri : Text) (lines : List Text)
    → IsLine uri
    → find_uri ((codes "URI: " ++ uri) ∷ lines) ≡ some (b' ' ∷ uri)
unfolding find_uri strip_prefix
find_uri-hit uri lines h =
    rw (find_uri, trim_end-none (λ c. c == b'\r') (codes "URI: " ++ uri) (line-no_return uri h))
      refl

non_empty-eq : (s : Text) → s ≢ [] → non_empty s ≡ some s
unfolding non_empty
non_empty-eq [] h = absurd (h refl)
non_empty-eq (c ∷ s) h = refl

-- The parts of a message that the client can read back: lines without breaks, words, and no `URI:`
-- at the start of the two lines before the URI's.
pub record IsPresentable (first identifier uri : Text) : Type 0 where
  pub first_IsLine : IsLine first
  pub first_plain : strip_prefix (codes "URI:") first ≡ none
  pub identifier_IsWord : IsWord identifier
  pub identifier_plain : strip_prefix (codes "URI:") identifier ≡ none
  pub uri_IsWord : IsWord uri

some_word :
    (s : Text)
    → s ≢ []
    → ◌≡◌ {A = Option Text} (elim s [ [] ↦ none | c ∷ t ↦ some (c ∷ t) ]) (some s)
some_word [] h = absurd (h refl)
some_word (c ∷ t) h = refl

module _ (first identifier uri rest : Text) (p : IsPresentable first identifier uri) where
  no_breaks : contains b'\n' first ≡ false
  no_breaks = line-no_newline first p.first_IsLine

  identifier-no_breaks : contains b'\n' identifier ≡ false
  identifier-no_breaks = line-no_newline identifier (word-IsLine identifier p.identifier_IsWord)

  uri-no_breaks : contains b'\n' uri ≡ false
  uri-no_breaks = line-no_newline uri (word-IsLine uri p.uri_IsWord)

  identifier_from_message-laid_out :
      identifier_from_message (laid_out first identifier uri rest) ≡ some identifier
  unfolding identifier_from_message
  identifier_from_message-laid_out =
      rw
        (
          identifier_from_message,
          split-cut b'\n' first
              (identifier
                ++ b'\n' ∷ (codes "\nSign in to Aqua Node\n\nURI: " ++ (uri ++ b'\n' ∷ rest)))
              no_breaks,
          pieces-cut b'\n' identifier
              (codes "\nSign in to Aqua Node\n\nURI: " ++ (uri ++ b'\n' ∷ rest))
              identifier-no_breaks,
          trim_end-none (λ c. c == b'\r') identifier
              (line-no_return identifier (word-IsLine identifier p.identifier_IsWord)),
          trim-none identifier p.identifier_IsWord.0,
        )
        (some_word identifier p.identifier_IsWord.1)

  tail_pieces :
      pieces b'\n' (codes "\nSign in to Aqua Node\n\nURI: " ++ (uri ++ b'\n' ∷ rest))
      ≡ [] ∷ codes "Sign in to Aqua Node" ∷ [] ∷ (codes "URI: " ++ uri) ∷ pieces b'\n' rest
  unfolding pieces split
  tail_pieces = rw (pieces, split, split-cut b'\n' uri rest uri-no_breaks) refl

  pieces-laid_out :
      pieces b'\n' (laid_out first identifier uri rest)
      ≡ first
        ∷ identifier
        ∷ []
        ∷ codes "Sign in to Aqua Node"
        ∷ []
        ∷ (codes "URI: " ++ uri)
        ∷ pieces b'\n' rest
  pieces-laid_out =
      pieces-cut b'\n' first _ no_breaks
      ∙ ap (λ l. first ∷ l)
          (pieces-cut b'\n' identifier _ identifier-no_breaks
            ∙ ap (λ l. identifier ∷ l) tail_pieces)

  find_uri-laid_out :
      find_uri (pieces b'\n' (laid_out first identifier uri rest)) ≡ some (b' ' ∷ uri)
  unfolding strip_prefix
  find_uri-laid_out =
      ap find_uri pieces-laid_out
      ∙ find_uri-skip first _ p.first_IsLine p.first_plain
      ∙ find_uri-skip identifier _ (word-IsLine identifier p.identifier_IsWord) p.identifier_plain
      ∙ find_uri-skip [] _ refl refl
      ∙ find_uri-skip (codes "Sign in to Aqua Node") _ refl refl
      ∙ find_uri-skip [] _ refl refl
      ∙ find_uri-hit uri _ (word-IsLine uri p.uri_IsWord)

  uri_line-laid_out : uri_line (laid_out first identifier uri rest) ≡ some uri
  unfolding uri_line
  uri_line-laid_out =
      rw (uri_line, find_uri-laid_out, trim-space uri p.uri_IsWord.0)
        (non_empty-eq uri p.uri_IsWord.1)

-- What the server builds for the DID of a client, with a URI whose origin is the one that the client
-- dials, the client signs and answers: when no scheme starts with `<` and the parts of the message
-- read back. `identifier` and `label` are the ones of the DID's method.
pub served_challenge_signed :
    {T W : Type 0} (env : Env) (web : Web) (chrono : Chrono T) (params : MessageParams T)
    (method : Method) (identifier label origin base_url : Text) (envelope : ChallengeEnvelope)
    (signer : Signer W) (w w' : W) (sig : Bytes)
    → HasPlainSchemes web
    → find_did_method env params.did ≡ some method
    → address_for_message env method params.did ≡ ok identifier
    → method_label env method params.did ≡ ok label
    → IsPresentable (first_line params.domain label) identifier params.uri
    → build_message env chrono params ≡ ok envelope.message
    → signer.signer_did ≡ params.did
    → origin_of web params.uri ≡ some origin
    → origin_of web base_url ≡ some origin
    → signer.sign envelope.message w ≡ (w', some sig)
    → signed_session_request env web envelope base_url signer w
      ≡ (w', ok (request_of env web envelope signer sig))
unfolding signed_session_request build_message expected_identifier
served_challenge_signed env web chrono params method identifier label origin base_url envelope
      signer w w' sig plain found address labelled presentable built same_did uri_origin base_origin
      signed =
    let chain = chain_line (chain_id env method params.did) in
    let text : message_text chrono params label identifier chain ≡ envelope.message =
      ok-inj (rw (build_message, found, address, labelled) at (built)) in
    let (rest, laid) = message_text-eq chrono params label identifier chain in
    let message = sym text ∙ laid in
    let expected : expected_identifier env web params.did ≡ ok identifier =
      rw (expected_identifier, found, address) refl in
    let bound : IsBound env web signer.signer_did base_url envelope.message = record {
      identifier = identifier;
      uri = params.uri;
      origin = origin;
      identifier_expected = ap (expected_identifier env web) same_did ∙ expected;
      identifier_named =
          ap identifier_from_message message
          ∙ identifier_from_message-laid_out _ identifier params.uri rest presentable;
      uri_named = ap uri_line message ∙ uri_line-laid_out _ identifier params.uri rest presentable;
      uri_origin = uri_origin;
      base_origin = base_origin;
    } in
    let passed =
      (check_challenge_iff env web signer.signer_did base_url envelope.message plain).1 bound in
    rw (signed_session_request, passed, signed) refl
