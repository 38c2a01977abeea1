-- ===== src/Services/Inputs.antt =====
-- What a request to create a service identity must satisfy: normalizeServiceIdentityInput of
-- internal/platform/store/service_identities.go.
use aeon_backend.Base.{
  ℕ, Bool, List, [], ◌∷◌, ◌++◌, String, ◌==◌, ◌&&◌, ◌||◌, not, text_key, nat_key, if◌then◌else◌,
  leb, ltb, length, Error, Result, err, ok, guard, ◌>>=◌, ◌>>◌, or_fail, true, false,
}
use aeon_backend.Base.Dict.{Dict, lookup}
use aeon_backend.Base.Text.{codes, trim_space}
use aeon_backend.Base.Sorting.{text_lt, sort_with}
use aeon_backend.Chain.Base58.{decode_base58}

-- `strings.ToLower` and `strings.ToUpper`
pub record Folding : Type 0 where
  pub lower : String → String
  pub upper : String → String

-- `capabilitiesByKind`
abbrev pub capabilities_by_kind : Dict String (List String)
capabilities_by_kind =
    ("GAME_SERVER", "account.gameplay" ∷ "economy.gameplay" ∷ [])
    ∷ ("WORKER", "economy.worker" ∷ [])
    ∷ ("CHAIN_OPERATOR", "economy.payments" ∷ [])
    ∷ ("MINT_OPERATOR", "economy.mint" ∷ [])
    ∷ ("OPS", "account.ops" ∷ "economy.boss_ops" ∷ "economy.rewards" ∷ [])
    ∷ []

pub record CreateServiceIdentityInput : Type 0 where
  pub service_id : String
  pub name : String
  pub kind : String
  pub subject_id : String
  pub public_key : String
  pub capabilities : List String
  pub created_by : String
  pub reason : String

-- `[a-z0-9]`
abbrev pub is_id_start : ℕ → Bool
is_id_start c = (leb b'a' c && leb c b'z') || (leb b'0' c && leb c b'9')

-- `[a-z0-9._-]`
abbrev pub is_id_char : ℕ → Bool
is_id_char c = is_id_start c || (c == b'.') || (c == b'_') || (c == b'-')

abbrev pub all_id_chars : List ℕ → Bool
all_id_chars [] = true
all_id_chars (c ∷ cs) = is_id_char c && all_id_chars cs

-- `serviceIDPattern`
abbrev pub is_service_id : List ℕ → Bool
is_service_id [] = false
is_service_id (c ∷ cs) = is_id_start c && all_id_chars cs && leb 2 (length cs) && leb (length cs) 63

-- `utf8.RuneCountInString`
abbrev pub rune_count : String → ℕ
rune_count s = length (codes s)

-- Whether a list of texts holds a text.
unfoldable pub has_text : String → List String → Bool
has_text t [] = false
has_text t (u ∷ us) = (u == t) || has_text t us

-- A public key is 32 bytes in Base58.
abbrev pub is_public_key : Result (List ℕ) → Bool
is_public_key (err why) = false
is_public_key (ok key) = length key == 32

-- The loop over the capabilities, with those that are kept so far.
unfoldable pub allowed_capabilities :
    Folding → List String → List String → List String → Result (List String)
unfolding has_text
allowed_capabilities fold allowed kept [] = ok kept
allowed_capabilities fold allowed kept (name ∷ names) =
    let capability = fold.lower (trim_space name) in
    let rest =
      allowed_capabilities fold allowed
        (if has_text capability kept then kept else kept ++ capability ∷ []) names in
    if has_text capability allowed then rest else err (Error.message "capability is not allowed")

-- The fields with the spaces around them removed.
abbrev pub trimmed : Folding → CreateServiceIdentityInput → CreateServiceIdentityInput
trimmed fold input = record {
  service_id = fold.lower (trim_space input.service_id);
  name = trim_space input.name;
  kind = fold.upper (trim_space input.kind);
  subject_id = trim_space input.subject_id;
  public_key = trim_space input.public_key;
  capabilities = input.capabilities;
  created_by = trim_space input.created_by;
  reason = trim_space input.reason;
}

-- The checks of the trimmed fields.
unfoldable pub checked : Folding → CreateServiceIdentityInput → Result CreateServiceIdentityInput
unfolding allowed_capabilities decode_base58 sort_with
checked fold input =
    guard (is_service_id (codes input.service_id))
      (Error.message "serviceId must be 3-64 lowercase letters, digits, dot, underscore, or dash")
    >> guard (not ((input.name == "") || ltb 100 (rune_count input.name)))
        (Error.message "name must be 1-100 characters")
    >> (or_fail (lookup input.kind capabilities_by_kind)
          (Error.message "kind must be GAME_SERVER, WORKER, CHAIN_OPERATOR, MINT_OPERATOR, or OPS")
        >>= λ allowed.
            guard (not ((input.kind == "GAME_SERVER") && (input.subject_id == "")))
              (Error.message "subjectId is required for GAME_SERVER")
            >> guard (leb (rune_count input.subject_id) 100)
                (Error.message "subjectId must not exceed 100 characters")
            >> guard (is_public_key (decode_base58 (codes input.public_key)))
                (Error.message "publicKey must be a 32-byte Ed25519 base58 public key")
            >> guard (not (input.created_by == "")) (Error.message "createdBy is required")
            >> guard (not ((input.reason == "") || ltb 500 (rune_count input.reason)))
                (Error.message "reason must be 1-500 characters")
            >> guard
                (not (
                  (length input.capabilities == 0)
                  || ltb (length allowed) (length input.capabilities)))
                (Error.message "capabilities are required and must match identity kind")
            >> (allowed_capabilities fold allowed [] input.capabilities >>= λ kept.
                ok (record input { capabilities = sort_with text_lt kept })))

-- `normalizeServiceIdentityInput`
unfoldable pub normalize : Folding → CreateServiceIdentityInput → Result CreateServiceIdentityInput
unfolding checked
normalize fold input = checked fold (trimmed fold input)
