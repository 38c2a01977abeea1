-- ===== src/Services.antt =====
-- Service identities in the in-memory store: CreateServiceIdentity,
-- ServiceIdentity, ListServiceIdentities and DisableServiceIdentity of
-- internal/platform/store/service_identities.go.
pub mod Inputs
pub mod Nonces
pub mod Distinctness
pub mod Replay
pub mod Refinement
mod Tests
use Prim.Native.String.{◌++◌ as text_append}
use aeon_backend.Base.{
  ℕ, Bool, List, [], ◌∷◌, ◌++◌, String, ◌==◌, ◌&&◌, ◌||◌, not, text_key, Option, none, some,
  if◌then◌else◌, ltb, zero, suc, take, map, Error, Result, err, ok, false,
}
use aeon_backend.Base.Int.{ℤ, pos, pos_part, leb_ℤ, ltb_ℤ}
use aeon_backend.Base.Sorting.{text_lt, sort_with}
use aeon_backend.Base.Dict.{Dict, lookup, insert}
use aeon_backend.Base.Rows.{select}
use aeon_backend.Base.Text.{trim_space}
use aeon_backend.Store.{Store, ServiceIdentity, next_of}
use aeon_backend.Services.Inputs.{
  Folding, CreateServiceIdentityInput, normalize, rune_count, has_text,
}

-- `HasCapability`
unfoldable pub has_capability : Folding → ServiceIdentity → String → Bool
unfolding has_text
has_capability fold row capability = has_text (fold.lower (trim_space capability)) row.capabilities

-- The tests of the loop of `CreateServiceIdentity` on one row.
abbrev pub same_key : CreateServiceIdentityInput → ServiceIdentity → Bool
same_key input row = row.public_key == input.public_key

abbrev pub same_subject : CreateServiceIdentityInput → ServiceIdentity → Bool
same_subject input row =
    (input.kind == "GAME_SERVER")
    && (row.kind == input.kind)
    && (row.subject_id == input.subject_id)
    && (row.status == "ACTIVE")

-- The error of that loop, if it finds one.
unfoldable pub clash : CreateServiceIdentityInput → Dict String ServiceIdentity → Option Error
clash input [] = none
clash input ((id, row) ∷ rows) =
    if same_key input row
    then some (Error.message "public key already registered")
    else if same_subject input row
    then some (Error.message "active game server subject already registered")
    else clash input rows

abbrev pub new_identity : CreateServiceIdentityInput → ℕ → ServiceIdentity
new_identity input clock = record {
  service_id = input.service_id;
  name = input.name;
  kind = input.kind;
  subject_id = input.subject_id;
  public_key = input.public_key;
  capabilities = input.capabilities;
  status = "ACTIVE";
  created_by = input.created_by;
  created_at = clock;
  disabled_by = "";
  disabled_at = none;
  disable_reason = "";
}

-- A write of a row, and the audit of it.
unfoldable pub put_identity :
    String → ServiceIdentity → String → String → String → ℕ → Store → Store
put_identity id row admin action reason clock s = record s {
  next_id = next_of s;
  service_identities = insert id row s.service_identities;
  audits =
      s.audits
      ++ record {
        id = next_of s;
        admin_id = admin;
        action = action;
        target = text_append "service_identity:" id;
        reason = reason;
        created_at = clock;
      }
        ∷ [];
}

-- `CreateServiceIdentity` behind the loop.
abbrev pub create_unless :
    Option Error → CreateServiceIdentityInput → ℕ → Store → Result ServiceIdentity × Store
create_unless (some why) input clock s = (err why, s)
create_unless none input clock s = (
  ok (new_identity input clock),
  put_identity input.service_id (new_identity input clock) input.created_by
      "service_identity_create" input.reason clock s,
)

-- `CreateServiceIdentity` on an input that is in order, behind the lookup of its identifier.
abbrev pub create_new :
    Option ServiceIdentity
    → (Dict String ServiceIdentity → Dict String ServiceIdentity)
    → CreateServiceIdentityInput
    → ℕ
    → Store
    → Result ServiceIdentity × Store
create_new (some row) visit input clock s =
    (err (Error.message "service identity already exists"), s)
create_new none visit input clock s =
    create_unless (clash input (visit s.service_identities)) input clock s

abbrev pub create_checked :
    Result CreateServiceIdentityInput
    → (Dict String ServiceIdentity → Dict String ServiceIdentity)
    → ℕ
    → Store
    → Result ServiceIdentity × Store
create_checked (err why) visit clock s = (err why, s)
create_checked (ok input) visit clock s =
    create_new (lookup input.service_id s.service_identities) visit input clock s

-- `CreateServiceIdentity`, in the order `visit` in which the map is ranged over.
unfoldable pub create_service_identity :
    Folding
    → (Dict String ServiceIdentity → Dict String ServiceIdentity)
    → CreateServiceIdentityInput
    → ℕ
    → Store
    → Result ServiceIdentity × Store
unfolding normalize clash put_identity
create_service_identity fold visit input clock s =
    create_checked (normalize fold input) visit clock s

-- The key under which a service is kept.
abbrev pub identity_key : Folding → String → String
identity_key fold id = fold.lower (trim_space id)

-- `ServiceIdentity`
unfoldable pub service_identity : Folding → String → Store → Result ServiceIdentity
service_identity fold id s = elim (lookup (identity_key fold id) s.service_identities) [
  | none ↦ err Error.not_found
  | some row ↦ ok row
]

-- The identities of a status, or all of them for the empty text.
abbrev pub has_status : String → String × ServiceIdentity → Bool
has_status status row = (status == "") || (row.1.status == status)

abbrev pub by_service_id : ServiceIdentity → ServiceIdentity → Bool
by_service_id a b = text_lt a.service_id b.service_id

-- A page of some rows: an offset below zero is zero, and a limit out of range is fifty.
abbrev pub page_from : ℤ → ℤ
page_from offset = if ltb_ℤ offset (pos 0) then pos 0 else offset

abbrev pub page_size : ℤ → ℤ
page_size limit = if leb_ℤ limit (pos 0) || ltb_ℤ (pos 200) limit then pos 50 else limit

unfoldable pub skip {ℓ} : {A : Type ℓ} → ℕ → List A → List A
skip zero xs = xs
skip (suc n) [] = []
skip (suc n) (x ∷ xs) = skip n xs

-- `ListServiceIdentities`; the order of the visits of the map does not show, as the rows are sorted by
-- their identifiers.
unfoldable pub list_service_identities : Folding → String → ℤ → ℤ → Store → List ServiceIdentity
unfolding select sort_with skip
list_service_identities fold status limit offset s =
    let rows = sort_with by_service_id (
      map (λ (row : String × ServiceIdentity). row.1)
        (select (has_status (fold.upper (trim_space status))) s.service_identities)) in
    take (pos_part (page_size limit)) (skip (pos_part (page_from offset)) rows)

abbrev pub disabled_identity : String → String → ℕ → ServiceIdentity → ServiceIdentity
disabled_identity admin reason clock row = record row {
  status = "DISABLED";
  disabled_by = admin;
  disabled_at = some clock;
  disable_reason = reason;
}

-- `DisableServiceIdentity` behind the lookup.
abbrev pub disable_row :
    Option ServiceIdentity → String → String → String → ℕ → Store → Result ServiceIdentity × Store
disable_row none id admin reason clock s = (err Error.not_found, s)
disable_row (some row) id admin reason clock s = if row.status == "DISABLED" then (ok row, s) else (
  ok (disabled_identity admin reason clock row),
  put_identity id (disabled_identity admin reason clock row) admin "service_identity_disable" reason
      clock s,
)

-- `DisableServiceIdentity`
unfoldable pub disable_service_identity :
    Folding → String → String → String → ℕ → Store → Result ServiceIdentity × Store
unfolding put_identity
disable_service_identity fold id admin reason clock s =
    if (trim_space admin == "")
      || (trim_space reason == "")
      || ltb 500 (rune_count (trim_space reason))
    then (err (Error.message "disabledBy and reason are required"), s)
    else disable_row (lookup (identity_key fold id) s.service_identities) (identity_key fold id)
        (trim_space admin) (trim_space reason) clock s
