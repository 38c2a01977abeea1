-- ===== src/Access/Tests.antt =====
-- A nonce, a session with its refresh tokens, and a ticket. The hash of a text is the text.
use aeon_backend.Base.Dict.{lookup}
use aeon_backend.Base.{
  Error, String, [], err, false, ok, refl, some, ◌∷◌, ◌≡◌, ◌≢◌, text_key, List, ℕ, ◌≤◌,
  ne_of_==-false,
}
use aeon_backend.Access.Tickets.Once.{consume_ticket-once, LaterStep, later_steps}
use aeon_backend.Access.Tickets.{consume_ticket, consumed_ticket, save_ticket}
use aeon_backend.Access.Sessions.{
  CreateSessionRequest, create_account_session, hash_token, lookup_refresh_token, new_refresh,
  revoke_account_session, rotate_refresh_token, touch_account_session,
  admin_revoke_account_sessions,
}
use aeon_backend.Access.Nonces.Once.{consume_wallet_nonce-once, view, use_nonces}
use aeon_backend.Store.{
  GameTicket, Store, WalletLoginNonce, new, RefreshTokenRecord, AccountSession,
}
use aeon_backend.Access.Nonces.{consume_wallet_nonce, save_wallet_nonce}
use aeon_backend.Base.Text.{trim_space}
use aeon_backend.Access.Sessions.Steps.{SessionStep, create, take_steps}
use aeon_backend.Access.Sessions.Rotation.{Reach, SingleLive, here, next_step, Reach-SingleLive}
use aeon_backend.Access.Sessions.Swap.{rotate_refresh_token-swaps}
use aeon_backend.Access.Sessions.Shut.{admin_revoke_account_sessions-shuts}
use aeon_backend.Access.Sessions.Final.{revoke_account_session-final}

abbrev nonce_row : WalletLoginNonce
nonce_row = record {
  nonce = "n";
  wallet = "w";
  text = "";
  status = "";
  expires_at = 100;
  created_at = 0;
}

abbrev with_nonce : Store
with_nonce = save_wallet_nonce nonce_row 10 new

nonce_consumed : (consume_wallet_nonce "n" "w" 20 with_nonce).0 ≡ ok tt
unfolding consume_wallet_nonce save_wallet_nonce new
nonce_consumed = refl

consume_wallet_nonce-once_example :
    (consume_wallet_nonce "n" "w" 30
      (use_nonces (view "n" "w" 25 ∷ []) (consume_wallet_nonce "n" "w" 20 with_nonce).1)).0
    ≢ ok tt
consume_wallet_nonce-once_example =
    consume_wallet_nonce-once "n" "w" "w" 20 30 (view "n" "w" 25 ∷ []) with_nonce nonce_consumed

abbrev same_text : String → String
same_text t = t

abbrev request : CreateSessionRequest
request = record {
  session_id = "s1";
  account_id = 7;
  wallet_plugin = "";
  device_id = "";
  ip_address = "";
  user_agent = "";
  refresh_token = "r1";
  expires_at = 500;
}

abbrev with_session : Store
with_session = (create_account_session same_text request 10 new).1

abbrev ticket_row : GameTicket
ticket_row = record {
  ticket = "t1";
  account_id = 7;
  character_id = 1;
  server_id = "srv";
  session_id = "s1";
  expires_at = 100;
  consumed = false;
}

abbrev with_ticket : Store
with_ticket = save_ticket ticket_row with_session

ticket_admits : (consume_ticket "t1" " srv" 20 with_ticket).0 ≡ ok (consumed_ticket ticket_row)
unfolding consume_ticket save_ticket create_account_session new
ticket_admits = refl

consume_ticket-once_example :
    let later =
      later_steps (LaterStep.revoke "s2" 30 ∷ []) (consume_ticket "t1" " srv" 20 with_ticket).1 in
    consume_ticket "t1" "srv" 40 later ≡ (err Error.forbidden, later)
consume_ticket-once_example =
    consume_ticket-once "t1" " srv" "srv" 20 40 (consumed_ticket ticket_row)
      (LaterStep.revoke "s2" 30 ∷ []) with_ticket ticket_admits

-- The session is revoked at 30, after which another one is created.
abbrev other_request : CreateSessionRequest
other_request = record request { session_id = "s2"; refresh_token = "r2" }

abbrev past_revocation : List SessionStep
past_revocation = create other_request 40 ∷ []

revoke_account_session-final_example :
    let later = take_steps same_text past_revocation (revoke_account_session "s1" 30 with_ticket) in
    ((t : ℕ) → touch_account_session "s1" t later ≡ (err Error.not_found, later))
    × ((raw : String) (t : ℕ) (row : RefreshTokenRecord)
        → lookup_refresh_token same_text raw t later ≡ ok row
        → row.session_id ≢ "s1")
    × ((old_raw new_raw : String) (account expires t : ℕ)
        → rotate_refresh_token same_text old_raw new_raw "s1" account expires t later
          ≡ (err Error.forbidden, later))
    × ((ticket server : String) (t : ℕ) (r : GameTicket)
        → (consume_ticket ticket server t later).0 ≡ ok r
        → r.session_id ≢ "s1")
revoke_account_session-final_example =
    revoke_account_session-final same_text "s1" 30 past_revocation with_ticket
      (ne_of_==-false "s2" "s1" refl, tt)

two_steps : Reach same_text new with_session
unfolding new
two_steps = next_step here (create request 10) (λ req clock e h r found. cc)

Reach-SingleLive_example : SingleLive with_session
Reach-SingleLive_example = Reach-SingleLive same_text with_session two_steps

rotated_well : (rotate_refresh_token same_text "r1" "r3" "s1" 7 900 50 with_session).0 ≡ ok tt
unfolding rotate_refresh_token create_account_session new trim_space
rotated_well = refl

rotate_refresh_token-swaps_example :
    let later = (rotate_refresh_token same_text "r1" "r3" "s1" 7 900 50 with_session).1 in
    ((t : ℕ) → lookup_refresh_token same_text "r1" t later ≡ err Error.forbidden)
    × ((t : ℕ)
        → t ≤ 900
        → lookup_refresh_token same_text "r3" t later
          ≡ ok (new_refresh (hash_token same_text "r3") 7 "s1" 900 50))
unfolding trim_space
rotate_refresh_token-swaps_example =
    rotate_refresh_token-swaps same_text "r1" "r3" "s1" 7 900 50 with_session
      (ne_of_==-false (hash_token same_text "r1") (hash_token same_text "r3") refl) rotated_well

admin_revoke_account_sessions-shuts_example :
    let later = (admin_revoke_account_sessions 7 30 with_ticket).1 in
    ((id : String) (row : AccountSession) (t : ℕ)
      → lookup id with_ticket.sessions ≡ some row
      → row.account_id ≡ 7
      → touch_account_session id t later ≡ (err Error.not_found, later))
    × ((ticket server : String) (t : ℕ) (r : GameTicket)
        → (consume_ticket ticket server t later).0 ≡ ok r
        → r.account_id ≢ 7)
    × ((id : String) (row : AccountSession)
        → lookup id with_ticket.sessions ≡ some row
        → row.account_id ≢ 7
        → lookup id later.sessions ≡ some row)
    × ((raw : String) (t : ℕ)
        → lookup_refresh_token same_text raw t later
          ≡ lookup_refresh_token same_text raw t with_ticket)
admin_revoke_account_sessions-shuts_example =
    admin_revoke_account_sessions-shuts same_text 7 30 with_ticket

-- One session is revoked and its ticket refused, yet its refresh token still rotates.
still_rotates :
    let later = (admin_revoke_account_sessions 7 30 with_ticket).1 in
    ((admin_revoke_account_sessions 7 30 with_ticket).0 ≡ 1)
    × ((consume_ticket "t1" " srv" 40 later).0 ≡ err Error.forbidden)
    × ((rotate_refresh_token same_text "r1" "r3" "s1" 7 900 50 later).0 ≡ ok tt)
unfolding rotate_refresh_token create_account_session admin_revoke_account_sessions consume_ticket
    save_ticket new trim_space
still_rotates = (refl, refl, refl)
