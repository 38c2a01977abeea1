-- ===== src/Players/Accounts/Wallets.antt =====
-- A wallet logs in to the same account again.
use aeon_backend.Base.Dict.{insert, lookup, lookup-insert_self}
use aeon_backend.Base.{
  Option-cases, String, ap, inl, inr, none, refl, some, sym, ℕ, ◌∙◌, ◌≡◌, text_key, nat_key,
}
use aeon_backend.Store.{Account, Store, next_of}
use aeon_backend.Players.Accounts.{logged_in, upsert_account_by_wallet, open_account}

pub upsert-known :
    (wallet : String) (now id : ℕ) (row : Account) (s : Store)
    → lookup wallet s.by_wallet ≡ some id
    → lookup id s.accounts ≡ some row
    → upsert_account_by_wallet wallet now s
      ≡ (some (logged_in now row), record s { accounts = insert id (logged_in now row) s.accounts })
unfolding upsert_account_by_wallet
upsert-known wallet now id row s e f = rw (upsert_account_by_wallet, e, f) refl

pub upsert-dangling :
    (wallet : String) (now id : ℕ) (s : Store)
    → lookup wallet s.by_wallet ≡ some id
    → lookup id s.accounts ≡ none
    → upsert_account_by_wallet wallet now s ≡ (none, s)
unfolding upsert_account_by_wallet
upsert-dangling wallet now id s e f = rw (upsert_account_by_wallet, e, f) refl

pub upsert-unknown :
    (wallet : String) (now : ℕ) (s : Store)
    → lookup wallet s.by_wallet ≡ none
    → upsert_account_by_wallet wallet now s
      ≡ (some (open_account wallet now s).0, (open_account wallet now s).1)
unfolding upsert_account_by_wallet
upsert-unknown wallet now s e = rw (upsert_account_by_wallet, e) refl

-- The second login finds the row that the first one left.
upsert-again :
    (wallet : String) (now later : ℕ) (row : Account) (s : Store)
    → (upsert_account_by_wallet wallet now s).0 ≡ some row
    → let once = (upsert_account_by_wallet wallet now s).1 in
      (id : ℕ) × (upsert_account_by_wallet wallet later once ≡ (
        some (logged_in later row),
        record once { accounts = insert id (logged_in later row) once.accounts },
      ))
upsert-again wallet now later row s h = elim (Option-cases (lookup wallet s.by_wallet)) [
  | inl e ↦
      let q = upsert-unknown wallet now s e in
      again (next_of s) (open_account wallet now s).1 (open_account wallet now s).0
        (ap (λ x. x.1) q) (unfold open_account in lookup-insert_self wallet (next_of s) s.by_wallet)
        (unfold open_account in
          lookup-insert_self (next_of s) (open_account wallet now s).0 s.accounts)
        (sym (ap (λ x. x.0) q) ∙ h)
  | inr (id, e) ↦ elim (Option-cases (lookup id s.accounts)) [
    | inl f ↦ cc (sym (ap (λ x. x.0) (upsert-dangling wallet now id s e f)) ∙ h)
    | inr (old, f) ↦
        let q = upsert-known wallet now id old s e f in
        again id (record s { accounts = insert id (logged_in now old) s.accounts })
          (logged_in now old) (ap (λ x. x.1) q) e
          (lookup-insert_self id (logged_in now old) s.accounts) (sym (ap (λ x. x.0) q) ∙ h)
  ]
]
  where
    again :
        (id : ℕ) (t : Store) (r : Account)
        → (upsert_account_by_wallet wallet now s).1 ≡ t
        → lookup wallet t.by_wallet ≡ some id
        → lookup id t.accounts ≡ some r
        → some r ≡ some row
        → let once = (upsert_account_by_wallet wallet now s).1 in
          (id : ℕ) × (upsert_account_by_wallet wallet later once ≡ (
            some (logged_in later row),
            record once { accounts = insert id (logged_in later row) once.accounts },
          ))
    again id t r e f g same =
        let once = (upsert_account_by_wallet wallet now s).1 in
        (
          id,
          upsert-known wallet later id row once
              (ap (λ (x : Store). lookup wallet x.by_wallet) e ∙ f)
              (ap (λ (x : Store). lookup id x.accounts) e ∙ g ∙ same),
        )

-- What the second of two logins of a wallet returns, given the row that the first one returned.
pub record SameAccount (later : ℕ) (row row' : Account) : Type 0 where
  pub id : row'.id ≡ row.id
  pub username : row'.username ≡ row.username
  pub wallet_address : row'.wallet_address ≡ row.wallet_address
  pub is_banned : row'.is_banned ≡ row.is_banned
  pub created_at : row'.created_at ≡ row.created_at
  pub last_login_at : row'.last_login_at ≡ later

-- After a wallet's login, the next login of the wallet succeeds and returns the same account, with
-- the identifier, name, wallet, ban and time of creation that the first one returned and the time of
-- the second; it hands out no identifier, and links no wallet.
pub upsert_account_by_wallet-again :
    (wallet : String) (now later : ℕ) (row : Account) (s : Store)
    → (upsert_account_by_wallet wallet now s).0 ≡ some row
    → let once = (upsert_account_by_wallet wallet now s).1 in
      let twice = upsert_account_by_wallet wallet later once in
      (row' : Account) × (twice.0 ≡ some row')
      × SameAccount later row row'
      × (next_of twice.1 ≡ next_of once)
      × (twice.1.by_wallet ≡ once.by_wallet)
upsert_account_by_wallet-again wallet now later row s h =
    let (id, q) = upsert-again wallet now later row s h in
    (
      logged_in later row,
      ap (λ x. x.0) q,
      record {
        id = refl;
        username = refl;
        wallet_address = refl;
        is_banned = refl;
        created_at = refl;
        last_login_at = refl;
      },
      ap (λ x. next_of x.1) q,
      ap (λ x. x.1.by_wallet) q,
    )
