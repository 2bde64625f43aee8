-- ===== src/Auth/Accounts.antt =====
-- backend/app/services/auth/auth_service.py and token_service.py: accounts, sign-in and the rotation of
-- sessions. A service call reads the clock several times: `Clock` holds what it reads, in that order.
-- The random token and salt are arguments; signing a token, SHA-256, PBKDF2 and base64 are parameters.
pub mod Requests
pub mod Revoked
pub mod Rotation
use gummy_os.Common.{
  ℕ, suc, ◌+◌, ◌*◌, Text, codes, text_eq, lower, strip, is_given, Bool, true, false, ◌&&◌, ◌||◌,
  not, ◌==◌, leb, List, [], ◌∷◌, ◌++◌, any, find, update, Option, none, some, Result, ok, err,
  if◌then◌else◌,
}
use gummy_os.Auth.{User, RefreshToken, Db}
use gummy_os.Auth.Passwords.{HashError, hash_password, verify_password, needs_rehash}

-- `value_error` is what `verify_password` lets through; `integrity_error` the unique index on the hash
-- of a refresh token.
pub data AuthError : Type 0 where
  email_taken invalid_credentials invalid_refresh_token integrity_error value_error : AuthError

pub record Clock : Type 0 where
  pub checked_at : ℕ
  pub access_at : ℕ
  pub refresh_at : ℕ
  pub login_at : ℕ

pub record Settings : Type 0 where
  pub access_ttl_minutes : ℕ
  pub refresh_ttl_days : ℕ
  pub issuer : Text

-- The claims of an access token; the audience is fixed.
pub record Payload : Type 0 where
  pub sub : ℕ
  pub iss : Text
  pub iat : ℕ
  pub exp : ℕ
  pub email : Option Text
  pub full_name : Option Text

pub record IssuedSession : Type 0 where
  pub access_token : Text
  pub refresh_token : Text
  pub expires_in : ℕ

pub record AuthResult : Type 0 where
  pub user : User
  pub session : IssuedSession

pub record GoogleIdentity : Type 0 where
  pub google_sub : Text
  pub email : Text
  pub display_name : Option Text
  pub avatar_url : Option Text

abbrev pub minute : ℕ
minute = 60000000

abbrev pub day : ℕ
day = 86400000000

-- Only a text that is not empty is true.
abbrev pub truthy : Option Text → Option Text
truthy none = none
truthy (some []) = none
truthy (some (c ∷ s)) = some (c ∷ s)

unfoldable pub normalize_email : Text → Text
unfolding lower strip
normalize_email email = lower (strip email)

unfoldable pub expired : (now : ℕ) → RefreshToken → Bool
expired now t = leb t.expires_at now

unfoldable refresh_expiry : Settings → (now : ℕ) → ℕ
refresh_expiry settings now = now + settings.refresh_ttl_days * day

unfoldable pub save_user : User → Db → Db
save_user user db = record db {
  users = update (λ (u : User). u.id == user.id) (λ _. user) db.users;
}

unfoldable pub user_by_email : Text → Db → Option User
user_by_email email db = find (λ (u : User). text_eq u.email email) db.users

unfoldable has_sub : Text → User → Bool
has_sub sub u = elim u.google_sub [ none ↦ false | some s ↦ text_eq s sub ]

unfoldable pub get_user_by_id : (user_id : ℕ) → Db → Option User
get_user_by_id user_id db = find (λ (u : User). u.id == user_id) db.users

unfoldable new_user :
    (id : ℕ) (email : Text) (password_hash display_name avatar_url google_sub : Option Text) → User
new_user id email password_hash display_name avatar_url google_sub = record {
  id = id;
  email = email;
  password_hash = password_hash;
  display_name = display_name;
  avatar_url = avatar_url;
  google_sub = google_sub;
  last_login_at = none;
}

-- The insert of an account.
unfoldable pub insert_user : User → Db → Db
insert_user user db = record db { users = db.users ++ user ∷ []; next_id = suc db.next_id }

-- `revoked_at` of one row.
unfoldable pub revoke_token : RefreshToken → (now : ℕ) → Db → Db
revoke_token t now db = record db {
  refresh_tokens =
      update (λ (x : RefreshToken). x.id == t.id) (λ x. record x { revoked_at = some now })
        db.refresh_tokens;
}

-- A parallel worker cannot insert between the read and the flush here, so the branch that reads again
-- after an `IntegrityError` is not reached.
unfoldable get_or_create_owner : (email : Text) → Db → User × Db
unfolding normalize_email user_by_email insert_user new_user
get_or_create_owner email db = elim (user_by_email (normalize_email email) db) [
  | some user ↦ (user, db)
  | none ↦
      let user =
        new_user db.next_id (normalize_email email) none (some (codes "Owner")) none none in
      (user, insert_user user db)
]

module _ (pbkdf2 : (password salt : Text) (rounds dklen : ℕ) → Text) (b64 : Text → Text) where
  -- The account that signs up.
  unfoldable pub password_account :
      (id : ℕ) (email password : Text) (display_name : Option Text) (salt : Text) → User
  unfolding normalize_email hash_password new_user strip
  password_account id email password display_name salt =
      let name : Option Text = elim display_name [
        | none ↦ none
        | some s ↦ truthy (some (strip s))
      ] in
      new_user id (normalize_email email) (some (hash_password b64 pbkdf2 salt password)) name none
        none

  -- The account with a hash of today's strength.
  unfoldable pub upgrade : (password salt : Text) → User → Result AuthError User
  unfolding needs_rehash hash_password
  upgrade password salt user = elim (needs_rehash user.password_hash) [
    | err e ↦ err value_error
    | ok true ↦ ok (record user { password_hash = some (hash_password b64 pbkdf2 salt password) })
    | ok false ↦ ok user
  ]

unfoldable pub google_account : (id : ℕ) → GoogleIdentity → User
unfolding new_user
google_account id identity =
    new_user id identity.email none identity.display_name identity.avatar_url
      (some identity.google_sub)

-- The account that a verified Google identity stands for, saved.
unfoldable pub link_google : GoogleIdentity → User → User
link_google identity user = record user {
  avatar_url = elim (truthy identity.avatar_url) [ none ↦ user.avatar_url | some url ↦ some url ];
  display_name = elim (truthy identity.display_name) [
    | none ↦ user.display_name
    | some name ↦ if is_given (truthy user.display_name) then user.display_name else some name
  ];
}

unfoldable pub resolve_google : GoogleIdentity → Db → Option User
unfolding has_sub user_by_email
resolve_google identity db = elim (find (has_sub identity.google_sub) db.users) [
  | some user ↦ some user
  | none ↦ elim (user_by_email identity.email db) [
    | some user ↦ some (record user { google_sub = some identity.google_sub })
    | none ↦ none
  ]
]

module _ (encode : Payload → Text) where
  unfoldable create_access_token : User → Settings → (now : ℕ) → Text × ℕ
  create_access_token user settings now = (
    encode (record {
      sub = user.id;
      iss = settings.issuer;
      iat = now;
      exp = now + settings.access_ttl_minutes * minute;
      email = truthy (some user.email);
      full_name = truthy user.display_name;
    }),
    settings.access_ttl_minutes * 60,
  )

module _ (sha256 : Text → Text) where
  unfoldable pub hash_refresh_token : (token : Text) → Text
  hash_refresh_token token = sha256 token

  unfoldable pub find_refresh : (token : Text) → Db → Option RefreshToken
  unfolding hash_refresh_token
  find_refresh token db =
      find (λ (t : RefreshToken). text_eq t.token_hash (hash_refresh_token token)) db.refresh_tokens

  unfoldable pub revoke_session : (refresh_token : Text) (now : ℕ) → Db → Db
  unfolding find_refresh revoke_token
  revoke_session refresh_token now db = elim (find_refresh refresh_token db) [
    | none ↦ db
    | some t ↦ if is_given t.revoked_at then db else revoke_token t now db
  ]

  module _ (encode : Payload → Text) (settings : Settings) where
    -- The row of the account that `_issue_session` stamps, the new token, and the pair that is shown.
    unfoldable pub issue_session :
        User → (raw : Text) → Clock → Db → Result AuthError (AuthResult × Db)
    unfolding hash_refresh_token refresh_expiry save_user create_access_token
    issue_session user raw clock db =
        let (access_token, expires_in) = create_access_token encode user settings clock.access_at in
        let stamped = record user { last_login_at = some clock.login_at } in
        if any (λ (t : RefreshToken). text_eq t.token_hash (hash_refresh_token raw))
          db.refresh_tokens
        then err integrity_error
        else ok (
          record {
            user = stamped;
            session = record {
              access_token = access_token;
              refresh_token = raw;
              expires_in = expires_in;
            };
          },
          save_user stamped (record db {
            refresh_tokens =
                db.refresh_tokens
                ++ record {
                  id = db.next_id;
                  user_id = user.id;
                  token_hash = hash_refresh_token raw;
                  expires_at = refresh_expiry settings clock.refresh_at;
                  revoked_at = none;
                }
                  ∷ [];
            next_id = suc db.next_id;
          }),
        )

    unfoldable pub refresh_session :
        (refresh_token raw : Text) → Clock → Db → Result AuthError (AuthResult × Db)
    unfolding find_refresh expired get_user_by_id revoke_token issue_session
    refresh_session refresh_token raw clock db = elim (find_refresh refresh_token db) [
      | none ↦ err invalid_refresh_token
      | some t ↦
          if is_given t.revoked_at || expired clock.checked_at t
          then err invalid_refresh_token
          else elim (get_user_by_id t.user_id db) [
            | none ↦ err invalid_refresh_token
            | some user ↦ issue_session user raw clock (revoke_token t clock.checked_at db)
          ]
    ]

    unfoldable pub sign_in_with_google :
        GoogleIdentity → (raw : Text) → Clock → Db → Result AuthError (AuthResult × Db)
    unfolding resolve_google link_google google_account insert_user save_user issue_session
    sign_in_with_google identity raw clock db = elim (resolve_google identity db) [
      | none ↦
          let user = google_account db.next_id identity in
          issue_session user raw clock (insert_user user db)
      | some user ↦
          let linked = link_google identity user in
          issue_session linked raw clock (save_user linked db)
    ]

    module _ (pbkdf2 : (password salt : Text) (rounds dklen : ℕ) → Text) (b64 : Text → Text) where
      unfoldable pub sign_up :
          (email password : Text) (display_name : Option Text) (salt raw : Text)
          → Clock
          → Db
          → Result AuthError (AuthResult × Db)
      unfolding normalize_email user_by_email password_account insert_user issue_session
      sign_up email password display_name salt raw clock db =
          if is_given (user_by_email (normalize_email email) db)
          then err email_taken
          else let user = password_account pbkdf2 b64 db.next_id email password display_name salt in
            issue_session user raw clock (insert_user user db)

      module _ (unb64 : Text → Option Text) where
        unfoldable pub sign_in :
            (email password salt raw : Text) → Clock → Db → Result AuthError (AuthResult × Db)
        unfolding normalize_email user_by_email verify_password upgrade save_user issue_session
        sign_in email password salt raw clock db = elim (user_by_email (normalize_email email) db) [
          | none ↦ err invalid_credentials
          | some user ↦ elim (verify_password unb64 pbkdf2 password user.password_hash) [
            | err e ↦ err value_error
            | ok false ↦ err invalid_credentials
            | ok true ↦ elim (upgrade pbkdf2 b64 password salt user) [
              | err e ↦ err e
              | ok upgraded ↦ issue_session upgraded raw clock (save_user upgraded db)
            ]
          ]
        ]
