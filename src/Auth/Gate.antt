-- ===== src/Auth/Gate.antt =====
-- Who passes the bearer tokens, the passwords and the magic links.
use wiregui.Base.{
  ℕ, ◌+◌, ◌++◌, ◌≡◌, ◌≢◌, ◌↔◌, refl, sym, ap, ◌∙◌, true, false, Option, none, some, Text, ltb,
  if◌then◌else◌, inl, inr, Bool-cases, none-ne-some, some-eq, starts_with, codes, drop, eqb_refl,
  length, strip, ◌==◌,
}
use wiregui.Base.Guards.{if_some, unless_some, when_some, starts_with-drop}
use wiregui.Settings.{Settings}
use wiregui.Models.{User, ApiToken}
use wiregui.Database.{Database, find}
use wiregui.Auth.Libraries.{Primitives}
use wiregui.Auth.Tokens.{
  Reply, reply, http_error, is_enabled, is_admin, enabled_user, is_expired, token_hmac,
  user_of_token, resolve_bearer_token, get_current_api_user, require_admin, or_401, or_403,
  with_password, fits, authenticate_user, create_access_token, decode_access_token,
}
use wiregui.Auth.Login.{
  Browser, identity_of, sign_in, request_link, verify_link, named_user, track_sign_in,
  enter_by_link,
}

enabled_user_iff :
    (o : Option User) (u : User)
    → (enabled_user o ≡ some u) ↔ ((o ≡ some u) × (is_enabled u ≡ true))
enabled_user_iff none u = (λ h. absurd (none-ne-some h), λ h. h.0)
enabled_user_iff (some v) u = (
  λ h.
      (let (on, same) = (if_some (is_enabled v) v u).0 h in
        (ap some same, ap (λ w. is_enabled w) (sym same) ∙ on)),
  λ h. (if_some (is_enabled v) v u).1 (ap (λ w. is_enabled w) (some-eq h.0) ∙ h.1, some-eq h.0),
)

error-ne-reply {ℓ} : {A : Type ℓ} {status : ℕ} {a : A} → http_error status ≢ reply a
error-ne-reply h = cc

reply-eq {ℓ} : {A : Type ℓ} {a b : A} → reply a ≡ reply b → a ≡ b
reply-eq h = cc

module _ (settings : Settings) (p : Primitives) where
  user_of_token_iff :
      (db : Database) (now : ℕ) (o : Option ApiToken) (u : User)
      → (user_of_token settings p db now o ≡ some u) ↔ (
          (t : ApiToken) × (o ≡ some t)
          × (is_expired t.expires_at now ≡ false)
          × (find (λ r. r.id) t.user_id db.users ≡ some u)
          × (is_enabled u ≡ true))
  unfolding user_of_token
  user_of_token_iff db now none u = (λ h. absurd (none-ne-some h), λ h. absurd (none-ne-some h.1))
  user_of_token_iff db now (some t) u = (
    λ h.
        (let (valid, there) = (unless_some (is_expired t.expires_at now) _ u).0 h in
          let (found, on) = (enabled_user_iff (find (λ r. r.id) t.user_id db.users) u).0 there in
          (t, refl, valid, found, on)),
    λ h.
        (let same = some-eq h.1 in
          (unless_some (is_expired t.expires_at now) _ u).1 (
            ap (λ (r : ApiToken). is_expired r.expires_at now) same ∙ h.2,
            (enabled_user_iff (find (λ r. r.id) t.user_id db.users) u).1
                (ap (λ (r : ApiToken). find (λ v. v.id) r.user_id db.users) same ∙ h.3, h.4),
          )),
  )

  -- A bearer token resolves to a user exactly if it is the token of a row that has not expired,
  -- and the user of that row is there and enabled.
  pub resolve_bearer_token_iff :
      (db : Database) (now : ℕ) (token : Text) (u : User)
      → (resolve_bearer_token settings p db now token ≡ some u) ↔ (
          (t : ApiToken) × (find (λ r. r.token_hash) (token_hmac settings p token) db.api_tokens
            ≡ some t)
          × (is_expired t.expires_at now ≡ false)
          × (find (λ r. r.id) t.user_id db.users ≡ some u)
          × (is_enabled u ≡ true))
  unfolding resolve_bearer_token
  resolve_bearer_token_iff db now token u =
      user_of_token_iff db now
        (find (λ r. r.token_hash) (token_hmac settings p token) db.api_tokens) u

  or_401-reply : (o : Option User) (u : User) → or_401 settings p o ≡ reply u → o ≡ some u
  or_401-reply none u h = absurd (error-ne-reply h)
  or_401-reply (some v) u h = ap some (reply-eq h)

  or_403-reply :
      (r : Reply User) (u : User)
      → or_403 settings p r ≡ reply u
      → (r ≡ reply u) × (is_admin u ≡ true)
  or_403-reply (http_error status) u h = absurd (error-ne-reply h)
  or_403-reply (reply v) u h = elim (Bool-cases (is_admin v)) [
    | inl admin ↦
        (let same = reply-eq (ap (λ b. if b then reply v else http_error 403) (sym admin) ∙ h) in
          (ap reply same, ap (λ w. is_admin w) (sym same) ∙ admin))
    | inr other ↦
        absurd (error-ne-reply (ap (λ b. if b then reply v else http_error 403) (sym other) ∙ h))
  ]

  bearer-reply :
      (db : Database) (now : ℕ) (header : Text) (u : User)
      → get_current_api_user settings p db now header ≡ reply u
      → (starts_with (codes "Bearer ") header ≡ true)
        × (resolve_bearer_token settings p db now (drop 7 header) ≡ some u)
  unfolding get_current_api_user
  bearer-reply db now header u h = elim (Bool-cases (starts_with (codes "Bearer ") header)) [
    | inl bearer ↦ (
      bearer,
      or_401-reply _ u (
          ap
            (λ b.
              if b
              then or_401 settings p (resolve_bearer_token settings p db now (drop 7 header))
              else http_error 401)
            (sym bearer)
          ∙ h),
    )
    | inr other ↦ absurd (
        error-ne-reply (
          ap
            (λ b.
              if b
              then or_401 settings p (resolve_bearer_token settings p db now (drop 7 header))
              else http_error 401)
            (sym other)
          ∙ h))
  ]

  -- Whoever passes `require_admin` has sent the token of a row that has not expired, and is an
  -- administrator that is not disabled.
  pub require_admin_lem :
      (db : Database) (now : ℕ) (header : Text) (u : User)
      → require_admin settings p db now header ≡ reply u
      → (t : ApiToken) × (header ≡ codes "Bearer " ++ drop 7 header)
        × (find (λ r. r.token_hash) (token_hmac settings p (drop 7 header)) db.api_tokens ≡ some t)
        × (is_expired t.expires_at now ≡ false)
        × (find (λ r. r.id) t.user_id db.users ≡ some u)
        × (is_enabled u ≡ true)
        × (is_admin u ≡ true)
  unfolding require_admin
  require_admin_lem db now header u h =
      let (passed, admin) = or_403-reply (get_current_api_user settings p db now header) u h in
      let (bearer, resolved) = bearer-reply db now header u passed in
      let (t, row, valid, found, on) =
        (resolve_bearer_token_iff db now (drop 7 header) u).0 resolved in
      (t, starts_with-drop (codes "Bearer ") header bearer, row, valid, found, on, admin)

  fits_iff :
      (password : Text) (v u : User) (o : Option Text)
      → (fits settings p password v o ≡ some u) ↔ (
          (hash : Text) × (v ≡ u)
          × (o ≡ some hash)
          × (p.checkpw password hash ≡ true)
          × (is_enabled u ≡ true))
  fits_iff password v u none = (λ h. absurd (none-ne-some h), λ h. absurd (none-ne-some h.2))
  fits_iff password v u (some hash) = (
    λ h.
        (let (ok, there) = (when_some (p.checkpw password hash) _ u).0 h in
          let (same, on) = (enabled_user_iff (some v) u).0 there in
          (hash, some-eq same, refl, ok, on)),
    λ h. (when_some (p.checkpw password hash) _ u).1 (
      ap (p.checkpw password) (some-eq h.2) ∙ h.3,
      (enabled_user_iff (some v) u).1 (ap some h.1, h.4),
    ),
  )

  with_password_iff :
      (password : Text) (o : Option User) (u : User)
      → (with_password settings p password o ≡ some u) ↔ (
          (hash : Text) × (o ≡ some u)
          × (u.password_hash ≡ some hash)
          × (p.checkpw password hash ≡ true)
          × (is_enabled u ≡ true))
  with_password_iff password none u = (λ h. absurd (none-ne-some h), λ h. absurd (none-ne-some h.1))
  with_password_iff password (some v) u = (
    λ h.
        (let (hash, same, has_hash, ok, on) = (fits_iff password v u v.password_hash).0 h in
          (hash, ap some same, ap (λ (w : User). w.password_hash) (sym same) ∙ has_hash, ok, on)),
    λ h.
        (fits_iff password v u v.password_hash).1
          (h.0, some-eq h.1, ap (λ (w : User). w.password_hash) (some-eq h.1) ∙ h.2, h.3, h.4),
  )

  -- A password signs a user in exactly if the user of that address has a password that it fits,
  -- and is not disabled.
  pub authenticate_user_iff :
      (db : Database) (email password : Text) (u : User)
      → (authenticate_user settings p db email password ≡ some u) ↔ (
          (hash : Text) × (find (λ r. r.email) email db.users ≡ some u)
          × (u.password_hash ≡ some hash)
          × (p.checkpw password hash ≡ true)
          × (is_enabled u ≡ true))
  unfolding authenticate_user
  authenticate_user_iff db email password u =
      with_password_iff password (find (λ r. r.email) email db.users) u

  link_result :
      (sent now : ℕ) (u : User) (db : Database) (b : Browser)
      → verify_link settings p now u.id
          (create_access_token settings p sent u.id u.role (some 900))
          db
          b
        ≡ (if ltb now (sent + 900)
            then enter_by_link settings p now (enabled_user (find (λ r. r.id) u.id db.users)) db b
            else (db, b))
  unfolding verify_link create_access_token decode_access_token
  link_result sent now u db b =
      ap (λ o. enter_by_link settings p now (named_user settings p db u.id o) db b)
        (p.jwt_law settings.secret_key now (record { sub = u.id; role = u.role; exp = sent + 900 }))
      ∙ (elim (Bool-cases (ltb now (sent + 900))) [
        | inl early ↦ rw (early, eqb_refl u.id) refl
        | inr late ↦ rw late refl
      ])

  -- Asking for a link with the address of a user who is not disabled mails a link to that address.
  -- Opened less than 15 minutes after it was asked for, it signs the user in and tracks the sign-in,
  -- provided that the user is still there and not disabled; in every other case it changes nothing.
  pub verify_link-request_link :
      (db db' : Database) (sent now : ℕ) (input : Text) (u : User) (b : Browser)
      → (length (strip input) == 0) ≡ false
      → find (λ r. r.email) (strip input) db.users ≡ some u
      → is_enabled u ≡ true
      → (token : Text) × (request_link settings p sent input db
          ≡ some (
            strip input,
            settings.external_url ++ (codes "/auth/magic/" ++ (u.id ++ (codes "/" ++ token))),
          ))
        × (verify_link settings p now u.id token db' b ≡ (
            if ltb now (sent + 900)
            then elim (find (λ r. r.id) u.id db'.users) [
              | none ↦ (db', b)
              | some u' ↦
                  if is_enabled u'
                  then (
                    track_sign_in now (codes "magic_link") u'.id db',
                    sign_in (identity_of u') b,
                  )
                  else (db', b)
            ]
            else (db', b)))
  unfolding request_link
  verify_link-request_link db db' sent now input u b there found on = (
    create_access_token settings p sent u.id u.role (some 900),
    rw (there, found, on) refl,
    link_result sent now u db' b
        ∙ ap (λ (r : Database × Browser). if ltb now (sent + 900) then r else (db', b))
            (enter_enabled (find (λ r. r.id) u.id db'.users)),
  )
    where
      enter_enabled :
          (o : Option User)
          → enter_by_link settings p now (enabled_user o) db' b ≡ elim o [
            | none ↦ (db', b)
            | some u' ↦
                if is_enabled u'
                then (track_sign_in now (codes "magic_link") u'.id db', sign_in (identity_of u') b)
                else (db', b)
          ]
      enter_enabled none = refl
      enter_enabled (some u') = elim (Bool-cases (is_enabled u')) [
        | inl enabled ↦ rw enabled refl
        | inr disabled ↦ rw disabled refl
      ]
