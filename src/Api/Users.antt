-- ===== src/Api/Users.antt =====
-- wiregui/api/v0/users.py
use wiregui.Base.{
  Bool, true, false, not, ◌||◌, Option, none, some, List, [], ◌∷◌, Text, if◌then◌else◌,
}
use wiregui.Base.SortedText.{leb_text}
use wiregui.Settings.{Settings}
use wiregui.Models.{User, Device, Rule, Configuration}
use wiregui.Database.{Database, find, put_row}
use wiregui.Nft.{Nftables}
use wiregui.Host.{Host}
use wiregui.Events.{World}
use wiregui.Auth.{Primitives, Reply, reply, http_error, new_user}
use wiregui.Accounts.{delete_user_and_cleanup}
use wiregui.Api.Requests.{UserCreate, UserUpdate, Draws, patched, patched_value, is_null}

-- What a call gives back. A request that the database or an allocation refuses is an error 500.
pub data Body : Type 0 where
  users_body : List User → Body
  user_body : User → Body
  devices_body : List Device → Body
  device_body : Device → Body
  rules_body : List Rule → Body
  rule_body : Rule → Body
  configuration_body : Configuration → Body
  no_content : Body

insert_user : User → List User → List User
insert_user u [] = u ∷ []
insert_user u (v ∷ vs) =
    let rest = insert_user u vs in if leb_text u.email v.email then u ∷ (v ∷ vs) else v ∷ rest

-- `ORDER BY email`
unfoldable pub order_users : List User → List User
unfolding insert_user
order_users [] = []
order_users (u ∷ us) = insert_user u (order_users us)

abbrev new_hash : (Text → Text) → Option (Option Text) → Option Text → Option Text
new_hash hash none old = old
new_hash hash (some none) old = old
new_hash hash (some (some password)) old = some (hash password)

-- The row of a user with the fields that were sent, the password as its hash.
unfoldable pub update_user_row : (Text → Text) → UserUpdate → User → User
update_user_row hash body u = record u {
  email = patched_value body.email u.email;
  password_hash = new_hash hash body.password u.password_hash;
  role = patched_value body.role u.role;
  disabled_at = patched body.disabled_at u.disabled_at;
}

module _ (settings : Settings) (p : Primitives) (n : Nftables)
    (h : Host settings.wg_interface) where
  -- The database and the tools.
  pub record Service : Type 0 where
    pub db : Database
    pub world : World settings n h

  abbrev pub Handler : Type 0
  Handler = Service → Reply Body × Service

  abbrev pub or_404 {ℓ} : {A : Type ℓ} → Option A → (A → Handler) → Handler
  or_404 none f s = (http_error 404, s)
  or_404 (some a) f s = f a s

  unfoldable pub list_users : Handler
  unfolding order_users
  list_users s = (reply (users_body (order_users s.db.users)), s)

  unfoldable pub get_user : Text → Handler
  unfolding find
  get_user user_id s =
      or_404 (find (λ u. u.id) user_id s.db.users) (λ u s'. (reply (user_body u), s')) s

  abbrev pub created_user : UserCreate → Draws → User
  created_user body d = record (new_user d.id d.now body.email) {
    password_hash = some (p.hashpw body.password d.salt);
    role = body.role;
  }

  -- A password that bcrypt does not take is a `ValueError`, answered with 500.
  unfoldable pub create_user : UserCreate → Draws → Handler
  unfolding new_user
  create_user body d s =
      if p.takes_password body.password
      then (
        reply (user_body (created_user body d)),
        record s { db = record (s.db) { users = created_user body d ∷ s.db.users } },
      )
      else (http_error 500, s)

  -- Whether `hash_password` fails: on a null, or on what bcrypt does not take.
  abbrev pub is_unhashable : Option (Option Text) → Bool
  is_unhashable none = false
  is_unhashable (some none) = true
  is_unhashable (some (some password)) = not (p.takes_password password)

  -- Whether the update fails: at the hash, or at the commit.
  abbrev pub is_refused_user : UserUpdate → Bool
  is_refused_user body = is_unhashable body.password || (is_null body.email || is_null body.role)

  unfoldable pub update_user : Text → UserUpdate → Draws → Handler
  unfolding find put_row update_user_row
  update_user user_id body d s =
      or_404 (find (λ u. u.id) user_id s.db.users)
        (λ u s'.
          (let u' = update_user_row (λ password. p.hashpw password d.salt) body u in
            if is_refused_user body then (http_error 500, s') else (
              reply (user_body u'),
              record s' { db = record (s'.db) { users = put_row (λ v. v.id) u' s'.db.users } },
            )))
        s

  unfoldable pub delete_user : Text → Handler
  unfolding find delete_user_and_cleanup
  delete_user user_id s =
      or_404 (find (λ u. u.id) user_id s.db.users)
        (λ u s'.
          (let (db, world) = delete_user_and_cleanup settings n h u.id s'.db s'.world in
            (reply no_content, record { db = db; world = world })))
        s
