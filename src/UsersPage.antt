-- ===== src/UsersPage.antt =====
-- wiregui/pages/admin/users.py: what its handlers write.
pub mod Refused
pub mod Kept
use wiregui.Base.{
  ℕ, Bool, true, false, ◌||◌, Option, none, some, List, [], ◌∷◌, Text, codes, eqb, length, ◌==◌,
  strip, is_some, if◌then◌else◌,
}
use wiregui.Settings.{Settings}
use wiregui.Models.{User}
use wiregui.Database.{Database, find, put_row, devices_of}
use wiregui.Nft.{Nftables}
use wiregui.Host.{Host}
use wiregui.Events.{World}
use wiregui.Accounts.{delete_user_and_cleanup}
use wiregui.Auth.{Primitives, new_user}

-- The inputs of the two dialogs; `disabled` stands in the edit dialog only.
pub record UserForm : Type 0 where
  pub email : Text
  pub password : Text
  pub role : Text
  pub disabled : Bool

-- The device count of a row of the table.
abbrev pub device_count : Database → User → ℕ
device_count db u = length (devices_of u.id db.devices)

-- `open_edit`
unfoldable pub form_of_user : User → UserForm
form_of_user u = record {
  email = u.email;
  password = [];
  role = u.role;
  disabled = is_some u.disabled_at;
}

-- Disabling keeps the time of an earlier one; enabling clears it.
abbrev pub disabled_after : Bool → ℕ → Option ℕ → Option ℕ
disabled_after true now (some t) = some t
disabled_after true now none = some now
disabled_after false now o = none

module _ (settings : Settings) (p : Primitives) where
  unfoldable pub created_row : UserForm → Text → ℕ → Text → User
  unfolding new_user
  created_row form id now salt = record (new_user id now (strip form.email)) {
    password_hash = some (p.hashpw form.password salt);
    role = form.role;
  }

  abbrev pub add_unless : User → Option User → Database → Database
  add_unless u none db = record db { users = u ∷ db.users }
  add_unless u (some taken) db = db

  -- `create_user`, with what is drawn for the row and for the salt.
  unfoldable pub create_user : UserForm → Text → ℕ → Text → Database → Database
  unfolding created_row find
  create_user form id now salt db =
      if (length (strip form.email) == 0) || (length form.password == 0)
      then db
      else add_unless (created_row form id now salt)
          (find (λ u. u.email) (strip form.email) db.users) db

  unfoldable pub edited_user : UserForm → ℕ → Text → User → User
  edited_user form now salt u = record u {
    email = strip form.email;
    role = form.role;
    password_hash =
        if length form.password == 0 then u.password_hash else some (p.hashpw form.password salt);
    disabled_at = disabled_after form.disabled now u.disabled_at;
  }

  abbrev pub write_user : (User → User) → Option User → Database → Database
  write_user edit none db = db
  write_user edit (some u) db = record db { users = put_row (λ v. v.id) (edit u) db.users }

  -- `save_edit`
  unfoldable pub save_edit : Text → UserForm → ℕ → Text → Database → Database
  unfolding edited_user find put_row
  save_edit uid form now salt db =
      write_user (edited_user form now salt) (find (λ u. u.id) uid db.users) db

module _ (settings : Settings) (n : Nftables) (h : Host settings.wg_interface) where
  abbrev pub State : Type 0
  State = Database × World settings n h

  abbrev pub delete_found : Option User → State → State
  delete_found none s = s
  delete_found (some u) s = delete_user_and_cleanup settings n h u.id s.0 s.1

  -- `delete_user`, called by the user who is signed in.
  unfoldable pub delete_user : Text → Text → State → State
  unfolding find delete_user_and_cleanup
  delete_user current user_id s =
      if eqb user_id current then s else delete_found (find (λ u. u.id) user_id s.0.users) s
