-- ===== src/Database.antt =====
-- The PostgreSQL tables that wiregui/db.py opens sessions on, with the queries and the writes that
-- the program makes. A commit is the new value of the record.
pub mod Lookup
use wiregui.Base.{
  Bool, false, not, ◌&&◌, ◌||◌, Option, none, some, List, [], ◌∷◌, Text, eqb, filter, leb,
  if◌then◌else◌,
}
use wiregui.Base.Int.{leb_ℤ}
use wiregui.Models.{User, Device, Rule, ApiToken, MfaMethod, OidcConnection, Configuration}

pub record Database : Type 0 where
  pub users : List User
  pub devices : List Device
  pub rules : List Rule
  pub api_tokens : List ApiToken
  pub mfa_methods : List MfaMethod
  pub oidc_connections : List OidcConnection
  pub configuration : Option Configuration

-- `session.get` and `scalar_one_or_none`: the row that a column picks.
unfoldable pub find {ℓ} : {A : Type ℓ} → (A → Text) → Text → List A → Option A
find key k [] = none
find key k (r ∷ rs) = let rest = find key k rs in if eqb (key r) k then some r else rest

-- The row of an id is written over.
unfoldable pub put_row {ℓ} : {A : Type ℓ} → (A → Text) → A → List A → List A
put_row key a [] = []
put_row key a (r ∷ rs) = (if eqb (key r) (key a) then a else r) ∷ put_row key a rs

unfoldable pub delete_row {ℓ} : {A : Type ℓ} → (A → Text) → Text → List A → List A
delete_row key k rs = filter (λ r. not (eqb (key r) k)) rs

abbrev pub owned_by : Text → Option Text → Bool
owned_by user_id none = false
owned_by user_id (some owner) = eqb owner user_id

abbrev pub devices_of : Text → List Device → List Device
devices_of user_id ds = filter (λ d. eqb d.user_id user_id) ds

abbrev pub rules_of : Text → List Rule → List Rule
rules_of user_id rs = filter (λ r. owned_by user_id r.user_id) rs

-- `ORDER BY priority, inserted_at`
unfoldable pub rule_le : Rule → Rule → Bool
rule_le r s =
    not (leb_ℤ s.priority r.priority)
    || (leb_ℤ r.priority s.priority && leb r.inserted_at s.inserted_at)

unfoldable pub insert_ordered : Rule → List Rule → List Rule
unfolding rule_le
insert_ordered r [] = r ∷ []
insert_ordered r (s ∷ rs) =
    let rest = insert_ordered r rs in if rule_le r s then r ∷ (s ∷ rs) else s ∷ rest

unfoldable pub order_rules : List Rule → List Rule
unfolding insert_ordered
order_rules [] = []
order_rules (r ∷ rs) = insert_ordered r (order_rules rs)

-- Deleting a user removes the rows that refer to the user (ON DELETE CASCADE).
unfoldable pub delete_user_row : Text → Database → Database
unfolding delete_row
delete_user_row user_id db = record {
  users = delete_row (λ u. u.id) user_id db.users;
  devices = delete_row (λ d. d.user_id) user_id db.devices;
  rules = filter (λ r. not (owned_by user_id r.user_id)) db.rules;
  api_tokens = delete_row (λ t. t.user_id) user_id db.api_tokens;
  mfa_methods = delete_row (λ m. m.user_id) user_id db.mfa_methods;
  oidc_connections = delete_row (λ c. c.user_id) user_id db.oidc_connections;
  configuration = db.configuration;
}
