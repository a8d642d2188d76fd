-- ===== src/Tasks/Sessions.antt =====
-- `_expire_sessions` of wiregui/tasks/vpn_session.py. The clock is in whole seconds.
use wiregui.Base.{
  ℕ, ◌+◌, Bool, false, not, ◌&&◌, Option, none, some, List, [], ◌∷◌, ◌++◌, Text, codes, leb,
  is_some, if◌then◌else◌, ◌==◌,
}
use wiregui.Base.Int.{ℤ, pos_part, neg_part}
use wiregui.Settings.{Settings}
use wiregui.Models.{User, Device, Configuration}
use wiregui.Database.{Database, devices_of}
use wiregui.Nft.{Nftables}
use wiregui.Host.{Host}
use wiregui.Events.{try_remove_peer}
use wiregui.Tasks.Notifications.{Notification, add_notification}

-- `now - last <= duration`
abbrev pub within : ℤ → ℕ → ℕ → Bool
within duration now last = leb (now + neg_part duration) (last + pos_part duration)

abbrev pub is_overdue : ℤ → ℕ → Option ℕ → Bool
is_overdue duration now none = false
is_overdue duration now (some last) = not (within duration now last)

-- A user who has signed in, is not disabled, and did so too long ago.
abbrev pub has_expired : ℤ → ℕ → User → Bool
has_expired duration now u =
    not (is_some u.disabled_at) && is_overdue duration now u.last_signed_in_at

-- The notification of an expired session, with the id that is drawn for it.
abbrev pub expiry_notice : (Text → Text) → ℕ → User → Notification
expiry_notice ids now u = record {
  id = ids u.id;
  severity = codes "warning";
  message = codes "VPN session expired for " ++ u.email;
  user = some u.email;
  timestamp = now;
}

abbrev pub is_unlimited : ℤ → Bool
is_unlimited duration = (pos_part duration == 0) && (neg_part duration == 0)

module _ (settings : Settings) (n : Nftables) (h : Host settings.wg_interface) where
  -- The loop over the devices of one user.
  unfoldable pub remove_peers : List Device → h.State → h.State
  unfolding try_remove_peer
  remove_peers [] s = s
  remove_peers (d ∷ ds) s = remove_peers ds (try_remove_peer settings n h d.public_key s)

  abbrev pub expire_user :
      (Text → Text)
      → ℕ
      → ℤ
      → Database
      → User
      → h.State × List Notification
      → h.State × List Notification
  expire_user ids now duration db u r =
      if has_expired duration now u
      then (
        remove_peers (devices_of u.id db.devices) r.0,
        add_notification (expiry_notice ids now u) r.1,
      )
      else r

  unfoldable pub expire_users :
      (Text → Text)
      → ℕ
      → ℤ
      → Database
      → List User
      → h.State × List Notification
      → h.State × List Notification
  unfolding remove_peers add_notification
  expire_users ids now duration db [] r = r
  expire_users ids now duration db (u ∷ us) r =
      expire_users ids now duration db us (expire_user ids now duration db u r)

  abbrev pub expire_with :
      (Text → Text)
      → ℕ
      → Option Configuration
      → Database
      → h.State × List Notification
      → h.State × List Notification
  expire_with ids now none db r = r
  expire_with ids now (some config) db r =
      if is_unlimited config.vpn_session_duration
      then r
      else expire_users ids now config.vpn_session_duration db db.users r

  unfoldable pub expire_sessions :
      (Text → Text) → ℕ → Database → h.State × List Notification → h.State × List Notification
  unfolding expire_users
  expire_sessions ids now db r = expire_with ids now db.configuration db r
