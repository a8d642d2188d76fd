-- ===== src/Tasks/Connectivity.antt =====
-- wiregui/tasks/connectivity.py: the row of a check, and the pass of the loop, which also sets the
-- interface again. The wait between two passes is not modelled.
use wiregui.Base.{
  ℕ, Option, none, some, List, ◌∷◌, ◌++◌, Text, codes, take, if◌then◌else◌, done, failed,
}
use wiregui.Settings.{Settings}
use wiregui.Host.{Host}
use wiregui.Wireguard.{ensure_interface}
use wiregui.Tasks.Notifications.{Notification, add_notification}

pub record ConnectivityCheck : Type 0 where
  pub id : Text
  pub url : Text
  pub response_code : Option ℕ
  pub response_headers : Option (List (Text × Text))
  pub response_body : Option Text
  pub inserted_at : ℕ

-- What the HTTP client gives: a response, or the text of an exception.
pub data Fetched : Type 0 where
  answered : ℕ → List (Text × Text) → Text → Fetched
  raised : Text → Fetched

abbrev pub default_url : Text
default_url = codes "https://1.1.1.1/cdn-cgi/trace"

-- What is drawn for the row and for the notification.
pub record CheckDraws : Type 0 where
  pub row_id : Text
  pub notification_id : Text
  pub now : ℕ

unfoldable pub check_of : CheckDraws → Fetched → ConnectivityCheck
check_of d (answered code headers text) = record {
  id = d.row_id;
  url = default_url;
  response_code = some code;
  response_headers = some headers;
  response_body = some (take 500 text);
  inserted_at = d.now;
}
check_of d (raised error) = record {
  id = d.row_id;
  url = default_url;
  response_code = none;
  response_headers = none;
  response_body = some (take 500 error);
  inserted_at = d.now;
}

-- A failed check is notified.
unfoldable pub notify_failure : CheckDraws → Fetched → List Notification → List Notification
unfolding add_notification
notify_failure d (answered code headers text) q = q
notify_failure d (raised error) q =
    add_notification
      (record {
        id = d.notification_id;
        severity = codes "warning";
        message = codes "WAN connectivity check failed: " ++ error;
        user = none;
        timestamp = d.now;
      })
      q

-- `_check_connectivity`, on the table of the checks and the queue.
unfoldable pub check_connectivity :
    CheckDraws
    → Fetched
    → List ConnectivityCheck × List Notification
    → List ConnectivityCheck × List Notification
unfolding check_of notify_failure
check_connectivity d f (checks, q) = (check_of d f ∷ checks, notify_failure d f q)

module _ (settings : Settings) (h : Host settings.wg_interface) where
  -- An error of `ensure_interface` is logged.
  unfoldable pub converge_interface : h.State → h.State
  unfolding ensure_interface
  converge_interface s =
      if settings.wg_enabled
      then (elim (ensure_interface settings h s) [ done s' ↦ s' | failed e ↦ s ])
      else s

  -- One pass of `connectivity_loop`.
  unfoldable pub connectivity_pass :
      CheckDraws
      → Fetched
      → (List ConnectivityCheck × List Notification) × h.State
      → (List ConnectivityCheck × List Notification) × h.State
  unfolding check_connectivity converge_interface
  connectivity_pass d f (r, s) = (check_connectivity d f r, converge_interface s)
