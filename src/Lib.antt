-- ===== src/Lib.antt =====
-- WireGUI: a web application that manages a WireGuard server. Users sign in, own devices, and have
-- firewall rules; the program keeps these in PostgreSQL and makes the WireGuard peers, the routes
-- and the nftables chains of the host follow.
--
-- The parts, and which files model them:
--   Models, Settings, Database   wiregui/models/, wiregui/config.py, wiregui/db.py. A table is the
--     list of its rows, a commit the new value of the record `Database`.
--   Nft, Host   the tools `nft`, `wg` and `ip`, which the program calls as subprocesses. Each is a
--     record with the command that the program sends as data, its text, and what the tool documents
--     of it as laws; Nft/Table and Host/Memory are instances in memory.
--   Net   what the program uses of Python's `ipaddress`.
--   Firewall   wiregui/services/firewall.py: Names the texts, Sorted the order of the rules, Batch
--     the commands of `rebuild_all_rules`, Ops the other operations. Runs, Jumps, Rebuild and
--     Reconciled lead to the description of the ruleset that a rebuild leaves, Stable to the next,
--     Ordered to the lines of one chain; Policies is on the policy chains, Started on the base chains.
--   Wireguard   wiregui/services/wireguard.py: Interface, Dump (`get_peers`), Routing
--     (`sync_routes` and what it calls), Converge on its effect, and Printed on the dump.
--   Events   wiregui/services/events.py: the handlers that the API and the pages call after a commit.
--   Reconcile   wiregui/tasks/reconcile.py: the same at startup, for all of the database.
--   Startup   wiregui/main.py: what runs when the program starts, in its order.
--   Allocation   wiregui/utils/network.py: free addresses for new devices.
--   Auth   wiregui/auth/, wiregui/api/deps.py and the sign-in pages of wiregui/pages/: Libraries the
--     interface to hmac, bcrypt, pyotp and PyJWT, Tokens, Login, Federated and Saml the handlers,
--     Providers the registry over authlib, Seed what is made at the first start. Machine runs the
--     login pages as a state machine.
--   Accounts   wiregui/services/users.py: the deletion of a user.
--   Api   wiregui/api/v0/ and wiregui/schemas/: the routes with their dependencies; Access on what
--     they let a caller do.
--   Tasks   wiregui/tasks/ and wiregui/services/notifications.py.
--   Ordering   wiregui/utils/ordering.py and the handlers of wiregui/pages/admin/rules.py.
--   Client   wiregui/utils/wg_conf.py: the configuration file of a device.
--   Collector   wiregui/collector.py: what a poll writes and the payload it sends.
--   SettingsPage   wiregui/pages/admin/settings.py: what its handlers write.
--   DevicePages   wiregui/pages/devices.py and wiregui/pages/admin/devices.py: Form how inputs become
--     rows, Handlers what the buttons do, Visits which page offers which handler.
--   AccountPage, UsersPage   wiregui/pages/account.py and wiregui/pages/admin/users.py.
--   Base, Examples   shared names and lemmas; the data and the runs of the examples.
--
-- How the code corresponds: a function that changes the host or the database takes the state and
-- gives the new one; `RuntimeError` is `Outcome`, other errors are `none`; an `except` that logs is
-- the branch that goes on with the state at the error. Random draws, clocks and generated ids are
-- arguments. Python's sets are lists without repetition, in the order in which their members came.
-- Loops are recursion on the list they run over; the random attempts and the scan of the allocation
-- run over the number of attempts that the source gives, so no fuel is chosen.
--
-- Not modelled: the widgets and redirects of the pages, WebAuthn, mail, when the loops run,
-- constraint errors of the database other than those of a null in an update of the API, and what
-- runs concurrently: a handler runs from its start to its end. A row whose JSON list is null counts
-- as one with the empty list; that the API answers every later read of such a row with 500 is left
-- out. A provider's scope that is null counts as one that is missing. Passwords of more than 72
-- bytes are an error in the API, on the account page and at the first start; at the login and on the page
-- of the users, where bcrypt raises as well and nothing changes, that is left out.
pub mod Base
pub mod Nft
pub mod Net
pub mod Settings
pub mod Host
pub mod Wireguard
pub mod Models
pub mod Database
pub mod Events
pub mod Reconcile
pub mod Auth
pub mod Accounts
pub mod Api
pub mod Tasks
pub mod Ordering
pub mod Client
pub mod Collector
pub mod Startup
pub mod SettingsPage
pub mod DevicePages
pub mod AccountPage
pub mod UsersPage
pub mod Examples
pub mod Allocation
pub mod Firewall
