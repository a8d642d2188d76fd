-- ===== src/Tasks/Expiry.antt =====
-- Which peers `_expire_sessions` takes from the interface.
use wiregui.Base.{
  ℕ, ◌≡◌, refl, ap, ◌∙◌, Bool, true, false, not, ◌&&◌, Option, none, some, List, [], ◌∷◌, ◌++◌,
  Text, has, has-append, map, if◌then◌else◌, arith,
}
use wiregui.Base.Distinct.{has_first, has_rest}
use wiregui.Base.Int.{ℤ}
use wiregui.Settings.{Settings}
use wiregui.Models.{User, Device, Configuration}
use wiregui.Database.{Database, devices_of}
use wiregui.Nft.{Nftables}
use wiregui.Host.{Host, Peers}
use wiregui.Reconcile.Converge.{Deletes, try_remove_peer_lem}
use wiregui.Tasks.Notifications.{Notification}
use wiregui.Tasks.Sessions.{
  has_expired, is_unlimited, remove_peers, expire_user, expire_users, expire_with, expire_sessions,
}

abbrev pub keys_of : List Device → List Text
keys_of ds = map (λ (d : Device). d.public_key) ds

-- The keys of the devices of all users whose session has expired.
abbrev pub expired_keys : ℕ → ℤ → Database → List User → List Text
expired_keys now duration db [] = []
expired_keys now duration db (u ∷ us) =
    let rest = expired_keys now duration db us in
    if has_expired duration now u then keys_of (devices_of u.id db.devices) ++ rest else rest

has-later :
    (c : Bool) (k : Text) (mine rest : List Text)
    → has k rest ≡ true
    → has k (if c then mine ++ rest else rest) ≡ true
has-later true k mine rest m = has-append k mine rest ∙ ground arith
has-later false k mine rest m = m

has-mine :
    (c : Bool) (k : Text) (mine rest : List Text)
    → c ≡ true
    → has k mine ≡ true
    → has k (if c then mine ++ rest else rest) ≡ true
has-mine c k mine rest on m = rw on (has-append k mine rest ∙ ground arith)

joined_none :
    (c : Bool) (j : Text) (mine rest : List Text) (o : Option (List Text))
    → (if has j rest then none else if c && has j mine then none else o)
      ≡ (if has j (if c then mine ++ rest else rest) then none else o)
joined_none true j mine rest o = ground (arith, has-append j mine rest)
joined_none false j mine rest o = refl

module _ (settings : Settings) (n : Nftables) (h : Host settings.wg_interface) where
  remove_peers_lem :
      (ds : List Device) (s : h.State)
      → ((k : Text) → has k (keys_of ds) ≡ true → Deletes settings n h k)
      → (j : Text)
      → h.peers (remove_peers settings n h ds s) j
        ≡ (if has j (keys_of ds) then none else h.peers s j)
  unfolding remove_peers
  remove_peers_lem [] s ok j = refl
  remove_peers_lem (d ∷ ds) s ok j =
      remove_peers_lem ds _ (λ k m. ok k (has_rest d.public_key (keys_of ds) k m)) j
      ∙ ap (λ (v : Peers). if has j (keys_of ds) then none else v j)
          (try_remove_peer_lem settings n h d.public_key s
            (ok d.public_key (has_first d.public_key (keys_of ds)))).0
      ∙ ground arith

  expire_user_lem :
      (c : Bool) (ds : List Device) (r : h.State × List Notification) (q : List Notification)
      → (c ≡ true → (k : Text) → has k (keys_of ds) ≡ true → Deletes settings n h k)
      → (j : Text)
      → h.peers (if c then (remove_peers settings n h ds r.0, q) else r).0 j
        ≡ (if c && has j (keys_of ds) then none else h.peers r.0 j)
  expire_user_lem true ds r q ok j = remove_peers_lem ds r.0 (ok refl) j
  expire_user_lem false ds r q ok j = refl

  expire_users_lem :
      (ids : Text → Text) (now : ℕ) (duration : ℤ) (db : Database) (us : List User)
      (r : h.State × List Notification)
      → ((k : Text) → has k (expired_keys now duration db us) ≡ true → Deletes settings n h k)
      → (j : Text)
      → h.peers (expire_users settings n h ids now duration db us r).0 j
        ≡ (if has j (expired_keys now duration db us) then none else h.peers r.0 j)
  unfolding expire_users
  expire_users_lem ids now duration db [] r ok j = refl
  expire_users_lem ids now duration db (u ∷ us) r ok j =
      let mine = keys_of (devices_of u.id db.devices) in
      let rest = expired_keys now duration db us in
      expire_users_lem ids now duration db us (expire_user settings n h ids now duration db u r)
        (λ k m. ok k (has-later (has_expired duration now u) k mine rest m)) j
      ∙ ap (λ o. if has j rest then none else o)
          (expire_user_lem (has_expired duration now u) (devices_of u.id db.devices) r _
            (λ on k m. ok k (has-mine (has_expired duration now u) k mine rest on m)) j)
      ∙ joined_none (has_expired duration now u) j mine rest (h.peers r.0 j)

  -- With a configuration, where the tool takes the removals, after the task the peers of the users
  -- whose session has expired are gone, and the others are as before; with a duration of 0 all are.
  pub expire_sessions_lem :
      (ids : Text → Text) (now : ℕ) (config : Configuration) (db : Database)
      (r : h.State × List Notification)
      → db.configuration ≡ some config
      → ((k : Text)
          → has k (expired_keys now config.vpn_session_duration db db.users) ≡ true
          → Deletes settings n h k)
      → (j : Text)
      → h.peers (expire_sessions settings n h ids now db r).0 j ≡ (
          if not (is_unlimited config.vpn_session_duration)
            && has j (expired_keys now config.vpn_session_duration db db.users)
          then none
          else h.peers r.0 j)
  unfolding expire_sessions
  expire_sessions_lem ids now config db r there ok j =
      ap (λ o. h.peers (expire_with settings n h ids now o db r).0 j) there
      ∙ limited (is_unlimited config.vpn_session_duration)
    where
      limited :
          (c : Bool)
          → h.peers
              (if c
                then r
                else expire_users settings n h ids now config.vpn_session_duration db db.users r).0
              j
            ≡ (if not c && has j (expired_keys now config.vpn_session_duration db db.users)
                then none
                else h.peers r.0 j)
      limited true = refl
      limited false = expire_users_lem ids now config.vpn_session_duration db db.users r ok j
