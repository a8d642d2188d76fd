-- ===== src/Api/Access.antt =====
-- Whom the API lets do what.
use wiregui.Base.{
  ℕ, ◌≡◌, ◌⊎◌, refl, sym, subst, true, false, Option, none, some, [], ◌∷◌, Text, eqb, eqb_refl,
  drop, Bool-cases, Option-cases, inl, inr, Outcome, done, failed,
}
use wiregui.Base.Distinct.{Distinct}
use wiregui.Settings.{Settings}
use wiregui.Models.{User, Device, ApiToken}
use wiregui.Database.{find}
use wiregui.Nft.{Nftables}
use wiregui.Host.{Host}
use wiregui.Allocation.{allocate_ipv4, allocate_ipv6}
use wiregui.Auth.{
  Primitives, Reply, reply, http_error, require_admin, is_admin, is_enabled, is_expired, token_hmac,
}
use wiregui.Auth.Gate.{require_admin_lem}
use wiregui.Api.Users.{Service, Handler}
use wiregui.Api.DeviceRoutes.{
  owner_id, with_device, create_with, create_device, update_device, delete_device,
  is_refused_device, update_device_row, new_device, list_devices, get_device,
}
use wiregui.Api.Calls.{
  AdminCall, DeviceCall, devices_list, devices_get, devices_delete, devices_post, devices_put,
  admin_handler, device_handler, handle_admin,
}
use wiregui.Api.Rows.{foreign, ids_of, Owned, found-Owned, foreign-put_row, foreign-delete_row}

Reply-cases {ℓ} :
    {A : Type ℓ} (r : Reply A)
    → ((status : ℕ) × (r ≡ http_error status)) ⊎ ((a : A) × (r ≡ reply a))
Reply-cases (http_error status) = inl (status, refl)
Reply-cases (reply a) = inr (a, refl)

owner_id-plain : (u : User) (o : Option Text) → is_admin u ≡ false → owner_id u o ≡ u.id
owner_id-plain u none plain = refl
owner_id-plain u (some []) plain = refl
owner_id-plain u (some (c ∷ t)) plain = rw plain refl

module _ (settings : Settings) (p : Primitives) (n : Nftables)
    (h : Host settings.wg_interface) where
  -- What a call of a user without privileges leaves alone.
  pub record IsConfined (u : User) (s s' : Service settings p n h) : Type 0 where
    pub users_kept : s'.db.users ≡ s.db.users
    pub rules_kept : s'.db.rules ≡ s.db.rules
    pub configuration_kept : s'.db.configuration ≡ s.db.configuration
    pub tokens_kept : s'.db.api_tokens ≡ s.db.api_tokens
    pub foreign_kept : foreign u.id s'.db.devices ≡ foreign u.id s.db.devices

  unchanged : (u : User) (s : Service settings p n h) → IsConfined u s s
  unchanged u s = record {
    users_kept = refl;
    rules_kept = refl;
    configuration_kept = refl;
    tokens_kept = refl;
    foreign_kept = refl;
  }

  -- A handler of one device stays confined if it does on the user's own devices.
  with_device-IsConfined :
      (u : User) (device_id : Text) (f : Device → Handler settings p n h)
      (s : Service settings p n h)
      → is_admin u ≡ false
      → Distinct (ids_of s.db.devices)
      → ((d : Device)
          → d.id ≡ device_id
          → eqb d.user_id u.id ≡ true
          → Owned u.id device_id s.db.devices
          → IsConfined u s (f d s).1)
      → IsConfined u s (with_device settings p n h u device_id f s).1
  unfolding with_device
  with_device-IsConfined u device_id f s plain once ok =
      elim (Option-cases (find (λ (d : Device). d.id) device_id s.db.devices)) [
        | inl missing ↦ rw missing (unchanged u s)
        | inr (d, there) ↦ elim (Bool-cases (eqb d.user_id u.id)) [
          | inl own ↦
              (let (at_id, owned) = found-Owned u.id device_id d s.db.devices once there own in
                rw there (rw (plain, own) (ok d at_id own owned)))
          | inr other ↦ rw there (rw (plain, other) (unchanged u s))
        ]
      ]

  update_device-IsConfined :
      (u : User) (device_id : Text) (body : _) (s : Service settings p n h)
      → is_admin u ≡ false
      → Distinct (ids_of s.db.devices)
      → IsConfined u s (update_device settings p n h u device_id body s).1
  unfolding update_device update_device_row
  update_device-IsConfined u device_id body s plain once =
      with_device-IsConfined u device_id _ s plain once (λ d at_id own owned.
        elim (Bool-cases (is_refused_device body)) [
          | inl refused ↦ rw refused (unchanged u s)
          | inr taken ↦ rw taken (record {
            users_kept = refl;
            rules_kept = refl;
            configuration_kept = refl;
            tokens_kept = refl;
            foreign_kept =
                foreign-put_row u.id (update_device_row body d) s.db.devices
                  (subst (λ k. Owned u.id k s.db.devices) (sym at_id) owned) own;
          })
        ])

  delete_device-IsConfined :
      (u : User) (device_id : Text) (s : Service settings p n h)
      → is_admin u ≡ false
      → Distinct (ids_of s.db.devices)
      → IsConfined u s (delete_device settings p n h u device_id s).1
  unfolding delete_device
  delete_device-IsConfined u device_id s plain once =
      with_device-IsConfined u device_id _ s plain once (λ d at_id own owned. record {
        users_kept = refl;
        rules_kept = refl;
        configuration_kept = refl;
        tokens_kept = refl;
        foreign_kept =
            foreign-delete_row u.id d.id s.db.devices
              (subst (λ k. Owned u.id k s.db.devices) (sym at_id) owned);
      })

  create_with-IsConfined :
      (u : User) (body : _) (d : _) (v4 v6 : Outcome Text) (s : Service settings p n h)
      → is_admin u ≡ false
      → IsConfined u s (create_with settings p n h u body d v4 v6 s).1
  unfolding new_device
  create_with-IsConfined u body d (failed e) v6 s plain = unchanged u s
  create_with-IsConfined u body d (done a) (failed e) s plain = unchanged u s
  create_with-IsConfined u body d (done a) (done b) s plain = record {
    users_kept = refl;
    rules_kept = refl;
    configuration_kept = refl;
    tokens_kept = refl;
    foreign_kept = rw (owner_id-plain u body.user_id plain, eqb_refl u.id) refl;
  }

  -- Whatever call of the device routes a user that is no administrator makes, while the ids of the
  -- devices are distinct, users, rules, settings, tokens, and the devices of other users stay as
  -- they are.
  pub device_handler-IsConfined :
      (call : DeviceCall) (u : User) (s : Service settings p n h)
      → is_admin u ≡ false
      → Distinct (ids_of s.db.devices)
      → IsConfined u s (device_handler settings p n h call u s).1
  unfolding device_handler list_devices get_device create_device
  device_handler-IsConfined devices_list u s plain once = unchanged u s
  device_handler-IsConfined (devices_get device_id) u s plain once =
      with_device-IsConfined u device_id _ s plain once (λ d at_id own owned. unchanged u s)
  device_handler-IsConfined (devices_delete device_id) u s plain once =
      delete_device-IsConfined u device_id s plain once
  device_handler-IsConfined (devices_post body d) u s plain once =
      create_with-IsConfined u body d
        (allocate_ipv4 s.db.devices settings.wg_ipv4_network d.draw_v4)
        (allocate_ipv6 s.db.devices settings.wg_ipv6_network d.draw_v6) s plain
  device_handler-IsConfined (devices_put device_id body) u s plain once =
      update_device-IsConfined u device_id body s plain once

  -- A call of an administrator's route is refused with an error and changes nothing, or comes from
  -- an enabled administrator with a token that has not expired, and does what its handler does.
  pub handle_admin_lem :
      (call : AdminCall) (now : ℕ) (header : Text) (s : Service settings p n h)
      → ((status : ℕ) × (handle_admin settings p n h call now header s ≡ (http_error status, s)))
        ⊎ ((u : User) × (t : ApiToken) × (find
                (λ r. r.token_hash)
                (token_hmac settings p (drop 7 header))
                s.db.api_tokens
              ≡ some t)
            × (is_expired t.expires_at now ≡ false)
            × (find (λ r. r.id) t.user_id s.db.users ≡ some u)
            × (is_enabled u ≡ true)
            × (is_admin u ≡ true)
            × (handle_admin settings p n h call now header s ≡ admin_handler settings p n h call s))
  unfolding handle_admin
  handle_admin_lem call now header s =
      elim (Reply-cases (require_admin settings p s.db now header)) [
        | inl (status, refused) ↦ inl (status, rw refused refl)
        | inr (u, passed) ↦
            (let (t, _, row, valid, found, on, admin) =
                require_admin_lem settings p s.db now header u passed in
              inr (u, t, row, valid, found, on, admin, rw passed refl))
      ]
