-- ===== src/Tasks/Refreshed.antt =====
-- Which connections `_refresh_all` changes, and how.
use wiregui.Base.{
  ℕ, ◌≡◌, refl, sym, ap, ◌∙◌, Bool, true, false, Option, none, some, List, [], ◌∷◌, Text, eqb,
  eqb-eq, has, map, if◌then◌else◌, Bool-cases, inl, inr,
}
use wiregui.Base.Distinct.{Distinct}
use wiregui.Models.{OidcConnection, Provider}
use wiregui.Database.{Database, find}
use wiregui.Database.Lookup.{over, find-put_row, find-key, find-missing}
use wiregui.Auth.{load_providers, by_id_from}
use wiregui.Tasks.Notifications.{Notification}
use wiregui.Tasks.Refresh.{
  NewToken, Answers, Attempt, skipped, refreshed, refused, attempt, with_new_token, store_token,
  settle, refresh_connections, refreshable, refresh_all,
}

-- A connection after an attempt on it.
abbrev pub renewed : ℕ → Attempt → OidcConnection → OidcConnection
renewed now skipped c = c
renewed now (refreshed token) c = with_new_token token now c
renewed now refused c = c

abbrev pub renewed_option : ℕ → Attempt → Option OidcConnection → Option OidcConnection
renewed_option now a none = none
renewed_option now a (some c) = some (renewed now a c)

-- What is found for an id after the attempts on connections, by what is found among these.
abbrev pub after_attempts :
    ℕ
    → (OidcConnection → Attempt)
    → Option OidcConnection
    → Option OidcConnection
    → Option OidcConnection
after_attempts now tried none o = o
after_attempts now tried (some conn) o = renewed_option now (tried conn) o

find-store_token :
    (token : NewToken) (now : ℕ) (id k : Text) (o : Option OidcConnection) (db : Database)
    → find (λ c. c.id) id db.oidc_connections ≡ o
    → find (λ c. c.id) k (store_token token now o db).oidc_connections ≡ (
        if eqb id k
        then renewed_option now (refreshed token) (find (λ c. c.id) k db.oidc_connections)
        else find (λ c. c.id) k db.oidc_connections)
find-store_token token now id k none db h = elim (Bool-cases (eqb id k)) [
  | inl same ↦
      rw same
        (rw (sym (ap (λ t. find (λ c. c.id) t db.oidc_connections) (eqb-eq id k same)) ∙ h) refl)
  | inr other ↦ rw other refl
]
find-store_token token now id k (some c) db h =
    find-put_row (λ d. d.id) k (with_new_token token now c) db.oidc_connections
    ∙ ap
        (λ t.
          if eqb t k
          then over (with_new_token token now c) (find (λ d. d.id) k db.oidc_connections)
          else find (λ d. d.id) k db.oidc_connections)
        (find-key (λ d. d.id) id db.oidc_connections c h)
    ∙ (elim (Bool-cases (eqb id k)) [
      | inl same ↦
          rw same (
            rw (sym (ap (λ t. find (λ d. d.id) t db.oidc_connections) (eqb-eq id k same)) ∙ h) refl)
      | inr other ↦ rw other refl
    ])

module _ (ids : Text → Text) (now : ℕ) (answer : Answers) (providers : List Provider) where
  unchanged_option : (b : Bool) (o : Option OidcConnection) → o ≡ (if b then o else o)
  unchanged_option true o = refl
  unchanged_option false o = refl

  same_renewed :
      (a : Attempt) (o : Option OidcConnection)
      → ((c : OidcConnection) → renewed now a c ≡ c)
      → renewed_option now a o ≡ o
  same_renewed a none h = refl
  same_renewed a (some c) h = ap some (h c)

  find-settle :
      (conn : OidcConnection) (a : Attempt) (k : Text) (r : Database × List Notification)
      → find (λ c. c.id) k (settle ids now conn a r).0.oidc_connections ≡ (
          if eqb conn.id k
          then renewed_option now a (find (λ c. c.id) k r.0.oidc_connections)
          else find (λ c. c.id) k r.0.oidc_connections)
  find-settle conn skipped k r =
      rw (same_renewed skipped (find (λ c. c.id) k r.0.oidc_connections) (λ c. refl))
        (unchanged_option (eqb conn.id k) _)
  find-settle conn refused k r =
      rw (same_renewed refused (find (λ c. c.id) k r.0.oidc_connections) (λ c. refl))
        (unchanged_option (eqb conn.id k) _)
  find-settle conn (refreshed token) k r = find-store_token token now conn.id k _ r.0 refl

  -- What is not a connection stays.
  store_token-others :
      (token : NewToken) (o : Option OidcConnection) (db : Database) (cs : List OidcConnection)
      → record (store_token token now o db) { oidc_connections = cs }
        ≡ record db { oidc_connections = cs }
  store_token-others token none db cs = refl
  store_token-others token (some c) db cs = refl

  settle-others :
      (conn : OidcConnection) (a : Attempt) (r : Database × List Notification)
      (cs : List OidcConnection)
      → record ((settle ids now conn a r).0) { oidc_connections = cs }
        ≡ record (r.0) { oidc_connections = cs }
  settle-others conn skipped r cs = refl
  settle-others conn refused r cs = refl
  settle-others conn (refreshed token) r cs = store_token-others token _ r.0 cs

  refresh_connections-others :
      (conns : List OidcConnection) (r : Database × List Notification)
      → (refresh_connections ids now answer providers conns r).0 ≡ record (r.0) {
        oidc_connections =
            (refresh_connections ids now answer providers conns r).0.oidc_connections;
      }
  unfolding refresh_connections
  refresh_connections-others [] r = refl
  refresh_connections-others (conn ∷ conns) r =
      refresh_connections-others conns _ ∙ settle-others conn (attempt answer providers conn) r _

  find-refresh_connections :
      (conns : List OidcConnection) (r : Database × List Notification) (k : Text)
      → Distinct (map (λ (c : OidcConnection). c.id) conns)
      → find (λ c. c.id) k (refresh_connections ids now answer providers conns r).0.oidc_connections
        ≡ after_attempts now
            (attempt answer providers)
            (find (λ c. c.id) k conns)
            (find (λ c. c.id) k r.0.oidc_connections)
  unfolding refresh_connections find
  find-refresh_connections [] r k h = refl
  find-refresh_connections (conn ∷ conns) r k h =
      find-refresh_connections conns _ k h.1
      ∙ ap (after_attempts now (attempt answer providers) (find (λ c. c.id) k conns))
          (find-settle conn (attempt answer providers conn) k r)
      ∙ (elim (Bool-cases (eqb conn.id k)) [
        | inl same ↦ rw same (
            rw
              (find-missing (λ c. c.id) k conns
                (ap (λ t. has t (map (λ (c : OidcConnection). c.id) conns))
                    (sym (eqb-eq conn.id k same))
                  ∙ h.0))
              refl)
        | inr other ↦ rw other refl
      ])

-- While the providers all have an id, and the ids of the connections with a token are distinct,
-- a cycle changes nothing in the database but connections, and of these those that it tries and
-- whose provider answers; each is then as before but for the token, the answer and the time.
pub refresh_all_lem :
    (ids : Text → Text) (now : ℕ) (answer : Answers) (providers : List Provider)
    (r : Database × List Notification)
    → by_id_from [] (load_providers r.0.configuration) ≡ some providers
    → Distinct (map (λ (c : OidcConnection). c.id) (refreshable r.0.oidc_connections))
    → ((k : Text)
        → find (λ c. c.id) k (refresh_all ids now answer r).0.oidc_connections
          ≡ after_attempts now
              (attempt answer providers)
              (find (λ c. c.id) k (refreshable r.0.oidc_connections))
              (find (λ c. c.id) k r.0.oidc_connections))
      × ((refresh_all ids now answer r).0
          ≡ record (r.0) { oidc_connections = (refresh_all ids now answer r).0.oidc_connections })
unfolding refresh_all
refresh_all_lem ids now answer providers r there distinct = rw there (
  (λ k.
      find-refresh_connections ids now answer providers (refreshable r.0.oidc_connections) r k
        distinct),
  refresh_connections-others ids now answer providers (refreshable r.0.oidc_connections) r,
)
