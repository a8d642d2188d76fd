-- ===== src/AccountPage/Tokens.antt =====
-- Whom a token of the account page lets in, while it is there and after.
use wiregui.Base.{
  ℕ, suc, ◌+◌, ◌*◌, ◌≤◌, ◌≡◌, refl, sym, ap, ◌∙◌, true, false, none, some, Text, eqb, eqb_refl, ltb,
  map, if◌then◌else◌, arith, Bool-cases, inl, inr, true-ne-false,
}
use wiregui.Base.Int.{pos}
use wiregui.Base.Distinct.{Distinct}
use wiregui.Settings.{Settings}
use wiregui.Models.{User, ApiToken}
use wiregui.Database.{Database, find}
use wiregui.Database.Lookup.{find-key, find-delete_row, find-deleted, find-same}
use wiregui.Auth.{Primitives, is_enabled, token_hmac, resolve_bearer_token}
use wiregui.Auth.Gate.{resolve_bearer_token_iff}
use wiregui.AccountPage.{last_second, days_of, expiry_of, create_token, delete_token}

module _ (settings : Settings) (p : Primitives) where
  expiry_of_days :
      (now n : ℕ)
      → now + (suc n) * 86400 ≤ last_second
      → expiry_of now (pos (suc n)) ≡ some (some (now + (suc n) * 86400))
  unfolding expiry_of
  expiry_of_days now n h = ground arith

  -- A token that is made for a number of days, while the calendar lasts, resolves to its user, who
  -- is there and enabled, until these days are over, and to nobody after.
  pub resolve_bearer_token-create_token :
      (id days plaintext : Text) (now later n : ℕ) (u : User) (db : Database)
      → days_of days ≡ some (pos (suc n))
      → now + (suc n) * 86400 ≤ last_second
      → find (λ v. v.id) u.id db.users ≡ some u
      → is_enabled u ≡ true
      → resolve_bearer_token settings p
          (create_token settings p id now u.id plaintext days db).0
          later
          plaintext
        ≡ (if ltb (now + (suc n) * 86400) later then none else some u)
  unfolding create_token resolve_bearer_token
  resolve_bearer_token-create_token id days plaintext now later n u db read fits there on =
      rw read (
        rw (expiry_of_days now n fits)
          (rw (eqb_refl (token_hmac settings p plaintext)) (rw there (rw on refl))))

  resolve_own :
      (t : ApiToken) (plaintext : Text) (now : ℕ) (db : Database)
      → Distinct (map (λ (r : ApiToken). r.id) db.api_tokens)
      → Distinct (map (λ (r : ApiToken). r.token_hash) db.api_tokens)
      → find (λ r. r.id) t.id db.api_tokens ≡ some t
      → (t.token_hash ≡ token_hmac settings p plaintext
          → resolve_bearer_token settings p (delete_token t.user_id t.id db) now plaintext ≡ none)
        × ((other : Text) (u : User)
            → eqb u.id t.user_id ≡ false
            → resolve_bearer_token settings p db now other ≡ some u
            → resolve_bearer_token settings p (delete_token t.user_id t.id db) now other ≡ some u)
  unfolding delete_token
  resolve_own t plaintext now db once once' there = rw there (
      rw (eqb_refl t.user_id) (
        λ same.
            unfold resolve_bearer_token in
            (rw (sym same) (
              rw (find-deleted (λ w. w.id) (λ w. w.token_hash) t.id t db.api_tokens once' there)
                refl)),
        λ other u apart h.
            (let (r, row, valid, found, on) =
                (resolve_bearer_token_iff settings p db now other u).0 h in
              (resolve_bearer_token_iff settings p _ now other u).1 (
                r,
                find-delete_row (λ w. w.id) (λ w. w.token_hash) t.id (token_hmac settings p other) r
                    db.api_tokens row
                    (elim (Bool-cases (eqb r.id t.id)) [
                      | inl at_t ↦ absurd (
                          true-ne-false (
                            sym (
                              ap (λ w. eqb w t.user_id)
                                (find-key (λ v. v.id) r.user_id db.users u found)
                              ∙ ap (λ (w : ApiToken). eqb w.user_id t.user_id)
                                  (find-same (λ w. w.id) (λ w. w.token_hash) t.id
                                    (token_hmac settings p other) t r db.api_tokens once there row
                                    at_t)
                              ∙ eqb_refl t.user_id)
                            ∙ apart))
                      | inr not_t ↦ not_t
                    ]),
                valid,
                found,
                on,
              )),
      ))

  -- Once a user has deleted a token of theirs, it resolves to nobody, while no two tokens have one
  -- hash or one id, and a token that resolved to another user still does; nobody else can delete
  -- it: their call changes nothing.
  pub resolve_bearer_token-delete_token :
      (t : ApiToken) (plaintext : Text) (now : ℕ) (db : Database)
      → Distinct (map (λ (r : ApiToken). r.id) db.api_tokens)
      → Distinct (map (λ (r : ApiToken). r.token_hash) db.api_tokens)
      → find (λ r. r.id) t.id db.api_tokens ≡ some t
      → (t.token_hash ≡ token_hmac settings p plaintext
          → resolve_bearer_token settings p (delete_token t.user_id t.id db) now plaintext ≡ none)
        × ((other : Text) (u : User)
            → eqb u.id t.user_id ≡ false
            → resolve_bearer_token settings p db now other ≡ some u
            → resolve_bearer_token settings p (delete_token t.user_id t.id db) now other ≡ some u)
        × ((user_id : Text) → eqb t.user_id user_id ≡ false → delete_token user_id t.id db ≡ db)
  resolve_bearer_token-delete_token t plaintext now db once once' there =
      let (gone, kept) = resolve_own t plaintext now db once once' there in
      (gone, kept, λ user_id other. unfold delete_token in (rw there (rw other refl)))
