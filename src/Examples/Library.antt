-- ===== src/Examples/Library.antt =====
-- The libraries of the authentication as plain functions: their laws can hold.
use wiregui.Base.{
  ℕ, ◌≡◌, refl, ap, Option, none, some, [], ◌∷◌, ◌++◌, Text, codes, eqb, eqb_refl, ltb, leb, length,
  if◌then◌else◌,
}
use wiregui.Auth.{Primitives, Claims, Oauth, ClientConfig, kept_or, Slots, update_slot}
use wiregui.Examples.Codec.{frame, unframe, unframe-frame, frame_option, frame_option-injective}

abbrev pub encode : Text → Claims → Text
encode key c = frame key (frame c.sub (frame c.role (c.exp ∷ [])))

abbrev claims_of : Text → Text → Text → Option Claims
claims_of sub role (exp ∷ []) = some (record { sub = sub; role = role; exp = exp })
claims_of sub role rest = none

abbrev read_role : Text → Option (Text × Text) → Option Claims
read_role sub none = none
read_role sub (some (role, rest)) = claims_of sub role rest

abbrev read_sub : Option (Text × Text) → Option Claims
read_sub none = none
read_sub (some (sub, rest)) = read_role sub (unframe rest)

abbrev pub read_claims : Text → Option (Text × Text) → Option Claims
read_claims key none = none
read_claims key (some (k, rest)) = if eqb k key then read_sub (unframe rest) else none

abbrev pub in_time : ℕ → Option Claims → Option Claims
in_time now none = none
in_time now (some c) = if ltb now c.exp then some c else none

pub decode_law :
    (key : Text) (now : ℕ) (c : Claims)
    → in_time now (read_claims key (unframe (encode key c)))
      ≡ (if ltb now c.exp then some c else none)
decode_law key now c =
    rw (unframe-frame key (frame c.sub (frame c.role (c.exp ∷ []))), eqb_refl key)
      (rw (unframe-frame c.sub (frame c.role (c.exp ∷ [])), unframe-frame c.role (c.exp ∷ [])) refl)

-- A password fits the hash that carries it, and a code is right if it is the secret.
abbrev pub plain_library : Primitives
plain_library = record {
  hmac_sha256 = λ key token. key ++ (codes ":" ++ token);
  checkpw = λ password hash. eqb (codes "hash:" ++ password) hash;
  hashpw = λ password salt. codes "hash:" ++ password;
  takes_password = λ password. leb (length password) 72;
  verify_totp = λ secret code now. eqb secret code;
  jwt_encode = encode;
  jwt_decode = λ key now token. in_time now (read_claims key (unframe token));
  checkpw_law = λ password salt taken. eqb_refl (codes "hash:" ++ password);
  jwt_law = decode_law;
}

pub record OauthState : Type 0 where
  pub registered : Slots
  pub built : Slots

abbrev pub built_or : Text → OauthState → Option ClientConfig → Option ClientConfig × OauthState
built_or k s (some c) = (some c, s)
built_or k s none = (s.registered k, record s { built = update_slot s.built k (s.registered k) })

pub digests_differ :
    (a b c d a' b' c' d' : Option Text)
    → frame_option a (frame_option b (frame_option c (frame_option d [])))
      ≡ frame_option a' (frame_option b' (frame_option c' (frame_option d' [])))
    → (a ≡ a') × (b ≡ b') × (c ≡ c') × (d ≡ d')
digests_differ a b c d a' b' c' d' h =
    let (ea, h1) = frame_option-injective a a' _ _ h in
    let (eb, h2) = frame_option-injective b b' _ _ h1 in
    let (ec, h3) = frame_option-injective c c' _ _ h2 in
    let (ed, _) = frame_option-injective d d' [] [] h3 in (ea, eb, ec, ed)

abbrev pub plain_oauth : Oauth
plain_oauth = record {
  State = OauthState;
  registry = λ s. s.registered;
  clients = λ s. s.built;
  register = λ k c s. record s {
    registered = update_slot s.registered k (some c);
    built = update_slot s.built k (some (kept_or (s.built k) c));
  };
  create_client = λ k s. built_or k s (s.built k);
  pop_client = λ k s. record s { built = update_slot s.built k none };
  pop_registry = λ k s. record s { registered = update_slot s.registered k none };
  digest = λ a b c d. frame_option a (frame_option b (frame_option c (frame_option d [])));
  register_law = λ k c s. (refl, refl);
  pop_client_law = λ k s. (refl, refl);
  pop_registry_law = λ k s. (refl, refl);
  kept_law = λ k c s h. ap (built_or k s) h;
  built_law = λ k s h. (_, ap (built_or k s) h, refl, refl);
  digest_law = digests_differ;
}
