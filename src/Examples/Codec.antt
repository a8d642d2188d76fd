-- ===== src/Examples/Codec.antt =====
-- Texts put one after the other so that they can be taken apart again.
use wiregui.Base.{zero, suc, ◌≡◌, refl, sym, ap, ◌∙◌, Option, none, some, [], ◌∷◌, Text, some-eq}

-- A text with a mark before each character and at its end.
abbrev pub frame : Text → Text → Text
frame [] rest = 0 ∷ rest
frame (c ∷ t) rest = 1 ∷ (c ∷ frame t rest)

abbrev pub unframe : Text → Option (Text × Text)
unframe [] = none
unframe (zero ∷ rest) = some ([], rest)
unframe (suc m ∷ []) = none
unframe (suc m ∷ c ∷ rest) = elim (unframe rest) [
  | none ↦ none
  | some (t, more) ↦ some (c ∷ t, more)
]

pub unframe-frame : (t rest : Text) → unframe (frame t rest) ≡ some (t, rest)
unframe-frame [] rest = refl
unframe-frame (c ∷ t) rest = rw (unframe-frame t rest) refl

abbrev pub frame_option : Option Text → Text → Text
frame_option none rest = 0 ∷ rest
frame_option (some t) rest = 1 ∷ frame t rest

abbrev unframe_option : Text → Option (Option Text × Text)
unframe_option [] = none
unframe_option (zero ∷ rest) = some (none, rest)
unframe_option (suc m ∷ rest) = elim (unframe rest) [
  | none ↦ none
  | some (t, more) ↦ some (some t, more)
]

unframe_option-frame_option :
    (o : Option Text) (rest : Text) → unframe_option (frame_option o rest) ≡ some (o, rest)
unframe_option-frame_option none rest = refl
unframe_option-frame_option (some t) rest = rw (unframe-frame t rest, unframe_option) refl

pub frame_option-injective :
    (o o' : Option Text) (rest rest' : Text)
    → frame_option o rest ≡ frame_option o' rest'
    → (o ≡ o') × (rest ≡ rest')
frame_option-injective o o' rest rest' h =
    let same = some-eq (
      sym (unframe_option-frame_option o rest)
      ∙ ap unframe_option h
      ∙ unframe_option-frame_option o' rest') in
    (ap (λ r. r.0) same, ap (λ r. r.1) same)
