-- ===== src/Json/Values.antt =====
-- JSON values as `serde_json` parses and prints them, and the fields of a derived struct, for the
-- record types of obsj/src/json.rs and obsj/src/obs.rs. A number stands as its token, as it does in a
-- `RawValue`. What the derived code does is serde's documented behaviour: an absent field of a type
-- `Option`, or with a default, is left out, `null` is none, an unknown field is ignored, and a field
-- that comes twice is an error.
use convobs_rs.Base.{Bool, if◌then◌else◌, Option, none, some, is_some, List, [], ◌∷◌, ◌==◌}
use convobs_rs.Base.Texts.{text_eq}
use convobs_rs.Checked.{Checked, good, ◌>>=◌, ◌>>◌, refuse_if}
use convobs_rs.Metadata.{Text}

mutual
  pub data Json : Type 0 where
    null : Json
    text : Text → Json
    number : Text → Json
    flag : Bool → Json
    list : Items → Json
    object : Fields → Json

  pub data Items : Type 0 where
    nil : Items
    cons : Json → Items → Items

  pub data Fields : Type 0 where
    end : Fields
    field : Text → Json → Fields → Fields

-- The value of a field, if it is there; a second one is refused.
unfoldable pub find : Text → Fields → Checked (Option Json)
find k end = good none
find k (field j v fields) =
    let rest = find k fields in
    if j == k
    then (rest >>= λ other. refuse_if (is_some other) "duplicate field" >> good (some v))
    else rest

-- The fields of an object, by their names.
abbrev pub Look : Type 0
Look = Text → Checked (Option Json)

-- A field of a type `Option`.
abbrev pub decoded {ℓ} : {A : Type ℓ} → (Json → Checked A) → Option Json → Checked (Option A)
decoded decode none = good none
decoded decode (some null) = good none
decoded decode (some (text s)) = decode (text s) >>= λ x. good (some x)
decoded decode (some (number s)) = decode (number s) >>= λ x. good (some x)
decoded decode (some (flag b)) = decode (flag b) >>= λ x. good (some x)
decoded decode (some (list s)) = decode (list s) >>= λ x. good (some x)
decoded decode (some (object s)) = decode (object s) >>= λ x. good (some x)

abbrev pub optional {ℓ} : {A : Type ℓ} → Text → (Json → Checked A) → Look → Checked (Option A)
optional k decode look = look k >>= decoded decode

-- A field with a default.
abbrev pub decoded_or {ℓ} : {A : Type ℓ} → A → (Json → Checked A) → Option Json → Checked A
decoded_or default decode none = good default
decoded_or default decode (some v) = decode v

abbrev pub with_default {ℓ} : {A : Type ℓ} → Text → A → (Json → Checked A) → Look → Checked A
with_default k default decode look = look k >>= decoded_or default decode

-- The fields that `skip_serializing_if` leaves.
abbrev pub present : List (Text × Option Json) → Fields
present [] = end
present ((k, none) ∷ entries) = present entries
present ((k, some v) ∷ entries) = field k v (present entries)

-- What such a list holds for a key.
abbrev pub entry : Text → List (Text × Option Json) → Option Json
entry k [] = none
entry k ((j, v) ∷ entries) = if j == k then v else entry k entries

abbrev pub keys : List (Text × Option Json) → List Text
keys [] = []
keys ((k, v) ∷ entries) = k ∷ keys entries
