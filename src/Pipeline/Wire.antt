-- ===== src/Pipeline/Wire.antt =====
-- The event on the wire: the two structs `TaskCreatedEvent` of crates/tasks/src/domain.rs and of
-- crates/consumer/src/lib.rs, as their derived `Serialize` and `Deserialize` take them to JSON and
-- back. `serde_json` itself, between objects and bytes, is a parameter.
use rust_basics.Prelude.{
  ℕ, ◌≡◌, refl, Option, none, some, List, [], ◌∷◌, String, str_eq, Result, ok, err, ◌>>=◌,
  if◌then◌else◌,
}
use rust_basics.Httpx.Problem.{Value, text, number}
use rust_basics.Tasks.Domain.{TaskCreatedEvent}
use rust_basics.Consumer as Consumer

-- A JSON object, with its members in order.
abbrev pub Object : Type 0
Object = List (String × Value)

-- Between objects and bytes.
pub record SerdeJson : Type 0 where
  pub to_vec : Object → Result String (List ℕ)
  pub from_slice : List ℕ → Result String Object

-- The bytes that are written are read as the object that was written.
pub record IsSerdeJson (json : SerdeJson) : Type 0 where
  pub from_slice-to_vec :
      (o : Object) (payload : List ℕ)
      → SerdeJson.to_vec json o ≡ ok payload
      → SerdeJson.from_slice json payload ≡ ok o

-- `Serialize` of the struct of crates/tasks: a member for each field, under the field's name.
unfoldable pub to_object : TaskCreatedEvent → Object
to_object e = ("id", text e.id) ∷ ("title", text e.title) ∷ ("created_at", number e.created_at) ∷ []

-- The member of a field, if there is one. A second one is an error, other members are skipped.
member : String → Object → Result String (Option Value)
member name [] = ok none
member name ((key, value) ∷ rest) =
    let later = member name rest in
    if str_eq key name
    then elim later [
      | ok none ↦ ok (some value)
      | ok (some _) ↦ err "duplicate field"
      | err e ↦ err e
    ]
    else later

-- A text that must be there.
required : Result String (Option Value) → Result String String
required (ok (some (text s))) = ok s
required (ok (some _)) = err "invalid type"
required (ok none) = err "missing field"
required (err e) = err e

-- A text with `#[serde(default)]`.
defaulted : Result String (Option Value) → Result String String
defaulted (ok (some (text s))) = ok s
defaulted (ok (some _)) = err "invalid type"
defaulted (ok none) = ok ""
defaulted (err e) = err e

-- `Deserialize` of the struct of crates/consumer.
unfoldable pub from_object : Object → Result String Consumer.TaskCreatedEvent
unfolding member required defaulted
from_object o = do
  id ← required (member "id" o)
  title ← defaulted (member "title" o)
  ok (record { id = id; title = title })

-- `serde_json::from_slice::<TaskCreatedEvent>` of the consumer.
unfoldable pub decode : SerdeJson → List ℕ → Result String Consumer.TaskCreatedEvent
decode json payload = do o ← SerdeJson.from_slice json payload; from_object o

from_object-to_object :
    (e : TaskCreatedEvent) → from_object (to_object e) ≡ ok (record { id = e.id; title = e.title })
unfolding from_object to_object
from_object-to_object e = refl

-- What the one service writes, the other reads.
pub decode-to_object :
    (json : SerdeJson) (e : TaskCreatedEvent) (payload : List ℕ)
    → IsSerdeJson json
    → SerdeJson.to_vec json (to_object e) ≡ ok payload
    → decode json payload ≡ ok (record { id = e.id; title = e.title })
unfolding decode
decode-to_object json e payload law written =
    rw (IsSerdeJson.from_slice-to_vec law (to_object e) payload written) (from_object-to_object e)
