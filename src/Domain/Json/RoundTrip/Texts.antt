-- ===== src/Domain/Json/RoundTrip/Texts.antt =====
-- The texts of arrays and objects of src/domain/json.rs, split behind each element.
use verdant.Base.{◌≡◌, ◌∙◌, refl, ap, false, [], ◌∷◌, ◌++◌}
use verdant.Base.Bytes.{Bytes}
use mathlib.Core.List.{append_assoc}
use verdant.Domain.Json.Strings.{quote}
use verdant.Domain.Json.{
  JsonVal, Items, Fields, array, object, no_items, item, no_fields, field, stringify,
  stringify_items, stringify_fields,
}

-- What stands behind an element, and behind an entry.
unfoldable pub tail_items : Items → Bytes → Bytes
unfolding stringify
tail_items no_items rest = b']' ∷ rest
tail_items (item v vs) rest = b',' ∷ (stringify v ++ tail_items vs rest)

unfoldable pub tail_fields : Fields → Bytes → Bytes
unfolding stringify quote
tail_fields no_fields rest = b'}' ∷ rest
tail_fields (field key v fs) rest =
    b',' ∷ (quote key ++ b':' ∷ (stringify v ++ tail_fields fs rest))

stringify_items-tail :
    (vs : Items) (rest : Bytes) → stringify_items false vs ++ b']' ∷ rest ≡ tail_items vs rest
unfolding tail_items stringify
stringify_items-tail no_items rest = refl
stringify_items-tail (item v vs) rest =
    ap (λ t. b',' ∷ t)
      (append_assoc (stringify v) (stringify_items false vs) (b']' ∷ rest)
        ∙ ap (λ t. stringify v ++ t) (stringify_items-tail vs rest))

entry_tail :
    (key : Bytes) (v : JsonVal) (f t : Bytes) (rest : Bytes)
    → f ++ b'}' ∷ rest ≡ t
    → (quote key ++ b':' ∷ (stringify v ++ f)) ++ b'}' ∷ rest
      ≡ quote key ++ b':' ∷ (stringify v ++ t)
entry_tail key v f t rest h =
    append_assoc (quote key) (b':' ∷ (stringify v ++ f)) (b'}' ∷ rest)
    ∙ ap (λ x. quote key ++ b':' ∷ x)
        (append_assoc (stringify v) f (b'}' ∷ rest) ∙ ap (λ x. stringify v ++ x) h)

stringify_fields-tail :
    (fs : Fields) (rest : Bytes) → stringify_fields false fs ++ b'}' ∷ rest ≡ tail_fields fs rest
unfolding tail_fields stringify
stringify_fields-tail no_fields rest = refl
stringify_fields-tail (field key v fs) rest =
    ap (λ t. b',' ∷ t)
      (entry_tail key v (stringify_fields false fs) (tail_fields fs rest) rest
        (stringify_fields-tail fs rest))

pub array_text :
    (v : JsonVal) (vs : Items) (rest : Bytes)
    → stringify (array (item v vs)) ++ rest ≡ b'[' ∷ (stringify v ++ tail_items vs rest)
unfolding stringify
array_text v vs rest =
    ap (λ t. b'[' ∷ t)
      (append_assoc (stringify v ++ stringify_items false vs) (b']' ∷ []) rest
        ∙ append_assoc (stringify v) (stringify_items false vs) (b']' ∷ rest)
        ∙ ap (λ t. stringify v ++ t) (stringify_items-tail vs rest))

pub object_text :
    (key : Bytes) (v : JsonVal) (fs : Fields) (rest : Bytes)
    → stringify (object (field key v fs)) ++ rest
      ≡ b'{' ∷ (quote key ++ b':' ∷ (stringify v ++ tail_fields fs rest))
unfolding stringify
object_text key v fs rest =
    ap (λ t. b'{' ∷ t)
      (append_assoc (quote key ++ b':' ∷ (stringify v ++ stringify_fields false fs)) (b'}' ∷ [])
          rest
        ∙ entry_tail key v (stringify_fields false fs) (tail_fields fs rest) rest
            (stringify_fields-tail fs rest))
