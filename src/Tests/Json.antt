-- ===== src/Tests/Json.antt =====
-- Runs of the JSON reader and writer.
use verdant.Base.{arith, [], ◌∷◌, ◌≡◌, ◌≢◌, ok, err, refl, true}
use verdant.Domain.Ids.{codes}
use verdant.Domain.Json.{
  parse, out_of_fuel, JsonVal, stringify, refuses, object, field, array, item, boolean, null,
  no_items, number, no_fields, Fields, str,
}
use verdant.Domain.Json.Strings.{quote}
use verdant.Domain.Json.Termination.{parse-answers}
use verdant.Domain.Json.Readers.{get_bool, not_a_boolean, reject_unknown, unexpected_field}
use verdant.Domain.Json.RoundTrip.{parse-stringify}
use verdant.Domain.Json.RoundTrip.Printable.{IsPrintable}

parse-answers_example : parse (codes "{\"a\":[1,true,null]}") ≢ err out_of_fuel
parse-answers_example = parse-answers (codes "{\"a\":[1,true,null]}")

abbrev listed : JsonVal
listed = object (
    field (codes "a") (array (item (boolean true) (item null no_items)))
      (field (codes "b") (number (codes "-1.5e3")) no_fields))

reads_sorted : parse (codes " {\"b\": -1.5e3, \"a\": [true, null]} ") ≡ ok listed
unfolding parse verdant.Domain.Json.parse_value verdant.Domain.Json.Strings.string_loop
    verdant.Domain.Json.Strings.finished
reads_sorted = refl

listed-IsPrintable : IsPrintable 0 listed
unfolding IsPrintable
listed-IsPrintable = (
  omega arith,
  refl,
  ((omega arith, (omega arith, (omega arith, tt))), ((omega arith, refl), tt)),
)

parse-stringify_example : parse (stringify listed) ≡ ok listed
parse-stringify_example = parse-stringify listed listed-IsPrintable

writes_sorted : stringify listed ≡ codes "{\"a\":[true,null],\"b\":-1.5e3}"
unfolding stringify quote verdant.Domain.Json.Strings.escaped
    verdant.Domain.Json.Strings.escape_byte
writes_sorted = refl

refuses_duplicate : parse (codes "{\"a\":1,\"a\":2}") ≡ err (refuses "duplicate key")
unfolding parse verdant.Domain.Json.parse_value verdant.Domain.Json.Strings.string_loop
refuses_duplicate = refl

abbrev entries : Fields
entries = field (codes "on") (boolean true) (field (codes "unit") (str (codes "kW")) no_fields)

reads_on : get_bool entries (codes "on") ≡ ok true
unfolding get_bool
reads_on = refl

refuses_kind : get_bool entries (codes "unit") ≡ err (not_a_boolean (codes "unit") "string")
unfolding get_bool
refuses_kind = refl

refuses_extra : reject_unknown entries (codes "on" ∷ []) ≡ err (unexpected_field (codes "unit"))
unfolding reject_unknown
refuses_extra = refl
