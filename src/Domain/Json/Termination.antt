-- ===== src/Domain/Json/Termination.antt =====
-- The parser of src/domain/json.rs answers on every text: the recursion and its fuel.
use verdant.Base.{
  ℕ, zero, suc, ◌+◌, ◌*◌, ◌≤◌, ◌<◌, [], ◌∷◌, ◌≡◌, length, ok, err, arith, ◌>>=◌, String, refl,
  nat_eq, Result, some, Option, map_err, none, Bool, true, false, refuse_if, ◌≢◌, not, ◌>>◌, ltb,
}
use verdant.Base.Bytes.{Bytes}
use verdant.Domain.Json.Strings.{skip_ws}
use verdant.Domain.Json.{
  JsonVal, Items, Fields, refuses, out_of_fuel, Parsed, wrapped, read_string, expect_byte, After,
  more, ended, other, after_element, opened, closed_at, value_at, key_of, insert_field, inserted,
  parse_value, parse_items, parse_fields, whole, parse, object, no_fields, array, no_items,
  starts_with, item,
}
use verdant.Domain.Json.Progress.{
  IsWithin, IsWithin-mono, bind-IsWithin, if-IsWithin, wrapped-IsWithin, length-skip_ws,
  read_string-IsWithin, parse_scalar-IsWithin,
}

closed_at-length :
    (close : ℕ) (s rest : Bytes) → closed_at close s ≡ some rest → length rest < length s
unfolding closed_at
closed_at-length close [] rest h = absurd (cc)
closed_at-length close (c ∷ s) rest h = ground arith

opened-IsWithin :
    {A : Type 0} (n : ℕ) (empty : A) (o : Option Bytes) (elements : Parsed A)
    → ((rest : Bytes) → o ≡ some rest → length rest < n)
    → IsWithin n elements
    → IsWithin n (opened empty o elements)
opened-IsWithin n empty (some rest) elements h k = h rest refl
opened-IsWithin n empty none elements h k = k

closed_within :
    (close : ℕ) (s rest : Bytes) → closed_at close (skip_ws s) ≡ some rest → length rest < length s
closed_within close s rest h =
    omega (arith, closed_at-length close (skip_ws s) rest h, length-skip_ws s)

value_at-IsWithin :
    (entries : Bytes → Parsed Fields) (elements : Bytes → Parsed Items) (s : Bytes)
    → ((t : Bytes) → length t < length s → IsWithin (length t) (entries t))
    → ((t : Bytes) → length t < length s → IsWithin (length t) (elements t))
    → IsWithin (length s) (value_at entries elements s)
unfolding value_at
value_at-IsWithin entries elements [] h k = tt
value_at-IsWithin entries elements (c ∷ s) h k =
    let n = suc (length s) in
    if-IsWithin n (nat_eq c b'{') _ _
      (wrapped-IsWithin n object _ (
        IsWithin-mono (length s) n _ (omega arith) (
          opened-IsWithin (length s) no_fields (closed_at b'}' (skip_ws s)) (entries s)
            (closed_within b'}' s) (h s (omega arith)))))
      (if-IsWithin n (nat_eq c b'[') _ _
        (wrapped-IsWithin n array _ (
          IsWithin-mono (length s) n _ (omega arith) (
            opened-IsWithin (length s) no_items (closed_at b']' (skip_ws s)) (elements s)
              (closed_within b']' s) (k s (omega arith)))))
        (parse_scalar-IsWithin c s))

abbrev IsShorter : Bytes → After → Type 0
IsShorter s (more rest) = length rest < length s
IsShorter s (ended rest) = length rest < length s
IsShorter s (other message) = Unit

-- What is behind an element is shorter, where there is more or the end.
after-length : (close : ℕ) (s : Bytes) (o : After) → after_element close s ≡ o → IsShorter s o
after-length close [] (more rest) h = absurd (cc)
after-length close [] (ended rest) h = absurd (cc)
after-length close [] (other message) h = tt
after-length close (c ∷ s) (more rest) h = ground arith
after-length close (c ∷ s) (ended rest) h = ground arith
after-length close (c ∷ s) (other message) h = tt

elements-IsWithin :
    {A : Type 0} (n : ℕ) (close : ℕ) (s : Bytes) (o : After) (again : Bytes → Parsed A)
    (last : Bytes → A)
    → after_element close s ≡ o
    → length s ≤ n
    → ((t : Bytes) → length t < length s → IsWithin (length t) (again t))
    → IsWithin n (elim o [
      | more t ↦ again t
      | ended t ↦ ok (last t, t)
      | other message ↦ err (refuses message)
    ])
elements-IsWithin n close s (more t) again last h le k =
    IsWithin-mono (length t) n _ (omega (arith, after-length close s (more t) h, le))
      (k t (after-length close s (more t) h))
elements-IsWithin n close s (ended t) again last h le k =
    omega (arith, after-length close s (ended t) h, le)
elements-IsWithin n close s (other message) again last h le k = tt

expect_byte-IsWithin : (want : ℕ) (s : Bytes) → IsWithin (length s) (expect_byte want s)
expect_byte-IsWithin want [] = tt
expect_byte-IsWithin want (c ∷ s) =
    if-IsWithin (suc (length s)) (nat_eq c want) (ok (tt, s)) _ (omega arith) tt

key_of-IsWithin : (s : Bytes) → IsWithin (length s) (key_of s)
unfolding key_of
key_of-IsWithin s = quoted (starts_with b'"' (skip_ws s))
  where
    quoted :
        (b : Bool)
        → IsWithin
            (length s)
            (refuse_if (not b) (refuses "expected string key in object") >> read_string (skip_ws s))
    quoted true =
        IsWithin-mono (length (skip_ws s)) (length s) _ (length-skip_ws s)
          (read_string-IsWithin (skip_ws s))
    quoted false = tt

inserted-IsWithin :
    {B : Type 0} (n : ℕ) (o : Option Fields) (k : Fields → Parsed B)
    → ((fs : Fields) → IsWithin n (k fs))
    → IsWithin n (inserted o >>= k)
inserted-IsWithin n none k h = tt
inserted-IsWithin n (some fs) k h = h fs

mutual
  unfolding parse_value parse_items parse_fields

  value-IsWithin :
      (f depth : ℕ) (s : Bytes) → 2 * length s + 1 ≤ f → IsWithin (length s) (parse_value f depth s)
  value-IsWithin zero depth s enough = absurd (omega (arith, enough))
  value-IsWithin (suc f) depth s enough = if-IsWithin (length s) (ltb 16 depth) _ _ tt (
      IsWithin-mono (length (skip_ws s)) (length s) _ (length-skip_ws s) (
        value_at-IsWithin (parse_fields f depth no_fields) (parse_items f depth) (skip_ws s)
          (λ t k. fields-IsWithin f depth no_fields t (omega (arith, enough, k, length-skip_ws s)))
          (λ t k. items-IsWithin f depth t (omega (arith, enough, k, length-skip_ws s)))))

  items-IsWithin :
      (f depth : ℕ) (s : Bytes) → 2 * length s + 2 ≤ f → IsWithin (length s) (parse_items f depth s)
  items-IsWithin zero depth s enough = absurd (omega (arith, enough))
  items-IsWithin (suc f) depth s enough =
      bind-IsWithin (length s) (length s) (parse_value f (depth + 1) s) _
        (value-IsWithin f (depth + 1) s (omega (arith, enough)))
        (λ v rest k.
          elements-IsWithin (length s) b']' (skip_ws rest) (after_element b']' (skip_ws rest))
            (λ t. wrapped (item v) (parse_items f depth t)) (λ t. item v no_items) refl
            (omega (arith, k, length-skip_ws rest))
            (λ t l.
              wrapped-IsWithin (length t) (item v) _
                (items-IsWithin f depth t (omega (arith, enough, k, l, length-skip_ws rest)))))

  fields-IsWithin :
      (f depth : ℕ) (acc : Fields) (s : Bytes)
      → 2 * length s + 2 ≤ f
      → IsWithin (length s) (parse_fields f depth acc s)
  fields-IsWithin zero depth acc s enough = absurd (omega (arith, enough))
  fields-IsWithin (suc f) depth acc s enough =
      bind-IsWithin (length s) (length s) (key_of s) _ (key_of-IsWithin s) (λ key s1 k1.
        bind-IsWithin (length (skip_ws s1)) (length s) (expect_byte b':' (skip_ws s1)) _
          (expect_byte-IsWithin b':' (skip_ws s1))
          (λ _ s2 k2.
            bind-IsWithin (length s2) (length s) (parse_value f (depth + 1) s2) _
              (value-IsWithin f (depth + 1) s2 (omega (arith, enough, k1, k2, length-skip_ws s1)))
              (λ v s3 k3. inserted-IsWithin (length s) (insert_field key v acc) _ (λ acc'.
                elements-IsWithin (length s) b'}' (skip_ws s3) (after_element b'}' (skip_ws s3))
                  (parse_fields f depth acc') (λ t. acc') refl
                  (omega (arith, k1, k2, k3, length-skip_ws s1, length-skip_ws s3))
                  (λ t l. fields-IsWithin f depth acc' t (
                    omega (arith, enough, k1, k2, k3, l, length-skip_ws s1, length-skip_ws s3)))))))

whole_answers : (n : ℕ) (r : Parsed JsonVal) → IsWithin n r → whole r ≢ err out_of_fuel
whole_answers n (ok (v, rest)) h e = finished_answers _ e
  where
    finished_answers : (m : Result String JsonVal) → map_err refuses m ≢ err out_of_fuel
    finished_answers (ok a) d = absurd (cc)
    finished_answers (err a) d = absurd (cc)
whole_answers n (err (refuses message)) h e = absurd (cc)
whole_answers n (err out_of_fuel) h e = h

-- The parser answers every text, with a value or with a refusal: it never runs out of the fuel that it is
-- given.
pub parse-answers : (text : Bytes) → parse text ≢ err out_of_fuel
unfolding parse
parse-answers text =
    whole_answers (length (skip_ws text)) _
      (value-IsWithin (2 * length text + 2) 0 (skip_ws text) (omega (arith, length-skip_ws text)))
