-- ===== src/Runtime/Mapping/Decode.antt =====
-- What a payload means under a map (src/runtime/modbus/mapping.rs).
use verdant.Base.{
  ℕ, suc, ◌*◌, ◌/◌, ◌%◌, ◌<◌, ◌≡◌, refl, ap, ◌∙◌, ◌↔◌, Bool, true, false, some, List, [], ◌∷◌, map,
  length, arith,
}
use verdant.Base.Int.{ℤ, pos}
use verdant.Runtime.Modbus.{Read, is_bits, bytes, Payload, words, register_bytes}
use verdant.Runtime.Mapping.{
  Map, is_unknown, Encoding, bool, u16, i16, u32, i32, unsupported, ByteOrder, big, little,
  WordOrder, high_first, low_first, swap_bytes, in_byte_order, in_word_order, words_of_bytes,
  payload_words, as_signed, number_of, number_value, words_value, encoded_value, has_shape,
  scaled_or, scaled, valid, value, TransportResult, value_returned, synthetic_value_only, decode,
}

-- The registers of a point as big-endian bytes.
abbrev pub be_bytes : List ℕ → List ℕ
be_bytes [] = []
be_bytes (w ∷ ws) = (w / 256) ∷ (w % 256) ∷ be_bytes ws

words_of_bytes-be_bytes : (ws : List ℕ) → words_of_bytes (be_bytes ws) ≡ ws
unfolding words_of_bytes
words_of_bytes-be_bytes [] = refl
words_of_bytes-be_bytes (w ∷ ws) = grind (arith, words_of_bytes-be_bytes ws)

length-be_bytes : (ws : List ℕ) → length (be_bytes ws) ≡ length ws * 2
length-be_bytes [] = refl
length-be_bytes (w ∷ ws) = omega (arith, length-be_bytes ws)

has_shape-bytes :
    (r : Read) (ws : List ℕ)
    → has_shape r (some (register_bytes (be_bytes ws))) ≡ has_shape r (some (words ws))
unfolding has_shape bytes
has_shape-bytes r ws = ground (arith, length-be_bytes ws)

encoded-bytes :
    (e : Encoding) (m : Map) (ws : List ℕ)
    → encoded_value e m (some (register_bytes (be_bytes ws))) ≡ encoded_value e m (some (words ws))
unfolding encoded_value payload_words
encoded-bytes bool m ws = refl
encoded-bytes u16 m ws = ap (λ x. words_value m (some x)) (words_of_bytes-be_bytes ws)
encoded-bytes i16 m ws = ap (λ x. words_value m (some x)) (words_of_bytes-be_bytes ws)
encoded-bytes u32 m ws = ap (λ x. words_value m (some x)) (words_of_bytes-be_bytes ws)
encoded-bytes i32 m ws = ap (λ x. words_value m (some x)) (words_of_bytes-be_bytes ws)
encoded-bytes (unsupported token) m ws = refl

-- Register bytes are read as the words they are the big-endian bytes of, under every map.
pub value-register_bytes :
    (m : Map) (ws : List ℕ)
    → value m (some (register_bytes (be_bytes ws))) ≡ value m (some (words ws))
unfolding value
value-register_bytes m ws = ground (arith, has_shape-bytes m.read ws, encoded-bytes m.encoding m ws)

-- The two registers in which a device of the map's orders sends the 32 bits `n`.
abbrev pub wire_words : Map → ℕ → List ℕ
unfolding in_word_order in_byte_order
wire_words m n =
    map (in_byte_order m.byte_order) (in_word_order m.word_order ((n / 65536) ∷ (n % 65536) ∷ []))

in_byte_order_twice : (o : ByteOrder) (w : ℕ) → w < 65536 → in_byte_order o (in_byte_order o w) ≡ w
unfolding in_byte_order swap_bytes
in_byte_order_twice big w h = refl
in_byte_order_twice little w h = omega arith

restored :
    (b : ByteOrder) (o : WordOrder) (x y : ℕ)
    → x < 65536
    → y < 65536
    → in_word_order o (map (in_byte_order b) (map (in_byte_order b) (in_word_order o (x ∷ y ∷ []))))
      ≡ x ∷ y ∷ []
unfolding in_word_order
restored b high_first x y h k = grind (arith, in_byte_order_twice b x h, in_byte_order_twice b y k)
restored b low_first x y h k = grind (arith, in_byte_order_twice b x h, in_byte_order_twice b y k)

length-in_word_order : (o : WordOrder) (x y : ℕ) → length (in_word_order o (x ∷ y ∷ [])) ≡ 2
unfolding in_word_order
length-in_word_order high_first x y = refl
length-in_word_order low_first x y = refl

length-map : {A B : Type 0} (f : A → B) (xs : List A) → length (map f xs) ≡ length xs
length-map f [] = refl
length-map f (x ∷ xs) = ap suc (length-map f xs)

length-wire_words : (m : Map) (n : ℕ) → length (wire_words m n) ≡ 2
unfolding wire_words
length-wire_words m n =
    length-map (in_byte_order m.byte_order)
      (in_word_order m.word_order ((n / 65536) ∷ (n % 65536) ∷ []))
    ∙ length-in_word_order m.word_order (n / 65536) (n % 65536)

wire_shape :
    (m : Map) (n : ℕ)
    → m.read.quantity ≡ 2
    → is_bits m.read.function ≡ false
    → has_shape m.read (some (words (wire_words m n))) ≡ true
unfolding has_shape
wire_shape m n q f = ground (arith, length-wire_words m n)

-- The number that 32 bits stand for.
abbrev pub number32 : Bool → ℕ → ℤ
number32 true n = as_signed 0x8000_0000 n
number32 false n = pos n

abbrev pub encoding32 : Bool → Encoding
encoding32 true = i32
encoding32 false = u32

wire_number :
    (m : Map) (signed : Bool) (n : ℕ)
    → n < 0x1_0000_0000
    → number_of
        (encoding32 signed)
        (in_word_order m.word_order (map (in_byte_order m.byte_order) (wire_words m n)))
      ≡ some (number32 signed n)
unfolding number_of wire_words
wire_number m true n h =
    ap (number_of i32)
      (restored m.byte_order m.word_order (n / 65536) (n % 65536) (omega arith) (omega arith))
    ∙ ap (λ k. some (as_signed 0x8000_0000 k)) (omega arith)
wire_number m false n h =
    ap (number_of u32)
      (restored m.byte_order m.word_order (n / 65536) (n % 65536) (omega arith) (omega arith))
    ∙ ap (λ k. some (pos k)) (omega arith)

wire_value :
    (m : Map) (signed : Bool) (n : ℕ)
    → n < 0x1_0000_0000
    → m.read.quantity ≡ 2
    → m.encoding ≡ encoding32 signed
    → number_value m (wire_words m n) ≡ scaled m.scale (number32 signed n)
unfolding number_value scaled_or
wire_value m signed n h q e =
    let decoded =
      ap
        (λ x.
          number_of x
            (in_word_order m.word_order (map (in_byte_order m.byte_order) (wire_words m n))))
        e
      ∙ wire_number m signed n h in
    ground (arith, length-wire_words m n, decoded)

encoded32 :
    (m : Map) (signed : Bool) (ws : List ℕ)
    → encoded_value (encoding32 signed) m (some (words ws)) ≡ number_value m ws
unfolding encoded_value words_value payload_words
encoded32 m true ws = refl
encoded32 m false ws = refl

-- A point of 32 bits is read as the device means it, whatever the byte order and the word order of the
-- map: as the unsigned or, for a signed encoding, the two's complement number `n`, then scaled.
pub value-wire_words :
    (m : Map) (signed : Bool) (n : ℕ)
    → n < 0x1_0000_0000
    → m.read.quantity ≡ 2
    → is_bits m.read.function ≡ false
    → m.encoding ≡ encoding32 signed
    → value m (some (words (wire_words m n))) ≡ scaled m.scale (number32 signed n)
unfolding value
value-wire_words m signed n h q f e = ground (
  arith,
  wire_shape m n q f,
  wire_value m signed n h q e,
  encoded32 m signed (wire_words m n),
  ap (λ x. encoded_value x m (some (words (wire_words m n)))) e,
)

-- A decoded value is suitable exactly when the transport returned a value, the map reads it as valid,
-- and the unit is known.
pub decode-suitable_iff :
    (m : Map) (p : Payload) (t : TransportResult)
    → ((decode m (some p) t).suitability ≡ synthetic_value_only)
      ↔ ((t ≡ value_returned) × ((value m (some p)).1 ≡ valid) × (is_unknown m.unit ≡ false))
unfolding decode
decode-suitable_iff m p t = ((λ h. ground arith), (λ h. ground arith))
