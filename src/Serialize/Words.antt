-- ===== src/Serialize/Words.antt =====
-- Words as bytes, and back.
use mariv.Base.{ℕ, zero, suc, ◌/◌, ◌^◌, ◌<◌, ◌≡◌, refl, ap, arith, length}
use mariv.Base.Outcome.{ok}
use mariv.Serialize.{
  put_little_endian, little_endian, serialize_uint64, deserialize_uint64, serialize_uint32,
  deserialize_uint32, serialize_uint16, deserialize_uint16,
}

little_endian-put : (n w : ℕ) → w < 256 ^ n → little_endian (put_little_endian n w) ≡ w
little_endian-put zero w h = omega arith
little_endian-put (suc n) w h = omega (arith, little_endian-put n (w / 256) (omega arith))

length-put_little_endian : (n w : ℕ) → length (put_little_endian n w) ≡ n
length-put_little_endian zero w = refl
length-put_little_endian (suc n) w = ap suc (length-put_little_endian n (w / 256))

pub length-serialize_uint64 : (w : ℕ) → length (serialize_uint64 w) ≡ 8
unfolding serialize_uint64
length-serialize_uint64 w = length-put_little_endian 8 w

pub length-serialize_uint32 : (w : ℕ) → length (serialize_uint32 w) ≡ 4
unfolding serialize_uint32
length-serialize_uint32 w = length-put_little_endian 4 w

pub length-serialize_uint16 : (w : ℕ) → length (serialize_uint16 w) ≡ 2
unfolding serialize_uint16
length-serialize_uint16 w = length-put_little_endian 2 w

pub deserialize-serialize_uint64 :
    (w : ℕ) → w < 2 ^ 64 → deserialize_uint64 (serialize_uint64 w) ≡ ok w
unfolding serialize_uint64 deserialize_uint64
deserialize-serialize_uint64 w h = rw (little_endian-put 8 w h) refl

pub deserialize-serialize_uint32 :
    (w : ℕ) → w < 2 ^ 32 → deserialize_uint32 (serialize_uint32 w) ≡ ok w
unfolding serialize_uint32 deserialize_uint32
deserialize-serialize_uint32 w h = rw (little_endian-put 4 w h) refl

pub deserialize-serialize_uint16 :
    (w : ℕ) → w < 2 ^ 16 → deserialize_uint16 (serialize_uint16 w) ≡ ok w
unfolding serialize_uint16 deserialize_uint16
deserialize-serialize_uint16 w h = rw (little_endian-put 2 w h) refl

pub little_endian-serialize_uint64 : (w : ℕ) → w < 2 ^ 64 → little_endian (serialize_uint64 w) ≡ w
unfolding serialize_uint64
little_endian-serialize_uint64 w h = little_endian-put 8 w h
