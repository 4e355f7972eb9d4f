-- ===== src/Spa/Cipher/Padding.antt =====
-- PKCS7 padding: whole blocks, and taken off again.
use native.Mathlib.Nat.{mod-add-mod, mod_self, mod-lt}
use fwknop_go.Base.{
  AreBytes, All-append, All-replicate, ℕ, zero, suc, ◌+◌, ◌-◌, ◌%◌, ◌≤◌, ◌<◌, ◌≡◌, refl, sym, ap,
  ◌∙◌, true, some, [], ◌∷◌, ◌++◌, arith, Bytes, length, length-append, length-replicate, take, drop,
  take-append_exact, drop-append_exact, replicate,
}
use fwknop_go.Spa.Cipher.{pkcs7_pad, last_byte, all_equal, pkcs7_unpad}

last_byte-replicate : (s : Bytes) (n v : ℕ) → last_byte (s ++ replicate (suc n) v) ≡ v
last_byte-replicate [] zero v = refl
last_byte-replicate [] (suc n) v = last_byte-replicate [] n v
last_byte-replicate (c ∷ []) n v = last_byte-replicate [] n v
last_byte-replicate (c ∷ d ∷ s) n v = last_byte-replicate (d ∷ s) n v

all_equal-replicate : (n v : ℕ) → all_equal v (replicate n v) ≡ true
all_equal-replicate zero v = refl
all_equal-replicate (suc n) v = ground (arith, all_equal-replicate n v)

mod-le_of_pos : (n b : ℕ) → 0 < b → n % b ≤ b
mod-le_of_pos n b h = grind (arith, mod-lt n h)

add-sub_of_le : {m b : ℕ} → m ≤ b → m + (b - m) ≡ b
add-sub_of_le h = omega arith

fill : (n b : ℕ) → 0 < b → (n + (b - n % b)) % b ≡ 0
fill n b h =
    sym (mod-add-mod n b (b - n % b))
    ∙ ap (λ t. t % b) (add-sub_of_le (mod-le_of_pos n b h))
    ∙ mod_self b

-- For a positive block size, a padded text is a whole number of blocks, and longer than the text,
-- by one block at most.
pub length-pkcs7_pad :
    (d : Bytes) (b : ℕ)
    → 0 < b
    → (length (pkcs7_pad d b) % b ≡ 0)
      × (length d < length (pkcs7_pad d b))
      × (length (pkcs7_pad d b) ≤ length d + b)
unfolding pkcs7_pad
length-pkcs7_pad d b h =
    let n = length d % b in
    let e : length (d ++ replicate (b - n) ((b - n) % 256)) ≡ length d + (b - n) =
      length-append d (replicate (b - n) ((b - n) % 256))
      ∙ ap (λ k. length d + k) (length-replicate (b - n) _) in
    rw e (fill (length d) b h, grind arith, omega arith)

unpad_valid :
    (text s : Bytes) (b n : ℕ)
    → suc n ≤ b
    → text ≡ s ++ replicate (suc n) (suc n)
    → pkcs7_unpad text b ≡ some s
unfolding pkcs7_unpad
unpad_valid [] s b n h e =
    absurd (omega (arith, ap length e, length-append s (replicate (suc n) (suc n))))
unpad_valid (c ∷ t) s b n h e =
    let pad = replicate (suc n) (suc n) in
    let value : last_byte (c ∷ t) ≡ suc n = ap last_byte e ∙ last_byte-replicate s n (suc n) in
    let size : suc (length t) ≡ length s + suc n =
      omega (arith, ap length e, length-append s pad, length-replicate (suc n) (suc n)) in
    let start : length s ≡ suc (length t) - suc n = omega arith in
    let behind : drop (suc (length t) - suc n) (c ∷ t) ≡ pad =
      rw e (drop-append_exact (suc (length t) - suc n) s pad start) in
    let before : take (suc (length t) - suc n) (c ∷ t) ≡ s =
      rw e (take-append_exact (suc (length t) - suc n) s pad start) in
    rw value (rw (behind, before) (ground (arith, all_equal-replicate (suc n) (suc n))))

unpad_padded :
    (d : Bytes) (b k n : ℕ)
    → k ≡ suc n
    → suc n ≤ b
    → b < 256
    → pkcs7_unpad (d ++ replicate k (k % 256)) b ≡ some d
unpad_padded d b k n e h l =
    let f : suc n % 256 ≡ suc n = omega arith in
    unpad_valid (d ++ replicate k (k % 256)) d b n h (rw (e, f) refl)

-- Unpadding undoes padding, for every text and every block size that a byte can hold.
pub pkcs7_unpad-pkcs7_pad :
    (d : Bytes) (b : ℕ) → 0 < b → b < 256 → pkcs7_unpad (pkcs7_pad d b) b ≡ some d
unfolding pkcs7_pad
pkcs7_unpad-pkcs7_pad d b h k =
    unpad_padded d b (b - length d % b) (b - length d % b - 1) (omega (arith, mod-lt (length d) h))
      (omega (arith, mod-lt (length d) h)) k

pub pkcs7_pad_bytes : (d : Bytes) (b : ℕ) → AreBytes d → AreBytes (pkcs7_pad d b)
unfolding pkcs7_pad
pkcs7_pad_bytes d b h = All-append _ d _ h (All-replicate _ (b - length d % b) _ (omega arith))
