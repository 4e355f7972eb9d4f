-- ===== src/Spa/Kdf/Blocks.antt =====
-- The key material of AES-256-CBC is three chained MD5 blocks, as EVP_BytesToKey defines it.
use fwknop_go.Base.{
  ℕ, zero, suc, ◌+◌, ◌≤◌, ◌<◌, ◌≡◌, refl, ap, ◌∙◌, [], ◌∷◌, ◌++◌, arith, Bytes, length,
  length-append, length-take, length-drop, take, drop, take-append_exact, take_all,
  drop-append_exact,
}
use fwknop_go.Spa.Kinds.{md5}
use fwknop_go.Spa.Digest.{Hashes, HashLaws}
use fwknop_go.Spa.Kdf.{aes_key_size, aes_block_size, round_input, kiv_loop, derive_key_and_iv}

module _ (h : Hashes) (passphrase salt : Bytes) where
  -- D₁ = MD5(passphrase, salt), and each later block hashes the one before it too.
  abbrev pub first_block : Bytes
  first_block = h.sum md5 (passphrase ++ salt)

  abbrev pub next_block : Bytes → Bytes
  next_block prev = h.sum md5 (prev ++ (passphrase ++ salt))

  module _ (laws : HashLaws h) where
    block_size : (s : Bytes) → length (h.sum md5 s) ≡ 16
    block_size = laws.sum_size md5

    -- With enough fuel the loop ends when there are bytes enough.
    pub length-kiv_loop :
        (needed fuel : ℕ) (kiv prev : Bytes)
        → needed ≤ length kiv + fuel
        → needed ≤ length (kiv_loop h passphrase salt needed fuel kiv prev)
    unfolding kiv_loop
    length-kiv_loop needed zero kiv prev f = omega arith
    length-kiv_loop needed (suc fuel) kiv prev f =
        let next = h.sum md5 (round_input prev passphrase salt) in
        ground (
          arith,
          length-append kiv next,
          block_size (round_input prev passphrase salt),
          length-kiv_loop needed fuel (kiv ++ next) next,
        )

    -- If the hashes have their documented sizes, the derived key and IV have the lengths that were
    -- asked for.
    pub derive_lengths :
        (key_len iv_len : ℕ)
        → let (key, iv) = derive_key_and_iv h passphrase salt key_len iv_len in
          (length key ≡ key_len) × (length iv ≡ iv_len)
    unfolding derive_key_and_iv
    derive_lengths key_len iv_len =
        let kiv = kiv_loop h passphrase salt (key_len + iv_len) (key_len + iv_len) [] [] in
        omega (
          arith,
          length-kiv_loop (key_len + iv_len) (key_len + iv_len) [] [] (omega arith),
          length-take key_len kiv,
          length-take iv_len (drop key_len kiv),
          length-drop key_len kiv,
        )

    nonempty_input :
        (prev : Bytes)
        → length prev ≡ 16
        → round_input prev passphrase salt ≡ prev ++ (passphrase ++ salt)
    nonempty_input [] e = absurd (omega arith)
    nonempty_input (c ∷ s) e = refl

    kiv_step :
        (fuel : ℕ) (kiv prev : Bytes)
        → length kiv < 48
        → kiv_loop h passphrase salt 48 (suc fuel) kiv prev
          ≡ kiv_loop h passphrase salt 48 fuel
              (kiv ++ h.sum md5 (round_input prev passphrase salt))
              (h.sum md5 (round_input prev passphrase salt))
    unfolding kiv_loop
    kiv_step fuel kiv prev l = ground arith

    kiv_step_more :
        (fuel : ℕ) (kiv prev : Bytes)
        → length prev ≡ 16
        → length kiv < 48
        → kiv_loop h passphrase salt 48 (suc fuel) kiv prev
          ≡ kiv_loop h passphrase salt 48 fuel (kiv ++ next_block prev) (next_block prev)
    kiv_step_more fuel kiv prev p l =
        kiv_step fuel kiv prev l
        ∙ ap (λ t. kiv_loop h passphrase salt 48 fuel (kiv ++ h.sum md5 t) (h.sum md5 t))
            (nonempty_input prev p)

    kiv_stop :
        (fuel : ℕ) (kiv prev : Bytes)
        → 48 ≤ length kiv
        → kiv_loop h passphrase salt 48 (suc fuel) kiv prev ≡ kiv
    unfolding kiv_loop
    kiv_stop fuel kiv prev l = ground arith

    -- If the hashes have their documented sizes, the key of AES-256 is the first two MD5 blocks,
    -- and the IV is the third: the hash of passphrase and salt, and then twice that of the block
    -- before with both.
    pub derive_blocks :
        let d1 = first_block in
        let d2 = next_block d1 in
        derive_key_and_iv h passphrase salt aes_key_size aes_block_size ≡ (d1 ++ d2, next_block d2)
    unfolding derive_key_and_iv
    derive_blocks =
        let d1 = first_block in
        let d2 = next_block d1 in
        let d3 = next_block d2 in
        let two = length-append d1 d2 in
        let key_size : length (d1 ++ d2) ≡ 32 =
          omega (
            arith,
            two,
            block_size (passphrase ++ salt),
            block_size (d1 ++ (passphrase ++ salt)),
          ) in
        let all_size : length ((d1 ++ d2) ++ d3) ≡ 48 =
          omega (arith, length-append (d1 ++ d2) d3, block_size (d2 ++ (passphrase ++ salt))) in
        let kiv : kiv_loop h passphrase salt 48 48 [] [] ≡ (d1 ++ d2) ++ d3 =
          kiv_step 47 [] [] (omega arith)
          ∙ kiv_step_more 46 d1 d1 (block_size _) (omega (arith, block_size (passphrase ++ salt)))
          ∙ kiv_step_more 45 (d1 ++ d2) d2 (block_size _) (omega arith)
          ∙ kiv_stop 44 ((d1 ++ d2) ++ d3) d3 (omega arith) in
        rw kiv λ i. (
          take-append_exact 32 (d1 ++ d2) d3 key_size i,
          (ap (take 16) (drop-append_exact 32 (d1 ++ d2) d3 key_size)
                ∙ take_all 16 d3 (block_size (d2 ++ (passphrase ++ salt))))
              i,
        )
