-- ===== src/Sha256/Examples.antt =====
-- src/sha256.c on the test vector of the standard.
use thalovant_embedded_c.Base.{◌/◌, ◌%◌, [], ◌∷◌, ◌≡◌, refl, codes, length, arith}
use thalovant_embedded_c.Sha256.Streaming.{
  IsReady, blocks, pad_message, sha256-blocks, sha256_update-append,
}
use thalovant_embedded_c.Sha256.{
  rotr, block_words, extend_words, sha256_rounds, add_words, sha256_block, sha256_init, flush,
  absorb, sha256_update, fill_zeros, length_be, state_bytes, sha256_final, sha256,
}

abc :
    sha256 (codes "abc")
    ≡ 0xba ∷ 0x78 ∷ 0x16 ∷ 0xbf ∷ 0x8f ∷ 0x01 ∷ 0xcf ∷ 0xea ∷ 0x41 ∷ 0x41 ∷ 0x40 ∷ 0xde ∷ 0x5d
      ∷ 0xae ∷ 0x22 ∷ 0x23 ∷ 0xb0 ∷ 0x03 ∷ 0x61 ∷ 0xa3 ∷ 0x96 ∷ 0x17 ∷ 0x7a ∷ 0x9c ∷ 0xb4 ∷ 0x10
      ∷ 0xff ∷ 0x61 ∷ 0xf2 ∷ 0x00 ∷ 0x15 ∷ 0xad ∷ []
unfolding rotr block_words extend_words sha256_rounds add_words sha256_block sha256_init flush
    absorb sha256_update fill_zeros length_be state_bytes sha256_final sha256
abc = refl

sha256-blocks_example :
    (sha256 (codes "abc")
      ≡ state_bytes (
          blocks
            (length (pad_message (codes "abc")) / 64)
            sha256_init.hash.state
            (pad_message (codes "abc"))))
    × (length (pad_message (codes "abc")) % 64 ≡ 0)
sha256-blocks_example = sha256-blocks (codes "abc")

sha256_update-append_example :
    (sha256_update (sha256_update sha256_init (codes "ab")) (codes "c")
      ≡ sha256_update sha256_init (codes "abc"))
    × IsReady (sha256_update sha256_init (codes "ab"))
unfolding sha256_init
sha256_update-append_example =
    sha256_update-append sha256_init (codes "ab") (codes "c") (omega arith)
