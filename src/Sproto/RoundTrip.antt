-- ===== src/Sproto/RoundTrip.antt =====
-- `sproto_pack` and then `sproto_unpack` of lualib-src/sproto/sproto.c.
use demo_skynet_server.Common.{
  ℕ, suc, ◌+◌, ◌*◌, ◌/◌, ◌%◌, ◌≤◌, ◌≡◌, refl, sym, ap, ◌∙◌, some, List, ◌++◌, arith, length,
  length-append, write_list, write_list-append, region, region-write_list, region_same,
  write_list_off, inl,
}
use demo_skynet_server.Sproto.{sproto_pack, sproto_unpack}
use demo_skynet_server.Sproto.Encoded.{Encodes, done, block, run}
use demo_skynet_server.Sproto.Laid.{IsBehind}
use demo_skynet_server.Sproto.Ending.{sproto_pack-Packs}
use demo_skynet_server.Sproto.Unpack.{rounds_Encodes}

-- Packed bytes stand for whole blocks.
blocks : {p q : List ℕ} → Encodes p q → length q % 8 ≡ 0
blocks done = refl
blocks (block bs {p} {q} l small e) = omega (arith, length-append bs q, l, blocks e)
blocks (run k bs {p} {q} few l e) = omega (arith, length-append bs q, l, blocks e)

sproto_unpack-Encodes :
    (beyond limit : ℕ) (buf : ℕ → ℕ) {p q : List ℕ}
    → Encodes p q
    → length q ≤ limit
    → sproto_unpack beyond p limit buf ≡ some (length q, write_list buf 0 q)
unfolding sproto_unpack
sproto_unpack-Encodes beyond limit buf {p} {q} e room =
    rw
      (
        rounds_Encodes beyond limit e (suc (length p)) 0 0 buf (omega arith) (omega (arith, room)),
        sproto_unpack,
      )
      (ap (λ (n : ℕ). some (n, write_list buf 0 q)) (omega arith))

region_front :
    (xs ys : List ℕ) (buf : ℕ → ℕ) → region (write_list buf 0 (xs ++ ys)) 0 (length xs) ≡ xs
region_front xs ys buf =
    ap (λ f. region f 0 (length xs)) (sym (write_list-append buf 0 xs ys))
    ∙ region_same (write_list buf 0 xs) (write_list (write_list buf 0 xs) (0 + length xs) ys) 0
        (length xs) (λ k l h. write_list_off (write_list buf 0 xs) (0 + length xs) ys k (inl h))
    ∙ region-write_list buf 0 xs (length xs) refl

-- What `sproto_pack` writes into a buffer with room for it, `sproto_unpack` takes back, into a
-- buffer with room for the source in whole blocks: its size is that of these blocks, and what it
-- writes begins with the source. The bytes behind the source and the one behind the packed bytes
-- have no influence.
pub sproto_unpack-sproto_pack :
    (junk : ℕ → List ℕ) (src : List ℕ) (bufsz : ℕ) (buf : ℕ → ℕ) (beyond outsz : ℕ) (out : ℕ → ℕ)
    → IsBehind junk
    → (sproto_pack junk src bufsz buf).0 ≤ bufsz
    → (length src + 7) / 8 * 8 ≤ outsz
    → (out' : ℕ → ℕ) × (sproto_unpack beyond
          (region (sproto_pack junk src bufsz buf).1 0 (sproto_pack junk src bufsz buf).0)
          outsz
          out
        ≡ some ((length src + 7) / 8 * 8, out'))
      × (region out' 0 (length src) ≡ src)
sproto_unpack-sproto_pack junk src bufsz buf beyond outsz out behind fits room =
    let (pad, small, e) = sproto_pack-Packs junk src bufsz buf behind fits in
    let size : length (src ++ pad) ≡ (length src + 7) / 8 * 8 =
      omega (arith, length-append src pad, small, blocks e) in
    (
      write_list out 0 (src ++ pad),
      sproto_unpack-Encodes beyond outsz out e (omega (arith, size, room))
          ∙ ap (λ (n : ℕ). some (n, write_list out 0 (src ++ pad))) size,
      region_front src pad out,
    )
