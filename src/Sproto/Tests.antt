-- ===== src/Sproto/Tests.antt =====
-- Concrete runs of the packing of lualib-src/sproto/sproto.c.
use demo_skynet_server.Common.{
  ℕ, ◌+◌, ◌*◌, ◌/◌, ◌≡◌, refl, none, some, List, [], ◌∷◌, arith, length, replicate,
  length-replicate, region, write_list,
}
use demo_skynet_server.Sproto.{
  sproto_pack, sproto_unpack, pack_end, pack_rounds, pack_round, pack_seg, seg_loop, write_ff,
  unpack_rounds, unpack_seg, take_byte,
}
use demo_skynet_server.Sproto.Laid.{IsBehind}
use demo_skynet_server.Sproto.Ending.{Packs, sproto_pack-Packs}
use demo_skynet_server.Sproto.RoundTrip.{sproto_unpack-sproto_pack}

-- A block with zeros, and a run with a short end.
abbrev message : List ℕ
message = 0 ∷ 2 ∷ 0 ∷ 0 ∷ 7 ∷ 0 ∷ 0 ∷ 0 ∷ 1 ∷ 2 ∷ 3 ∷ 4 ∷ 5 ∷ 6 ∷ 7 ∷ 8 ∷ 9 ∷ 9 ∷ 9 ∷ 9 ∷ 9 ∷ 9 ∷ []

abbrev junk : ℕ → List ℕ
junk n = replicate n 0x55

junk-IsBehind : IsBehind junk
junk-IsBehind n = length-replicate {A = ℕ} n 0x55

abbrev fresh : ℕ → ℕ
fresh k = 0

abbrev packed_message : List ℕ
packed_message =
    18 ∷ 2 ∷ 7 ∷ 0xff ∷ 1 ∷ 1 ∷ 2 ∷ 3 ∷ 4 ∷ 5 ∷ 6 ∷ 7 ∷ 8 ∷ 9 ∷ 9 ∷ 9 ∷ 9 ∷ 9 ∷ 9 ∷ 0 ∷ 0 ∷ []

size : (sproto_pack junk message 32 fresh).0 ≡ 21
unfolding sproto_pack pack_end pack_rounds pack_round pack_seg seg_loop
size = refl

bytes : region (sproto_pack junk message 32 fresh).1 0 21 ≡ packed_message
unfolding sproto_pack region pack_end pack_rounds pack_round pack_seg seg_loop write_ff write_list
bytes = refl

-- The packed bytes without their last one: the byte behind them is taken for it.
cut_short :
    (elim (sproto_unpack 0x55 (18 ∷ 2 ∷ []) 8 fresh) [ none ↦ [] | some (n, out) ↦ region out 0 n ])
    ≡ 0 ∷ 2 ∷ 0 ∷ 0 ∷ 0x55 ∷ 0 ∷ 0 ∷ 0 ∷ []
unfolding sproto_unpack region unpack_rounds unpack_seg take_byte
cut_short = refl

sproto_pack-Packs_example : Packs message (sproto_pack junk message 32 fresh)
unfolding sproto_pack
sproto_pack-Packs_example =
    sproto_pack-Packs junk message 32 fresh junk-IsBehind (omega (arith, size))

sproto_unpack-sproto_pack_example :
    (out' : ℕ → ℕ) × (sproto_unpack 0x55
        (region (sproto_pack junk message 32 fresh).1 0 (sproto_pack junk message 32 fresh).0)
        24
        fresh
      ≡ some ((length message + 7) / 8 * 8, out'))
    × (region out' 0 (length message) ≡ message)
sproto_unpack-sproto_pack_example =
    sproto_unpack-sproto_pack junk message 32 fresh 0x55 24 fresh junk-IsBehind
      (omega (arith, size)) (omega arith)
