-- ===== src/Gate/Cut.antt =====
-- The steps of `split_packets`, the list function that service-src/service_gate.c's loop is held to.
use demo_skynet_server.Common.{
  ℕ, suc, ◌≤◌, ◌<◌, ◌≡◌, ◌∙◌, ◌≢◌, List, [], ◌∷◌, arith, length, take, drop, lt→ltb, not_lt→ltb,
  ==_iff, ==_differ, if_true, if_false,
}
use demo_skynet_server.Databuffer.{header_of}
use demo_skynet_server.Gate.{Split, split_body, split_packets}

pub body_waits :
    (cut : List ℕ → Split) (header : ℕ) (bytes : List ℕ)
    → length bytes < header
    → split_body cut header bytes ≡ ([], header, bytes)
unfolding split_body
body_waits cut header bytes h = if_true (lt→ltb (length bytes) header h) _ _

pub body_empty :
    (cut : List ℕ → Split) (bytes : List ℕ) (header : ℕ)
    → header ≡ 0
    → split_body cut header bytes ≡ cut bytes
unfolding split_body
body_empty cut bytes header z =
    if_false (not_lt→ltb (length bytes) header (omega arith)) _ _
    ∙ if_true ((==_iff header 0).1 z) _ _

pub body_cuts :
    (cut : List ℕ → Split) (header : ℕ) (bytes : List ℕ)
    → header ≤ length bytes
    → header ≢ 0
    → split_body cut header bytes ≡ (
      take header bytes ∷ (cut (drop header bytes)).0,
      (cut (drop header bytes)).1,
      (cut (drop header bytes)).2,
    )
unfolding split_body
body_cuts cut header bytes h nz =
    if_false (not_lt→ltb (length bytes) header h) _ _ ∙ if_false (==_differ header 0 nz) _ _

pub split_parses :
    (fuel : ℕ) (header : ℕ) (bytes : List ℕ)
    → header ≡ 0
    → 2 ≤ length bytes
    → split_packets (suc fuel) header bytes
      ≡ split_body (split_packets fuel 0) (header_of 2 (take 2 bytes)) (drop 2 bytes)
unfolding split_packets
split_parses fuel header bytes z h =
    if_true ((==_iff header 0).1 z) _ _ ∙ if_false (not_lt→ltb (length bytes) 2 h) _ _

pub split_known :
    (fuel header : ℕ) (bytes : List ℕ)
    → header ≢ 0
    → split_packets (suc fuel) header bytes ≡ split_body (split_packets fuel 0) header bytes
unfolding split_packets
split_known fuel header bytes nz = if_false (==_differ header 0 nz) _ _

pub split_short :
    (fuel header : ℕ) (bytes : List ℕ)
    → header ≡ 0
    → length bytes < 2
    → split_packets (suc fuel) header bytes ≡ ([], 0, bytes)
unfolding split_packets
split_short fuel header bytes z h =
    if_true ((==_iff header 0).1 z) _ _ ∙ if_true (lt→ltb (length bytes) 2 h) _ _
