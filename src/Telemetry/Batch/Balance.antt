-- ===== src/Telemetry/Batch/Balance.antt =====
-- What `DecodeBatch` leaves open, and what it decoded.
use ufo_observation_command.Base.{
  ℕ, ◌+◌, ◌<◌, ◌≤◌, pos, inc64, add64, int64, two63, ◌≡◌, refl, ap, ◌≢◌, ◌⊎◌, Option, none, some,
  List, [], ◌∷◌, length, Error, arith, Option-cases, inl, inr,
}
use ufo_observation_command.Telemetry.Batch.{
  Ending, returns, panics, acquire, release, decode_batch,
}

release-acquire :
    (n : ℕ)
    → n < two63
    → release (acquire (record { open_count = pos n })) ≡ record { open_count = pos n }
unfolding release acquire inc64 add64 int64
release-acquire n s = ap (λ k. record { open_count = k }) (ground arith)

acquire-count :
    (n : ℕ) → n + 1 < two63 → (acquire (record { open_count = pos n })).open_count ≡ pos (n + 1)
unfolding acquire inc64 add64 int64
acquire-count n s = ground arith

Ending-cases :
    (x : Ending) → ((x ≡ returns none) ⊎ ((e : Error) × (x ≡ returns (some e)))) ⊎ (x ≡ panics)
Ending-cases (returns none) = inl (inl refl)
Ending-cases (returns (some e)) = inl (inr (e, refl))
Ending-cases panics = inr refl

module _ {W : Type 0} (ctx_err : W → Option Error) (decode : List ℕ → W → Ending × W)
    (decoded : W → ℕ)
    (decode_counts : (input : List ℕ) (w : W) → decoded (decode input w).1 ≡ decoded w + 1) where
  -- For a count below 2^63 - 1, DecodeBatch decodes no more inputs than it was given; where it returns
  -- it leaves as many resources open as there were, and with nil it has decoded each input; where
  -- `decode` panics it leaves one more open, for a count of decodings that each advances by one.
  pub decode_batch_lem :
      (inputs : List (List ℕ)) (n : ℕ) (w : W)
      → n + 1 < two63
      → let result = decode_batch ctx_err decode inputs (record { open_count = pos n }) w in
        (result.0 ≢ panics → result.1.open_count ≡ pos n)
        × (result.0 ≡ panics → result.1.open_count ≡ pos (n + 1))
        × (decoded result.2 ≤ decoded w + length inputs)
        × (result.0 ≡ returns none → decoded result.2 ≡ decoded w + length inputs)
  unfolding decode_batch
  decode_batch_lem [] n w s = (λ _. refl, λ h. absurd (ground arith), omega arith, λ h. omega arith)
  decode_batch_lem (input ∷ rest) n w s = elim (Option-cases (ctx_err w)) [
    | inr (e, c) ↦
        rw (decode_batch, c)
          (λ _. refl, λ h. absurd (ground arith), omega arith, λ h. absurd (ground arith))
    | inl c ↦
        let balanced = release-acquire n (omega arith) in
        let one = decode_counts input w in
        elim (Ending-cases (decode input w).0) [
          | inr r ↦
              rw (decode_batch, c, r)
                (
                  λ h. absurd (h refl),
                  λ _. acquire-count n s,
                  omega (arith, one),
                  λ h. absurd (ground arith),
                )
          | inl (inr (e, r)) ↦
              rw (decode_batch, c, r)
                (
                  λ _. ap (λ t. t.open_count) balanced,
                  λ h. absurd (ground arith),
                  omega (arith, one),
                  λ h. absurd (ground arith),
                )
          | inl (inl r) ↦
              rw (decode_batch, c, r)
                (rw balanced (
                  let more = decode_batch_lem rest n (decode input w).1 s in
                  (more.0, more.1, omega (arith, more.2, one), λ h. omega (arith, more.3 h, one))))
        ]
  ]
