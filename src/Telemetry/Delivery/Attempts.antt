-- ===== src/Telemetry/Delivery/Attempts.antt =====
-- `Deliver`: no success without a write and an acknowledgement, one write, and no more
-- acknowledgements tried than attempts.
use ufo_observation_command.Base.{
  ℕ, zero, suc, ◌+◌, ◌≤◌, ℤ, pos, pos_part, inc64, add64, ltb_ℤ, leb_ℤ, ◌<ℤ◌, ◌≡◌, Bool, true,
  false, Option, none, some, List, Error, arith, Bool-cases, Option-cases, inl, inr,
}
use ufo_observation_command.Telemetry.Delivery.{Sink, wait_between, acknowledge_from, deliver}

module _ {W : Type 0} (sink : Sink W) (payload : List ℕ) where
  -- The last thing that happened is an acknowledgement that the sink accepted.
  abbrev pub EndsAcknowledged : W → Type 0
  EndsAcknowledged final = (w : W) × (sink.acknowledge payload w ≡ (none, final))

  acknowledge_from_sound :
      (rounds : ℕ) (attempt attempts : ℤ) (last : Option Error) (w : W)
      → (acknowledge_from sink payload rounds attempt attempts last w).0 ≡ none
      → EndsAcknowledged (acknowledge_from sink payload rounds attempt attempts last w).1
  unfolding acknowledge_from
  acknowledge_from_sound zero attempt attempts none w h = cc
  acknowledge_from_sound zero attempt attempts (some e) w h = cc
  acknowledge_from_sound (suc rounds) attempt attempts last w h =
      let w1 = (sink.acknowledge payload w).1 in
      let more = ltb_ℤ (add64 attempt (pos 1)) attempts in
      elim (Option-cases (sink.acknowledge payload w).0) [
        | inl r ↦ (w, ground arith)
        | inr (e, r) ↦ elim (Option-cases (wait_between sink payload more w1).0) [
          | inr (e', b) ↦ absurd (ground arith)
          | inl b ↦
              let ended =
                acknowledge_from_sound rounds (inc64 attempt) attempts (some e)
                  (wait_between sink payload more w1).1 (ground arith) in
              (ended.0, ground (arith, ended.1))
        ]
      ]

  -- Nil comes back only when the sink has taken the payload, and the last thing that happens is an
  -- acknowledgement that it accepts.
  pub deliver_sound :
      (attempts : ℤ) (w : W)
      → (deliver sink payload attempts w).0 ≡ none
      → ((sink.persist payload w).0 ≡ none) × EndsAcknowledged (deliver sink payload attempts w).1
  unfolding deliver
  deliver_sound attempts w h = elim (Bool-cases (leb_ℤ attempts (pos 0))) [
    | inl n ↦ absurd (ground arith)
    | inr n ↦ elim (Option-cases (sink.persist payload w).0) [
      | inr (e, p) ↦ absurd (ground arith)
      | inl p ↦
          let ended =
            acknowledge_from_sound (pos_part attempts) (pos 0) attempts none
              (sink.persist payload w).1 (ground arith) in
          (p, (ended.0, ground (arith, ended.1)))
    ]
  ]

  -- Counts of the writes and of the acknowledgements that the sink was asked for.
  module _ (writes acknowledgements : W → ℕ)
      (persist_counts : (w : W)
        → (writes (sink.persist payload w).1 ≡ writes w + 1)
          × (acknowledgements (sink.persist payload w).1 ≡ acknowledgements w))
      (acknowledge_counts : (w : W)
        → (writes (sink.acknowledge payload w).1 ≡ writes w)
          × (acknowledgements (sink.acknowledge payload w).1 ≡ acknowledgements w + 1))
      (wait_counts : (w : W)
        → (writes (sink.wait_retry w).1 ≡ writes w)
          × (acknowledgements (sink.wait_retry w).1 ≡ acknowledgements w)) where
    abbrev Between : ℕ → W → W → Type 0
    Between n w v = (writes v ≡ writes w) × (acknowledgements v ≤ acknowledgements w + n)

    wait_between_counts : (b : Bool) (w : W) → Between 0 w (wait_between sink payload b w).1
    unfolding wait_between
    wait_between_counts true w = omega (arith, wait_counts w)
    wait_between_counts false w = omega arith

    acknowledge_from_counts :
        (rounds : ℕ) (attempt attempts : ℤ) (last : Option Error) (w : W)
        → Between rounds w (acknowledge_from sink payload rounds attempt attempts last w).1
    unfolding acknowledge_from
    acknowledge_from_counts zero attempt attempts last w = omega arith
    acknowledge_from_counts (suc rounds) attempt attempts last w =
        let w1 = (sink.acknowledge payload w).1 in
        let more = ltb_ℤ (add64 attempt (pos 1)) attempts in
        let w2 = (wait_between sink payload more w1).1 in
        ground (
          arith,
          acknowledge_counts w,
          wait_between_counts more w1,
          acknowledge_from_counts rounds (inc64 attempt) attempts (sink.acknowledge payload w).0 w2,
        )

    -- With a positive number of attempts the payload is written once, whatever fails later, and at
    -- most as many acknowledgements are tried.
    pub deliver_counts :
        (attempts : ℤ) (w : W)
        → pos 0 <ℤ attempts
        → (writes (deliver sink payload attempts w).1 ≡ writes w + 1)
          × (acknowledgements (deliver sink payload attempts w).1
              ≤ acknowledgements w + pos_part attempts)
    unfolding deliver
    deliver_counts attempts w p = ground (
      arith,
      persist_counts w,
      acknowledge_from_counts (pos_part attempts) (pos 0) attempts none (sink.persist payload w).1,
    )
