-- ===== src/Audit/Tests.antt =====
-- The theorem about chains of events at concrete ones.
use ufo_observation_command.Base.{
  String, ◌==◌, eq_iff, ◌&&◌, if◌then◌else◌, none, List, [], ◌∷◌, ◌≡◌, ◌≢◌, ◌⊎◌, refl, pos, Result,
  ok, err, plain, trim_space, arith,
}
use ufo_observation_command.Base.Methods.{after, on_error}
use ufo_observation_command.Audit.{AuditEvent, filter_events}
use ufo_observation_command.Audit.Links.{head_of, SameBodies, Collision, head_of-injective}

abbrev event : String → AuditEvent (Unit {0})
event action = record {
  request_id = "req-1";
  array_operator_id = none;
  object_type = "task";
  object_id = "s-1";
  action = action;
  outcome = "success";
  detail = none;
  created_at = pos 9;
}

abbrev by_action : AuditEvent (Unit {0}) → Result String
by_action e = ok e.action

-- Two links: a creation at the start of a chain, and a completion after it.
abbrev link : String → String → Result String
link previous body =
    if previous == "" && body == "create"
    then ok "first"
    else if previous == "d1" && body == "complete"
    then ok "second"
    else err (plain "no such link")

abbrev digest : String → String
digest payload = if payload == "first" then "d1" else "d2"

digest_ne : (p : String) → digest p ≢ ""
digest_ne p = ground (arith, eq_iff "d1" "", eq_iff "d2" "")

link_injective :
    (p q b c text : String) → link p b ≡ ok text → link q c ≡ ok text → (p ≡ q) × (b ≡ c)
link_injective p q b c text h k = ground (
  arith,
  eq_iff p "",
  eq_iff q "",
  eq_iff b "create",
  eq_iff c "create",
  eq_iff p "d1",
  eq_iff q "d1",
  eq_iff b "complete",
  eq_iff c "complete",
  eq_iff "first" "second",
)

abbrev history : List (AuditEvent (Unit {0}))
history = event "complete" ∷ event "create" ∷ []

history_head : head_of tt by_action link digest history ≡ ok "d2"
unfolding head_of after on_error trim_space
history_head = refl

head_of-injective_example :
    SameBodies tt by_action link digest history history ⊎ Collision tt by_action link digest
head_of-injective_example =
    head_of-injective tt by_action link digest digest_ne
      (λ p q b c text e f p_is q_is b_of c_of. link_injective p q b c text) history history "d2"
      history_head history_head

reviewed :
    filter_events
      (event "create" ∷ event "review" ∷ [])
      (record { object_type = ""; object_id = ""; action = "review"; outcome = "" })
    ≡ event "review" ∷ []
unfolding filter_events trim_space
reviewed = refl
