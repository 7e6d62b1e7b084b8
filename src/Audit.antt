-- ===== src/Audit.antt =====
-- internal/audit: events, the chain of their digests, filters and the export. Details are JSON
-- objects of any type `M`; the JSON of an event and of a link, and the digest, are parameters.
pub mod Links
mod Tests
use ufo_observation_command.Base.{
  ℤ, String, ◌==◌, trim_space, Bool, true, false, not, ◌&&◌, ◌||◌, Option, none, some, List, [],
  ◌∷◌, keep, if◌then◌else◌, Error, plain, wrap, Result, ok, err, refuse, ◌>>=◌, ◌>>◌, Method,
}

pub record AuditEvent (M : Type 0) : Type 0 where
  pub request_id : String
  pub array_operator_id : Option String
  pub object_type : String
  pub object_id : String
  pub action : String
  pub outcome : String
  pub detail : Option M
  pub created_at : ℤ

pub record Filter : Type 0 where
  pub object_type : String
  pub object_id : String
  pub action : String
  pub outcome : String

pub record Chain : Type 0 where
  pub previous : String

abbrev pub is_blank : String → Bool
is_blank text = trim_space text == ""

abbrev pub passes : String → String → Bool
passes wanted found = wanted == "" || found == wanted

abbrev pub header : List String
header = "request_id" ∷ "object_type" ∷ "object_id" ∷ "action" ∷ "outcome" ∷ "created_at" ∷ []

-- `if err != nil { return fmt.Errorf(…) }` after a write.
abbrev pub or_wrapped :
    {W : Type 0} → String → Option Error × W → (W → Option Error × W) → Option Error × W
or_wrapped text (some e, w) next = (some (wrap text e), w)
or_wrapped text (none, w) next = next w

module _ {M : Type 0} where
  unfoldable pub validate : AuditEvent M → Result (Unit {0})
  validate e = do
    refuse (is_blank e.request_id || is_blank e.object_type || is_blank e.object_id)
        (plain "audit identity is required")
    refuse (is_blank e.action || is_blank e.outcome) (plain "audit action and outcome are required")
    ok tt

  -- A nil map of details becomes an empty one.
  unfoldable pub with_detail : M → AuditEvent M → AuditEvent M
  with_detail empty e = elim e.detail [ none ↦ record e { detail = some empty } | some _ ↦ e ]

  unfoldable pub match_event : Filter → AuditEvent M → Bool
  match_event f e =
      passes f.object_type e.object_type
      && passes f.object_id e.object_id
      && passes f.action e.action
      && passes f.outcome e.outcome
      && not (is_blank e.request_id)

  unfoldable pub filter_events : List (AuditEvent M) → Filter → List (AuditEvent M)
  unfolding match_event
  filter_events events f = keep (match_event f) events

  -- The rows of the export, `write` being the CSV writer on its output; it keeps its own error.
  module _ {W : Type 0} (write : List String → W → Option Error × W) (flush : W → Option Error × W)
      (format_time : ℤ → String) where
    abbrev pub row_of : AuditEvent M → List String
    row_of e =
        e.request_id
        ∷ e.object_type
        ∷ e.object_id
        ∷ e.action
        ∷ e.outcome
        ∷ format_time e.created_at
        ∷ []

    unfoldable pub export_rows : List (AuditEvent M) → W → Option Error × W
    unfolding validate
    export_rows [] w = flush w
    export_rows (e ∷ events) w = elim (validate e) [
      | err x ↦ (some x, w)
      | ok _ ↦ or_wrapped "write audit row: %w" (write (row_of e) w) (λ v. export_rows events v)
    ]

    unfoldable pub export_csv : List (AuditEvent M) → W → Option Error × W
    unfolding export_rows
    export_csv events w =
        or_wrapped "write audit header: %w" (write header w) (λ v. export_rows events v)
