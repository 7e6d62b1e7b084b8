-- ===== src/Domain/Search.antt =====
-- internal/domain/filter.go, search.go, labels.go, limits.go, progress.go, report.go and summary.go:
-- searches among recovery jobs, and what is counted of them. `strings.ToLower` and `strings.Contains`
-- are parameters.
pub mod Pages
use ufo_observation_command.Base.{
  ℕ, ◌+◌, ℤ, pos, ◌+ℤ◌, ◌-ℤ◌, ltb_ℤ, leb_ℤ, ◌==ℤ◌, inc64, pos_part, ltb, String, string_key, ◌==◌,
  trim_space, Bool, true, false, not, ◌&&◌, ◌||◌, Option, none, some, List, [], ◌∷◌, length, take,
  drop, keep, Dict, get, put, if◌then◌else◌, Result, ok, err, refuse, Error, wrap, sentinel,
  capacity_exceeded, ◌>>=◌, ◌>>◌,
}
use ufo_observation_command.ArrayOps.Store.{compare_string}
use ufo_observation_command.Domain.RecoveryJob.{RecoveryJob}

pub record RecoveryJobFilter : Type 0 where
  pub survey_mission_id : String
  pub status : String
  pub search : String

pub record SearchRequest : Type 0 where
  pub filter : RecoveryJobFilter
  pub sort : String
  pub desc : Bool
  pub offset : ℤ
  pub limit : ℤ

-- `sort.SliceStable` for a test that says whether one element comes before another: an element goes
-- before all that are not before it.
abbrev pub insert_by : {A : Type 0} → (A → A → Bool) → A → List A → List A
insert_by before x [] = x ∷ []
insert_by before x (y ∷ ys) =
    let later = insert_by before x ys in if before y x then y ∷ later else x ∷ y ∷ ys

abbrev pub sort_by : {A : Type 0} → (A → A → Bool) → List A → List A
sort_by before [] = []
sort_by before (x ∷ xs) = insert_by before x (sort_by before xs)

module _ (to_lower : String → String) (contains : String → String → Bool) where
  unfoldable pub normalize_filter : RecoveryJobFilter → RecoveryJobFilter
  normalize_filter f = record f {
    survey_mission_id = trim_space f.survey_mission_id;
    search = trim_space (to_lower f.search);
  }

  abbrev pub passes_filter : RecoveryJobFilter → RecoveryJob → Bool
  passes_filter f s =
      (f.survey_mission_id == "" || s.survey_mission_id == f.survey_mission_id)
      && (f.status == "" || s.status == f.status)
      && (f.search == "" || contains (to_lower s.task_code) f.search)

  unfoldable pub matches : RecoveryJobFilter → RecoveryJob → Bool
  unfolding normalize_filter
  matches f s = passes_filter (normalize_filter f) s

  unfoldable pub normalize_request : SearchRequest → SearchRequest
  unfolding normalize_filter
  normalize_request r = record {
    filter = normalize_filter r.filter;
    sort = if r.sort == "" then "created_at" else r.sort;
    desc = r.desc;
    offset = if ltb_ℤ r.offset (pos 0) then pos 0 else r.offset;
    limit = if ltb_ℤ r.limit (pos 1) || ltb_ℤ (pos 100) r.limit then pos 50 else r.limit;
  }

  unfoldable pub comes_before : String → RecoveryJob → RecoveryJob → Bool
  comes_before field a b =
      if field == "expires_at"
      then ltb_ℤ a.expires_at b.expires_at
      else if field == "task_code"
      then ltb_ℤ (compare_string (to_lower a.task_code) (to_lower b.task_code)) (pos 0)
      else ltb_ℤ (compare_string a.id b.id) (pos 0)

  -- The test that is sorted by: with `Desc` its sides change places.
  unfoldable pub in_order : SearchRequest → RecoveryJob → RecoveryJob → Bool
  unfolding comes_before
  in_order r a b = if r.desc then comes_before r.sort b a else comes_before r.sort a b

  -- All that a request finds, in its order, whatever its page is.
  unfoldable pub found_jobs : List RecoveryJob → SearchRequest → List RecoveryJob
  unfolding matches in_order normalize_request
  found_jobs items request =
      let r : SearchRequest = normalize_request request in
      sort_by (in_order r) (keep (matches r.filter) items)

  unfoldable pub search_recovery_jobs : List RecoveryJob → SearchRequest → List RecoveryJob
  unfolding found_jobs normalize_request
  search_recovery_jobs items request =
      let r : SearchRequest = normalize_request request in
      take (pos_part r.limit) (drop (pos_part r.offset) (found_jobs items request))

  -- The loop over the labels.
  unfoldable pub normalize_into : Dict String String → Dict String String → Dict String String
  normalize_into result [] = result
  normalize_into result ((key, value) ∷ labels) =
      let k : String = trim_space (to_lower key) in
      let v : String = trim_space value in
      normalize_into (if not (k == "") && not (v == "") then put result k v else result) labels

  unfoldable pub normalize_labels : Dict String String → Dict String String
  unfolding normalize_into
  normalize_labels labels = normalize_into [] labels

abbrev pub count_of : Dict String ℤ → String → ℤ
count_of counts status = elim (get counts status) [ none ↦ pos 0 | some n ↦ n ]

unfoldable pub count_into : Dict String ℤ → List RecoveryJob → Dict String ℤ
count_into counts [] = counts
count_into counts (task ∷ tasks) =
    count_into (put counts task.status (inc64 (count_of counts task.status))) tasks

unfoldable pub status_counts : List RecoveryJob → Dict String ℤ
unfolding count_into
status_counts tasks = count_into [] tasks

unfoldable pub ensure_limit : ℤ → ℤ → Result (Unit {0})
ensure_limit value limit = do
  refuse (ltb_ℤ value (pos 0) || ltb_ℤ limit value)
      (wrap "%s exceeds limit: %w" (sentinel capacity_exceeded))
  ok tt

pub record SurveyMissionProgress : Type 0 where
  pub survey_mission_id : String
  pub acoustic_buoys : ℤ
  pub required : ℤ
  pub completed : ℤ
  pub accepted : ℤ
  pub in_progress : ℤ
  pub verified : ℤ
  pub rejected : ℤ
  pub archived : ℤ

unfoldable pub is_complete : SurveyMissionProgress → Bool
is_complete p = ltb_ℤ (pos 0) p.required && leb_ℤ p.required p.completed && p.rejected ==ℤ pos 0

unfoldable pub remaining : SurveyMissionProgress → ℤ
remaining p = if leb_ℤ p.required p.completed then pos 0 else p.required -ℤ p.completed

pub record ComplianceReport : Type 0 where
  pub survey_mission_id : String
  pub generated_at : ℤ
  pub progress : SurveyMissionProgress
  pub expiring : List RecoveryJob
  pub open_integrity_incidents : ℤ

unfoldable pub at_risk : ComplianceReport → Bool
at_risk r =
    ltb 0 (length r.expiring)
    || ltb_ℤ (pos 0) r.open_integrity_incidents
    || ltb_ℤ (pos 0) r.progress.rejected

unfoldable pub report_status : ComplianceReport → String
unfolding at_risk is_complete
report_status r =
    if at_risk r
    then "attention_required"
    else if is_complete r.progress
    then "complete"
    else "in_progress"
