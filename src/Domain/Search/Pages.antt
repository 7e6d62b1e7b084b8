-- ===== src/Domain/Search/Pages.antt =====
-- internal/domain/search.go and summary.go: what the pages of a search hold, and what is counted.
use ufo_observation_command.Base.{
  ℕ, zero, suc, ◌+◌, ◌≤◌, ◌<◌, ℤ, pos, pos_part, two63, inc64, String, string_key, ◌==◌, eq_iff,
  Bool, true, false, List, [], ◌∷◌, length, take, drop, keep, All, Dict, get, put, get-put, ◌≡◌,
  refl, ap, ◌∙◌, Bool-cases, inl, inr, arith,
}
use ufo_observation_command.Domain.RecoveryJob.{RecoveryJob}
use ufo_observation_command.Domain.Search.{
  SearchRequest, insert_by, sort_by, matches, normalize_request, in_order, found_jobs,
  search_recovery_jobs, count_of, count_into, status_counts,
}

-- Both lists hold as many elements of each kind.
abbrev pub SameCounts : {A : Type 0} → List A → List A → Type 0
SameCounts {A} xs ys = (p : A → Bool) → length (keep p xs) ≡ length (keep p ys)

-- No element comes before the one in front of it.
abbrev pub IsSorted : {A : Type 0} → (A → A → Bool) → List A → Type 0
IsSorted before [] = Unit
IsSorted before (x ∷ []) = Unit
IsSorted before (x ∷ y ∷ rest) = (before y x ≡ false) × IsSorted before (y ∷ rest)

module _ {A : Type 0} (before : A → A → Bool) where
  insert_by-counts :
      (p : A → Bool) (x : A) (ys : List A)
      → length (keep p (insert_by before x ys)) ≡ length (keep p (x ∷ ys))
  insert_by-counts p x [] = refl
  insert_by-counts p x (y ∷ ys) = elim (Bool-cases (before y x)) [
    | inl t ↦ rw (t, insert_by, keep) (ground (arith, insert_by-counts p x ys))
    | inr t ↦ rw (t, insert_by) refl
  ]

  pub sort_by-counts : (xs : List A) → SameCounts (sort_by before xs) xs
  sort_by-counts [] p = refl
  sort_by-counts (x ∷ xs) p =
      insert_by-counts p x (sort_by before xs) ∙ ground (arith, sort_by-counts xs p)

  module _ (asym : (a b : A) → before a b ≡ true → before b a ≡ false) where
    insert_by-IsSorted :
        (x : A) (ys : List A) → IsSorted before ys → IsSorted before (insert_by before x ys)
    insert_by-IsSorted x [] h = tt
    insert_by-IsSorted x (y ∷ []) h = elim (Bool-cases (before y x)) [
      | inl t ↦ rw (t, insert_by, IsSorted) (asym y x t, tt)
      | inr t ↦ rw (t, insert_by, IsSorted) (t, tt)
    ]
    insert_by-IsSorted x (y ∷ z ∷ ys) h = elim (Bool-cases (before y x)) [
      | inr t ↦ rw (t, insert_by, IsSorted) (t, h)
      | inl t ↦
          let more = insert_by-IsSorted x (z ∷ ys) h.1 in
          elim (Bool-cases (before z x)) [
            | inl u ↦ rw (t, u, insert_by, IsSorted) (h.0, rw (u, insert_by) at more)
            | inr u ↦ rw (t, u, insert_by, IsSorted) (asym y x t, rw (u, insert_by) at more)
          ]
    ]

    pub sort_by-IsSorted : (xs : List A) → IsSorted before (sort_by before xs)
    sort_by-IsSorted [] = tt
    sort_by-IsSorted (x ∷ xs) = insert_by-IsSorted x (sort_by before xs) (sort_by-IsSorted xs)

module _ {A : Type 0} (P : A → Type 0) where
  All-insert_by :
      (before : A → A → Bool) (x : A) (ys : List A) → P x → All P ys → All P (insert_by before x ys)
  All-insert_by before x [] h hs = (h, tt)
  All-insert_by before x (y ∷ ys) h hs = elim (Bool-cases (before y x)) [
    | inl t ↦ rw (t, insert_by, All) (hs.0, All-insert_by before x ys h hs.1)
    | inr t ↦ rw (t, insert_by, All) (h, hs)
  ]

  All-sort_by : (before : A → A → Bool) (xs : List A) → All P xs → All P (sort_by before xs)
  All-sort_by before [] hs = tt
  All-sort_by before (x ∷ xs) hs =
      All-insert_by before x (sort_by before xs) hs.0 (All-sort_by before xs hs.1)

  All-take : (n : ℕ) (xs : List A) → All P xs → All P (take n xs)
  All-take zero xs h = tt
  All-take (suc n) [] h = tt
  All-take (suc n) (x ∷ xs) h = (h.0, All-take n xs h.1)

  All-drop : (n : ℕ) (xs : List A) → All P xs → All P (drop n xs)
  All-drop zero xs h = h
  All-drop (suc n) [] h = tt
  All-drop (suc n) (x ∷ xs) h = All-drop n xs h.1

All-keep : {A : Type 0} (p : A → Bool) (xs : List A) → All (λ x. p x ≡ true) (keep p xs)
All-keep p [] = tt
All-keep p (x ∷ xs) = elim (Bool-cases (p x)) [
  | inl t ↦ rw (t, All) (t, All-keep p xs)
  | inr t ↦ rw (t, All) (All-keep p xs)
]

length-take-le : {A : Type 0} (n : ℕ) (xs : List A) → length (take n xs) ≤ n
length-take-le zero xs = omega arith
length-take-le (suc n) [] = omega arith
length-take-le (suc n) (x ∷ xs) = omega (arith, length-take-le n xs)

module _ (to_lower : String → String) (contains : String → String → Bool) where
  -- A page of what was found.
  pub record Searched (items : List RecoveryJob) (request : SearchRequest) (page : List RecoveryJob)
      : Type 0 where
    pub matching :
        All
          (λ s.
            matches to_lower contains (normalize_request to_lower contains request).filter s ≡ true)
          page
    pub few : length page ≤ 100
    pub slice :
        page
        ≡ take (pos_part (normalize_request to_lower contains request).limit) (
            drop
              (pos_part (normalize_request to_lower contains request).offset)
              (found_jobs to_lower contains items request))
    pub same_list :
        (offset limit : ℤ)
        → found_jobs to_lower contains items (record request { offset = offset; limit = limit })
          ≡ found_jobs to_lower contains items request
    pub complete : SameCounts (found_jobs to_lower contains items request) (
        keep (matches to_lower contains (normalize_request to_lower contains request).filter) items)
    pub sorted :
        request.sort ≡ "expires_at"
        → IsSorted
            (in_order to_lower contains (normalize_request to_lower contains request))
            (found_jobs to_lower contains items request)

  normal_limit :
      (request : SearchRequest) → pos_part (normalize_request to_lower contains request).limit ≤ 100
  unfolding normalize_request
  normal_limit request = ground arith

  expiry_asym :
      (r : SearchRequest) (a b : RecoveryJob)
      → r.sort ≡ "expires_at"
      → in_order to_lower contains r a b ≡ true
      → in_order to_lower contains r b a ≡ false
  unfolding in_order
  expiry_asym r a b e h =
      let by_expiry : (r.sort == "expires_at") ≡ true = (eq_iff r.sort "expires_at").1 e in
      ground arith

  normal_sort :
      (request : SearchRequest)
      → request.sort ≡ "expires_at"
      → (normalize_request to_lower contains request).sort ≡ "expires_at"
  unfolding normalize_request
  normal_sort request e = rw e refl

  -- SearchRecoveryJobs gives at most 100 jobs, each of which passes the filter. They are a page of a
  -- list that is the same for every offset and limit of the request: every job that passes the filter is in it as often as it
  -- was given, and where the request sorts by `expires_at` it is in the order of the times, upwards
  -- or with `Desc` downwards.
  pub search_recovery_jobs_lem :
      (items : List RecoveryJob) (request : SearchRequest)
      → Searched items request (search_recovery_jobs to_lower contains items request)
  unfolding search_recovery_jobs found_jobs in_order normalize_request
  search_recovery_jobs_lem items request =
      let r = normalize_request to_lower contains request in
      let found = keep (matches to_lower contains r.filter) items in
      record {
        matching = All-take _ (pos_part r.limit) _ (
            All-drop _ (pos_part r.offset) _
              (All-sort_by _ (in_order to_lower contains r) found (All-keep _ items)));
        few = omega (
          arith,
          normal_limit request,
          length-take-le (pos_part r.limit)
              (drop (pos_part r.offset) (sort_by (in_order to_lower contains r) found)),
        );
        slice = refl;
        same_list = λ offset limit. refl;
        complete = sort_by-counts (in_order to_lower contains r) found;
        sorted = λ e.
            sort_by-IsSorted (in_order to_lower contains r)
              (λ a b. expiry_asym r a b (normal_sort request e)) found;
      }

count_into-count :
    (counts : Dict String ℤ) (tasks : List RecoveryJob) (s : String) (n : ℕ)
    → count_of counts s ≡ pos n
    → n + length tasks < two63
    → count_of (count_into counts tasks) s ≡ pos (n + length (keep (λ t. t.status == s) tasks))
unfolding count_into
count_into-count counts [] s n h few = h ∙ ap pos (omega arith)
count_into-count counts (t ∷ tasks) s n h few = elim (Bool-cases (t.status == s)) [
  | inl e ↦
      let same : t.status ≡ s = (eq_iff t.status s).0 e in
      let now : inc64 (count_of counts t.status) ≡ pos (n + 1) =
        ap (λ x. inc64 (count_of counts x)) same ∙ ap inc64 h ∙ next n (omega arith) in
      let step : count_of (put counts t.status (inc64 (count_of counts t.status))) s ≡ pos (n + 1) =
        rw (get-put counts t.status (inc64 (count_of counts t.status)) s, e, count_of) now in
      count_into-count (put counts t.status (inc64 (count_of counts t.status))) tasks s (n + 1) step
        (omega arith)
      ∙ ap pos (ground (arith, e))
  | inr e ↦
      let step : count_of (put counts t.status (inc64 (count_of counts t.status))) s ≡ pos n =
        rw (get-put counts t.status (inc64 (count_of counts t.status)) s, e, count_of) h in
      count_into-count (put counts t.status (inc64 (count_of counts t.status))) tasks s n step
        (omega arith)
      ∙ ap pos (ground (arith, e))
]
  where
    next : (n : ℕ) → suc n < two63 → inc64 (pos n) ≡ pos (n + 1)
    next n lt = unfold inc64 in ground arith

-- StatusCounts gives for every status the number of the jobs that have it.
pub status_counts-count :
    (tasks : List RecoveryJob) (s : String)
    → length tasks < two63
    → count_of (status_counts tasks) s ≡ pos (length (keep (λ t. t.status == s) tasks))
unfolding status_counts get
status_counts-count tasks s few =
    count_into-count [] tasks s 0 refl (omega arith) ∙ ap pos (omega arith)
