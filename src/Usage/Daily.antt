-- ===== src/Usage/Daily.antt =====
-- packages/backend-data/src/dao/AiDailyUsageDAO.ts: the use of language models, counted by day. The amounts that
-- are added are natural numbers, so that rounding them up does nothing.
use mail_otter.Base.{
  ℕ, ◌+◌, String, str_eq, List, [], ◌∷◌, ◌++◌, Bool, true, ◌≡◌, refl, arith, Option-cases, inl, inr,
  str_eq_refl, find_where-holds, find-update_where, Option, none, some, find_where, update_where,
  or_else,
}

-- `AiDailyUsageInternal`
pub record UsageRow : Type 0 where
  pub usage_date : String
  pub estimated_neurons : ℕ
  pub prompt_tokens : ℕ
  pub completion_tokens : ℕ
  pub embedding_tokens : ℕ
  pub request_count : ℕ
  pub created_at : ℕ
  pub updated_at : ℕ

abbrev pub UsageTable : Type 0
UsageTable = List UsageRow

-- `IncrementAiDailyUsageInput`
pub record Increment : Type 0 where
  pub usage_date : String
  pub estimated_neurons : ℕ
  pub prompt_tokens : Option ℕ
  pub completion_tokens : Option ℕ
  pub embedding_tokens : Option ℕ
  pub request_count : Option ℕ

abbrev pub is_of : String → UsageRow → Bool
is_of date row = str_eq row.usage_date date

abbrev pub new_row : ℕ → Increment → UsageRow
new_row now i = record {
  usage_date = i.usage_date;
  estimated_neurons = i.estimated_neurons;
  prompt_tokens = or_else i.prompt_tokens 0;
  completion_tokens = or_else i.completion_tokens 0;
  embedding_tokens = or_else i.embedding_tokens 0;
  request_count = or_else i.request_count 1;
  created_at = now;
  updated_at = now;
}

-- `ON CONFLICT(usage_date) DO UPDATE`
abbrev pub added_row : ℕ → Increment → UsageRow → UsageRow
added_row now i row = record row {
  estimated_neurons = row.estimated_neurons + i.estimated_neurons;
  prompt_tokens = row.prompt_tokens + or_else i.prompt_tokens 0;
  completion_tokens = row.completion_tokens + or_else i.completion_tokens 0;
  embedding_tokens = row.embedding_tokens + or_else i.embedding_tokens 0;
  request_count = row.request_count + or_else i.request_count 1;
  updated_at = now;
}

abbrev pub upsert : Option UsageRow → ℕ → Increment → UsageTable → UsageTable
upsert none now i t = t ++ new_row now i ∷ []
upsert (some _) now i t = update_where (is_of i.usage_date) (added_row now i) t

-- `incrementUsage`
unfoldable pub increment_usage : ℕ → Increment → UsageTable → UsageTable
increment_usage now i t = upsert (find_where (is_of i.usage_date) t) now i t

abbrev pub neurons_of : Option UsageRow → ℕ
neurons_of none = 0
neurons_of (some row) = row.estimated_neurons

-- `getEstimatedNeuronsForDate`
unfoldable pub get_estimated_neurons_for_date : String → UsageTable → ℕ
get_estimated_neurons_for_date date t = neurons_of (find_where (is_of date) t)

find_where-append_new :
    (p : UsageRow → Bool) (t : UsageTable) (row : UsageRow)
    → find_where p t ≡ none
    → p row ≡ true
    → find_where p (t ++ row ∷ []) ≡ some row
unfolding find_where
find_where-append_new p [] row h here = rw here refl
find_where-append_new p (x ∷ t) row h here = ground (arith, find_where-append_new p t row)

-- What was added is what is read more.
pub get_estimated_neurons_for_date-increment_usage :
    (now : ℕ) (i : Increment) (t : UsageTable)
    → get_estimated_neurons_for_date i.usage_date (increment_usage now i t)
      ≡ get_estimated_neurons_for_date i.usage_date t + i.estimated_neurons
unfolding get_estimated_neurons_for_date increment_usage
get_estimated_neurons_for_date-increment_usage now i t =
    let p = is_of i.usage_date in
    elim (Option-cases (find_where p t)) [
      | inl new ↦
          rw (new, find_where-append_new p t (new_row now i) new (str_eq_refl i.usage_date))
            (omega arith)
      | inr (row, old) ↦
          let found = find-update_where p p (added_row now i) (λ x. refl) t in
          let mine = find_where-holds p t row old in rw (old, found, old, mine) refl
    ]
