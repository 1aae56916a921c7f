-- ===== src/Pages/WatcherPage.antt =====
-- The script of frontend/app/pages/watcher.vue.
use interchain_event.Common.{
  ℕ, ◌+◌, ◌≡◌, refl, Bool, true, false, Option, some, ◌++◌, [], ◌==◌, ==_self, Bool-cases, inl, inr,
  ap, ◌∙◌, if◌then◌else◌,
}
use interchain_event.Js.Text.{Text, text}
use interchain_event.Watcher.Fetch.{is_empty}
use interchain_event.Watcher.Types.{
  Condition, exists, json_path_equals, equals, greater_than, less_than, other_condition,
  WatcherState,
}
use interchain_event.Watcher.Machine.{Outcome, ok, threw}

-- What `$fetch` throws: the `message` of the reply's data, if it has one, and its own.
pub record FetchError : Type 0 where
  pub data_message : Text
  pub message : Text

pub data Posted : Type 0 where
  replied : Text → Posted
  failed_post : FetchError → Posted

-- The page's refs; the records by subscription id are functions.
pub record WatcherPage : Type 0 where
  pub status : Option WatcherState
  pub submitting : ℕ → Bool
  pub results : ℕ → Text
  pub errors : ℕ → Text

abbrev pub put : {A : Type 0} → ℕ → A → (ℕ → A) → ℕ → A
put id a f n = if n == id then a else f n

-- An error is printed and the status stays.
unfoldable pub fetch_status : Outcome WatcherState → WatcherPage → WatcherPage
fetch_status (ok status) p = record p { status = some status }
fetch_status (threw e) p = p

-- `e.data?.message || e.message || 'Failed'`
unfoldable pub error_text : FetchError → Text
error_text e =
    if is_empty e.data_message
    then (if is_empty e.message then text "Failed" else e.message)
    else e.data_message

unfoldable pub show_posted : ℕ → Posted → Outcome WatcherState → WatcherPage → WatcherPage
unfolding fetch_status error_text
show_posted id (replied hash) answer p =
    fetch_status answer (record p { results = put id hash p.results })
show_posted id (failed_post e) answer p = record p { errors = put id (error_text e) p.errors }

-- What the POST and the refresh answer; `finally` takes back `submitting`.
unfoldable pub page_submit_proof : ℕ → Posted → Outcome WatcherState → WatcherPage → WatcherPage
unfolding show_posted
page_submit_proof id posted answer p =
    let started = record p {
      submitting = put id true p.submitting;
      results = put id [] p.results;
      errors = put id [] p.errors;
    } in
    let shown = show_posted id posted answer started in
    record shown { submitting = put id false shown.submitting }

unfoldable pub format_condition : (Condition → Text) → Condition → Text
format_condition stringify exists = text "Exists"
format_condition stringify (json_path_equals path expected) =
    path ++ (text " = \"" ++ (expected ++ text "\""))
format_condition stringify (equals expected) = text "Equals"
format_condition stringify (greater_than threshold) = text "GreaterThan"
format_condition stringify (less_than threshold) = text "LessThan"
format_condition stringify other_condition = stringify other_condition

-- `toLocaleTimeString` is a parameter.
unfoldable pub format_time : (ℕ → Text) → ℕ → Text
format_time to_locale_time ts = to_locale_time ts

-- The mounted page: its refs, whether the interval is set, and the status requests that were made.
pub record Mounted : Type 0 where
  pub page : WatcherPage
  pub interval : Bool
  pub requests : ℕ

-- A call of `fetchStatus` with what it answers.
unfoldable pub refresh_status : Outcome WatcherState → Mounted → Mounted
refresh_status answer m = record m { page = fetch_status answer m.page; requests = m.requests + 1 }

unfoldable pub on_mounted : Outcome WatcherState → Mounted → Mounted
unfolding refresh_status
on_mounted answer m = record (refresh_status answer m) { interval = true }

-- Five seconds are over.
unfoldable pub on_interval : Outcome WatcherState → Mounted → Mounted
unfolding refresh_status
on_interval answer m = if m.interval then refresh_status answer m else m

unfoldable pub on_unmounted : Mounted → Mounted
on_unmounted m = record m { interval = false }

-- What is shown for the subscription: the transaction's hash and no error, or an error and no hash.
abbrev pub Shows : ℕ → Posted → WatcherPage → Type 0
Shows id (replied hash) p = (p.results id ≡ hash) × (p.errors id ≡ [])
Shows id (failed_post e) p = (p.results id ≡ []) × (is_empty (p.errors id) ≡ false)

put_here : {A : Type 0} (id : ℕ) (a : A) (f : ℕ → A) → put id a f id ≡ a
put_here id a f = rw (==_self id) refl

error_text_shown : (e : FetchError) → is_empty (error_text e) ≡ false
unfolding error_text text
error_text_shown e = elim (Bool-cases (is_empty e.data_message)) [
  | inr some_data ↦ simp (error_text, some_data)
  | inl no_data ↦ elim (Bool-cases (is_empty e.message)) [
    | inr some_message ↦ simp (error_text, no_data, some_message)
    | inl no_message ↦ simp (error_text, no_data, no_message)
  ]
]

pub page_submit_proof-Shows :
    (id : ℕ) (posted : Posted) (answer : Outcome WatcherState) (p : WatcherPage)
    → ((page_submit_proof id posted answer p).submitting id ≡ false)
      × Shows id posted (page_submit_proof id posted answer p)
unfolding page_submit_proof show_posted fetch_status
page_submit_proof-Shows id (replied hash) (ok status) p = (
  put_here id false (put id true p.submitting),
  (put_here id hash (put id [] p.results), put_here id [] p.errors),
)
page_submit_proof-Shows id (replied hash) (threw e) p = (
  put_here id false (put id true p.submitting),
  (put_here id hash (put id [] p.results), put_here id [] p.errors),
)
page_submit_proof-Shows id (failed_post e) answer p = (
  put_here id false (put id true p.submitting),
  (
    put_here id [] p.results,
    ap is_empty (put_here id (error_text e) (put id [] p.errors)) ∙ error_text_shown e,
  ),
)
