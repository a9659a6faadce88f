-- ===== src/RunQueue/History.antt =====
-- control-plane/internal/runqueue/history.go. Go's `int` is taken to have 64 bits.
use mathlib.Core.List.{reverse}
use proof_layer.Base.{
  ℕ, suc, ◌+◌, ◌-◌, ◌*◌, ◌/◌, ◌%◌, Bool, false, not, ◌&&◌, ◌||◌, String, Option, none, some, List,
  [], ◌∷◌, ◌==◌, String_eq, Time, before, after, Outcome, ok, err, or_panic, ◌>>=◌, length, take,
  drop, leb, ltb, if◌then◌else◌,
}
use proof_layer.Base.Assoc.{Assoc, lookup}
use proof_layer.Base.Int.{ℤ, pos, negsuc, sub_ℕ, ltb_ℤ, signed, two_64, Int_eq, pos_part}
use proof_layer.RunQueue.Model.{
  QueueError, invalid_history_query, JobStatus, JobStatus_eq, LifecycleRecord,
}
use proof_layer.RunQueue.Platform.{Platform}
use proof_layer.RunQueue.Queue.{Queue, prune_expired}
use proof_layer.RunQueue.Methods.{lower}

pub record HistoryQuery : Type 0 where
  pub host_id : String
  pub scenario_id : String
  pub from : Option Time
  pub to : Option Time
  pub page : ℤ
  pub page_size : ℤ

pub record HistoryItem : Type 0 where
  pub job_id : String
  pub correlation_id : String
  pub host_id : String
  pub scenario_id : String
  pub scenario_version : String
  pub status : JobStatus
  pub outcome : String
  pub requested_at : Time
  pub updated_at : Time
  pub terminal : Bool

pub record HistoryPage : Type 0 where
  pub schema_version : String
  pub items : List HistoryItem
  pub page : ℤ
  pub page_size : ℤ
  pub total_items : ℕ
  pub total_pages : ℕ

-- `historyItem`
unfoldable pub history_item : LifecycleRecord → HistoryItem
history_item r = record {
  job_id = r.job.job_id;
  correlation_id = r.job.correlation_id;
  host_id = r.job.host_id;
  scenario_id = r.job.scenario_id;
  scenario_version = r.job.scenario_version;
  status = r.status;
  outcome =
      if r.terminal
      then (if r.status == JobStatus.completed then "passed" else "failed")
      else "in_progress";
  requested_at = r.job.requested_at;
  updated_at = r.updated_at;
  terminal = r.terminal;
}

-- The query in lower case, with the defaults for the page.
unfoldable pub normal_query : Platform → HistoryQuery → HistoryQuery
normal_query p query = record query {
  host_id = lower p query.host_id;
  scenario_id = lower p query.scenario_id;
  page = if query.page == pos 0 then pos 1 else query.page;
  page_size = if query.page_size == pos 0 then pos 20 else query.page_size;
}

abbrev reversed_range : Option Time → Option Time → Bool
reversed_range (some from) (some to) = after from to
reversed_range _ _ = false

unfoldable pub valid_query : HistoryQuery → Bool
valid_query query = not (
    ltb_ℤ query.page (pos 1)
    || ltb_ℤ query.page_size (pos 1)
    || ltb_ℤ (pos 50) query.page_size
    || reversed_range query.from query.to)

abbrev is_before_start : Option Time → Time → Bool
is_before_start none t = false
is_before_start (some from) t = before t from

abbrev is_after_end : Option Time → Time → Bool
is_after_end none t = false
is_after_end (some to) t = after t to

-- The record answers the query.
unfoldable pub answers : HistoryQuery → LifecycleRecord → Bool
answers query r = not (
    (not (query.host_id == "") && not (r.job.host_id == query.host_id))
    || (not (query.scenario_id == "") && not (r.job.scenario_id == query.scenario_id))
    || is_before_start query.from r.job.requested_at
    || is_after_end query.to r.job.requested_at)

abbrev or_nil : Option (List String) → List String
or_nil none = []
or_nil (some ids) = ids

unfoldable pub candidates : HistoryQuery → Queue → List String
candidates query q =
    if not (query.host_id == "")
    then or_nil (lookup query.host_id q.history_by_host)
    else if not (query.scenario_id == "")
    then or_nil (lookup query.scenario_id q.history_by_scenario)
    else q.history_order

-- The loop over the candidates, in the order in which it is given them.
unfoldable pub collect :
    HistoryQuery → Assoc String LifecycleRecord → List String → List HistoryItem
unfolding answers history_item
collect query life [] = []
collect query life (id ∷ ids) =
    let rest = collect query life ids in
    elim (lookup id life) [
      | none ↦ rest
      | some r ↦ if answers query r then history_item r ∷ rest else rest
    ]

abbrev at_most : ℕ → ℤ → ℤ
at_most total i = if ltb_ℤ (pos total) i then pos total else i

abbrev add_size : ℤ → ℕ → ℤ
add_size (pos i) size = pos (i + size)
add_size (negsuc i) size = sub_ℕ size (suc i)

-- `items[start:end]`
abbrev slice_items : ℤ → ℤ → List HistoryItem → Option (List HistoryItem)
slice_items (pos start) (pos end) items =
    if leb start end && leb end (length items)
    then some (take (end - start) (drop start items))
    else none
slice_items _ _ items = none

-- `(query.Page - 1) * query.PageSize`, computed with 64 bits.
unfoldable pub page_start : ℕ → ℕ → ℤ
page_start page size = signed ((page - 1) * size % two_64)

-- The items from `start` on, `size` at most, with the bounds clipped as in the source.
unfoldable pub window : ℤ → ℕ → List HistoryItem → Option (List HistoryItem)
window start size items =
    let total = length items in
    let first = at_most total start in slice_items first (at_most total (add_size first size)) items

unfoldable pub page_items : ℕ → ℕ → List HistoryItem → Option (List HistoryItem)
unfolding page_start window
page_items page size items = window (page_start page size) size items

unfoldable pub total_pages : ℕ → ℕ → ℕ
total_pages total size = if ltb 0 total then (total + size - 1) / size else 0

-- `History`
unfoldable pub history :
    Platform → Queue → HistoryQuery → Time → Queue × Outcome QueueError HistoryPage
unfolding normal_query valid_query candidates collect page_items total_pages
history p q given pruned_at =
    let query = normal_query p given in
    let q₁ = prune_expired pruned_at q in
    let items = collect query q₁.lifecycle (reverse (candidates query q₁)) in
    if not (valid_query query) then (q, err invalid_history_query) else (
      q₁,
      (or_panic (page_items (pos_part query.page) (pos_part query.page_size) items) >>= λ page.
          ok (record {
            schema_version = "1.0";
            items = page;
            page = query.page;
            page_size = query.page_size;
            total_items = length items;
            total_pages = total_pages (length items) (pos_part query.page_size);
          })),
    )
