-- ===== src/RunQueue/Pages.antt =====
-- history.go, `History`: the pages of a query, and the page numbers at which it panics.
use native.Mathlib.Nat.{suc-mul, div-add-mod', mod-lt}
use mathlib.Core.List.{reverse}
use proof_layer.Base.{
  ℕ, zero, suc, ◌+◌, ◌-◌, ◌*◌, ◌/◌, ◌%◌, ◌≤◌, ◌<◌, ◌≡◌, refl, sym, ap, ◌∙◌, true, List, [], ◌∷◌,
  ◌++◌, Option, none, some, arith, Time, ok, panic, length, take, drop, length-take-le,
}
use proof_layer.Base.Int.{two_63, two_64, pos_part}
use proof_layer.RunQueue.Platform.{Platform}
use proof_layer.RunQueue.Queue.{Queue, prune_expired}
use proof_layer.RunQueue.History.{
  HistoryQuery, HistoryItem, HistoryPage, normal_query, valid_query, candidates, collect,
  page_items, total_pages, history,
}
use proof_layer.RunQueue.Paging.{page_items-window, page_items-overflow, take_all}

-- The first `n` pages, one after the other; `none` if one of them is out of range.
pub pages_upto : ℕ → ℕ → List HistoryItem → Option (List HistoryItem)
pages_upto zero size items = some []
pages_upto (suc n) size items = elim (pages_upto n size items) [
  | none ↦ none
  | some front ↦ (elim (page_items (suc n) size items) [
    | none ↦ none
    | some page ↦ some (front ++ page)
  ])
]

take_nil {ℓ} : {A : Type ℓ} (n : ℕ) → take {A = A} n [] ≡ []
take_nil zero = refl
take_nil (suc n) = refl

take-drop {ℓ} :
    {A : Type ℓ} (n m : ℕ) (xs : List A) → take n xs ++ take m (drop n xs) ≡ take (n + m) xs
take-drop zero m xs = let e : m ≡ 0 + m = omega arith in ap (λ k. take k xs) e
take-drop (suc n) m [] = take_nil m ∙ sym (take_nil (suc n + m))
take-drop (suc n) m (x ∷ xs) =
    let e : suc n + m ≡ suc (n + m) = omega arith in rw e (ap (◌∷◌ x) (take-drop n m xs))

prior_fits : (n size : ℕ) → n * size < two_63 → (n - 1) * size < two_63
prior_fits zero size h = omega arith
prior_fits (suc n) size h =
    let e : suc n - 1 ≡ n = omega arith in rw e (omega (arith, suc-mul n size))

pages_upto-take :
    (n size : ℕ) (items : List HistoryItem)
    → (n - 1) * size < two_63
    → pages_upto n size items ≡ some (take (n * size) items)
unfolding pages_upto
pages_upto-take zero size items h =
    let e : 0 ≡ 0 * size = omega arith in ap (λ k. some (take k items)) e
pages_upto-take (suc n) size items h =
    let e : suc n - 1 ≡ n = omega arith in
    let fits : n * size < two_63 = rw e at h in
    let front = pages_upto-take n size items (prior_fits n size fits) in
    let page : page_items (suc n) size items ≡ some (take size (drop (n * size) items)) =
      page_items-window (suc n) size items h
      ∙ ap (λ k. some (take size (drop (k * size) items))) e in
    rw (front, page)
      (ap some (take-drop (n * size) size items ∙ ap (λ k. take k items) (sym (suc-mul n size))))

ceil_bounds :
    (total size q r : ℕ)
    → 0 < size
    → q * size + r ≡ suc total + size - 1
    → r < size
    → (suc total ≤ q * size) × ((q - 1) * size ≤ suc total)
ceil_bounds total size zero r h e l = absurd (omega arith)
ceil_bounds total size (suc q) r h e l =
    let back : suc q - 1 ≡ q = omega arith in
    (omega (arith, suc-mul q size), rw back (omega (arith, suc-mul q size)))

total_pages_suc : (total size : ℕ) → total_pages (suc total) size ≡ (suc total + size - 1) / size
unfolding total_pages
total_pages_suc total size = ground arith

-- The number of pages is enough for the items, and the last page begins before their end.
total_pages_bounds :
    (total size : ℕ)
    → 0 < size
    → (total ≤ total_pages total size * size) × ((total_pages total size - 1) * size ≤ total)
unfolding total_pages
total_pages_bounds zero size h = (omega arith, omega arith)
total_pages_bounds (suc total) size h =
    let bounds =
      ceil_bounds total size ((suc total + size - 1) / size) _ h
        (div-add-mod' (suc total + size - 1) size) (mod-lt _ h) in
    rw (total_pages_suc total size) bounds

-- The pages from the first to the last, joined, are the items of the query, each once and in order.
pub pages-cover :
    (size : ℕ) (items : List HistoryItem)
    → 0 < size
    → length items < two_63
    → pages_upto (total_pages (length items) size) size items ≡ some items
pages-cover size items h small =
    let (enough, begins) = total_pages_bounds (length items) size h in
    pages_upto-take (total_pages (length items) size) size items (omega (arith, begins))
    ∙ ap some (take_all _ items enough)

abbrev pub page_number : Platform → HistoryQuery → ℕ
page_number p given = pos_part (normal_query p given).page

abbrev pub page_limit : Platform → HistoryQuery → ℕ
page_limit p given = pos_part (normal_query p given).page_size

-- All items that the query finds, the newest first.
abbrev pub found_items : Platform → Queue → HistoryQuery → Time → List HistoryItem
found_items p q given now =
    let query = normal_query p given in
    let q₁ = prune_expired now q in collect query q₁.lifecycle (reverse (candidates query q₁))

page_result : Platform → Queue → HistoryQuery → Time → HistoryPage
page_result p q given now = record {
  schema_version = "1.0";
  items =
      take (page_limit p given)
        (drop ((page_number p given - 1) * page_limit p given) (found_items p q given now));
  page = (normal_query p given).page;
  page_size = (normal_query p given).page_size;
  total_items = length (found_items p q given now);
  total_pages = total_pages (length (found_items p q given now)) (page_limit p given);
}

-- A valid query whose page number and size have a product below 2^63 gets the window of the items
-- that its page names, at most as many as the page size, and the counts of all items and pages.
pub history-page :
    (p : Platform) (q : Queue) (given : HistoryQuery) (now : Time)
    → valid_query (normal_query p given) ≡ true
    → (page_number p given - 1) * page_limit p given < two_63
    → (result : HistoryPage) × (history p q given now ≡ (prune_expired now q, ok result))
      × (result.items
          ≡ take
              (page_limit p given)
              (drop ((page_number p given - 1) * page_limit p given) (found_items p q given now)))
      × (length result.items ≤ page_limit p given)
      × (result.total_items ≡ length (found_items p q given now))
      × (result.total_pages ≡ total_pages (length (found_items p q given now)) (page_limit p given))
unfolding history page_result
history-page p q given now valid fits = (
  page_result p q given now,
  rw (valid, page_items-window _ _ (found_items p q given now) fits, history) refl,
  refl,
  length-take-le (page_limit p given) _,
  refl,
  refl,
)

-- A valid query whose page number and size have a product that is negative as a 64-bit integer makes
-- `History` panic, whatever the queue holds.
pub history-panic :
    (p : Platform) (q : Queue) (given : HistoryQuery) (now : Time)
    → valid_query (normal_query p given) ≡ true
    → two_63 ≤ (page_number p given - 1) * page_limit p given % two_64
    → (history p q given now).1 ≡ panic
unfolding history
history-panic p q given now valid wraps =
    rw (valid, page_items-overflow _ _ (found_items p q given now) wraps, history)
